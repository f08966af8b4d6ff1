-- ===== src/Controller/Creation.antt =====
-- The requests that the controller creates: how many stand for a model on a node, and how that
-- number moves along a sequence of calls.
pub mod Devices
pub mod Invariant
use dynamic_device_scaler.Base.{
  ℕ, ◌+◌, ◌≤◌, ℤ, ◌≡◌, refl, sym, subst, Text, ◌&&◌, ◌==◌, text_eq, List, [], ◌∷◌, ◌++◌, All,
  count_if, if◌then◌else◌, arith,
}
use dynamic_device_scaler.Kube.{
  DeviceStatus, ComposabilityRequest, Write, create_request, patch_size, patch_annotation,
  patch_claim_devices, patch_node_labels,
}
use dynamic_device_scaler.Effects.{
  done, Environment, Program, Ensures, Always, Keeps, Runs, Any, Moves, Trace, here, reads, writes,
}
use dynamic_device_scaler.Controller.{is_request_for}

-- How many requests stand for the model on the node.
abbrev pub requests_for : Text → Text → List ComposabilityRequest → ℕ
requests_for model node_name = count_if (is_request_for model node_name)

abbrev pub creations : Text → Text → Write → ℕ
creations model node_name (create_request generate_name details) =
    if details.model == model && details.target_node == node_name then 1 else 0
creations model node_name (patch_size request size) = 0
creations model node_name (patch_annotation resource key value) = 0
creations model node_name (patch_claim_devices name namespace devices) = 0
creations model node_name (patch_node_labels node labels) = 0

-- How many of the writes ask for a new request for the model on the node.
abbrev pub created : Text → Text → List Write → ℕ
created model node_name [] = 0
created model node_name (w ∷ ws) = creations model node_name w + created model node_name ws

pub created-append :
    (model node_name : Text) (v w : List Write)
    → created model node_name (v ++ w) ≡ created model node_name v + created model node_name w
created-append model node_name [] w = omega arith
created-append model node_name (x ∷ v) w = omega (arith, created-append model node_name v w)

abbrev pub CreatesNothing : Write → Type 0
CreatesNothing w = (model node_name : Text) → creations model node_name w ≡ 0

pub created_none :
    (model node_name : Text) (ws : List Write)
    → All CreatesNothing ws
    → created model node_name ws ≡ 0
created_none model node_name [] h = refl
created_none model node_name (w ∷ ws) h =
    omega (arith, h.0 model node_name, created_none model node_name ws h.1)

-- Where nobody but the controller creates requests. Other actors may delete them and change their
-- sizes, and the server may refuse a write. A list shows the requests that there are.
pub record OnlyCreator (env : Environment) : Type 0 where
  pub stored : env.State → List ComposabilityRequest
  pub moved :
      (s t : env.State)
      → Moves env s t
      → (model node_name : Text)
      → requests_for model node_name (stored t) ≤ requests_for model node_name (stored s)
  pub listed :
      (s : env.State) (requests : List ComposabilityRequest)
      → (env.list_requests s).0 ≡ done requests
      → (model node_name : Text)
      → requests_for model node_name (stored (env.list_requests s).1)
        ≤ requests_for model node_name requests
  pub submitted :
      (w : Write) (s : env.State) (model node_name : Text)
      → requests_for model node_name (stored (env.submit w s).1)
        ≤ requests_for model node_name (stored s) + creations model node_name w

-- At most one request for a model on a node.
abbrev pub AtMostOne : List ComposabilityRequest → Type 0
AtMostOne requests = (model node_name : Text) → requests_for model node_name requests ≤ 1

module _ (env : Environment) (only : OnlyCreator env) where
  abbrev pub HasAtMostOne : env.State → Type 0
  HasAtMostOne s = AtMostOne (only.stored s)

  pub stored-Trace :
      (model node_name : Text) {s t : env.State} {ws : List Write}
      → Trace env s ws t
      → requests_for model node_name (only.stored t)
        ≤ requests_for model node_name (only.stored s) + created model node_name ws
  stored-Trace model node_name here = omega arith
  stored-Trace model node_name (reads {s} {t} m r) =
      omega (arith, only.moved s t m model node_name, stored-Trace model node_name r)
  stored-Trace model node_name (writes {s} {t} w e r) =
      let step =
        subst
          (λ t.
            requests_for model node_name (only.stored t)
            ≤ requests_for model node_name (only.stored s) + creations model node_name w)
          e (only.submitted w s model node_name) in
      omega (arith, step, stored-Trace model node_name r)

  -- A program that creates no request.
  pub Keeps-of :
      {A : Type 0} {Q : A → Type 0} (m : Program env A)
      → Runs env Q m
      → Ensures CreatesNothing Always m
      → Keeps HasAtMostOne m
  Keeps-of m r e = record {
    at = λ s one model node_name. omega (
      arith,
      one model node_name,
      stored-Trace model node_name (r.traced s),
      created_none model node_name (m s).writes (e.sends s),
    );
  }
