-- ===== src/Effects/World.antt =====
-- What the program calls and does not implement: the API server behind the two clients, the clock,
-- the order in which `range` visits a map, `sort.Slice`, RFC 3339 times, YAML and the tables of
-- Unicode.
use dynamic_device_scaler.Base.{ℕ, ℤ, ◌≡◌, In, Text, Bool, Option, List, [], ◌∷◌}
use dynamic_device_scaler.Types.{Time, DeviceInfo, ResourceClaimInfo}
use dynamic_device_scaler.Kube.{
  ResourceClaim, ResourceSlice, Node, ComposabilityRequest, ComposableResource, ConfigMap, Write,
}
use dynamic_device_scaler.Effects.Monad.{Reply, done, refused, api, ok, err, Outcome, Action}

pub record Environment : Type 1 where
  -- The cluster with everything that acts on it. Each call may find it changed.
  pub State : Type 0
  pub list_claims : State → Reply (List ResourceClaim) × State
  pub list_slices : State → Reply (List ResourceSlice) × State
  pub list_nodes : State → Reply (List Node) × State
  pub list_requests : State → Reply (List ComposabilityRequest) × State
  pub list_resources : State → Reply (List ComposableResource) × State
  pub get_config_map : (namespace name : Text) → State → Reply ConfigMap × State
  pub get_claim : (name namespace : Text) → State → Reply ResourceClaim × State
  pub get_request : (name : Text) → State → Reply ComposabilityRequest × State
  pub get_resource : (name : Text) → State → Reply ComposableResource × State
  pub submit : Write → State → Reply (Unit {0}) × State
  -- `time.Now()`
  pub now : State → Time × State
  -- The keys of a map in the order in which one `range` visits them.
  pub range_keys : List Text → State → List Text × State
  -- `sort.Slice`, which is not stable.
  pub sort_slice :
      (ResourceClaimInfo → ResourceClaimInfo → Bool)
      → List ResourceClaimInfo
      → List ResourceClaimInfo
  -- `time.Parse(time.RFC3339, …)` and `Time.Format(time.RFC3339)`
  pub parse_rfc3339 : Text → Option Time
  pub format_rfc3339 : Time → Text
  -- `yaml.Unmarshal` into the two fields of the ConfigMap's data, or nothing on an error.
  pub decode_device_infos : Text → Option (List DeviceInfo)
  pub decode_ids : Text → Option (List ℤ)
  -- The tables of package unicode above U+00FF.
  pub is_other_letter : ℕ → Bool
  pub is_other_digit : ℕ → Bool

module _ (env : Environment) where
  abbrev pub Program : Type 0 → Type 0
  Program A = Action env.State A

module _ {S A : Type 0} where
  abbrev pub outcome_of : Reply A → S → List Write → Outcome S A
  outcome_of (done a) s w = record { result = ok a; state = s; writes = w }
  outcome_of (refused e) s w = record { result = err (api e); state = s; writes = w }

  -- A call that reads. Its error is the server's.
  abbrev pub request : (S → Reply A × S) → Action S A
  request call s = let (reply, s') = call s in outcome_of reply s' []

  abbrev pub observe : (S → A × S) → Action S A
  observe call s = let (a, s') = call s in record { result = ok a; state = s'; writes = [] }

module _ (env : Environment) where
  -- A call that writes: the answer is returned, since the callers look at it.
  abbrev pub send : Write → Program env (Reply (Unit {0}))
  send w s =
      let (reply, s') = env.submit w s in record { result = ok reply; state = s'; writes = w ∷ [] }

abbrev pub OnDone : {A : Type 0} → (A → Type 0) → Reply A → Type 0
OnDone Q (done a) = Q a
OnDone Q (refused e) = Unit

-- The API server's promise about Get: the object has the name that was asked for.
pub record NamesAgree (env : Environment) : Type 0 where
  pub request_named :
      (name : Text) (s : env.State) → OnDone (λ r. r.name ≡ name) (env.get_request name s).0
  pub claim_named :
      (name namespace : Text) (s : env.State)
      → OnDone (λ c. (c.name ≡ name) × (c.namespace ≡ namespace)) (env.get_claim name namespace s).0

-- Go's promise about `range` over a map: it visits the keys, and all of them.
pub record RangesOver (env : Environment) : Type 0 where
  pub every_key :
      (keys : List Text) (s : env.State) (key : Text)
      → In key keys
      → In key (env.range_keys keys s).0
  pub only_keys :
      (keys : List Text) (s : env.State) (key : Text)
      → In key (env.range_keys keys s).0
      → In key keys
