-- ===== src/Tests/Cluster.antt =====
-- A cluster that answers from lists and stays as it is. It refuses as many writes as it has
-- refusals left, and its clock stands still.
use dynamic_device_scaler.Base.{
  false, pos, Text, Bool, Option, none, some, List, [], ◌∷◌, ◌≡◌, ◌==◌, ==_iff, text_eq, bytes,
  find_first, Bool-cases, ◌&&◌, if◌then◌else◌, inl, inr, arith,
}
use dynamic_device_scaler.Types.{Time, ResourceClaimInfo}
use dynamic_device_scaler.Kube.{
  ResourceClaim, ResourceSlice, Node, ComposabilityRequest, ComposableResource,
}
use dynamic_device_scaler.Effects.{
  ApiError, other, Reply, done, refused, Environment, NamesAgree, RangesOver, OnDone,
}

pub record Cluster : Type 0 where
  pub claims : List ResourceClaim
  pub slices : List ResourceSlice
  pub nodes : List Node
  pub requests : List ComposabilityRequest
  pub resources : List ComposableResource
  pub refusals : List ApiError

abbrev found : {A : Type 0} → Option A → Reply A
found none = refused (other "not found")
found (some a) = done a

abbrev pub answer_of : List ApiError → Cluster → Reply (Unit {0}) × Cluster
answer_of [] c = (done tt, c)
answer_of (e ∷ es) c = (refused e, record c { refusals = es })

-- The first byte of a text as a number of nanoseconds.
abbrev parse : Text → Option Time
parse [] = none
parse (b ∷ bs) = some (pos b)

abbrev place :
    (ResourceClaimInfo → ResourceClaimInfo → Bool)
    → ResourceClaimInfo
    → List ResourceClaimInfo
    → List ResourceClaimInfo
place less x [] = x ∷ []
place less x (y ∷ ys) = if less x y then x ∷ y ∷ ys else y ∷ place less x ys

abbrev insertion_sort :
    (ResourceClaimInfo → ResourceClaimInfo → Bool) → List ResourceClaimInfo → List ResourceClaimInfo
insertion_sort less [] = []
insertion_sort less (x ∷ xs) = place less x (insertion_sort less xs)

abbrev pub at_noon : Environment
at_noon = record {
  State = Cluster;
  list_claims = λ c. (done c.claims, c);
  list_slices = λ c. (done c.slices, c);
  list_nodes = λ c. (done c.nodes, c);
  list_requests = λ c. (done c.requests, c);
  list_resources = λ c. (done c.resources, c);
  get_config_map = λ namespace name c. (refused (other "not found"), c);
  get_claim = λ name namespace c.
      (found (find_first (λ x. x.name == name && x.namespace == namespace) c.claims), c);
  get_request = λ name c. (found (find_first (λ x. x.name == name) c.requests), c);
  get_resource = λ name c. (found (find_first (λ x. x.name == name) c.resources), c);
  submit = λ w c. answer_of c.refusals c;
  now = λ c. (pos 200, c);
  range_keys = λ keys c. (keys, c);
  sort_slice = insertion_sort;
  parse_rfc3339 = parse;
  format_rfc3339 = λ t. bytes "n";
  decode_device_infos = λ text. some [];
  decode_ids = λ text. some [];
  is_other_letter = λ c. false;
  is_other_digit = λ c. false;
}

request_named :
    (name : Text) (rs : List ComposabilityRequest)
    → OnDone (λ r. r.name ≡ name) (found (find_first (λ x. x.name == name) rs))
request_named name [] = tt
request_named name (r ∷ rs) = elim (Bool-cases (r.name == name)) [
  | inl e ↦ rw e ((==_iff r.name name).0 e)
  | inr e ↦ rw e (request_named name rs)
]

claim_named :
    (name namespace : Text) (cs : List ResourceClaim)
    → OnDone
        (λ c. (c.name ≡ name) × (c.namespace ≡ namespace))
        (found (find_first (λ x. x.name == name && x.namespace == namespace) cs))
claim_named name namespace [] = tt
claim_named name namespace (c ∷ cs) =
    elim (Bool-cases (c.name == name && c.namespace == namespace)) [
      | inl e ↦ rw e (ground (arith, ==_iff c.name name, ==_iff c.namespace namespace))
      | inr e ↦ rw e (claim_named name namespace cs)
    ]

pub at_noon-NamesAgree : NamesAgree at_noon
at_noon-NamesAgree = record {
  request_named = λ name c. request_named name c.requests;
  claim_named = λ name namespace c. claim_named name namespace c.claims;
}

-- The same cluster, whose claims are always these.
abbrev pub with_claims : List ResourceClaim → Environment
with_claims claims = record at_noon { list_claims = λ c. (done claims, c) }

pub at_noon-RangesOver : RangesOver at_noon
at_noon-RangesOver = record { every_key = λ keys c key m. m; only_keys = λ keys c key m. m }
