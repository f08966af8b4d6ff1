-- ===== src/Models/Limits.antt =====
-- GetModelLimit reads the first entry of the model.
use dynamic_device_scaler.Base.{
  ℤ, ◌≡◌, refl, Text, Option, none, some, List, [], ◌∷◌, ◌==◌, text_eq, find_first, Bool-cases, inl,
  inr, if◌then◌else◌,
}
use dynamic_device_scaler.Types.{ModelConstraints, NodeInfo}
use dynamic_device_scaler.Models.{default_max_device, default_min_device, limit_in, get_model_limit}

abbrev pub limits_of : Option ModelConstraints → ℤ × ℤ
limits_of none = (default_max_device, default_min_device)
limits_of (some c) = (if c.max_device_set then c.max_device else default_max_device, c.min_device)

limit_in-eq :
    (model : Text) (cs : List ModelConstraints)
    → limit_in model cs ≡ limits_of (find_first (λ c. c.model == model) cs)
unfolding limit_in
limit_in-eq model [] = refl
limit_in-eq model (c ∷ cs) = elim (Bool-cases (c.model == model)) [
  | inl e ↦ rw e
  | inr e ↦ rw e (limit_in-eq model cs)
]

pub get_model_limit-eq :
    (node : NodeInfo) (model : Text)
    → get_model_limit node model ≡ limits_of (find_first (λ c. c.model == model) node.models)
unfolding get_model_limit
get_model_limit-eq node model = limit_in-eq model node.models
