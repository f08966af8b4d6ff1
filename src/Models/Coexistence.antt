-- ===== src/Models/Coexistence.antt =====
-- What isDeviceCoexistence decides.
use dynamic_device_scaler.Base.{
  ℤ, Text, true, false, Option, none, some, List, [], ◌∷◌, ◌≡◌, refl, ◌≢◌, ◌↔◌, inl, inr, In, any,
  any_of_In, In-of_any, find_first, find_last, Bool-cases, ◌==◌, ==_iff, ==_refl, text_eq, int_eq,
  if◌then◌else◌, arith,
}
use dynamic_device_scaler.Types.{DeviceInfo, ComposableDraSpec}
use dynamic_device_scaler.Models.{index_to_model, names_model, excludes, is_device_coexistence}

-- The first device info of model 1 lists an index whose last device info is of model 2.
pub record Excludes (model1 model2 : Text) (infos : List DeviceInfo) : Type 0 where
  pub info : DeviceInfo
  pub first : find_first (λ d. d.cdi_model_name == model1) infos ≡ some info
  pub index : ℤ
  pub listed : In index info.cannot_coexist_with
  pub other : DeviceInfo
  pub last : find_last (λ d. d.index == index) infos ≡ some other
  pub named : other.cdi_model_name ≡ model2

abbrev model_or : Option DeviceInfo → Option Text → Option Text
model_or (some d) old = some d.cdi_model_name
model_or none old = old

-- The map holds the model of the last device info with the index.
index_to_model_lem :
    (infos : List DeviceInfo) (table : ℤ → Option Text) (i : ℤ)
    → index_to_model infos table i ≡ model_or (find_last (λ d. d.index == i) infos) (table i)
unfolding index_to_model
index_to_model_lem [] table i = refl
index_to_model_lem (d ∷ ds) table i =
    ground (
      arith,
      index_to_model_lem ds (λ j. if d.index == j then some d.cdi_model_name else table j) i,
    )

excludes_first :
    (model1 model2 : Text) (table : ℤ → Option Text) (infos : List DeviceInfo)
    → excludes model1 model2 table infos ≡ true
    → (d : DeviceInfo) × (find_first (λ e. e.cdi_model_name == model1) infos ≡ some d)
      × (any (λ i. names_model model2 (table i)) d.cannot_coexist_with ≡ true)
unfolding excludes
excludes_first model1 model2 table [] h = cc
excludes_first model1 model2 table (d ∷ ds) h = elim (Bool-cases (d.cdi_model_name == model1)) [
  | inl e ↦ (d, rw e, rw e at h)
  | inr e ↦ let (d', f, g) = excludes_first model1 model2 table ds (rw e at h) in (d', rw e f, g)
]

excludes_of_first :
    (model1 model2 : Text) (table : ℤ → Option Text) (infos : List DeviceInfo) (d : DeviceInfo)
    → find_first (λ e. e.cdi_model_name == model1) infos ≡ some d
    → excludes model1 model2 table infos
      ≡ any (λ i. names_model model2 (table i)) d.cannot_coexist_with
unfolding excludes
excludes_of_first model1 model2 table [] d f = cc
excludes_of_first model1 model2 table (e ∷ es) d f =
    ground (arith, excludes_of_first model1 model2 table es d)

names_model_lem :
    (model2 : Text) (o : Option DeviceInfo)
    → names_model model2 (model_or o none) ≡ true
    → (d : DeviceInfo) × (o ≡ some d) × (d.cdi_model_name ≡ model2)
names_model_lem model2 none h = cc
names_model_lem model2 (some d) h = (d, refl, (==_iff d.cdi_model_name model2).0 h)

abbrev table_of : List DeviceInfo → ℤ → Option Text
table_of infos = index_to_model infos (λ _. none)

excludes→Excludes :
    (model1 model2 : Text) (infos : List DeviceInfo)
    → excludes model1 model2 (table_of infos) infos ≡ true
    → Excludes model1 model2 infos
excludes→Excludes model1 model2 infos h =
    let (d, f, a) = excludes_first model1 model2 (table_of infos) infos h in
    let (i, m, n) =
      In-of_any (λ i. names_model model2 (table_of infos i)) d.cannot_coexist_with a in
    let (e, l, g) =
      names_model_lem model2 (find_last (λ d. d.index == i) infos)
        (rw (index_to_model_lem infos (λ _. none) i) at n) in
    record { info = d; first = f; index = i; listed = m; other = e; last = l; named = g }

Excludes→excludes :
    (model1 model2 : Text) (infos : List DeviceInfo)
    → Excludes model1 model2 infos
    → excludes model1 model2 (table_of infos) infos ≡ true
Excludes→excludes model1 model2 infos x =
    rw (excludes_of_first model1 model2 (table_of infos) infos x.info x.first) (
      any_of_In (λ i. names_model model2 (table_of infos i)) x.index x.info.cannot_coexist_with
        x.listed
        (rw (index_to_model_lem infos (λ _. none) x.index, x.last, x.named) (==_refl model2)))

-- Two models cannot coexist exactly when they differ and the first device info of the one lists an
-- index whose last device info is of the other.
pub is_device_coexistence-false_iff :
    (model1 model2 : Text) (spec : ComposableDraSpec)
    → (is_device_coexistence model1 model2 spec ≡ false)
      ↔ ((model1 ≢ model2) × Excludes model1 model2 spec.device_infos)
unfolding is_device_coexistence
is_device_coexistence-false_iff model1 model2 spec = (
  λ h. (
    λ e. (ground (arith, ==_iff model1 model2)),
    excludes→Excludes model1 model2 _ (ground arith),
  ),
  λ (n, x). ground (arith, ==_iff model1 model2, Excludes→excludes model1 model2 _ x),
)
