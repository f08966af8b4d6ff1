-- ===== src/Patch/Labels.antt =====
-- The body of a patch of node labels.
use dynamic_device_scaler.Base.{
  Text, Option, none, some, List, [], ◌∷◌, ◌≡◌, refl, contains, lookup, insert, lookup-insert,
  text_eq, bytes, if◌then◌else◌, arith,
}
use dynamic_device_scaler.Patch.{additions, deletions, labels_patch}

lookup-additions :
    (ls : List Text) (m : List (Text × Option Text)) (l : Text)
    → lookup l (additions ls m) ≡ (if contains ls l then some (some (bytes "true")) else lookup l m)
unfolding additions
lookup-additions [] m l = refl
lookup-additions (k ∷ ls) m l = ground (
  arith,
  lookup-additions ls (insert k (some (bytes "true")) m) l,
  lookup-insert k l (some (bytes "true")) m,
)

lookup-deletions :
    (ls : List Text) (m : List (Text × Option Text)) (l : Text)
    → lookup l (deletions ls m) ≡ (if contains ls l then some none else lookup l m)
unfolding deletions
lookup-deletions [] m l = refl
lookup-deletions (k ∷ ls) m l =
    ground (arith, lookup-deletions ls (insert k none m) l, lookup-insert k l none m)

-- A label that is to be deleted is set to null, also if it is to be added too; another label that
-- is to be added is set to "true"; the patch says nothing of any other label.
pub lookup-labels_patch :
    (add_labels delete_labels : List Text) (label : Text)
    → lookup label (labels_patch add_labels delete_labels) ≡ (
        if contains delete_labels label
        then some none
        else if contains add_labels label
        then some (some (bytes "true"))
        else none)
unfolding labels_patch
lookup-labels_patch add_labels delete_labels label = rw (
  lookup-deletions delete_labels (additions add_labels []) label,
  lookup-additions add_labels [] label,
)
