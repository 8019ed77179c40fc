-- ===== src/Merge/Labels.antt =====
-- The labels of what the operator creates.
use rainbond_operator.Base.{
  String, List, [], ◌∷◌, ◌==◌, string_eq, if◌then◌else◌, ◌≡◌, arith, Bool-cases, inl, inr,
}
use text.Mathlib.TextEquality.{eq_iff}
use rainbond_operator.Merge.{label, put_label, add_labels, labels_for_rainbond}

label-put_label :
    (k j v : String) (m : List (String × String))
    → label j (put_label k v m) ≡ (if j == k then v else label j m)
unfolding label put_label
label-put_label k j v [] = ground (arith, eq_iff k j, eq_iff j k)
label-put_label k j v ((i, u) ∷ m) =
    ground (arith, eq_iff k j, eq_iff j k, eq_iff i k, eq_iff i j, label-put_label k j v m)

-- The first value of a key that is not the empty text; the empty text if there is none.
abbrev pub first_value : String → List (String × String) → String
first_value k [] = ""
first_value k ((j, v) ∷ m) =
    let rest = first_value k m in if k == j then (if v == "" then rest else v) else rest

label-add_labels :
    (k : String) (m acc : List (String × String))
    → label k (add_labels m acc) ≡ (if label k acc == "" then first_value k m else label k acc)
unfolding add_labels
label-add_labels k [] acc = ground (arith, eq_iff (label k acc) "")
label-add_labels k ((j, v) ∷ m) acc = elim (Bool-cases (label j acc == "")) [
  | inl p ↦ rw p (
      rw (label-add_labels k m (put_label j v acc)) (
        rw (label-put_label j k v acc) (
          ground
            (arith, eq_iff k j, eq_iff v "", eq_iff (label k acc) "", eq_iff (label j acc) ""))))
  | inr p ↦ rw p (
      rw (label-add_labels k m acc)
        (ground (arith, eq_iff k j, eq_iff v "", eq_iff (label k acc) "", eq_iff (label j acc) "")))
]

str_eq_comm : (a b : String) → (a == b) ≡ (b == a)
str_eq_comm a b = ground (arith, eq_iff a b, eq_iff b a)

with_own :
    (k v : String)
    → (let own : String =
          if "creator" == k
          then "Rainbond"
          else if "belongTo" == k
          then "rainbond-operator"
          else "" in
        if own == "" then v else own)
      ≡ (if "creator" == k then "Rainbond" else if "belongTo" == k then "rainbond-operator" else v)
with_own k v = elim (Bool-cases ("creator" == k)) [
  | inl p ↦ rw p
  | inr p ↦ rw p (elim (Bool-cases ("belongTo" == k)) [ inl q ↦ rw q | inr q ↦ rw q ])
]

-- `LabelsForRainbond` keeps `creator` and `belongTo` whatever labels are given, and gives every
-- other key its first value that is not empty among the given ones.
pub label-labels_for_rainbond :
    (k : String) (labels : List (String × String))
    → label k (labels_for_rainbond labels) ≡ (
        if k == "creator"
        then "Rainbond"
        else if k == "belongTo"
        then "rainbond-operator"
        else first_value k labels)
unfolding labels_for_rainbond label
label-labels_for_rainbond k labels =
    rw
      (label-add_labels k labels (("creator", "Rainbond") ∷ ("belongTo", "rainbond-operator") ∷ []))
      (rw (str_eq_comm k "creator", str_eq_comm k "belongTo") (with_own k (first_value k labels)))
