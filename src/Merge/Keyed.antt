-- ===== src/Merge/Keyed.antt =====
-- What a merge holds.
use rainbond_operator.Base.{
  String, false, Option, none, some, List, [], ◌∷◌, ◌++◌, map, ◌==◌, string_eq, if◌then◌else◌, ◌≡◌,
  refl, inl, inr, Option-cases, arith, Bool-cases, append_assoc, append-nil, sym, ◌∙◌,
}
use text.Mathlib.TextEquality.{eq_iff}
use rainbond_operator.Merge.{contains, append_missing, merge}

module _ {A : Type 0} (key : A → String) where
  -- The items whose key is not in the set.
  abbrev pub outside : List String → List A → List A
  outside keys [] = []
  outside keys (x ∷ xs) =
      let rest = outside keys xs in if contains (key x) keys then rest else x ∷ rest

  -- The first item with a key.
  abbrev pub first : String → List A → Option A
  first k [] = none
  first k (x ∷ xs) = if k == key x then some x else first k xs

  append_missing-outside :
      (keys : List String) (xs acc : List A)
      → append_missing key keys xs acc ≡ acc ++ outside keys xs
  unfolding append_missing
  append_missing-outside keys [] acc = sym (append-nil acc)
  append_missing-outside keys (x ∷ xs) acc = elim (Bool-cases (contains (key x) keys)) [
    | inl p ↦ rw p (append_missing-outside keys xs acc)
    | inr p ↦ rw p (
        append_missing-outside keys xs (acc ++ (x ∷ []))
        ∙ append_assoc acc (x ∷ []) (outside keys xs))
  ]

  -- A merge is the prioritised items as they are, and behind them, in their order, the common ones
  -- whose key no prioritised item has.
  pub merge-append-outside :
      (common priority : List A)
      → merge key common priority ≡ priority ++ outside (map key priority) common
  unfolding merge
  merge-append-outside common priority = append_missing-outside (map key priority) common priority

  contains-first : (k : String) (xs : List A) → first k xs ≡ none → contains k (map key xs) ≡ false
  unfolding contains
  contains-first k [] h = refl
  contains-first k (x ∷ xs) h = ground (arith, contains-first k xs)

  first-outside :
      (k : String) (keys : List String) (xs : List A)
      → contains k keys ≡ false
      → first k (outside keys xs) ≡ first k xs
  first-outside k keys [] h = refl
  first-outside k keys (x ∷ xs) h = ground (arith, first-outside k keys xs, eq_iff k (key x))

  first-append :
      (k : String) (xs ys : List A)
      → first k (xs ++ ys) ≡ elim (first k xs) [ none ↦ first k ys | some x ↦ some x ]
  first-append k [] ys = refl
  first-append k (x ∷ xs) ys = ground (arith, first-append k xs ys)

  -- For each key the merge holds the first prioritised item, and if there is none, the first common
  -- one.
  pub first-merge :
      (k : String) (common priority : List A)
      → first k (merge key common priority)
        ≡ elim (first k priority) [ none ↦ first k common | some x ↦ some x ]
  first-merge k common priority = rw (merge-append-outside common priority) (
      rw (first-append k priority (outside (map key priority) common))
        (elim (Option-cases (first k priority)) [
          | inl p ↦ rw p (first-outside k (map key priority) common (contains-first k priority p))
          | inr (x, p) ↦ rw p
        ]))
