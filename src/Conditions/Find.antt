-- ===== src/Conditions/Find.antt =====
-- Looking a condition up, as a plain recursion, and how the indexed code meets it.
use rainbond_operator.Base.{
  ℕ, suc, ◌+◌, Option, none, some, List, [], ◌∷◌, ◌++◌, Eq, ◌==◌, if◌then◌else◌, set, ◌≡◌, refl,
  arith,
}
use rainbond_operator.Conditions.{Condition, get_condition_from, get_condition, remove_at}

module _ {T X : Type 0} ⦃e : Eq T⦄ where
  -- The first condition of a type.
  abbrev pub find : T → List (Condition T X) → Option (Condition T X)
  find t [] = none
  find t (c ∷ cs) = if t == c.typ3 then some c else find t cs

  -- The list with its first condition of the type replaced.
  abbrev pub replace : T → Condition T X → List (Condition T X) → List (Condition T X)
  replace t v [] = []
  replace t v (c ∷ cs) = if t == c.typ3 then v ∷ cs else c ∷ replace t v cs

  -- The list without its first condition of the type.
  abbrev pub erase : T → List (Condition T X) → List (Condition T X)
  erase t [] = []
  erase t (c ∷ cs) = if t == c.typ3 then cs else c ∷ erase t cs

  get_condition_from-none :
      (i : ℕ) (t : T) (cs : List (Condition T X))
      → find t cs ≡ none
      → get_condition_from i t cs ≡ none
  unfolding get_condition_from
  get_condition_from-none i t [] h = refl
  get_condition_from-none i t (c ∷ cs) h = ground (arith, get_condition_from-none (i + 1) t cs)

  -- The position of the first condition of a type, from 0.
  abbrev position : T → List (Condition T X) → ℕ
  position t [] = 0
  position t (c ∷ cs) = if t == c.typ3 then 0 else suc (position t cs)

  get_condition_from-some :
      (i : ℕ) (t : T) (cs : List (Condition T X)) (v : Condition T X)
      → find t cs ≡ some v
      → get_condition_from i t cs ≡ some (i + position t cs, v)
  unfolding get_condition_from
  get_condition_from-some i t [] v h = ground arith
  get_condition_from-some i t (c ∷ cs) v h = ground (arith, get_condition_from-some (i + 1) t cs v)

  pub get_condition-none :
      (t : T) (cs : List (Condition T X)) → find t cs ≡ none → get_condition t cs ≡ none
  unfolding get_condition
  get_condition-none t cs h = get_condition_from-none 0 t cs h

  pub get_condition-some :
      (t : T) (cs : List (Condition T X)) (v : Condition T X)
      → find t cs ≡ some v
      → get_condition t cs ≡ some (position t cs, v)
  unfolding get_condition
  get_condition-some t cs v h = ground (arith, get_condition_from-some 0 t cs v)

  pub set-position :
      (t : T) (cs : List (Condition T X)) (v : Condition T X)
      → set cs (position t cs) v ≡ replace t v cs
  set-position t [] v = refl
  set-position t (c ∷ cs) v = ground (arith, set-position t cs v)

  pub remove_at-position :
      (t : T) (cs : List (Condition T X)) (v : Condition T X)
      → find t cs ≡ some v
      → remove_at cs (position t cs) ≡ erase t cs
  unfolding remove_at
  remove_at-position t [] v h = ground arith
  remove_at-position t (c ∷ cs) v h = ground (arith, remove_at-position t cs v)

  pub erase-none : (t : T) (cs : List (Condition T X)) → find t cs ≡ none → erase t cs ≡ cs
  erase-none t [] h = refl
  erase-none t (c ∷ cs) h = ground (arith, erase-none t cs)

  pub replace-find :
      (t : T) (cs : List (Condition T X)) (v : Condition T X)
      → find t cs ≡ some v
      → replace t v cs ≡ cs
  replace-find t [] v h = refl
  replace-find t (c ∷ cs) v h = ground (arith, replace-find t cs v)

  pub find-typ3 :
      (t : T) (cs : List (Condition T X)) (v : Condition T X) → find t cs ≡ some v → t ≡ v.typ3
  find-typ3 t [] v h = ground arith
  find-typ3 t (c ∷ cs) v h = ground (arith, find-typ3 t cs v, e.beq_iff t c.typ3)

  pub find-append :
      (t : T) (cs : List (Condition T X)) (v : Condition T X)
      → find v.typ3 cs ≡ none
      → find t (cs ++ (v ∷ [])) ≡ (if t == v.typ3 then some v else find t cs)
  find-append t [] v h = refl
  find-append t (c ∷ cs) v h =
      ground
        (arith, find-append t cs v, e.beq_iff t c.typ3, e.beq_iff v.typ3 c.typ3, e.beq_iff t v.typ3)

  pub find-replace :
      (t : T) (cs : List (Condition T X)) (v old : Condition T X)
      → find v.typ3 cs ≡ some old
      → find t (replace v.typ3 v cs) ≡ (if t == v.typ3 then some v else find t cs)
  find-replace t [] v old h = ground arith
  find-replace t (c ∷ cs) v old h = ground (
    arith,
    find-replace t cs v old,
    e.beq_iff t c.typ3,
    e.beq_iff v.typ3 c.typ3,
    e.beq_iff t v.typ3,
  )
