-- ===== src/Conditions/Delete.antt =====
-- What `DeleteCondition` does to a list of conditions.
use rainbond_operator.Base.{
  none, List, [], ◌∷◌, Eq, ◌==◌, if◌then◌else◌, ◌≡◌, sym, arith, inl, inr, Option-cases, Bool-cases,
  nat_eq, string_eq,
}
use rainbond_operator.Conditions.{Condition, delete_condition, status_eq}
use rainbond_operator.Conditions.Find.{
  find, erase, get_condition-none, get_condition-some, remove_at-position, erase-none,
}
use rainbond_operator.Conditions.Update.{IsUnique}

module _ {T X : Type 0} ⦃e : Eq T⦄ where
  delete_condition-erase : (t : T) (cs : List (Condition T X)) → delete_condition t cs ≡ erase t cs
  unfolding delete_condition
  delete_condition-erase t cs = elim (Option-cases (find t cs)) [
    | inl h ↦ rw (get_condition-none t cs h, delete_condition) (sym (erase-none t cs h))
    | inr (old, h) ↦
        rw (get_condition-some t cs old h, delete_condition) (remove_at-position t cs old h)
  ]

  find-erase :
      (t u : T) (cs : List (Condition T X))
      → IsUnique cs
      → find u (erase t cs) ≡ (if u == t then none else find u cs)
  find-erase t u [] h = ground arith
  find-erase t u (c ∷ cs) h =
      ground (arith, find-erase t u cs h.1, e.beq_iff t c.typ3, e.beq_iff u c.typ3, e.beq_iff u t)

  -- Where no type occurs twice, `DeleteCondition` leaves no condition of the type and keeps the
  -- conditions of the others.
  pub find-delete_condition :
      (t u : T) (cs : List (Condition T X))
      → IsUnique cs
      → find u (delete_condition t cs) ≡ (if u == t then none else find u cs)
  find-delete_condition t u cs h = rw (delete_condition-erase t cs) (find-erase t u cs h)

  find-erase-none :
      (t u : T) (cs : List (Condition T X)) → find u cs ≡ none → find u (erase t cs) ≡ none
  find-erase-none t u [] h = h
  find-erase-none t u (c ∷ cs) h = ground (arith, find-erase-none t u cs)

  erase-IsUnique : (t : T) (cs : List (Condition T X)) → IsUnique cs → IsUnique (erase t cs)
  erase-IsUnique t [] h = tt
  erase-IsUnique t (c ∷ cs) h = elim (Bool-cases (t == c.typ3)) [
    | inl p ↦ rw p h.1
    | inr p ↦ rw p (find-erase-none t c.typ3 cs h.0, erase-IsUnique t cs h.1)
  ]

  -- `DeleteCondition` keeps at most one condition of each type.
  pub delete_condition-IsUnique :
      (t : T) (cs : List (Condition T X)) → IsUnique cs → IsUnique (delete_condition t cs)
  delete_condition-IsUnique t cs h = rw (delete_condition-erase t cs) (erase-IsUnique t cs h)
