-- ===== src/Conditions/Update.antt =====
-- What `SetCondition` and `UpdateCondition` do to a list of conditions.
use rainbond_operator.Base.{
  Bool, Option, ℕ, true, false, not, none, some, List, [], ◌∷◌, ◌++◌, Eq, ◌==◌, if◌then◌else◌, ◌≡◌,
  refl, ap, sym, ◌&&◌, ◌∙◌, arith, inl, inr, Bool-cases, Option-cases, nat_eq, string_eq, ◌↔◌,
}
use text.Mathlib.TextEquality.{eq_iff}
use rainbond_operator.Conditions.{
  Condition, set_condition, stamped, is_equal, update_condition, status_eq, status_beq_iff,
}
use rainbond_operator.Conditions.Find.{
  find, replace, get_condition-none, get_condition-some, set-position, find-typ3,
}

module _ {T X : Type 0} ⦃e : Eq T⦄ where
  -- The list after an update, as a plain recursion.
  abbrev pub put : Condition T X → List (Condition T X) → List (Condition T X)
  put v [] = v ∷ []
  put v (c ∷ cs) = if v.typ3 == c.typ3 then v ∷ cs else c ∷ put v cs

  put-none :
      (v : Condition T X) (cs : List (Condition T X))
      → find v.typ3 cs ≡ none
      → put v cs ≡ cs ++ (v ∷ [])
  put-none v [] h = refl
  put-none v (c ∷ cs) h = ground (arith, put-none v cs)

  put-some :
      (v old : Condition T X) (cs : List (Condition T X))
      → find v.typ3 cs ≡ some old
      → put v cs ≡ replace v.typ3 v cs
  put-some v old [] h = ground arith
  put-some v old (c ∷ cs) h = ground (arith, put-some v old cs)

  update_condition-none :
      (now : ℕ) (c : Condition T X) (cs : List (Condition T X))
      → find c.typ3 cs ≡ none
      → update_condition now c cs ≡ (cs ++ (stamped now c none ∷ []), true)
  unfolding update_condition
  update_condition-none now c cs h = rw (get_condition-none c.typ3 cs h, update_condition)

  update_condition-some :
      (now : ℕ) (c old : Condition T X) (cs : List (Condition T X))
      → find c.typ3 cs ≡ some old
      → update_condition now c cs ≡ (
        replace c.typ3 (stamped now c (some old)) cs,
        not (is_equal (stamped now c (some old)) old),
      )
  unfolding update_condition
  update_condition-some now c old cs h =
      rw (get_condition-some c.typ3 cs old h, update_condition)
        (rw (set-position c.typ3 cs (stamped now c (some old))))

  -- An update writes the stamped condition over the first of its type, or appends it.
  pub update_condition-put :
      (now : ℕ) (c : Condition T X) (cs : List (Condition T X))
      → (update_condition now c cs).0 ≡ put (stamped now c (find c.typ3 cs)) cs
  update_condition-put now c cs = elim (Option-cases (find c.typ3 cs)) [
    | inl h ↦ rw (update_condition-none now c cs h) (rw h (rw (put-none (stamped now c none) cs h)))
    | inr (old, h) ↦
        rw (update_condition-some now c old cs h)
          (rw h (rw (put-some (stamped now c (some old)) old cs h)))
  ]

  pub find-put :
      (t : T) (v : Condition T X) (cs : List (Condition T X))
      → find t (put v cs) ≡ (if t == v.typ3 then some v else find t cs)
  find-put t v [] = refl
  find-put t v (c ∷ cs) =
      ground
        (arith, find-put t v cs, e.beq_iff t c.typ3, e.beq_iff v.typ3 c.typ3, e.beq_iff t v.typ3)

  -- After `UpdateCondition` what is found of the type of the given condition is that condition,
  -- stamped with the time of the change; what is found of the other types is as before.
  pub find-update_condition :
      (now : ℕ) (t : T) (c : Condition T X) (cs : List (Condition T X))
      → find t (update_condition now c cs).0
        ≡ (if t == c.typ3 then some (stamped now c (find c.typ3 cs)) else find t cs)
  find-update_condition now t c cs =
      rw (update_condition-put now c cs) (find-put t (stamped now c (find c.typ3 cs)) cs)

  abbrev SameContent : Condition T X → Condition T X → Type 0
  SameContent c old = (c.status ≡ old.status) × (c.reason ≡ old.reason) × (c.message ≡ old.message)

  is_equal-stamped :
      (now : ℕ) (c old : Condition T X)
      → (is_equal (stamped now c (some old)) old ≡ true) ↔ SameContent c old
  is_equal-stamped now c old = ground (
    arith,
    status_beq_iff c.status old.status,
    eq_iff c.reason old.reason,
    eq_iff c.message old.message,
  )

  -- `UpdateCondition` reports no change exactly if a condition of the type is there already with
  -- the same status, reason and message.
  pub update_condition-unchanged_iff :
      (now : ℕ) (c : Condition T X) (cs : List (Condition T X))
      → ((update_condition now c cs).1 ≡ false) ↔ (
          (old : Condition T X) × (find c.typ3 cs ≡ some old)
          × (c.status ≡ old.status)
          × (c.reason ≡ old.reason)
          × (c.message ≡ old.message))
  update_condition-unchanged_iff now c cs = elim (Option-cases (find c.typ3 cs)) [
    | inl h ↦ rw (update_condition-none now c cs h) ((λ p. cc), (λ p. cc (p.1)))
    | inr (old, h) ↦ rw (update_condition-some now c old cs h) (
      (λ p. let s = (is_equal-stamped now c old).0 (ground arith) in (old, h, s.0, s.1, s.2)),
      (λ (x, g, a, b, d). ground (arith, is_equal-stamped now c old, g, h)),
    )
  ]

  -- An update that reports no change leaves the list as it was, but for the part of the condition
  -- beside its status, reason and message, which is written anew.
  pub update_condition-unchanged :
      (now : ℕ) (c : Condition T X) (cs : List (Condition T X))
      → (update_condition now c cs).1 ≡ false
      → (old : Condition T X) × (find c.typ3 cs ≡ some old)
        × ((update_condition now c cs).0 ≡ replace c.typ3 (record old { extra = c.extra }) cs)
  update_condition-unchanged now c cs h =
      let (old, f, a, b, d) = (update_condition-unchanged_iff now c cs).0 h in
      let w : stamped now c (some old) ≡ record old { extra = c.extra } =
        ground (arith, status_beq_iff c.status old.status, find-typ3 c.typ3 cs old f) in
      (old, f, rw (update_condition-some now c old cs f) (ap (λ v. replace c.typ3 v cs) w))

  set_condition-none :
      (c : Condition T X) (cs : List (Condition T X))
      → find c.typ3 cs ≡ none
      → set_condition c cs ≡ cs ++ (c ∷ [])
  unfolding set_condition
  set_condition-none c cs h = rw (get_condition-none c.typ3 cs h, set_condition)

  set_condition-some :
      (c old : Condition T X) (cs : List (Condition T X))
      → find c.typ3 cs ≡ some old
      → set_condition c cs ≡ (
          if old.status == c.status && (old.reason == c.reason && old.message == c.message)
          then cs
          else put c cs)
  unfolding set_condition
  set_condition-some c old cs h =
      rw (get_condition-some c.typ3 cs old h, set_condition)
        (rw (set-position c.typ3 cs c) (rw (put-some c old cs h)))

  -- The condition that `SetCondition` leaves for the type of the given one: the old one if it has
  -- the same status, reason and message.
  abbrev pub kept : Condition T X → Option (Condition T X) → Condition T X
  kept c none = c
  kept c (some old) =
      if old.status == c.status && (old.reason == c.reason && old.message == c.message)
      then old
      else c

  -- After `SetCondition` what is found of the type of the given condition is that condition, or the
  -- old one of the type if it has the same status, reason and message; what is found of the other
  -- types is as before.
  pub find-set_condition :
      (t : T) (c : Condition T X) (cs : List (Condition T X))
      → find t (set_condition c cs)
        ≡ (if t == c.typ3 then some (kept c (find c.typ3 cs)) else find t cs)
  find-set_condition t c cs = elim (Option-cases (find c.typ3 cs)) [
    | inl h ↦ rw (set_condition-none c cs h ∙ sym (put-none c cs h)) (rw h (find-put t c cs))
    | inr (old, h) ↦ rw (set_condition-some c old cs h) (
        rw h (elim (Bool-cases (same old)) [
          | inl p ↦ rw p (elim (Bool-cases (t == c.typ3)) [
            | inl q ↦ rw q (ap (λ x. find x cs) ((e.beq_iff t c.typ3).0 q) ∙ h)
            | inr q ↦ rw q refl
          ])
          | inr p ↦ rw p (find-put t c cs)
        ]))
  ]
    where
      same : Condition T X → Bool
      same old = old.status == c.status && (old.reason == c.reason && old.message == c.message)

  -- No type occurs twice.
  abbrev pub IsUnique : List (Condition T X) → Type 0
  IsUnique [] = Unit
  IsUnique (c ∷ cs) = (find c.typ3 cs ≡ none) × IsUnique cs

  put-IsUnique : (v : Condition T X) (cs : List (Condition T X)) → IsUnique cs → IsUnique (put v cs)
  put-IsUnique v [] h = (refl, tt)
  put-IsUnique v (c ∷ cs) h = ground (
    arith,
    put-IsUnique v cs h.1,
    find-put c.typ3 v cs,
    e.beq_iff v.typ3 c.typ3,
    e.beq_iff c.typ3 v.typ3,
  )

  -- `UpdateCondition` keeps at most one condition of each type.
  pub update_condition-IsUnique :
      (now : ℕ) (c : Condition T X) (cs : List (Condition T X))
      → IsUnique cs
      → IsUnique (update_condition now c cs).0
  update_condition-IsUnique now c cs h =
      rw (update_condition-put now c cs) (put-IsUnique (stamped now c (find c.typ3 cs)) cs h)

  -- `SetCondition` keeps at most one condition of each type.
  pub set_condition-IsUnique :
      (c : Condition T X) (cs : List (Condition T X)) → IsUnique cs → IsUnique (set_condition c cs)
  set_condition-IsUnique c cs u = elim (Option-cases (find c.typ3 cs)) [
    | inl h ↦ rw (set_condition-none c cs h ∙ sym (put-none c cs h)) (put-IsUnique c cs u)
    | inr (old, h) ↦ rw (set_condition-some c old cs h) (
        if-IsUnique (old.status == c.status && (old.reason == c.reason && old.message == c.message))
          cs (put c cs) u (put-IsUnique c cs u))
  ]
    where
      if-IsUnique :
          (b : Bool) (xs ys : List (Condition T X))
          → IsUnique xs
          → IsUnique ys
          → IsUnique (if b then xs else ys)
      if-IsUnique true xs ys h k = h
      if-IsUnique false xs ys h k = k
