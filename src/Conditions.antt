-- ===== src/Conditions.antt =====
-- The condition lists of the custom resources (api/v1alpha1): `GetCondition`, `SetCondition`,
-- `UpdateCondition` and `DeleteCondition`, which rbdcomponent_types.go, rainbondcluster_types.go
-- and rainbondvolume_types.go spell out three times. `X` holds what a condition has beside the
-- common fields: nothing, or the heartbeat time of a cluster condition.
pub mod Find
pub mod Update
pub mod Delete
pub mod Map
use rainbond_operator.Base.{
  ℕ, zero, suc, ◌+◌, String, Bool, true, false, not, ◌&&◌, Option, none, some, List, [], ◌∷◌, ◌++◌,
  Eq, ◌==◌, nat_eq, string_eq, if◌then◌else◌, set, ◌≡◌, ◌↔◌, arith,
}

-- `corev1.ConditionStatus`.
pub data ConditionStatus : Type 0 where
  condition_true condition_false condition_unknown : ConditionStatus

abbrev pub status_beq : ConditionStatus → ConditionStatus → Bool
status_beq condition_true condition_true = true
status_beq condition_false condition_false = true
status_beq condition_unknown condition_unknown = true
status_beq _ _ = false

pub status_beq_iff : (a b : ConditionStatus) → (status_beq a b ≡ true) ↔ (a ≡ b)
status_beq_iff a b = ground arith

instance abbrev pub status_eq : Eq ConditionStatus
status_eq = record { beq = status_beq; beq_iff = status_beq_iff }

pub record Condition (T X : Type 0) : Type 0 where
  pub typ3 : T
  pub status : ConditionStatus
  pub last_transition_time : ℕ
  pub reason : String
  pub message : String
  pub extra : X

module _ {T X : Type 0} ⦃e : Eq T⦄ where
  unfoldable pub get_condition_from : ℕ → T → List (Condition T X) → Option (ℕ × Condition T X)
  get_condition_from i t [] = none
  get_condition_from i t (c ∷ cs) =
      if t == c.typ3 then some (i, c) else get_condition_from (i + 1) t cs

  -- `GetCondition`: the index and a copy of the first condition of the type; `(-1, nil)` is `none`.
  unfoldable pub get_condition : T → List (Condition T X) → Option (ℕ × Condition T X)
  unfolding get_condition_from
  get_condition t cs = get_condition_from 0 t cs

  -- `SetCondition`.
  unfoldable pub set_condition : Condition T X → List (Condition T X) → List (Condition T X)
  set_condition c cs = elim (get_condition c.typ3 cs) [
    | none ↦ cs ++ (c ∷ [])
    | some (pos, cp) ↦
        if cp.status == c.status && (cp.reason == c.reason && cp.message == c.message)
        then cs
        else set cs pos c
  ]

  -- `condition.LastTransitionTime = now`, and then the old time if the status is the same.
  abbrev pub stamp : ℕ → ConditionStatus → Option (Condition T X) → ℕ
  stamp now status none = now
  stamp now status (some old) = if status == old.status then old.last_transition_time else now

  abbrev pub stamped : ℕ → Condition T X → Option (Condition T X) → Condition T X
  stamped now c old = record c { last_transition_time = stamp now c.status old }

  -- `isEqual`, where `c` is stamped.
  abbrev pub is_equal : Condition T X → Condition T X → Bool
  is_equal c old =
      c.status == old.status
      && (c.reason == old.reason
          && (c.message == old.message && c.last_transition_time == old.last_transition_time))

  -- `UpdateCondition` at the time `now`: the new list, and whether the condition has changed.
  unfoldable pub update_condition :
      ℕ → Condition T X → List (Condition T X) → List (Condition T X) × Bool
  update_condition now c cs = elim (get_condition c.typ3 cs) [
    | none ↦ (cs ++ (stamped now c none ∷ []), true)
    | some (pos, old) ↦
        (set cs pos (stamped now c (some old)), not (is_equal (stamped now c (some old)) old))
  ]

  -- `append(r.Conditions[:idx], r.Conditions[idx+1:]...)`
  pub remove_at : List (Condition T X) → ℕ → List (Condition T X)
  remove_at [] i = []
  remove_at (c ∷ cs) zero = cs
  remove_at (c ∷ cs) (suc i) = c ∷ remove_at cs i

  -- `DeleteCondition`.
  unfoldable pub delete_condition : T → List (Condition T X) → List (Condition T X)
  unfolding remove_at
  delete_condition t cs = elim (get_condition t cs) [ none ↦ cs | some (idx, c) ↦ remove_at cs idx ]
