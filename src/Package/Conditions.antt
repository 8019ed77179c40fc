-- ===== src/Package/Conditions.antt =====
-- What a change of the status of a package's condition does to the conditions.
use rainbond_operator.Base.{
  ℕ, false, none, some, List, [], ◌∷◌, ◌==◌, string_eq, if◌then◌else◌, ◌≡◌, refl, arith, Bool-cases,
  inl, inr, ap, ◌∙◌, sym,
}
use rainbond_operator.Api.{
  PackageConditionType, PackageConditionStatus, PackageCondition, completed,
}
use rainbond_operator.Package.Status.{
  find_condition, type_eq, type_beq, type_beq_iff, phase_eq, with_status, update_condition_status,
}

type_beq_sym : (a b : PackageConditionType) → type_beq a b ≡ type_beq b a
type_beq_sym a b = ground arith

-- The condition after a change of its status: it is renewed, its transition time only if the
-- status is another one, and a completed condition has all its progress and says nothing.
abbrev pub renewed : ℕ → PackageConditionStatus → PackageCondition → PackageCondition
renewed now status c = record {
  typ3 = c.typ3;
  status = status;
  last_heartbeat_time = now;
  last_transition_time = if c.status == status then c.last_transition_time else now;
  reason = if status == completed then "" else c.reason;
  message = if status == completed then "" else c.message;
  progress = if status == completed then 100 else c.progress;
}

with_status-renewed :
    (now : ℕ) (status : PackageConditionStatus) (c : PackageCondition)
    → with_status now status c ≡ renewed now status c
unfolding with_status
with_status-renewed now status c = elim (Bool-cases (status == completed)) [
  | inl p ↦ rw p refl
  | inr p ↦ rw p refl
]

-- After `updateConditionStatus` the first condition of its type has the status and the time of the
-- update as its heartbeat; its transition time is that of the update if it had another status, and
-- else the old one; if the status is completed, the progress is 100 and the reason and the message
-- are empty, and else these are the old ones. What is found of the other types is as it was.
pub find_condition-update_condition_status :
    (now : ℕ) (t u : PackageConditionType) (status : PackageConditionStatus)
    (cs : List PackageCondition)
    → find_condition u (update_condition_status now t status cs) ≡ (
        if u == t
        then (elim (find_condition t cs) [ none ↦ none | some c ↦ some (renewed now status c) ])
        else find_condition u cs)
unfolding update_condition_status find_condition
find_condition-update_condition_status now t u status [] = ground arith
find_condition-update_condition_status now t u status (c ∷ cs) =
    let ih = find_condition-update_condition_status now t u status cs in
    elim (Bool-cases (c.typ3 == t)) [
      | inl p ↦
          let e = (type_beq_iff c.typ3 t).0 p in
          let d = keeps_type c ∙ e in
          rw (p, update_condition_status)
            (elim (Bool-cases (u == t)) [
              | inl g ↦ rw (d, type_beq_sym t u, g) (ap some (with_status-renewed now status c))
              | inr g ↦ rw (d, type_beq_sym t u, g, e) (rw (type_beq_sym t u, g) refl)
            ])
      | inr p ↦
          rw (p, update_condition_status)
            (elim (Bool-cases (c.typ3 == u)) [
              | inl q ↦
                  let e = (type_beq_iff c.typ3 u).0 q in
                  let d : (u == t) ≡ false = ap (λ x. x == t) (sym e) ∙ p in rw (q, d) refl
              | inr q ↦ rw q ih
            ])
    ]
  where
    keeps_type : (c : PackageCondition) → (with_status now status c).typ3 ≡ c.typ3
    keeps_type c = elim (Bool-cases (status == completed)) [
      | inl p ↦ rw (p, with_status) refl
      | inr p ↦ rw (p, with_status) refl
    ]
