-- ===== src/Package/Progress.antt =====
-- What `updateConditionProgress` does.
use rainbond_operator.Base.{
  ℕ, false, Option, none, some, List, [], ◌∷◌, ◌==◌, ltb, if◌then◌else◌, ◌≡◌, arith, ◌↔◌, nat_eq,
  Bool-cases, inl, inr,
}
use rainbond_operator.Api.{PackageConditionType, PackageCondition}
use rainbond_operator.Package.Status.{
  find_condition, type_eq, type_beq_iff, progress_loop, update_condition_progress,
}

-- The progress that is written: at most 100.
abbrev pub capped : ℕ → ℕ
capped progress = if ltb 100 progress then 100 else progress

-- A condition at the progress, written at the time.
abbrev pub advanced : ℕ → ℕ → Option PackageCondition → Option PackageCondition
advanced now progress none = none
advanced now progress (some c) = some (record c { last_heartbeat_time = now; progress = progress })

-- All conditions of the type have the progress.
abbrev pub AllAt : PackageConditionType → ℕ → List PackageCondition → Type 0
AllAt t progress [] = Unit
AllAt t progress (c ∷ cs) = (c.typ3 ≡ t → c.progress ≡ progress) × AllAt t progress cs

find_condition-progress_loop :
    (now : ℕ) (t u : PackageConditionType) (progress : ℕ) (cs : List PackageCondition)
    → find_condition u (progress_loop now t progress cs).0
      ≡ (if u == t then advanced now progress (find_condition t cs) else find_condition u cs)
unfolding progress_loop find_condition
find_condition-progress_loop now t u progress [] = ground arith
find_condition-progress_loop now t u progress (c ∷ cs) =
    let ih = find_condition-progress_loop now t u progress cs in
    elim (Bool-cases (c.typ3 == t)) [
      | inl p ↦
          rw (p, progress_loop)
            (elim (Bool-cases (c.progress == progress)) [
              | inl q ↦
                  rw (q, progress_loop)
                    (elim (Bool-cases (u == t)) [
                      | inl g ↦ ground (arith, type_beq_iff c.typ3 t, type_beq_iff u t)
                      | inr g ↦ ground (
                        arith,
                        ih,
                        type_beq_iff c.typ3 t,
                        type_beq_iff u t,
                        type_beq_iff c.typ3 u,
                      )
                    ])
              | inr q ↦
                  rw (q, progress_loop)
                    (elim (Bool-cases (u == t)) [
                      | inl g ↦ ground (arith, type_beq_iff c.typ3 t, type_beq_iff u t)
                      | inr g ↦
                          ground
                            (arith, type_beq_iff c.typ3 t, type_beq_iff u t, type_beq_iff c.typ3 u)
                    ])
            ])
      | inr p ↦
          rw (p, progress_loop)
            (elim (Bool-cases (c.typ3 == u)) [
              | inl q ↦
                  rw q
                    (ground (arith, type_beq_iff c.typ3 t, type_beq_iff u t, type_beq_iff c.typ3 u))
              | inr q ↦ rw q ih
            ])
    ]

-- After `updateConditionProgress` the first condition of its type has the progress, but at most
-- 100, and what is found of the other types is as it was.
pub find_condition-update_condition_progress :
    (now : ℕ) (t u : PackageConditionType) (progress : ℕ) (cs : List PackageCondition)
    → find_condition u (update_condition_progress now t progress cs).0 ≡ (
        if u == t
        then advanced now (capped progress) (find_condition t cs)
        else find_condition u cs)
unfolding update_condition_progress
find_condition-update_condition_progress now t u progress cs =
    find_condition-progress_loop now t u (capped progress) cs

loop-changed_iff :
    (now : ℕ) (t : PackageConditionType) (progress : ℕ) (cs : List PackageCondition)
    → ((progress_loop now t progress cs).1 ≡ false) ↔ AllAt t progress cs
unfolding progress_loop
loop-changed_iff now t progress [] = ground arith
loop-changed_iff now t progress (c ∷ cs) =
    ground (arith, loop-changed_iff now t progress cs, type_beq_iff c.typ3 t)

-- `updateConditionProgress` reports no change exactly if all conditions of the type have the
-- progress already.
pub update_condition_progress-unchanged_iff :
    (now : ℕ) (t : PackageConditionType) (progress : ℕ) (cs : List PackageCondition)
    → ((update_condition_progress now t progress cs).1 ≡ false) ↔ AllAt t (capped progress) cs
unfolding update_condition_progress
update_condition_progress-unchanged_iff now t progress cs =
    loop-changed_iff now t (capped progress) cs
