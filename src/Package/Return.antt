-- ===== src/Package/Return.antt =====
-- When a package needs nothing done: `checkStatusCanReturn`.
use rainbond_operator.Base.{ℕ, ◌+◌, List, [], ◌∷◌, length, nat_eq, ◌≡◌, arith, ◌↔◌, ◌⊎◌, ◌≤◌}
use rainbond_operator.Api.{PackageCondition, running, completed, failed}
use rainbond_operator.Package.Status.{
  phase_eq, phase_beq_iff, can_return_loop, check_status_can_return, leave,
}

abbrev pub AllCompleted : List PackageCondition → Type 0
AllCompleted [] = Unit
AllCompleted (c ∷ cs) = (c.status ≡ completed) × AllCompleted cs

-- A condition is running, and none before it has failed.
abbrev pub RunsBeforeFailing : List PackageCondition → Type 0
RunsBeforeFailing [] = ⊥
RunsBeforeFailing (c ∷ cs) = (c.status ≡ running) ⊎ (¬ (c.status ≡ failed) × RunsBeforeFailing cs)

loop-leave_iff :
    (total count : ℕ) (cs : List PackageCondition)
    → count + length cs ≤ total
    → (can_return_loop total count cs ≡ leave)
      ↔ (((count + length cs ≡ total) × AllCompleted cs) ⊎ RunsBeforeFailing cs)
unfolding can_return_loop
loop-leave_iff total count [] h = ground arith
loop-leave_iff total count (c ∷ cs) h = ground (
  arith,
  loop-leave_iff total (count + 1) cs,
  loop-leave_iff total count cs,
  phase_beq_iff c.status running,
  phase_beq_iff c.status failed,
  phase_beq_iff c.status completed,
)

-- `checkStatusCanReturn` lets the reconciler return exactly if there are conditions and all are
-- completed, or one is running and none before it has failed.
pub check_status_can_return-leave_iff :
    (cs : List PackageCondition)
    → (check_status_can_return cs ≡ leave)
      ↔ ((¬ (cs ≡ []) × AllCompleted cs) ⊎ RunsBeforeFailing cs)
unfolding check_status_can_return
check_status_can_return-leave_iff [] = ground arith
check_status_can_return-leave_iff (c ∷ cs) =
    ground (arith, loop-leave_iff (length (c ∷ cs)) 0 (c ∷ cs))
