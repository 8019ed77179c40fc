-- ===== src/Package/Status.antt =====
-- The conditions of a package: `GetCondition` of api/v1alpha1/rainbondpackage_types.go, and how
-- controllers/rainbondpackage_controller.go finds and changes them. A change is made in place in
-- the list; `now` is the time that `metav1.Now()` gives.
use rainbond_operator.Base.{
  ℕ, ◌+◌, String, Bool, true, false, Option, none, some, List, [], ◌∷◌, Eq, ◌==◌, ltb, length,
  if◌then◌else◌, ◌≡◌, ◌↔◌, arith, nat_eq,
}
use rainbond_operator.Api.{
  PackageConditionType, PackageConditionStatus, PackageCondition, PackageStatus, init,
  download_package, unpack_package, push_image, ready, waiting, running, completed, failed,
}

abbrev pub type_beq : PackageConditionType → PackageConditionType → Bool
type_beq init init = true
type_beq download_package download_package = true
type_beq unpack_package unpack_package = true
type_beq push_image push_image = true
type_beq ready ready = true
type_beq _ _ = false

pub type_beq_iff : (a b : PackageConditionType) → (type_beq a b ≡ true) ↔ (a ≡ b)
type_beq_iff a b = ground arith

instance abbrev pub type_eq : Eq PackageConditionType
type_eq = record { beq = type_beq; beq_iff = type_beq_iff }

abbrev pub phase_beq : PackageConditionStatus → PackageConditionStatus → Bool
phase_beq waiting waiting = true
phase_beq running running = true
phase_beq completed completed = true
phase_beq failed failed = true
phase_beq _ _ = false

pub phase_beq_iff : (a b : PackageConditionStatus) → (phase_beq a b ≡ true) ↔ (a ≡ b)
phase_beq_iff a b = ground arith

instance abbrev pub phase_eq : Eq PackageConditionStatus
phase_eq = record { beq = phase_beq; beq_iff = phase_beq_iff }

-- `GetCondition` and `findCondition`: the first condition of the type.
unfoldable pub find_condition :
    PackageConditionType → List PackageCondition → Option PackageCondition
find_condition t [] = none
find_condition t (c ∷ cs) = if c.typ3 == t then some c else find_condition t cs

-- `initPackageStatus`.
unfoldable pub init_package_status : ℕ → PackageConditionStatus → PackageStatus
init_package_status now status = record {
  conditions =
      fresh init
      ∷ fresh download_package
      ∷ fresh unpack_package
      ∷ fresh push_image
      ∷ fresh ready
      ∷ [];
  images_number = 0;
  images_pushed = [];
}
  where
    fresh : PackageConditionType → PackageCondition
    fresh t = record {
      typ3 = t;
      status = status;
      last_heartbeat_time = now;
      last_transition_time = now;
      reason = "";
      message = "";
      progress = 0;
    }

-- The body of the loop of `updateConditionStatus`.
unfoldable pub with_status : ℕ → PackageConditionStatus → PackageCondition → PackageCondition
with_status now status c =
    let moved = record c {
      last_transition_time = if c.status == status then c.last_transition_time else now;
      last_heartbeat_time = now;
      status = status;
    } in
    if status == completed
    then record moved { progress = 100; reason = ""; message = "" }
    else moved

-- `updateConditionStatus`: the first condition of the type.
unfoldable pub update_condition_status :
    ℕ
    → PackageConditionType
    → PackageConditionStatus
    → List PackageCondition
    → List PackageCondition
unfolding with_status
update_condition_status now t status [] = []
update_condition_status now t status (c ∷ cs) =
    if c.typ3 == t
    then with_status now status c ∷ cs
    else c ∷ update_condition_status now t status cs

-- `updateConditionResion`: the first condition of the type.
unfoldable pub update_condition_reason :
    ℕ → PackageConditionType → String → String → List PackageCondition → List PackageCondition
update_condition_reason now t reason message [] = []
update_condition_reason now t reason message (c ∷ cs) =
    if c.typ3 == t
    then record c { last_heartbeat_time = now; reason = reason; message = message } ∷ cs
    else c ∷ update_condition_reason now t reason message cs

-- The loop of `updateConditionProgress`: it returns at the first condition of the type whose
-- progress differs, and goes on past one whose progress is the same.
unfoldable pub progress_loop :
    ℕ → PackageConditionType → ℕ → List PackageCondition → List PackageCondition × Bool
progress_loop now t progress [] = ([], false)
progress_loop now t progress (c ∷ cs) =
    let (rest, changed) = progress_loop now t progress cs in
    if c.typ3 == t
    then (if c.progress == progress
        then (record c { last_heartbeat_time = now } ∷ rest, changed)
        else (record c { last_heartbeat_time = now; progress = progress } ∷ cs, true))
    else (c ∷ rest, changed)

-- `updateConditionProgress`.
unfoldable pub update_condition_progress :
    ℕ → PackageConditionType → ℕ → List PackageCondition → List PackageCondition × Bool
unfolding progress_loop
update_condition_progress now t progress cs =
    progress_loop now t (if ltb 100 progress then 100 else progress) cs

-- What `checkStatusCanReturn` tells its caller: to write the first status, to return, or to go on.
pub data CanReturn : Type 0 where
  write_status leave go_on : CanReturn

-- The loop of `checkStatusCanReturn`, with the number of completed conditions so far, out of
-- `total`.
unfoldable pub can_return_loop : ℕ → ℕ → List PackageCondition → CanReturn
can_return_loop total count [] = if count == total then leave else go_on
can_return_loop total count (c ∷ cs) =
    let rest = can_return_loop total (if c.status == completed then count + 1 else count) cs in
    if c.status == running then leave else (if c.status == failed then go_on else rest)

-- `checkStatusCanReturn`; with `write_status` the caller's status is `init_package_status now waiting`.
unfoldable pub check_status_can_return : List PackageCondition → CanReturn
unfolding can_return_loop
check_status_can_return [] = write_status
check_status_can_return (c ∷ cs) = can_return_loop (length (c ∷ cs)) 0 (c ∷ cs)
