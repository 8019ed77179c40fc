-- ===== src/Cluster/Generate.antt =====
-- controllers/cluster-mgr/cluster_mgr.go: `generateConditions` and `runningCondition`, with what
-- controllers/rainbondcluster_controller.go reads off the conditions. The checks themselves are a
-- parameter here; their decisions are in Cluster.Checks.
pub mod Kept
pub mod Running
use rainbond_operator.Base.{
  ℕ, String, Bool, true, false, not, ◌&&◌, ◌||◌, Option, none, some, List, [], ◌∷◌, ◌==◌, string_eq,
  ◌<>◌, ltb, length, if◌then◌else◌,
}
use rainbond_operator.Conditions.{
  ConditionStatus, condition_true, condition_false, status_eq, get_condition, update_condition,
}
use rainbond_operator.Api.{RbdComponent, ClusterCondition, ClusterSpec}
use rainbond_operator.Api.ComponentConditionType.{rbd_component_ready}
use rainbond_operator.Api.ClusterConditionType
use rainbond_operator.Api.InstallMode.{offline}
use rainbond_operator.Kube.{Response, ok, err}
use rainbond_operator.Cluster.Checks.{Verdict, passed, fail_condition}

-- The world that the checks ask, the clock, and the list of the components (`listRbdComponents`,
-- whose errors are texts). `print` writes a number in a message.
pub record Prechecks (World : Type 0) : Type 0 where
  pub now : World → ℕ × World
  pub print : ℕ → String
  pub list_rbd_components : World → Response String (List RbdComponent) × World
  pub check_database : World → Verdict × World
  pub check_image_repo : World → Verdict × World
  pub check_k8s_version : World → Verdict × World
  pub check_storage : World → Verdict × World
  pub check_dns : World → Verdict × World
  pub check_memory : World → Verdict × World
  pub check_container_network : World → Verdict × World

-- `isConditionTrue`.
unfoldable pub is_condition_true : String → List ClusterCondition → Bool
is_condition_true t cs = elim (get_condition t cs) [
  | none ↦ false
  | some (_, c) ↦ c.status == condition_true
]

-- The loop of `runningCondition` over the components.
unfoldable pub all_ready : List RbdComponent → Verdict
unfolding fail_condition
all_ready [] = passed
all_ready (cpt ∷ cpts) =
    let rest = all_ready cpts in
    elim (get_condition rbd_component_ready cpt.status.conditions) [
      | none ↦
          fail_condition "RbdComponentReadyNotFound"
            ("condition 'RbdComponentReady' not found for " <> cpt.name)
      | some (_, c) ↦
          if c.status == condition_false
          then fail_condition "RbdComponentNotReady" ("rbdcomponent(" <> cpt.name <> ") not ready")
          else rest
    ]

-- `runningCondition`.
unfoldable pub running_verdict : (ℕ → String) → Response String (List RbdComponent) → Verdict
unfolding fail_condition all_ready
running_verdict print (err e) = fail_condition "ListRbdComponentFailed" e
running_verdict print (ok cpts) =
    if ltb (length cpts) 10
    then fail_condition "InsufficientRbdComponent" (
        "insufficient number of rbdcomponents. expect 10 rbdcomponents, but got "
        <> print (length cpts))
    else all_ready cpts

-- Whether all conditions are true, at the end of `Reconcile`; if not it comes again in 5 seconds.
unfoldable pub all_true : List ClusterCondition → Bool
all_true [] = true
all_true (c ∷ cs) = if c.status == condition_true then all_true cs else false

unfoldable pub when {ℓ} : {A : Type ℓ} → Bool → (A → A) → A → A
when b f s = if b then f s else s

abbrev pub is_set {ℓ} : {A : Type ℓ} → Option A → Bool
is_set none = false
is_set (some _) = true

module _ {World : Type 0} (P : Prechecks World) where
  -- A check, and `UpdateCondition` with the condition that it answers, which has its type.
  unfoldable pub run_check :
      String
      → (World → Verdict × World)
      → List ClusterCondition × World
      → List ClusterCondition × World
  run_check t check (cs, w) =
      let (heartbeat, w1) = P.now w in
      let (v, w2) = check w1 in
      let (now, w3) = P.now w2 in
      let c : ClusterCondition = record {
        typ3 = t;
        status = v.status;
        last_transition_time = 0;
        reason = v.reason;
        message = v.message;
        extra = heartbeat;
      } in
      ((update_condition now c cs).0, w3)

  -- A check that is made only as long as its condition is not true.
  unfoldable pub run_until_true :
      String
      → (World → Verdict × World)
      → List ClusterCondition × World
      → List ClusterCondition × World
  unfolding is_condition_true
  run_until_true t check s = if is_condition_true t s.0 then s else run_check t check s

  -- What `runningCondition` asks.
  abbrev pub ask_running : World → Verdict × World
  ask_running w = let (cpts, w') = P.list_rbd_components w in (running_verdict P.print cpts, w')

  -- `generateConditions`.
  unfoldable pub generate_conditions :
      ClusterSpec → List ClusterCondition × World → List ClusterCondition × World
  unfolding when run_check run_until_true
  generate_conditions spec s =
      let s1 =
        when (is_set spec.region_database)
          (run_until_true ClusterConditionType.database_region P.check_database) s in
      let s2 =
        when (is_set spec.image_hub)
          (run_until_true ClusterConditionType.image_repository P.check_image_repo) s1 in
      let s3 = run_until_true ClusterConditionType.kubernetes_version P.check_k8s_version s2 in
      let s4 = run_check ClusterConditionType.storage P.check_storage s3 in
      let s5 =
        when (not (spec.install_mode == offline)) (run_check ClusterConditionType.dns P.check_dns)
          s4 in
      let s6 = run_check ClusterConditionType.memory P.check_memory s5 in
      let s7 =
        when (not (spec.sentinel_image == ""))
          (run_check ClusterConditionType.container_network P.check_container_network) s6 in
      run_until_true ClusterConditionType.running ask_running s7
