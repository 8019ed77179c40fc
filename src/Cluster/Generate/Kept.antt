-- ===== src/Cluster/Generate/Kept.antt =====
-- What `generateConditions` does to the conditions that are there.
use rainbond_operator.Base.{
  String, Bool, true, false, not, ◌||◌, some, List, ◌==◌, string_eq, ◌≡◌, ◌≢◌, refl, arith,
  Bool-cases, inl, inr, ◌∙◌,
}
use text.Mathlib.TextEquality.{eq_iff}
use rainbond_operator.Conditions.{condition_true, status_eq}
use rainbond_operator.Conditions.Find.{find, get_condition-some}
use rainbond_operator.Conditions.Update.{IsUnique, update_condition-IsUnique, find-update_condition}
use rainbond_operator.Api.{ClusterCondition, ClusterSpec}
use rainbond_operator.Api.ClusterConditionType
use rainbond_operator.Api.InstallMode.{offline}
use rainbond_operator.Cluster.Checks.{Verdict}
use rainbond_operator.Cluster.Generate.{
  Prechecks, is_condition_true, run_check, run_until_true, when, ask_running, generate_conditions,
  is_set,
}

is_condition_true-find :
    (t : String) (cs : List ClusterCondition) (c : ClusterCondition)
    → find t cs ≡ some c
    → c.status ≡ condition_true
    → is_condition_true t cs ≡ true
unfolding is_condition_true
is_condition_true-find t cs c f h =
    rw (get_condition-some t cs c f, is_condition_true) (ground (arith, h))

-- The conditions that `generateConditions` checks whatever they were.
abbrev pub IsAlwaysChecked : String → Type 0
IsAlwaysChecked t =
    (t == ClusterConditionType.storage
      || (t == ClusterConditionType.dns
          || (t == ClusterConditionType.memory || t == ClusterConditionType.container_network)))
    ≡ true

module _ {World : Type 0} (P : Prechecks World) where
  find-run_check :
      (t u : String) (check : World → Verdict × World) (s : List ClusterCondition × World)
      → u ≢ t
      → find u (run_check P t check s).0 ≡ find u s.0
  unfolding run_check
  find-run_check t u check (cs, w) ne = rw find-update_condition (ground (arith, eq_iff u t))

  -- A true condition of a check that runs until it is true survives any of the steps.
  find-run_until_true :
      (t u : String) (check : World → Verdict × World) (s : List ClusterCondition × World)
      (c : ClusterCondition)
      → find u s.0 ≡ some c
      → c.status ≡ condition_true
      → find u (run_until_true P t check s).0 ≡ some c
  unfolding run_until_true
  find-run_until_true t u check s c f h = elim (Bool-cases (u == t)) [
    | inl p ↦
        let q = (eq_iff u t).0 p in
        rw (is_condition_true-find t s.0 c (rw q at f) h, run_until_true) f
    | inr p ↦ elim (Bool-cases (is_condition_true t s.0)) [
      | inl q ↦ rw (q, run_until_true) f
      | inr q ↦
          rw (q, run_until_true) (find-run_check t u check s (λ e. cc (p, (eq_iff u t).1 e)) ∙ f)
    ]
  ]

  run_check-IsUnique :
      (t : String) (check : World → Verdict × World) (s : List ClusterCondition × World)
      → IsUnique s.0
      → IsUnique (run_check P t check s).0
  unfolding run_check
  run_check-IsUnique t check (cs, w) h = update_condition-IsUnique _ _ cs h

  run_until_true-IsUnique :
      (t : String) (check : World → Verdict × World) (s : List ClusterCondition × World)
      → IsUnique s.0
      → IsUnique (run_until_true P t check s).0
  unfolding run_until_true
  run_until_true-IsUnique t check s h = elim (Bool-cases (is_condition_true t s.0)) [
    | inl q ↦ rw (q, run_until_true) h
    | inr q ↦ rw (q, run_until_true) (run_check-IsUnique t check s h)
  ]

  -- What each of its checks keeps, `generateConditions` keeps.
  module _ (K : List ClusterCondition × World → Type 0) where
    when-keeps :
        (b : Bool) (f : List ClusterCondition × World → List ClusterCondition × World)
        → ((s : List ClusterCondition × World) → K s → K (f s))
        → (s : List ClusterCondition × World) → K s
        → K (when b f s)
    unfolding when
    when-keeps true f h s k = h s k
    when-keeps false f h s k = k

    generate_conditions-keeps :
        ((t : String) (f : World → Verdict × World) (s : List ClusterCondition × World)
          → IsAlwaysChecked t
          → K s
          → K (run_check P t f s))
        → ((t : String) (f : World → Verdict × World) (s : List ClusterCondition × World)
            → K s
            → K (run_until_true P t f s))
        → (spec : ClusterSpec) (s : List ClusterCondition × World) → K s
        → K (generate_conditions P spec s)
    unfolding generate_conditions
    generate_conditions-keeps check until spec s k =
        let a = is_set spec.region_database in
        let b = is_set spec.image_hub in
        let offline_dns = not (spec.install_mode == offline) in
        let network = not (spec.sentinel_image == "") in
        let f1 = run_until_true P ClusterConditionType.database_region P.check_database in
        let f2 = run_until_true P ClusterConditionType.image_repository P.check_image_repo in
        let f3 = run_until_true P ClusterConditionType.kubernetes_version P.check_k8s_version in
        let f4 = run_check P ClusterConditionType.storage P.check_storage in
        let f5 = run_check P ClusterConditionType.dns P.check_dns in
        let f6 = run_check P ClusterConditionType.memory P.check_memory in
        let f7 = run_check P ClusterConditionType.container_network P.check_container_network in
        let s1 = when a f1 s in
        let s2 = when b f2 s1 in
        let s3 = f3 s2 in
        let s4 = f4 s3 in
        let s5 = when offline_dns f5 s4 in
        let s6 = f6 s5 in
        let k1 =
          when-keeps a f1 (until ClusterConditionType.database_region P.check_database) s k in
        let k2 =
          when-keeps b f2 (until ClusterConditionType.image_repository P.check_image_repo) s1 k1 in
        let k3 = until ClusterConditionType.kubernetes_version P.check_k8s_version s2 k2 in
        let k4 = check ClusterConditionType.storage P.check_storage s3 refl k3 in
        let k5 =
          when-keeps offline_dns f5 (λ s. check ClusterConditionType.dns P.check_dns s refl) s4
            k4 in
        let k6 = check ClusterConditionType.memory P.check_memory s5 refl k5 in
        let k7 =
          when-keeps network f7
            (λ s. check ClusterConditionType.container_network P.check_container_network s refl) s6
            k6 in
        until ClusterConditionType.running (ask_running P) (when network f7 s6) k7

  -- `generateConditions` leaves a condition as it is that is true and is not one of those checked
  -- each time, which are the storage, the name service, the memory and the container network.
  pub generate_conditions-sticky :
      (u : String) (spec : ClusterSpec) (s : List ClusterCondition × World) (c : ClusterCondition)
      → ¬ IsAlwaysChecked u
      → find u s.0 ≡ some c
      → c.status ≡ condition_true
      → find u (generate_conditions P spec s).0 ≡ some c
  generate_conditions-sticky u spec s c n f h =
      generate_conditions-keeps (λ s. find u s.0 ≡ some c)
        (λ t g s a k. find-run_check t u g s (λ e. n (rw e a)) ∙ k)
        (λ t g s k. find-run_until_true t u g s c k h) spec s f

  -- `generateConditions` keeps at most one condition of each type.
  pub generate_conditions-IsUnique :
      (spec : ClusterSpec) (s : List ClusterCondition × World)
      → IsUnique s.0
      → IsUnique (generate_conditions P spec s).0
  generate_conditions-IsUnique spec s h =
      generate_conditions-keeps (λ s. IsUnique s.0) (λ t g s a k. run_check-IsUnique t g s k)
        run_until_true-IsUnique spec s h
