-- ===== src/Cluster/Done.antt =====
-- When `Reconcile` has nothing more to do for a cluster.
use rainbond_operator.Base.{
  String, Bool, true, false, none, some, List, [], ◌∷◌, ◌==◌, if◌then◌else◌, ◌≡◌, ◌⊎◌, refl, sym,
  ap, ◌∙◌, arith, Bool-cases, Option-cases, inl, inr,
}
use rainbond_operator.Conditions.{condition_true, status_eq, status_beq_iff}
use rainbond_operator.Api.{RainbondCluster, ClusterStatus, ClusterCondition, ImageHub}
use rainbond_operator.Kube.{Response, ok, err, Result, no_requeue, requeue_in}
use rainbond_operator.Kube.Action.{◌>>=◌, ◌>>◌, pure, get, bind-eq-ok}
use rainbond_operator.Package.Once.{answer_cases}
use rainbond_operator.Package.Turns.{ok_inj}
use rainbond_operator.Cluster.Generate.{all_true}
use rainbond_operator.Cluster.Env.{Env, Failure, failure, panic, Mgr}
use rainbond_operator.Cluster.Status.{generate_rainbond_cluster_status}
use rainbond_operator.Cluster.Manager.{create_foobar_pvc_if_not_exists}
use rainbond_operator.Cluster.Loop.{
  Outcome, returned, rewrite_status, rewrite_image_hub, get_image_hub, setup_image_hub, secure,
  provide, finish, outcome, after_status, write_status, use_status, reconcile,
}
use rainbond_operator.Cluster.Reads.{with_conditions, generate_rainbond_cluster_status_lem}
use rainbond_operator.Cluster.Stays.{secure-Stays, create_foobar_pvc_if_not_exists-Stays}

-- Every condition is true.
abbrev pub AllTrue : List ClusterCondition → Type 0
AllTrue [] = Unit
AllTrue (c ∷ cs) = (c.status ≡ condition_true) × AllTrue cs

all_true-AllTrue : (cs : List ClusterCondition) → all_true cs ≡ true → AllTrue cs
unfolding all_true
all_true-AllTrue [] h = tt
all_true-AllTrue (c ∷ cs) h = elim (Bool-cases (c.status == condition_true)) [
  | inl p ↦ ((status_beq_iff c.status condition_true).0 p, all_true-AllTrue cs (rw p at h))
  | inr p ↦ absurd (cc (rw p at h))
]

module _ (E : Env) where
  open E use {World, Err}

  finish_choice : (b : Bool) → (if b then no_requeue else requeue_in 5) ≡ no_requeue → b ≡ true
  finish_choice true h = refl
  finish_choice false h = absurd (cc h)

  -- `provide` ends without a requeue only if all conditions of the cluster are true.
  provide-all_true :
      (hub : ImageHub) (s : Mgr E)
      → (provide E hub s).0 ≡ ok no_requeue
      → all_true s.cluster.status.conditions ≡ true
  unfolding provide finish ◌>>=◌ ◌>>◌ get pure
  provide-all_true hub s h =
      let (_, _, h1) =
        bind-eq-ok (secure E hub) (λ _. create_foobar_pvc_if_not_exists >> finish E) s no_requeue
          h in
      let (_, _, h2) =
        bind-eq-ok create_foobar_pvc_if_not_exists (λ _. finish E) s1 no_requeue h1 in
      let kept = create_foobar_pvc_if_not_exists-Stays.stays s1 ∙ (secure-Stays hub).stays s in
      ap (λ c. all_true c.status.conditions) (sym kept)
      ∙ finish_choice (all_true s2.cluster.status.conditions) (ok_inj _ _ h2)
    where
      s1 : Mgr E
      s1 = (secure E hub s).1

      s2 : Mgr E
      s2 = (create_foobar_pvc_if_not_exists s1).1

  -- An outcome that is neither an error nor a requeue.
  abbrev IsQuiet : Outcome Err × World → Type 0
  IsQuiet o = o.0 ≡ returned no_requeue none

  setup_image_hub_loud :
      (namespace name : String) (w : World) → ¬ IsQuiet (setup_image_hub E namespace name w)
  unfolding setup_image_hub
  setup_image_hub_loud namespace name w h =
      elim (answer_cases
        (E.retry_on_conflict RainbondCluster
          (rewrite_image_hub E namespace name (get_image_hub E w).0) (get_image_hub E w).1).0) [
            | inl (c, p) ↦ cc (rw (p, setup_image_hub) at h)
            | inr (e, p) ↦ cc (rw (p, setup_image_hub) at h)
          ]

  outcome_quiet :
      (r : Response (Failure Err) Result)
      → outcome E r ≡ returned no_requeue none
      → r ≡ ok no_requeue
  outcome_quiet (ok r) h = ground (arith, h)
  outcome_quiet (err panic) h = absurd (cc h)
  outcome_quiet (err (failure e)) h = absurd (cc h)

  after_status_quiet :
      (namespace name : String) (s : Mgr E)
      → IsQuiet (after_status E namespace name s)
      → ((hub : ImageHub) × (s.cluster.spec.image_hub ≡ some hub))
        × (all_true s.cluster.status.conditions ≡ true)
  unfolding after_status
  after_status_quiet namespace name s h = elim (Option-cases s.cluster.spec.image_hub) [
    | inl p ↦ absurd (setup_image_hub_loud namespace name s.world (rw (p, after_status) at h))
    | inr (hub, p) ↦ (
      (hub, p),
      provide-all_true hub s (outcome_quiet (provide E hub s).0 (rw (p, after_status) at h)),
    )
  ]

  write_status_quiet :
      (namespace name : String) (status : ClusterStatus) (s : Mgr E)
      → IsQuiet (write_status E namespace name status s)
      → ((hub : ImageHub) × (s.cluster.spec.image_hub ≡ some hub))
        × (all_true s.cluster.status.conditions ≡ true)
  unfolding write_status
  write_status_quiet namespace name status s h =
      elim (answer_cases
        (E.retry_on_conflict RainbondCluster (rewrite_status E namespace name status) s.world).0) [
          | inr (e, p) ↦ absurd (cc (rw (p, write_status) at h))
          | inl (c, p) ↦
              after_status_quiet namespace name
                (record s {
                  world =
                      (E.retry_on_conflict RainbondCluster (rewrite_status E namespace name status)
                        s.world).1;
                })
                (rw (p, write_status) at h)
        ]

  -- The cluster is not there.
  abbrev pub IsMissing : String → String → World → Type 0
  IsMissing namespace name w =
      (e : Err) × ((E.get_cluster namespace name w).0 ≡ err e) × (E.is_not_found e ≡ true)

  -- The cluster is there and has an image hub, and all conditions of the status that is generated
  -- for it are true.
  abbrev pub IsDone : String → String → World → Type 0
  IsDone namespace name w =
      (c : RainbondCluster) × ((E.get_cluster namespace name w).0 ≡ ok c)
      × ((hub : ImageHub) × (c.spec.image_hub ≡ some hub))
      × ((status : ClusterStatus) × (s : Mgr E) × (generate_rainbond_cluster_status
              (record { cluster = c; world = (E.get_cluster namespace name w).1 })
            ≡ (ok status, s))
          × AllTrue status.conditions)

  missing_choice :
      (b : Bool) (e : Err)
      → ◌≡◌ {A = Outcome Err}
          (returned no_requeue (if b then none else some e))
          (returned no_requeue none)
      → b ≡ true
  missing_choice true e h = refl
  missing_choice false e h = absurd (cc h)

  -- `Reconcile` ends without an error and without a requeue only if the cluster is not there, or if
  -- it has an image hub and all conditions of the status that was generated are true.
  pub reconcile-IsDone :
      (namespace name : String) (w : World)
      → IsQuiet (reconcile E namespace name w)
      → IsMissing namespace name w ⊎ IsDone namespace name w
  unfolding reconcile use_status
  reconcile-IsDone namespace name w h = elim (answer_cases (E.get_cluster namespace name w).0) [
    | inr (e, p) ↦ inl (e, p, missing_choice (E.is_not_found e) e (rw (p, reconcile) at h))
    | inl (c, p) ↦
        let s : Mgr E = record { cluster = c; world = (E.get_cluster namespace name w).1 } in
        let (status, u, g) = generate_rainbond_cluster_status_lem s in
        let s' = with_conditions status.conditions (record s { world = u }) in
        let (hub, good) =
          write_status_quiet namespace name status s' (rw g at (rw (p, reconcile) at h)) in
        inr (c, p, hub, (status, s', g, all_true-AllTrue status.conditions good))
  ]
