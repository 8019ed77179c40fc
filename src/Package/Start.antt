-- ===== src/Package/Start.antt =====
-- The start of `handle`, the configuration of the cluster and the condition `Init`, and the order
-- of a package's conditions.
use rainbond_operator.Base.{
  Bool, true, false, Option, none, some, List, [], ◌∷◌, ◌==◌, if◌then◌else◌, ◌≡◌, refl, arith,
  Bool-cases, inl, inr,
}
use rainbond_operator.Api.{
  PackageConditionType, PackageCondition, init, download_package, unpack_package, push_image,
  completed, failed, waiting,
}
use rainbond_operator.Kube.{Response, ok, err}
use rainbond_operator.Package.Status.{find_condition, type_eq, type_beq, phase_eq}
use rainbond_operator.Package.Env.{
  Env, Failure, failure, cluster_config_not_ready, cluster_config_no_local_hub, Pkg, ◌>>=◌, ◌>>◌,
  pure, throw, try, modify,
}
use rainbond_operator.Package.Docker.{update_cr_status}
use rainbond_operator.Package.Pull.{text, set_status, set_reason}
use rainbond_operator.Package.Checks.{condition}
use rainbond_operator.Package.Handle.{note_failure, handle_config, handle_init}
use rainbond_operator.Package.Phases.{
  is_done, Echo, Steady, bind-Steady, seq-Steady, try-Steady, pure-Steady, throw-Steady,
}
use rainbond_operator.Package.Steady.{get-Steady, set_reason-Steady}
use rainbond_operator.Package.Stored.{update_cr_status-Steady}
use rainbond_operator.Package.Order.{IsOrdered}
use rainbond_operator.Package.Moves.{
  Keeps, Steady-Keeps, bind-Keeps, seq-Keeps, set_status_init-Keeps,
}
use rainbond_operator.Package.Turns.{update_try-Steady}
use rainbond_operator.Package.Checks.{
  check_cluster_config, config_by_cluster, set_init_status, overwrite_status,
  is_image_repository_ready,
}
use rainbond_operator.Package.Pull.{with_conditions}

overwrite_other :
    (u : PackageConditionType) (cs : List PackageCondition)
    → type_beq u init ≡ false
    → is_done u (overwrite_status init completed cs) ≡ is_done u cs
unfolding overwrite_status find_condition
overwrite_other u [] n = refl
overwrite_other u (c ∷ cs) n = elim (Bool-cases (c.typ3 == init)) [
  | inl p ↦ rw (p, overwrite_status) (rw (differs p) refl)
  | inr p ↦
      rw (p, overwrite_status)
        (elim (Bool-cases (c.typ3 == u)) [
          | inl q ↦ rw q refl
          | inr q ↦ rw q (overwrite_other u cs n)
        ])
]
  where
    differs : (c.typ3 == init) ≡ true → (c.typ3 == u) ≡ false
    differs p = ground (arith, p, n)

overwrite_status-IsOrdered :
    (cs : List PackageCondition)
    → IsOrdered (λ u. is_done u cs)
    → IsOrdered (λ u. is_done u (overwrite_status init completed cs))
overwrite_status-IsOrdered cs o t = ground (
  arith,
  o t,
  overwrite_other t cs,
  overwrite_other download_package cs,
  overwrite_other unpack_package cs,
  overwrite_other push_image cs,
)

module _ {E : Env} (echo : Echo E) where
  open E use {World, Err}

  check_cluster_config-Steady : Steady {E = E} check_cluster_config
  unfolding check_cluster_config config_by_cluster modify
  check_cluster_config-Steady =
      seq-Steady _ _
        (bind-Steady _ _ get-Steady λ s.
          seq-Steady _ _ (guard-Steady s.cluster.spec.config_completed _) (
            seq-Steady _ _ (guard-Steady (is_image_repository_ready s.cluster) _)
              (modify-Steady _ (λ p u. refl))))
        (bind-Steady _ _ get-Steady λ s. modify-Steady _ (λ p u. refl))
    where
      guard-Steady :
          (b : Bool) (e : Failure Err)
          → Steady {E = E} {A = Unit {0}} (if b then pure tt else throw e)
      guard-Steady true e = pure-Steady tt
      guard-Steady false e = throw-Steady e

      modify-Steady :
          (f : Pkg E → Pkg E)
          → ((s : Pkg E) (u : PackageConditionType)
              → is_done u (f s).pkg.status.conditions ≡ is_done u s.pkg.status.conditions)
          → Steady {E = E} (modify f)
      modify-Steady f h = record { steady = h }

  pub handle_config-Keeps : Keeps {E = E} handle_config
  unfolding handle_config
  handle_config-Keeps =
      bind-Keeps _ _ (Steady-Keeps _ (try-Steady _ check_cluster_config-Steady)) checked-Keeps
    where
      checked-Keeps :
          (r : Response (Failure Err) (Unit {0}))
          → Keeps {E = E} {A = Unit {0}} (elim r [
            | ok _ ↦ pure tt
            | err cluster_config_not_ready ↦ throw cluster_config_not_ready
            | err cluster_config_no_local_hub ↦ throw cluster_config_no_local_hub
            | err (failure e) ↦ do
              set_status init waiting
              set_reason init (E.error e) "get rainbond cluster config failure"
              dropped ← try update_cr_status
              throw (failure e)
          ])
      checked-Keeps (ok _) = Steady-Keeps _ (pure-Steady tt)
      checked-Keeps (err cluster_config_not_ready) = Steady-Keeps _ (throw-Steady _)
      checked-Keeps (err cluster_config_no_local_hub) = Steady-Keeps _ (throw-Steady _)
      checked-Keeps (err (failure e)) = seq-Keeps _ _ (set_status_init-Keeps waiting) (
          Steady-Keeps _ (
            seq-Steady _ _ (set_reason-Steady init _ _) (
              bind-Steady _ _ (try-Steady _ (update_cr_status-Steady echo))
                (λ dropped. throw-Steady _))))

  set_init_status-Keeps : Keeps {E = E} set_init_status
  unfolding set_init_status condition modify
  set_init_status-Keeps = bind-Keeps _ _ (Steady-Keeps _ condition-Steady) started
    where
      condition-Steady : Steady {E = E} (condition init)
      condition-Steady = record { steady = λ s u. refl }

      overwrite-Keeps : Keeps {E = E} (
          modify (λ s. with_conditions (overwrite_status init completed s.pkg.status.conditions) s))
      overwrite-Keeps = record {
        keeps = λ s o. overwrite_status-IsOrdered s.pkg.status.conditions o;
      }

      started :
          (found : Option PackageCondition)
          → Keeps {E = E} {A = Unit {0}} (elim found [
            | none ↦ pure tt
            | some con ↦ if con.status == completed then pure tt else (do
              modify
                  (λ s. with_conditions (overwrite_status init completed s.pkg.status.conditions) s)
              update_cr_status)
          ])
      started none = Steady-Keeps _ (pure-Steady tt)
      started (some con) = elim (Bool-cases (con.status == completed)) [
        | inl p ↦ rw p (Steady-Keeps _ (pure-Steady tt))
        | inr p ↦
            rw p (seq-Keeps _ _ overwrite-Keeps (Steady-Keeps _ (update_cr_status-Steady echo)))
      ]

  pub handle_init-Keeps : Keeps {E = E} handle_init
  unfolding handle_init note_failure try
  handle_init-Keeps = bind-Keeps _ _ try-Keeps started-Keeps
    where
      try-Keeps : Keeps {E = E} (try set_init_status)
      try-Keeps = record { keeps = set_init_status-Keeps.keeps }

      started-Keeps :
          (r : Response (Failure Err) (Unit {0}))
          → Keeps {E = E} {A = Unit {0}} (elim r [
            | ok _ ↦ pure tt
            | err e ↦ note_failure init (text E e) "set init status failure" >> throw e
          ])
      started-Keeps (ok _) = Steady-Keeps _ (pure-Steady tt)
      started-Keeps (err e) =
          seq-Keeps _ _
            (seq-Keeps _ _ (set_status_init-Keeps failed) (
              Steady-Keeps _
                (seq-Steady _ _ (set_reason-Steady init _ _) (update_try-Steady echo))))
            (Steady-Keeps _ (throw-Steady e))
