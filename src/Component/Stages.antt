-- ===== src/Component/Stages.antt =====
-- What the stages of `Reconcile` return, those before the last ones.
use rainbond_operator.Base.{Option, none, some, List, [], ◌∷◌, refl, arith}
use rainbond_operator.Api.{RainbondCluster, RainbondPackage}
use rainbond_operator.Kube.{
  no_requeue, requeue_now, Client, Object, Response, ok, err, Handler, Result,
}
use rainbond_operator.Component.Flow.{◌>>=◌, pure, call, crash}
use rainbond_operator.Component.Manager.{
  set_config_completed_condition, set_package_ready_condition, check_prerequisites,
  resource_create_if_not_exists, update_or_create_resource, delete_resource_if_exists,
  delete_resources, report,
}
use rainbond_operator.Component.Reconcile.{
  not_ready, find_cluster, find_package, check_package, run_before, ask, own, create_if_not_exists,
  create_owned, create_unowned, set_replicaser, update_or_create, update_resources, run_after,
  find_pods,
}
use rainbond_operator.Component.Loop.{prepare, apply_handler}
use rainbond_operator.Component.Quiet.{
  NeverQuiet, bind_loud, seq_loud, pure_loud, call_loud, get_cpt_loud, return_loud, if_loud,
  update_component_condition_loud, update_status_loud, report_later_loud, report_error_loud,
}

module _ {C : Client} where
  open C use {World, Err, Body}

  find_cluster_loud : NeverQuiet (find_cluster {C = C})
  unfolding find_cluster
  find_cluster_loud = bind_loud get_cpt_loud λ cpt. bind_loud (call_loud _) (elim [
    | err e ↦ report_later_loud _
    | ok cluster ↦ if_loud cluster.spec.config_completed (pure_loud _) (report_later_loud _)
  ])

  set_config_completed_condition_loud : NeverQuiet (set_config_completed_condition {C = C})
  unfolding set_config_completed_condition
  set_config_completed_condition_loud =
      bind_loud (call_loud _) λ now. bind_loud (update_component_condition_loud _) λ b. pure_loud tt

  find_package_loud : (cluster : RainbondCluster) → NeverQuiet (find_package {C = C} cluster)
  unfolding find_package
  find_package_loud cluster = if_loud _ (pure_loud _) (
      bind_loud get_cpt_loud λ cpt.
        bind_loud (call_loud _) (elim [ err e ↦ report_later_loud _ | ok pkg ↦ pure_loud _ ]))

  set_package_ready_condition_loud :
      (pkg : Option RainbondPackage) → NeverQuiet (set_package_ready_condition {C = C} pkg)
  unfolding set_package_ready_condition
  set_package_ready_condition_loud pkg =
      bind_loud (call_loud _) λ now. bind_loud (update_component_condition_loud _) λ b. pure_loud tt

  check_prerequisites_loud :
      (cluster : RainbondCluster) (pkg : Option RainbondPackage)
      → NeverQuiet (check_prerequisites {C = C} cluster pkg)
  unfolding check_prerequisites
  check_prerequisites_loud cluster pkg = record { loud = λ s. ground arith }

  check_package_loud :
      (cluster : RainbondCluster) (pkg : Option RainbondPackage)
      → NeverQuiet (check_package {C = C} cluster pkg)
  unfolding check_package
  check_package_loud cluster pkg =
      bind_loud (check_prerequisites_loud cluster pkg)
        λ passed. if_loud passed (pure_loud tt) (report_later_loud _)

  pub prepare_loud : NeverQuiet (prepare {C = C})
  unfolding prepare
  prepare_loud = bind_loud find_cluster_loud λ cluster.
      seq_loud set_config_completed_condition_loud (
        bind_loud (find_package_loud cluster) λ pkg.
          seq_loud (set_package_ready_condition_loud pkg)
            (seq_loud (check_package_loud cluster pkg) (pure_loud cluster)))

  run_before_loud : (h : Handler C) → NeverQuiet (run_before h)
  unfolding run_before
  run_before_loud h =
      bind_loud (call_loud _) (elim [ none ↦ pure_loud tt | some e ↦ report_later_loud _ ])

  ask_loud : (f : Option (World → List (Option (Object Body)) × World)) → NeverQuiet (ask {C = C} f)
  unfolding ask
  ask_loud none = pure_loud []
  ask_loud (some f) = call_loud f

  delete_resource_if_exists_loud :
      (o : Object Body) → NeverQuiet (delete_resource_if_exists {C = C} o)
  unfolding delete_resource_if_exists
  delete_resource_if_exists_loud o =
      bind_loud (call_loud _)
        (elim [ none ↦ pure_loud none | some e ↦ if_loud _ (pure_loud none) (pure_loud (some e)) ])

  delete_resources_loud :
      (os : List (Option (Object Body))) → NeverQuiet (delete_resources {C = C} os)
  unfolding delete_resources
  delete_resources_loud [] = pure_loud tt
  delete_resources_loud (none ∷ os) = delete_resources_loud os
  delete_resources_loud (some o ∷ os) =
      let rest = delete_resources_loud os in
      bind_loud (delete_resource_if_exists_loud o) (elim [
        | none ↦ rest
        | some e ↦ bind_loud (call_loud _) λ now. bind_loud (update_component_condition_loud _) λ b.
            if_loud b
              (bind_loud get_cpt_loud λ cpt. seq_loud (call_loud _) (
                bind_loud update_status_loud
                  (elim [ none ↦ return_loud _ _ refl | some f ↦ return_loud _ _ refl ])))
              (return_loud _ _ refl)
      ])

  own_loud : (o : Object Body) → NeverQuiet (own {C = C} o)
  unfolding own
  own_loud o = bind_loud get_cpt_loud λ cpt. go (C.set_controller_reference cpt o)
    where
      go :
          (r : Response Err (Object Body))
          → NeverQuiet {C = C} (elim r [
            | ok owned ↦ pure owned
            | err e ↦
                report
                  (not_ready "SetControllerReferenceFailed" (C.error e))
                  requeue_now
                  no_requeue
                  (some e)
          ])
      go (ok owned) = pure_loud owned
      go (err e) = report_error_loud _ _ e

  resource_create_if_not_exists_loud :
      (o : Object Body) → NeverQuiet (resource_create_if_not_exists {C = C} o)
  unfolding resource_create_if_not_exists
  resource_create_if_not_exists_loud o =
      bind_loud (call_loud _)
        (elim [ ok _ ↦ pure_loud none | err e ↦ if_loud _ (call_loud _) (pure_loud (some e)) ])

  create_if_not_exists_loud : (o : Object Body) → NeverQuiet (create_if_not_exists {C = C} o)
  unfolding create_if_not_exists
  create_if_not_exists_loud o =
      bind_loud (resource_create_if_not_exists_loud o)
        (elim [ none ↦ pure_loud tt | some e ↦ report_error_loud _ _ e ])

  create_owned_loud : (os : List (Option (Object Body))) → NeverQuiet (create_owned {C = C} os)
  unfolding create_owned
  create_owned_loud [] = pure_loud tt
  create_owned_loud (none ∷ os) = create_owned_loud os
  create_owned_loud (some o ∷ os) =
      bind_loud (own_loud o)
        λ owned. seq_loud (create_if_not_exists_loud owned) (create_owned_loud os)

  create_unowned_loud : (os : List (Option (Object Body))) → NeverQuiet (create_unowned {C = C} os)
  unfolding create_unowned
  create_unowned_loud [] = pure_loud tt
  create_unowned_loud (none ∷ os) = create_unowned_loud os
  create_unowned_loud (some o ∷ os) =
      seq_loud (create_if_not_exists_loud o) (create_unowned_loud os)

  set_replicaser_loud : (h : Handler C) → NeverQuiet (set_replicaser h)
  unfolding set_replicaser
  set_replicaser_loud h = record { loud = λ s. ground arith }

  update_or_create_resource_loud :
      (o : Object Body) → NeverQuiet (update_or_create_resource {C = C} o)
  unfolding update_or_create_resource ◌>>=◌ call pure crash
  update_or_create_resource_loud o = record { loud = λ s. ground arith }

  update_or_create_loud : (o : Object Body) → NeverQuiet (update_or_create {C = C} o)
  unfolding update_or_create
  update_or_create_loud o =
      bind_loud (update_or_create_resource_loud o) λ answer. go answer.0 answer.1
    where
      go :
          (result : Result) (failure : Option Err)
          → NeverQuiet {C = C} (elim failure [
            | none ↦ pure tt
            | some e ↦
                report (not_ready "ErrCreateResources" (C.error e)) requeue_now result (some e)
          ])
      go result none = pure_loud tt
      go result (some e) = report_error_loud _ _ e

  update_resources_loud :
      (os : List (Option (Object Body))) → NeverQuiet (update_resources {C = C} os)
  unfolding update_resources
  update_resources_loud [] = pure_loud tt
  update_resources_loud (none ∷ os) = update_resources_loud os
  update_resources_loud (some o ∷ os) =
      bind_loud (own_loud o)
        λ owned. seq_loud (update_or_create_loud owned) (update_resources_loud os)

  run_after_loud : (h : Handler C) → NeverQuiet (run_after h)
  unfolding run_after
  run_after_loud h =
      bind_loud (call_loud _) (elim [ none ↦ pure_loud tt | some e ↦ report_error_loud _ _ e ])

  pub find_pods_loud : (h : Handler C) → NeverQuiet (find_pods h)
  unfolding find_pods
  find_pods_loud h =
      bind_loud (call_loud _) (elim [ ok pods ↦ pure_loud pods | err e ↦ report_error_loud _ _ e ])

  pub apply_handler_loud : (h : Handler C) → NeverQuiet (apply_handler h)
  unfolding apply_handler
  apply_handler_loud h = seq_loud (run_before_loud h) (
      bind_loud (ask_loud _) λ unwanted. seq_loud (delete_resources_loud unwanted) (
        bind_loud (ask_loud _) λ owned. seq_loud (create_owned_loud owned) (
          bind_loud (ask_loud _) λ scoped. seq_loud (create_unowned_loud scoped) (
            seq_loud (set_replicaser_loud h) (
              bind_loud (call_loud _)
                λ resources. seq_loud (update_resources_loud resources) (run_after_loud h))))))
