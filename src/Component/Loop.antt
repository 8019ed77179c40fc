-- ===== src/Component/Loop.antt =====
-- controllers/rbdcomponent_controller.go: `Reconcile` as a whole.
use rainbond_operator.Base.{String, Option, none, some, ◌<>◌, if◌then◌else◌}
use rainbond_operator.Api.{RainbondCluster}
use rainbond_operator.Kube.{no_requeue, requeue_now, requeue_in, Client, ok, err, Handler}
use rainbond_operator.Component.Flow.{
  State, Step, M, stop, ◌>>=◌, ◌>>◌, pure, return, call, get_cpt,
}
use rainbond_operator.Component.Status.{is_component_ready}
use rainbond_operator.Component.Manager.{
  report, update_status, set_config_completed_condition, set_package_ready_condition,
  generate_status, delete_resources,
}
use rainbond_operator.Component.Reconcile.{
  HandlerFuncs, not_ready, find_cluster, find_package, check_package, run_before, ask, create_owned,
  create_unowned, set_replicaser, update_resources, run_after, find_pods,
}

module _ {C : Client} where
  -- What is asked of the cluster before the handler is made.
  unfoldable pub prepare : M C RainbondCluster
  prepare = do
    cluster ← find_cluster
    set_config_completed_condition
    pkg ← find_package cluster
    set_package_ready_condition pkg
    check_package cluster pkg
    pure cluster

  -- What the handler wants of the cluster: its objects deleted, created and updated.
  unfoldable pub apply_handler : Handler C → M C (Unit {0})
  apply_handler h = do
    run_before h
    unwanted ← ask h.resources_need_delete
    delete_resources unwanted
    owned ← ask h.resources_create_if_not_exists
    create_owned owned
    scoped ← ask h.create_cluster_scoped
    create_unowned scoped
    set_replicaser h
    resources ← call h.resources
    update_resources resources
    run_after h

  -- The status at the end; an error of the write is only logged.
  unfoldable pub finish : Handler C → M C (Unit {0})
  finish h = do
    pods ← find_pods h
    generate_status pods
    ignored ← update_status
    cpt ← get_cpt
    if is_component_ready cpt then return no_requeue none else return (requeue_in 5) none

  -- `Reconcile` from the look-up of the handler on.
  unfoldable pub reconcile_component : String → HandlerFuncs C → M C (Unit {0})
  reconcile_component supported handler_funcs = do
    cpt ← get_cpt
    elim (handler_funcs cpt.name) [
      | none ↦
          report
            (not_ready "UnsupportedType"
              ("only supports the following types of rbdcomponent: " <> supported))
            no_requeue no_requeue none
      | some fn ↦ do
        cluster ← prepare
        cpt' ← get_cpt
        apply_handler (fn cpt' cluster)
        finish (fn cpt' cluster)
    ]

  -- `Reconcile` of a request for `namespace`/`name`; `supported` is the text of
  -- `supportedComponents()`. The component that it worked on is handed back as well.
  unfoldable pub reconcile :
      String → HandlerFuncs C → String → String → C.World → Step C.Err (Unit {0}) × Option (State C)
  reconcile supported handler_funcs namespace name w =
      let (found, w') = C.get_component namespace name w in
      elim found [
        | ok cpt ↦
            let (r, s) =
              reconcile_component supported handler_funcs
                (record { cpt = cpt; replicaser = none; world = w' }) in
            (r, some s)
        | err e ↦
            (if C.is_not_found e then stop no_requeue none else stop requeue_now (some e), none)
      ]
