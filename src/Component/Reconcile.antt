-- ===== src/Component/Reconcile.antt =====
-- controllers/rbdcomponent_controller.go: `Reconcile`, in the order of its steps. Each step may
-- return from it. Log lines are left out; a text made by `fmt.Sprintf` is joined by `<>`.
use rainbond_operator.Base.{
  ℕ, String, Option, none, some, List, [], ◌∷◌, ◌==◌, string_eq, ◌<>◌, if◌then◌else◌,
}
use rainbond_operator.Conditions.{condition_false}
use rainbond_operator.Api.{RbdComponent, ComponentCondition, RainbondCluster, RainbondPackage}
use rainbond_operator.Api.ComponentConditionType.{
  cluster_config_completed, rainbond_package_ready, rbd_component_ready,
}
use rainbond_operator.Api.InstallMode.{full_online}
use rainbond_operator.Kube.{
  no_requeue, requeue_now, requeue_in, Client, Object, Pod, ok, err, Handler,
}
use rainbond_operator.Component.Flow.{M, next, ◌>>=◌, ◌>>◌, pure, call, get_cpt}
use rainbond_operator.Component.Status.{new_condition}
use rainbond_operator.Component.Manager.{
  report, check_prerequisites, resource_create_if_not_exists, update_or_create_resource,
}

-- A condition `Ready` that is false.
abbrev pub not_ready : String → String → ℕ → ComponentCondition
not_ready reason message now = new_condition now rbd_component_ready condition_false reason message

-- `HandlerFuncs`: `handlerFuncs` of controllers/add_handler.go, by the component's name.
abbrev pub HandlerFuncs : Client → Type 0
HandlerFuncs C = String → Option (RbdComponent → RainbondCluster → Handler C)

-- `clusterCondition`.
unfoldable pub cluster_condition : (C : Client) → C.Err → ℕ → ComponentCondition
cluster_condition C e now =
    if C.is_not_found e
    then new_condition now cluster_config_completed condition_false "ClusterNotFound"
        "rainbondcluster not found"
    else new_condition now cluster_config_completed condition_false "UnknownErr"
        ("failed to get rainbondcluster: " <> C.error e)

-- `packageCondition`.
unfoldable pub package_condition : (C : Client) → C.Err → ℕ → ComponentCondition
package_condition C e now =
    if C.is_not_found e
    then new_condition now rainbond_package_ready condition_false "PackageNotFound"
        "rainbondpackage not found"
    else new_condition now rainbond_package_ready condition_false "UnknownErr"
        ("failed to get rainbondpackage: " <> C.error e)

module _ {C : Client} where
  open C use {World, Err, Body}

  -- The cluster of the component, whose configuration has to be complete.
  unfoldable pub find_cluster : M C RainbondCluster
  find_cluster = do
    cpt ← get_cpt
    found ← call (C.get_cluster cpt.namespace "rainbondcluster")
    elim found [
      | err e ↦ report (cluster_condition C e) (requeue_in 3) (requeue_in 3) none
      | ok cluster ↦
          if cluster.spec.config_completed
          then pure cluster
          else report
              (λ now.
                new_condition now cluster_config_completed condition_false "ConfigNotCompleted"
                  "rainbondcluster configuration is not complete")
              (requeue_in 3) (requeue_in 3) none
    ]

  -- The package, in an install mode that has one.
  unfoldable pub find_package : RainbondCluster → M C (Option RainbondPackage)
  find_package cluster = if cluster.spec.install_mode == full_online then pure none else (do
    cpt ← get_cpt
    found ← call (C.get_package cpt.namespace "rainbondpackage")
    elim found [
      | err e ↦ report (package_condition C e) (requeue_in 3) (requeue_in 3) none
      | ok pkg ↦ pure (some pkg)
    ])

  unfoldable pub check_package : RainbondCluster → Option RainbondPackage → M C (Unit {0})
  check_package cluster pkg = do
    passed ← check_prerequisites cluster pkg
    if passed
        then pure tt
        else report (not_ready "PrerequisitesFailed" "failed to check prerequisites") (requeue_in 3)
            (requeue_in 3) none

  -- `hdl.Before()`.
  unfoldable pub run_before : Handler C → M C (Unit {0})
  run_before h = do
    failure ← call h.before
    elim failure [
      | none ↦ pure tt
      | some e ↦
          report (not_ready "PrerequisitesFailed" (C.error e)) (requeue_in 3) (requeue_in 3) none
    ]

  -- The objects of an optional interface; none where the handler has not got it.
  unfoldable pub ask :
      Option (World → List (Option (Object Body)) × World) → M C (List (Option (Object Body)))
  ask none = pure []
  ask (some f) = call f

  -- `controllerutil.SetControllerReference(cpt, res, scheme)`.
  unfoldable pub own : Object Body → M C (Object Body)
  own o = do
    cpt ← get_cpt
    elim (C.set_controller_reference cpt o) [
      | ok owned ↦ pure owned
      | err e ↦
          report (not_ready "SetControllerReferenceFailed" (C.error e)) requeue_now no_requeue
            (some e)
    ]

  unfoldable pub create_if_not_exists : Object Body → M C (Unit {0})
  create_if_not_exists o = do
    failure ← resource_create_if_not_exists o
    elim failure [
      | none ↦ pure tt
      | some e ↦ report (not_ready "ErrCreateResources" (C.error e)) requeue_now no_requeue (some e)
    ]

  -- The loop over `ResourcesCreateIfNotExists()`.
  unfoldable pub create_owned : List (Option (Object Body)) → M C (Unit {0})
  create_owned [] = pure tt
  create_owned (none ∷ os) = create_owned os
  create_owned (some o ∷ os) = do owned ← own o; create_if_not_exists owned; create_owned os

  -- The loop over `CreateClusterScoped()`.
  unfoldable pub create_unowned : List (Option (Object Body)) → M C (Unit {0})
  create_unowned [] = pure tt
  create_unowned (none ∷ os) = create_unowned os
  create_unowned (some o ∷ os) = do create_if_not_exists o; create_unowned os

  -- `mgr.SetReplicaser`.
  unfoldable pub set_replicaser : Handler C → M C (Unit {0})
  set_replicaser h s = elim h.replicas [
    | none ↦ (next tt, s)
    | some f ↦ (next tt, record s { replicaser = some f })
  ]

  unfoldable pub update_or_create : Object Body → M C (Unit {0})
  update_or_create o = do
    (result, failure) ← update_or_create_resource o
    elim failure [
      | none ↦ pure tt
      | some e ↦ report (not_ready "ErrCreateResources" (C.error e)) requeue_now result (some e)
    ]

  -- The loop over `hdl.Resources()`.
  unfoldable pub update_resources : List (Option (Object Body)) → M C (Unit {0})
  update_resources [] = pure tt
  update_resources (none ∷ os) = update_resources os
  update_resources (some o ∷ os) = do owned ← own o; update_or_create owned; update_resources os

  -- `hdl.After()`.
  unfoldable pub run_after : Handler C → M C (Unit {0})
  run_after h = do
    failure ← call h.after
    elim failure [
      | none ↦ pure tt
      | some e ↦ report (not_ready "ErrAfterProcess" (C.error e)) requeue_now requeue_now (some e)
    ]

  -- `hdl.ListPods()`.
  unfoldable pub find_pods : Handler C → M C (List Pod)
  find_pods h = do
    found ← call h.list_pods
    elim found [
      | ok pods ↦ pure pods
      | err e ↦ report (not_ready "ErrListPods" (C.error e)) requeue_now requeue_now (some e)
    ]
