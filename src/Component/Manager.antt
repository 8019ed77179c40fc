-- ===== src/Component/Manager.antt =====
-- controllers/component-mgr/component.go: the operations of `RbdcomponentMgr`. Log lines are left
-- out.
use rainbond_operator.Base.{
  ℕ, Bool, true, Option, none, some, List, [], ◌∷◌, ◌==◌, string_eq, if◌then◌else◌,
}
use rainbond_operator.Conditions.{condition_true, condition_false, update_condition}
use rainbond_operator.Api.{RbdComponent, ComponentCondition, RainbondCluster, RainbondPackage}
use rainbond_operator.Api.ComponentConditionType.{cluster_config_completed, rbd_component_ready}
use rainbond_operator.Api.InstallMode.{full_online}
use rainbond_operator.Kube.{Client, Object, Pod, ok, err, Result, no_requeue, requeue_now}
use rainbond_operator.Component.Flow.{
  next, panic, M, ◌>>=◌, ◌>>◌, pure, return, call, get_cpt, put_cpt, crash,
}
use rainbond_operator.Component.Objects.{object_can_update, update_runtime_object}
use rainbond_operator.Component.Status.{
  new_condition, with_conditions, check_package_status, with_ready_condition,
  package_ready_condition, generated,
}

module _ {C : Client} where
  open C use {World, Err, Body}

  -- `cpt.Status.UpdateCondition(condition)`.
  unfoldable pub update_component_condition : ComponentCondition → M C Bool
  update_component_condition c = do
    now ← call C.now
    cpt ← get_cpt
    let (cs, changed) = update_condition now c cpt.status.conditions
    put_cpt (with_conditions cpt cs)
    pure changed

  -- `UpdateStatus`.
  unfoldable pub update_status : M C (Option Err)
  update_status = do
    now ← call C.now
    cpt ← get_cpt
    put_cpt (with_ready_condition now cpt)
    answer ← call (
        C.retry_on_conflict RbdComponent (C.update_component_status (with_ready_condition now cpt)))
    elim answer [ ok written ↦ put_cpt written >> pure none | err e ↦ pure (some e) ]

  -- `SetConfigCompletedCondition`.
  unfoldable pub set_config_completed_condition : M C (Unit {0})
  set_config_completed_condition = do
    now ← call C.now
    changed ←
        update_component_condition
          (new_condition now cluster_config_completed condition_true "ConfigCompleted" "")
    pure tt

  -- `SetPackageReadyCondition`.
  unfoldable pub set_package_ready_condition : Option RainbondPackage → M C (Unit {0})
  set_package_ready_condition pkg = do
    now ← call C.now
    changed ← update_component_condition (package_ready_condition now pkg)
    pure tt

  -- `CheckPrerequisites`; it panics on a nil package in an install mode that has one.
  unfoldable pub check_prerequisites : RainbondCluster → Option RainbondPackage → M C Bool
  unfolding check_package_status
  check_prerequisites cluster pkg s =
      if s.cpt.spec.priority_component
      then (next true, s)
      else if cluster.spec.install_mode == full_online
      then (next true, s)
      else elim pkg [
        | none ↦ (panic, s)
        | some p ↦ (next (check_package_status p.status.conditions), s)
      ]

  -- What the code does after a failure, in eleven places: it sets the condition, and only if that
  -- changed the status, emits an event and writes the status, and returns `noted` with the error
  -- of that write; else it returns `kept` and `e`.
  unfoldable pub report :
      {A : Type 0} → (ℕ → ComponentCondition) → Result → Result → Option Err → M C A
  report condition noted kept e = do
    now ← call C.now
    changed ← update_component_condition (condition now)
    if changed
        then (do
          cpt ← get_cpt
          call (λ w. (tt, C.event cpt (condition now).reason (condition now).message w))
          failure ← update_status
          return noted failure)
        else return kept e

  -- `GenerateStatus`.
  unfoldable pub generate_status : List Pod → M C (Unit {0})
  generate_status pods s = elim s.replicaser [
    | none ↦
        let (now, w) = C.now s.world in
        (next tt, record s { cpt = generated now none pods s.cpt; world = w })
    | some replicas ↦
        let (asked, w) = replicas s.world in
        let (now, w') = C.now w in
        (next tt, record s { cpt = generated now asked pods s.cpt; world = w' })
  ]

  -- `ResourceCreateIfNotExists`.
  unfoldable pub resource_create_if_not_exists : Object Body → M C (Option Err)
  resource_create_if_not_exists o = do
    found ← call (C.get_object o.kind o.namespace o.name)
    elim found [
      | ok _ ↦ pure none
      | err e ↦ if C.is_not_found e then call (C.create o) else pure (some e)
    ]

  -- `UpdateOrCreateResource`.
  unfoldable pub update_or_create_resource : Object Body → M C (Result × Option Err)
  unfolding object_can_update update_runtime_object
  update_or_create_resource o = do
    found ← call (C.get_object o.kind o.namespace o.name)
    elim found [
      | err e ↦
          if C.is_not_found e
          then (do
            failure ← call (C.create o)
            elim failure [ some f ↦ pure (no_requeue, some f) | none ↦ pure (requeue_now, none) ])
          else pure (no_requeue, some e)
      | ok old ↦
          if object_can_update old
          then elim (update_runtime_object old o) [
            | none ↦ crash
            | some merged ↦ do failure ← call (C.update merged); pure (no_requeue, failure)
          ]
          else pure (no_requeue, none)
    ]

  -- `deleteResourcesIfExists`.
  unfoldable pub delete_resource_if_exists : Object Body → M C (Option Err)
  delete_resource_if_exists o = do
    failure ← call (C.delete o)
    elim failure [
      | none ↦ pure none
      | some e ↦ if C.is_not_found e then pure none else pure (some e)
    ]

  -- The loop of `DeleteResources`, with what `Reconcile` does with its answer: an error of the
  -- status write is returned with `reconcile.Result{}`.
  unfoldable pub delete_resources : List (Option (Object Body)) → M C (Unit {0})
  delete_resources [] = pure tt
  delete_resources (none ∷ os) = delete_resources os
  delete_resources (some o ∷ os) = do
    failure ← delete_resource_if_exists o
    elim failure [
      | none ↦ delete_resources os
      | some e ↦ do
        now ← call C.now
        let c =
            new_condition now rbd_component_ready condition_false "ErrDeleteResource" (C.error e)
        changed ← update_component_condition c
        if changed
            then (do
              cpt ← get_cpt
              call (λ w. (tt, C.event cpt c.reason c.message w))
              write_failure ← update_status
              elim write_failure [
                | none ↦ return requeue_now none
                | some f ↦ return no_requeue (some f)
              ])
            else return no_requeue (some e)
    ]
