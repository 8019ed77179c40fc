-- ===== src/Component/Status.antt =====
-- The status of a component: the pure parts of controllers/component-mgr/component.go, with
-- `NewRbdComponentCondition` of api/v1alpha1/rbdcomponent_types.go and `IsPodReady` of
-- util/k8sutil/k8sutil.go.
use rainbond_operator.Base.{
  ℕ, suc, String, Bool, true, false, ◌&&◌, Option, none, some, List, [], ◌∷◌, map, ◌==◌, nat_eq,
  string_eq, leb, if◌then◌else◌,
}
use rainbond_operator.Conditions.{
  ConditionStatus, condition_true, condition_false, status_eq, get_condition, set_condition,
  update_condition,
}
use rainbond_operator.Api.{
  RbdComponent, ComponentCondition, ComponentStatus, RainbondPackage, PackageCondition, ready,
  completed,
}
use rainbond_operator.Api.ComponentConditionType.{rainbond_package_ready, rbd_component_ready}
use rainbond_operator.Package.Status.{find_condition, type_eq, phase_eq}
use rainbond_operator.Kube.{Pod, PodCondition}

-- `NewRbdComponentCondition` at the time `now`.
abbrev pub new_condition : ℕ → String → ConditionStatus → String → String → ComponentCondition
new_condition now t status reason message = record {
  typ3 = t;
  status = status;
  last_transition_time = now;
  reason = reason;
  message = message;
  extra = tt;
}

abbrev pub with_conditions : RbdComponent → List ComponentCondition → RbdComponent
with_conditions c cs =
    let status = c.status in record c { status = record status { conditions = cs } }

unfoldable pub is_pod_ready : List PodCondition → Bool
is_pod_ready [] = false
is_pod_ready (c ∷ cs) =
    if c.typ3 == "Ready" && c.status == condition_true then true else is_pod_ready cs

-- `readyReplicas` in `GenerateStatus`.
unfoldable pub count_ready : List Pod → ℕ
unfolding is_pod_ready
count_ready [] = 0
count_ready (p ∷ ps) = if is_pod_ready p.conditions then suc (count_ready ps) else count_ready ps

-- `checkPackageStatus`: whether it returns no error.
unfoldable pub check_package_status : List PackageCondition → Bool
check_package_status [] = false
check_package_status (c ∷ cs) =
    if c.typ3 == ready && c.status == completed then true else check_package_status cs

-- The status that `UpdateStatus` writes has a condition `Ready`.
unfoldable pub with_ready_condition : ℕ → RbdComponent → RbdComponent
with_ready_condition now cpt = elim (get_condition rbd_component_ready cpt.status.conditions) [
  | some _ ↦ cpt
  | none ↦ with_conditions cpt (
      set_condition (new_condition now rbd_component_ready condition_false "" "")
        cpt.status.conditions)
]

-- The condition that `SetPackageReadyCondition` sets; `none` is a nil package.
unfoldable pub package_ready_condition : ℕ → Option RainbondPackage → ComponentCondition
package_ready_condition now none =
    new_condition now rainbond_package_ready condition_true "PackageReady" ""
package_ready_condition now (some pkg) = elim (find_condition ready pkg.status.conditions) [
  | none ↦ new_condition now rainbond_package_ready condition_false "PackageNotReady" ""
  | some c ↦
      if c.status == completed
      then new_condition now rainbond_package_ready condition_true "PackageReady" ""
      else new_condition now rainbond_package_ready condition_false "PackageNotReady" c.message
]

-- `status.Replicas` in `GenerateStatus`: the replicaser's number, else the specified one, else 1.
unfoldable pub wanted_replicas : Option ℕ → Option ℕ → ℕ
wanted_replicas (some n) specified = n
wanted_replicas none (some n) = n
wanted_replicas none none = 1

-- The rest of `GenerateStatus`, at the time `now`, where `asked` is what the replicaser gave.
unfoldable pub generated : ℕ → Option ℕ → List Pod → RbdComponent → RbdComponent
unfolding count_ready wanted_replicas
generated now asked pods cpt =
    let replicas = wanted_replicas asked cpt.spec.replicas in
    let counted : ComponentStatus = record {
      replicas = replicas;
      ready_replicas = count_ready pods;
      conditions = cpt.status.conditions;
      pods = map (λ p. p.name) pods;
    } in
    let is_ready = new_condition now rbd_component_ready condition_true "Ready" "" in
    record cpt {
      status =
          if leb replicas (count_ready pods)
          then record counted {
            conditions = (update_condition now is_ready cpt.status.conditions).0;
          }
          else counted;
    }

-- `IsRbdComponentReady`.
unfoldable pub is_component_ready : RbdComponent → Bool
is_component_ready cpt = elim (get_condition rbd_component_ready cpt.status.conditions) [
  | none ↦ false
  | some (_, c) ↦ c.status == condition_true && cpt.status.ready_replicas == cpt.status.replicas
]
