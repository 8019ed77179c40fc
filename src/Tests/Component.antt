-- ===== src/Tests/Component.antt =====
-- A component with one pod, in a world where every call succeeds.
use rainbond_operator.Base.{
  ℕ, String, true, false, Option, none, some, [], ◌∷◌, ◌==◌, string_eq, ◌≡◌, refl, ◌↔◌, ◌⊎◌, ap,
}
use rainbond_operator.Conditions.{
  condition_true, get_condition, get_condition_from, set_condition, update_condition,
}
use rainbond_operator.Conditions.Find.{find}
use rainbond_operator.Api.{RbdComponent, RainbondCluster}
use rainbond_operator.Kube.{
  Client, Object, Kind, service_monitor, job, Pod, Response, ok, err, Handler, no_requeue,
}
use rainbond_operator.Component.Flow.{
  State, Step, stop, panic, ◌>>=◌, ◌>>◌, pure, return, call, get_cpt, put_cpt,
}
use rainbond_operator.Component.Objects.{object_can_update}
use rainbond_operator.Component.Status.{
  is_pod_ready, count_ready, with_ready_condition, package_ready_condition, wanted_replicas,
  generated, is_component_ready,
}
use rainbond_operator.Component.Manager.{
  update_component_condition, update_status, set_config_completed_condition,
  set_package_ready_condition, check_prerequisites, generate_status, update_or_create_resource,
  delete_resources,
}
use rainbond_operator.Component.Reconcile.{
  HandlerFuncs, find_cluster, find_package, check_package, run_before, ask, create_owned,
  create_unowned, set_replicaser, update_resources, run_after, find_pods,
}
use rainbond_operator.Component.Loop.{
  prepare, apply_handler, finish, reconcile_component, reconcile,
}
use rainbond_operator.Component.Settled.{IsReady, reconcile-settles}
use rainbond_operator.Component.Counted.{
  IsWanted, Counts, find-generated, is_component_ready-generated,
}
use rainbond_operator.Component.Updates.{
  IsProtected, GetsKind, object_can_update-IsProtected, update_or_create_resource-panic_iff,
}
use rainbond_operator.Tests.Cluster.{spec}

abbrev pub component : RbdComponent
component = record {
  namespace = "rbd-system";
  name = "rbd-mq";
  spec = record { replicas = none; priority_component = true; image_pull_policy = "" };
  status = record { replicas = 0; ready_replicas = 0; conditions = []; pods = [] };
}

abbrev pub cluster : RainbondCluster
cluster = record {
  namespace = "rbd-system";
  name = "rainbondcluster";
  spec = record spec { install_mode = "FullOnline" };
  status = record {
    master_role_label = "";
    storage_classes = [];
    image_pull_secret = none;
    gateway_available_nodes = none;
    chaos_available_nodes = none;
    conditions = [];
  };
}

abbrev pod : Pod
pod = record {
  name = "rbd-mq-0";
  conditions = record { typ3 = "Ready"; status = condition_true; reason = "" } ∷ [];
}

abbrev pub object : Kind → String → Object (Unit {0})
object kind name = record {
  kind = kind;
  namespace = "rbd-system";
  name = name;
  annotations = [];
  resource_version = "7";
  cluster_ip = "";
  body = tt;
}

-- Every object is there.
abbrev client : Client
client = record {
  World = ℕ;
  Err = String;
  Body = Unit {0};
  is_not_found = λ e. e == "not found";
  is_already_exists = λ e. e == "already exists";
  error = λ e. e;
  now = λ w. (w, w);
  get_component = λ namespace name w. (ok component, w);
  get_cluster = λ namespace name w. (ok cluster, w);
  get_package = λ namespace name w. (err "not found", w);
  get_object = λ kind namespace name w. (ok (object kind name), w);
  create = λ o w. (none, w);
  update = λ o w. (none, w);
  delete = λ o w. (none, w);
  update_component_status = λ c w. (ok c, w);
  event = λ c reason message w. w;
  set_controller_reference = λ c o. ok o;
  retry_on_conflict = λ A f w. f w;
}

abbrev handler : Handler client
handler = record {
  before = λ w. (none, w);
  resources_need_delete = none;
  resources_create_if_not_exists = none;
  create_cluster_scoped = none;
  replicas = none;
  resources = λ w. ([], w);
  after = λ w. (none, w);
  list_pods = λ w. (ok (pod ∷ []), w);
}

abbrev handler_funcs : HandlerFuncs client
handler_funcs name = some (λ c cluster. handler)

abbrev run : Step String (Unit {0}) × Option (State client)
run = reconcile "rbd-mq" handler_funcs "rbd-system" "rbd-mq" 5

run_settled : run.0 ≡ stop no_requeue none
unfolding reconcile reconcile_component prepare apply_handler finish find_cluster find_package
    check_package set_config_completed_condition set_package_ready_condition package_ready_condition
    check_prerequisites update_component_condition update_condition get_condition get_condition_from
    run_before ask delete_resources create_owned create_unowned set_replicaser update_resources
    run_after find_pods generate_status generated count_ready is_pod_ready wanted_replicas
    update_status with_ready_condition is_component_ready ◌>>=◌ ◌>>◌ pure return call get_cpt
    put_cpt set_condition
run_settled = refl

reconcile-settles_example :
    ((e : String) × ((client.get_component "rbd-system" "rbd-mq" 5).0 ≡ err e)
      × (client.is_not_found e ≡ true))
    ⊎ (((c : RbdComponent) × ((client.get_component "rbd-system" "rbd-mq" 5).0 ≡ ok c)
          × (handler_funcs c.name ≡ none))
        ⊎ ((s' : State client) × (run.1 ≡ some s') × IsReady s'.cpt))
reconcile-settles_example =
    reconcile-settles "rbd-mq" handler_funcs "rbd-system" "rbd-mq" 5
      (ap (λ r. (r, run.1)) run_settled) refl refl

-- Two replicas are wanted and one is ready, so `Ready` is left as it was.
find-generated_example :
    find "Ready" (generated 9 (some 2) (pod ∷ []) component).status.conditions ≡ none
unfolding count_ready wanted_replicas is_pod_ready
find-generated_example = find-generated 9 (some 2) (pod ∷ []) component "Ready"

is_component_ready-generated_example :
    (is_component_ready (generated 9 none (pod ∷ []) component) ≡ true)
    ↔ ((n : ℕ) × IsWanted none none n × Counts (pod ∷ []) n)
is_component_ready-generated_example = is_component_ready-generated 9 none (pod ∷ []) component

object_can_update-IsProtected_example :
    (object_can_update (object job "migrate") ≡ false) ↔ IsProtected (object job "migrate")
object_can_update-IsProtected_example = object_can_update-IsProtected (object job "migrate")

abbrev start : State client
start = record { cpt = component; replicaser = none; world = 5 }

gets_kind : GetsKind client
gets_kind kind namespace name w o h = kind_of (object kind name) o h
  where
    kind_of :
        (a b : Object (Unit {0}))
        → ◌≡◌ {A = Response String (Object (Unit {0}))} (ok a) (ok b)
        → b.kind ≡ a.kind
    kind_of a b h = cc

update_or_create_resource-panic_iff_example :
    ((update_or_create_resource {C = client} (object service_monitor "rbd-mq") start).0 ≡ panic) ↔ (
      (old : Object (Unit {0})) × (◌≡◌ {A = Response String (Object (Unit {0}))}
        (ok (object service_monitor "rbd-mq"))
        (ok old))
      × (¬ IsProtected old)
      × (service_monitor ≡ service_monitor))
update_or_create_resource-panic_iff_example =
    update_or_create_resource-panic_iff (object service_monitor "rbd-mq") start gets_kind
