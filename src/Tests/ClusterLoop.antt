-- ===== src/Tests/ClusterLoop.antt =====
-- A cluster on a server that keeps one secret.
use rainbond_operator.Base.{
  String, false, Option, none, some, List, [], ◌∷◌, ◌==◌, string_eq, ◌≡◌, ◌↔◌, ◌⊎◌, refl, sym, ap,
}
use mathlib.Core.List.{Permᴰ}
use rainbond_operator.Conditions.{
  condition_true, update_condition, get_condition, get_condition_from,
}
use rainbond_operator.Api.{RainbondCluster, ImageHub, ClusterStatus, K8sNode}
use rainbond_operator.Kube.{Response, ok, err, no_requeue}
use rainbond_operator.Kube.Action.{◌>>=◌, ◌>>◌, pure, throw, get}
use rainbond_operator.Cluster.Checks.{passed}
use rainbond_operator.Cluster.Generate.{
  Prechecks, all_true, generate_conditions, run_check, run_until_true, is_condition_true, when,
}
use rainbond_operator.Cluster.Nodes.{get_master_role_label}
use rainbond_operator.Cluster.Env.{Env, Node, Secret, panic, Mgr, call, check}
use rainbond_operator.Cluster.Status.{list_nodes_by_labels, generate_rainbond_cluster_status}
use rainbond_operator.Cluster.Manager.{
  create_image_pull_secret, create_foobar_pvc_if_not_exists, generate_docker_config, data_at,
  write_secret, pull_secret, wanted_class,
}
use rainbond_operator.Cluster.Loop.{returned, use_status, reconcile}
use rainbond_operator.Cluster.Sorted.{IsSorted, listed_nodes, list_nodes_by_labels-IsSorted}
use rainbond_operator.Cluster.PullSecret.{SecretStore, create_image_pull_secret-twice}
use rainbond_operator.Cluster.Claim.{HasNoClass, create_foobar_pvc_if_not_exists-panic_iff}
use rainbond_operator.Cluster.Reads.{with_conditions, generate_rainbond_cluster_status_lem}
use rainbond_operator.Cluster.Done.{IsMissing, IsDone, reconcile-IsDone}
use rainbond_operator.Tests.Cluster.{spec}

abbrev hub : ImageHub
hub = record { domain = "goodrain.me"; namespace = ""; username = "admin"; password = "12345678" }

abbrev pub cluster : RainbondCluster
cluster = record {
  namespace = "rbd-system";
  name = "rainbondcluster";
  spec = record spec { image_hub = some hub };
  status = record {
    master_role_label = "";
    storage_classes = [];
    image_pull_secret = none;
    gateway_available_nodes = none;
    chaos_available_nodes = none;
    conditions = [];
  };
}

-- The world is the secret; no cluster is there.
abbrev secret_answer : Option Secret → String → String → Response String Secret
secret_answer none namespace name = err "not found"
secret_answer (some s) namespace name = ok s

abbrev all_pass : Prechecks (Option Secret)
all_pass = record {
  now = λ w. (0, w);
  print = λ n. "some";
  list_rbd_components = λ w. (ok [], w);
  check_database = λ w. (passed, w);
  check_image_repo = λ w. (passed, w);
  check_k8s_version = λ w. (passed, w);
  check_storage = λ w. (passed, w);
  check_dns = λ w. (passed, w);
  check_memory = λ w. (passed, w);
  check_container_network = λ w. (passed, w);
}

abbrev node : String → Node
node name = record { name = name; label_keys = []; addresses = [] }

abbrev secret_env : Env
secret_env = record {
  World = Option Secret;
  Err = String;
  is_not_found = λ e. e == "not found";
  is_already_exists = λ e. e == "already exists";
  error = λ e. e;
  errorf = λ e. e;
  get_cluster = λ namespace name w. (err "not found", w);
  update_cluster = λ c w. (ok c, w);
  update_cluster_status = λ c w. (ok c, w);
  retry_on_conflict = λ A f w. f w;
  list_nodes = λ labels w. (ok (node "b" ∷ node "a" ∷ []), w);
  list_storage_classes = λ w. (ok [], w);
  get_secret = λ namespace name w. (secret_answer w namespace name, w);
  create_secret = λ s w. (none, some s);
  update_secret = λ s w. (none, some s);
  get_pvc = λ namespace name w. (
    ok (record {
      namespace = namespace;
      name = name;
      labels = [];
      access_modes = [];
      storage_class_name = none;
      storage_request = 1;
    }),
    w,
  );
  create_pvc = λ p w. (none, w);
  delete_pvc = λ p w. (none, w);
  set_controller_reference = λ c s. ok s;
  base64 = λ t. t;
  marshal_auths = λ domain auth. domain;
  new_password = λ w. ("12345678", w);
  is_port_occupied = λ w ip port. false;
  prechecks = λ c. all_pass;
}

same_owner : (a b : Secret) → ◌≡◌ {A = Response String Secret} (ok a) (ok b) → a ≡ b
same_owner a b h = cc

-- Reading with any key answers with the one secret.
secret_store : SecretStore secret_env
secret_store = record {
  get_created = λ secret w h. refl;
  get_updated = λ secret w h. refl;
  get_again = λ namespace name w. refl;
  owned = λ c secret owned h.
      let e = same_owner secret owned h in
      (ap (λ x. x.namespace) (sym e), ap (λ x. x.name) (sym e), ap (λ x. x.secret_data) (sym e));
}

abbrev start : Mgr secret_env
start = record { cluster = cluster; world = none }

first_written : (create_image_pull_secret hub start).0 ≡ ok tt
unfolding create_image_pull_secret write_secret pull_secret generate_docker_config data_at ◌>>=◌
    ◌>>◌ pure throw get call
first_written = refl

create_image_pull_secret-twice_example :
    create_image_pull_secret hub (create_image_pull_secret hub start).1
    ≡ (ok tt, let s = (create_image_pull_secret hub start).1 in record s { world = s.world })
create_image_pull_secret-twice_example =
    create_image_pull_secret-twice secret_store hub start first_written

create_foobar_pvc_if_not_exists-panic_iff_example :
    ((create_foobar_pvc_if_not_exists start).0 ≡ err panic) ↔ HasNoClass start
create_foobar_pvc_if_not_exists-panic_iff_example = create_foobar_pvc_if_not_exists-panic_iff start

list_nodes_by_labels-IsSorted_example :
    (nodes : List K8sNode) × ((list_nodes_by_labels [] start).0 ≡ ok nodes)
    × IsSorted nodes
    × Permᴰ nodes (listed_nodes {Err = String} (ok (node "b" ∷ node "a" ∷ [])))
list_nodes_by_labels-IsSorted_example = list_nodes_by_labels-IsSorted [] start

-- A cluster that runs, with a claim of the class that it wants.
abbrev running_cluster : RainbondCluster
running_cluster =
    let status = cluster.status in
    record cluster {
      status = record status {
        conditions =
            record {
              typ3 = "Running";
              status = condition_true;
              last_transition_time = 0;
              reason = "";
              message = "";
              extra = 0;
            }
            ∷ [];
      };
    }

abbrev running_env : Env
running_env = record secret_env {
  get_cluster = λ namespace name w. (ok running_cluster, w);
  get_pvc = λ namespace name w. (
    ok (record {
      namespace = namespace;
      name = name;
      labels = [];
      access_modes = [];
      storage_class_name = some "";
      storage_request = 1;
    }),
    w,
  );
}

run_quiet : (reconcile running_env "rbd-system" "rainbondcluster" none).0 ≡ returned no_requeue none
unfolding reconcile create_image_pull_secret write_secret pull_secret generate_docker_config data_at
    ◌>>=◌ ◌>>◌ pure throw get call check update_condition get_condition get_condition_from all_true
    generate_conditions run_check run_until_true is_condition_true when
    generate_rainbond_cluster_status use_status create_foobar_pvc_if_not_exists wanted_class
    get_master_role_label
run_quiet = refl

reconcile-IsDone_example :
    IsMissing running_env "rbd-system" "rainbondcluster" none
    ⊎ IsDone running_env "rbd-system" "rainbondcluster" none
reconcile-IsDone_example =
    reconcile-IsDone running_env "rbd-system" "rainbondcluster" none run_quiet

generate_rainbond_cluster_status_lem_example :
    (status : ClusterStatus) × (w : Option Secret) × (generate_rainbond_cluster_status start
      ≡ (ok status, with_conditions status.conditions (record start { world = w })))
generate_rainbond_cluster_status_lem_example = generate_rainbond_cluster_status_lem start
