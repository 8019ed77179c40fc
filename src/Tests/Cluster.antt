-- ===== src/Tests/Cluster.antt =====
-- A cluster whose checks answer at once.
use rainbond_operator.Base.{
  ℕ, String, true, false, none, some, [], ◌∷◌, string_eq, ◌≡◌, refl, ◌↔◌, ◌≤◌, arith, length, List,
}
use rainbond_operator.Conditions.{condition_true, condition_false}
use rainbond_operator.Conditions.Find.{find}
use rainbond_operator.Conditions.Update.{IsUnique}
use rainbond_operator.Api.{RbdComponent, ClusterCondition, ClusterSpec}
use rainbond_operator.Kube.{Response, ok}
use rainbond_operator.Cluster.Checks.{
  Verdict, passed, Node, master_node, check_memory, check_k8s_version,
}
use rainbond_operator.Cluster.Checks.Memory.{worker_memory, check_memory-passes_iff}
use rainbond_operator.Cluster.Checks.Versions.{version_1, check_k8s_version-minor}
use rainbond_operator.Cluster.Nodes.{get_master_role_label, master_label, role_label}
use rainbond_operator.Cluster.Nodes.MasterRole.{get_master_role_label_lem}
use rainbond_operator.Cluster.Generate.{Prechecks, generate_conditions, running_verdict}
use rainbond_operator.Cluster.Generate.Kept.{
  generate_conditions-sticky, generate_conditions-IsUnique,
}
use rainbond_operator.Cluster.Generate.Running.{AllUp, running_verdict-true_iff}
use rainbond_operator.Tests.Conditions.{condition_of, conditions, conditions-IsUnique}

abbrev failing : Verdict
failing = record { status = condition_false; reason = "Failed"; message = "" }

-- A world that counts the seconds; only the storage fails.
abbrev checks : Prechecks ℕ
checks = record {
  now = λ w. (w, w);
  print = λ n. "some";
  list_rbd_components = λ w. (ok [], w);
  check_database = λ w. (passed, w);
  check_image_repo = λ w. (failing, w);
  check_k8s_version = λ w. (failing, w);
  check_storage = λ w. (failing, w);
  check_dns = λ w. (passed, w);
  check_memory = λ w. (passed, w);
  check_container_network = λ w. (passed, w);
}

abbrev pub spec : ClusterSpec
spec = record {
  config_completed = true;
  install_mode = "Online";
  install_version = "v5.3.0";
  ci_version = "";
  rainbond_image_repository = "";
  sentinel_image = "";
  image_hub = none;
  region_database = none;
  etcd_config = none;
  rainbond_volume_spec_rwx = none;
  nodes_for_gateway = record { name = "n1"; internal_ip = "10.0.0.1"; external_ip = "" } ∷ [];
  nodes_for_chaos = [];
  gateway_ingress_ips = [];
}

abbrev version_ok : ClusterCondition
version_ok = condition_of "KubernetesVersion" condition_true 3 ""

-- The version's condition stays though the check would fail now.
generate_conditions-sticky_example :
    find "KubernetesVersion" (generate_conditions checks spec (version_ok ∷ conditions, 9)).0
    ≡ some version_ok
generate_conditions-sticky_example =
    generate_conditions-sticky checks "KubernetesVersion" spec (version_ok ∷ conditions, 9)
      version_ok (λ e. absurd (cc)) refl refl

generate_conditions-IsUnique_example : IsUnique (generate_conditions checks spec (conditions, 9)).0
generate_conditions-IsUnique_example =
    generate_conditions-IsUnique checks spec (conditions, 9) conditions-IsUnique

running_verdict-true_iff_example :
    ((running_verdict (λ n. "some") (ok [])).status ≡ condition_true) ↔ (
      (cs : List RbdComponent) × (◌≡◌ {A = Response String (List RbdComponent)} (ok []) (ok cs))
      × (10 ≤ length cs)
      × AllUp cs)
running_verdict-true_iff_example = running_verdict-true_iff (λ n. "some") (ok [])

abbrev workers : List Node
workers =
    record { unschedulable = false; label_keys = []; taints = []; memory = 3000000000 }
    ∷ record {
      unschedulable = false;
      label_keys = "kubernetes.io/hostname" ∷ "node-role.kubernetes.io/master" ∷ [];
      taints = record { key = "node-role.kubernetes.io/master"; effect = "NoSchedule" } ∷ [];
      memory = 4000000000;
    }
    ∷ record { unschedulable = true; label_keys = []; taints = []; memory = 8000000000 }
    ∷ []

workers_memory : worker_memory workers ≡ 3000000000
unfolding master_node
workers_memory = refl

check_memory-passes_iff_example :
    ((check_memory (λ n. "some") (ok workers)).status ≡ condition_true)
    ↔ (2147483648 ≤ worker_memory workers)
check_memory-passes_iff_example =
    check_memory-passes_iff (λ n. "some") workers (omega (arith, workers_memory))

-- A kubelet of version 1.9.0.
check_k8s_version-minor_example : check_k8s_version (ok (version_1 "9" ".0" ∷ [])) ≡ passed
check_k8s_version-minor_example = check_k8s_version-minor "9" ".0" [] (omega arith)

get_master_role_label_lem_example :
    get_master_role_label ((role_label ∷ []) ∷ (master_label ∷ role_label ∷ []) ∷ []) ≡ master_label
get_master_role_label_lem_example =
    get_master_role_label_lem ((role_label ∷ []) ∷ (master_label ∷ role_label ∷ []) ∷ [])
