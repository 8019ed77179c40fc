-- ===== src/Cluster/Nodes.antt =====
-- controllers/cluster-mgr/cluster_mgr.go: the label of the master nodes and the nodes that are
-- offered for the gateway and for rbd-chaos; `MaterRoleLabel` of util/k8sutil/k8sutil.go,
-- `FilterNodesWithPortConflicts` of util/rbdutil/rbdutil.go, and the gateway's addresses of
-- api/v1alpha1/rainbondcluster_types.go.
pub mod MasterRole
use rainbond_operator.Base.{
  ℕ, String, Bool, true, false, not, ◌&&◌, ◌||◌, Option, none, some, List, [], ◌∷◌, ◌++◌, map, ◌==◌,
  string_eq, if◌then◌else◌,
}
use rainbond_operator.Api.{K8sNode, ClusterSpec}

abbrev pub master_label : String
master_label = "node-role.kubernetes.io/master"

abbrev pub role_label : String
role_label = "kubernetes.io/role"

-- The loop over the keys of a node's labels, in the order in which the map yields them.
unfoldable pub scan_keys : List String → String → String
scan_keys [] label = label
scan_keys (key ∷ keys) label =
    let found : String = if key == master_label then key else label in
    scan_keys keys
      (if key == role_label then (if found == master_label then found else key) else found)

-- The loop over the nodes.
unfoldable pub scan_nodes : List (List String) → String → String
unfolding scan_keys
scan_nodes [] label = label
scan_nodes (node ∷ nodes) label = scan_nodes nodes (scan_keys node label)

-- `getMasterRoleLabel`, from the keys of the labels of each node.
unfoldable pub get_master_role_label : List (List String) → String
unfolding scan_nodes
get_master_role_label nodes = scan_nodes nodes ""

-- `MaterRoleLabel`; no labels for another key.
unfoldable pub mater_role_label : String → List (String × String)
mater_role_label key =
    if key == master_label
    then (key, "") ∷ []
    else if key == role_label
    then (key, "master") ∷ []
    else []

pub record NodeAddress : Type 0 where
  pub typ3 : String
  pub address : String

-- `findIP`.
unfoldable pub find_ip : String → List NodeAddress → String
find_ip t [] = ""
find_ip t (a ∷ addresses) = if a.typ3 == t then a.address else find_ip t addresses

-- The loop of `listNodesByLabels` over the names and addresses of the nodes, before they are sorted.
unfoldable pub to_k8s_nodes : List (String × List NodeAddress) → List K8sNode
unfolding find_ip
to_k8s_nodes [] = []
to_k8s_nodes ((name, addresses) ∷ nodes) =
    record {
      name = name;
      internal_ip = find_ip "InternalIP" addresses;
      external_ip = find_ip "ExternalIP" addresses;
    }
    ∷ to_k8s_nodes nodes

abbrev pub gateway_ports : List ℕ
gateway_ports = 80 ∷ 443 ∷ 10254 ∷ 18080 ∷ 18081 ∷ 8443 ∷ 6060 ∷ 7070 ∷ []

-- The inner loop of `FilterNodesWithPortConflicts`; `is_port_occupied` dials an address and a port.
unfoldable pub ports_free : (String → ℕ → Bool) → String → List ℕ → Bool
ports_free is_port_occupied ip [] = true
ports_free is_port_occupied ip (port ∷ ports) =
    if is_port_occupied ip port then false else ports_free is_port_occupied ip ports

unfoldable pub filter_nodes_with_port_conflicts : (String → ℕ → Bool) → List K8sNode → List K8sNode
unfolding ports_free
filter_nodes_with_port_conflicts is_port_occupied [] = []
filter_nodes_with_port_conflicts is_port_occupied (node ∷ nodes) =
    let rest = filter_nodes_with_port_conflicts is_port_occupied nodes in
    if ports_free is_port_occupied node.internal_ip gateway_ports then node ∷ rest else rest

-- `InnerGatewayIngressIP`, `GatewayIngressIP` and `GatewayIngressIPs`.
abbrev pub first_node_ip : List K8sNode → Option String
first_node_ip [] = none
first_node_ip (n ∷ _) = some n.internal_ip

abbrev pub first_custom_ip : List String → Option String
first_custom_ip [] = none
first_custom_ip (ip ∷ _) = if ip == "" then none else some ip

unfoldable pub inner_gateway_ingress_ip : ClusterSpec → String
inner_gateway_ingress_ip spec = elim (first_node_ip spec.nodes_for_gateway) [
  | some ip ↦ ip
  | none ↦ elim (first_custom_ip spec.gateway_ingress_ips) [ some ip ↦ ip | none ↦ "" ]
]

unfoldable pub gateway_ingress_ip : ClusterSpec → String
gateway_ingress_ip spec = elim (first_custom_ip spec.gateway_ingress_ips) [
  | some ip ↦ ip
  | none ↦ elim (first_node_ip spec.nodes_for_gateway) [ some ip ↦ ip | none ↦ "" ]
]

unfoldable pub gateway_ingress_ips : ClusterSpec → List String
gateway_ingress_ips spec = elim (first_custom_ip spec.gateway_ingress_ips) [
  | some ip ↦ spec.gateway_ingress_ips
  | none ↦ map (λ n. n.internal_ip) spec.nodes_for_gateway
]
