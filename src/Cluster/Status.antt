-- ===== src/Cluster/Status.antt =====
-- controllers/cluster-mgr/cluster_mgr.go: `GenerateRainbondClusterStatus` and what it lists.
use rainbond_operator.Base.{
  String, Bool, true, false, none, some, List, [], ◌∷◌, map, ◌==◌, string_eq, if◌then◌else◌,
}
use rainbond_operator.Api.{ClusterStatus, ClusterCondition, K8sNode, StorageClassInfo}
use rainbond_operator.Kube.{ok, err}
use rainbond_operator.Kube.Action.{◌>>=◌, pure, get}
use rainbond_operator.Cluster.Checks.{str_ltb}
use rainbond_operator.Cluster.Nodes.{
  get_master_role_label, mater_role_label, to_k8s_nodes, filter_nodes_with_port_conflicts,
}
use rainbond_operator.Cluster.Generate.{generate_conditions}
use rainbond_operator.Cluster.Env.{Env, C, call}

-- `RdbHubCredentialsName`.
abbrev pub rdb_hub_credentials_name : String
rdb_hub_credentials_name = "rbd-hub-credentials"

abbrev pub read_write_once : String
read_write_once = "ReadWriteOnce"

abbrev pub read_write_many : String
read_write_many = "ReadWriteMany"

abbrev pub provisioner_access_modes : List (String × String)
provisioner_access_modes =
    ("kubernetes.io/aws-ebs", read_write_once)
    ∷ ("kubernetes.io/azure-disk", read_write_once)
    ∷ ("kubernetes.io/azure-file", read_write_many)
    ∷ ("kubernetes.io/cephfs", read_write_many)
    ∷ ("kubernetes.io/cinder", read_write_once)
    ∷ ("kubernetes.io/fc", read_write_once)
    ∷ ("kubernetes.io/flocker", read_write_once)
    ∷ ("kubernetes.io/gce-pd", read_write_once)
    ∷ ("kubernetes.io/glusterfs", read_write_many)
    ∷ ("kubernetes.io/iscsi", read_write_once)
    ∷ ("kubernetes.io/nfs", read_write_many)
    ∷ ("kubernetes.io/portworx-volume", read_write_many)
    ∷ ("kubernetes.io/quobyte", read_write_many)
    ∷ ("kubernetes.io/rbd", read_write_many)
    ∷ ("kubernetes.io/scaleio", read_write_many)
    ∷ ("kubernetes.io/storageos", read_write_many)
    ∷ ("cpfsplugin.csi.alibabacloud.com", read_write_many)
    ∷ ("diskplugin.csi.alibabacloud.com", read_write_once)
    ∷ ("alicloud/disk", read_write_once)
    ∷ ("lvmplugin.csi.alibabacloud.com", read_write_many)
    ∷ ("memplugin.csi.alibabacloud.com", read_write_many)
    ∷ ("nasplugin.csi.alibabacloud.com", read_write_many)
    ∷ ("ossplugin.csi.alibabacloud.com", read_write_many)
    ∷ []

-- A map's value, and the empty text for a key that is not there.
unfoldable pub access_mode : List (String × String) → String → String
access_mode [] p = ""
access_mode ((k, mode) ∷ modes) p = if k == p then mode else access_mode modes p

-- The loop of `listStorageClasses`.
unfoldable pub to_storage_class : String × String → StorageClassInfo
unfolding access_mode
to_storage_class (name, provisioner) = record {
  name = name;
  provisioner = provisioner;
  access_mode = access_mode provisioner_access_modes provisioner;
}

-- What `sort.Sort` of the standard library gives by `Less` of k8sNodesSortByName, computed by
-- insertion: a node goes before the first one that is not `Less`. Names of nodes are unique, so
-- there is one sorted order.
unfoldable pub insert_by_name : K8sNode → List K8sNode → List K8sNode
insert_by_name n [] = n ∷ []
insert_by_name n (m ∷ ms) = if str_ltb m.name n.name then m ∷ insert_by_name n ms else n ∷ m ∷ ms

-- `sort.Sort(k8sNodesSortByName(k8sNodes))`.
unfoldable pub sort_by_name : List K8sNode → List K8sNode
unfolding insert_by_name
sort_by_name [] = []
sort_by_name (n ∷ ns) = insert_by_name n (sort_by_name ns)

module _ {E : Env} where
  open E use {World, Err}

  -- `getMasterRoleLabel`: an error is logged only.
  unfoldable pub find_master_role_label : C E String
  find_master_role_label = do
    listed ← call (E.list_nodes [])
    elim listed [
      | err e ↦ pure ""
      | ok nodes ↦ pure (get_master_role_label (map (λ n. n.label_keys) nodes))
    ]

  -- `listStorageClasses`.
  unfoldable pub list_storage_classes : C E (List StorageClassInfo)
  unfolding to_storage_class
  list_storage_classes = do
    listed ← call E.list_storage_classes
    elim listed [ err e ↦ pure [] | ok classes ↦ pure (map to_storage_class classes) ]

  -- `listNodesByLabels`.
  unfoldable pub list_nodes_by_labels : List (String × String) → C E (List K8sNode)
  unfolding sort_by_name
  list_nodes_by_labels labels = do
    listed ← call (E.list_nodes labels)
    elim listed [
      | err e ↦ pure []
      | ok nodes ↦ pure (sort_by_name (to_k8s_nodes (map (λ n. (n.name, n.addresses)) nodes)))
    ]

  -- `listMasterNodes`.
  unfoldable pub list_master_nodes : String → C E (List K8sNode)
  unfolding list_nodes_by_labels
  list_master_nodes key = list_nodes_by_labels (mater_role_label key)

  -- `rbdutil.FilterNodesWithPortConflicts` of the nodes that a method lists.
  unfoldable pub without_conflicts : C E (List K8sNode) → C E (List K8sNode)
  without_conflicts list = do
    nodes ← list
    s ← get
    pure (filter_nodes_with_port_conflicts (E.is_port_occupied s.world) nodes)

  -- `listMasterNodesForGateway`.
  unfoldable pub list_master_nodes_for_gateway : String → C E (List K8sNode)
  unfolding without_conflicts list_master_nodes
  list_master_nodes_for_gateway key = without_conflicts (list_master_nodes key)

  -- `listSpecifiedGatewayNodes`.
  unfoldable pub list_specified_gateway_nodes : C E (List K8sNode)
  unfolding without_conflicts list_nodes_by_labels
  list_specified_gateway_nodes =
      without_conflicts (list_nodes_by_labels (("rainbond.io/gateway", "") ∷ []))

  -- `listSpecifiedChaosNodes`.
  unfoldable pub list_specified_chaos_nodes : C E (List K8sNode)
  unfolding list_nodes_by_labels
  list_specified_chaos_nodes = list_nodes_by_labels (("rainbond.io/chaos", "") ∷ [])

  -- `checkIfImagePullSecretExists`.
  unfoldable pub check_if_image_pull_secret_exists : C E Bool
  check_if_image_pull_secret_exists = do
    s ← get
    found ← call (E.get_secret s.cluster.namespace rdb_hub_credentials_name)
    elim found [ err e ↦ pure false | ok secret ↦ pure true ]

  -- `generateConditions`, which changes the cluster's own conditions.
  unfoldable pub generate_own_conditions : C E (List ClusterCondition)
  generate_own_conditions s =
      let cluster = s.cluster in
      let status = cluster.status in
      let (cs, w) =
        generate_conditions (E.prechecks cluster) cluster.spec (status.conditions, s.world) in
      (
        ok cs,
        record {
          cluster = record cluster { status = record status { conditions = cs } };
          world = w;
        },
      )

  -- The nodes with the master's label, if there is one.
  unfoldable pub masters : String → (String → C E (List K8sNode)) → C E (List K8sNode)
  masters label list = if label == "" then pure [] else list label

  -- `GenerateRainbondClusterStatus`; its error is never made.
  unfoldable pub generate_rainbond_cluster_status : C E ClusterStatus
  unfolding find_master_role_label list_storage_classes check_if_image_pull_secret_exists masters
      list_master_nodes_for_gateway list_specified_gateway_nodes list_specified_chaos_nodes
      generate_own_conditions
  generate_rainbond_cluster_status = do
    label ← find_master_role_label
    classes ← list_storage_classes
    has_secret ← check_if_image_pull_secret_exists
    for_gateway ← masters label list_master_nodes_for_gateway
    for_chaos ← masters label list_master_nodes
    gateway ← list_specified_gateway_nodes
    chaos ← list_specified_chaos_nodes
    conditions ← generate_own_conditions
    pure (record {
      master_role_label = label;
      storage_classes = classes;
      image_pull_secret = if has_secret then some rdb_hub_credentials_name else none;
      gateway_available_nodes =
          some (record { specified_nodes = gateway; master_nodes = for_gateway });
      chaos_available_nodes = some (record { specified_nodes = chaos; master_nodes = for_chaos });
      conditions = conditions;
    })
