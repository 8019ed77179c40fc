-- ===== src/Api.antt =====
-- The custom resources (api/v1alpha1) and the built-in objects that the controllers read and
-- write, with the fields that they use. A pointer that may be nil is an `Option`; an `int32` count
-- is a number, and `metav1.Time` is a number too.
pub mod ComponentConditionType
pub mod ClusterConditionType
pub mod InstallMode
use rainbond_operator.Base.{
  ℕ, String, Bool, Option, none, some, List, [], ◌∷◌, if◌then◌else◌, ◌==◌, string_eq,
}
use rainbond_operator.Conditions.{ConditionStatus, Condition, condition_true}

abbrev pub ComponentCondition : Type 0
ComponentCondition = Condition String (Unit {0})

pub record ComponentStatus : Type 0 where
  pub replicas : ℕ
  pub ready_replicas : ℕ
  pub conditions : List ComponentCondition
  pub pods : List String

pub record ComponentSpec : Type 0 where
  pub replicas : Option ℕ
  pub priority_component : Bool
  pub image_pull_policy : String

pub record RbdComponent : Type 0 where
  pub namespace : String
  pub name : String
  pub spec : ComponentSpec
  pub status : ComponentStatus

-- `ImagePullPolicy`.
unfoldable pub image_pull_policy : RbdComponent → String
image_pull_policy c =
    if c.spec.image_pull_policy == "" then "IfNotPresent" else c.spec.image_pull_policy

-- `extra` is `LastHeartbeatTime`.
abbrev pub ClusterCondition : Type 0
ClusterCondition = Condition String ℕ

pub record ImageHub : Type 0 where
  pub domain : String
  pub namespace : String
  pub username : String
  pub password : String

pub record K8sNode : Type 0 where
  pub name : String
  pub internal_ip : String
  pub external_ip : String

pub record StorageClassInfo : Type 0 where
  pub name : String
  pub provisioner : String
  pub access_mode : String

pub record AvailableNodes : Type 0 where
  pub specified_nodes : List K8sNode
  pub master_nodes : List K8sNode

-- `Database`.
pub record Database : Type 0 where
  pub host : String
  pub port : ℕ
  pub username : String
  pub password : String
  pub name : String

-- `EtcdConfig`.
pub record EtcdConfig : Type 0 where
  pub endpoints : List String
  pub secret_name : String

-- `rainbond_volume_spec_rwx` holds the storage class name of `RainbondVolumeSpecRWX`.
pub record ClusterSpec : Type 0 where
  pub config_completed : Bool
  pub install_mode : String
  pub install_version : String
  pub ci_version : String
  pub rainbond_image_repository : String
  pub sentinel_image : String
  pub image_hub : Option ImageHub
  pub region_database : Option Database
  pub etcd_config : Option EtcdConfig
  pub rainbond_volume_spec_rwx : Option String
  pub nodes_for_gateway : List K8sNode
  pub nodes_for_chaos : List K8sNode
  pub gateway_ingress_ips : List String

pub record ClusterStatus : Type 0 where
  pub master_role_label : String
  pub storage_classes : List StorageClassInfo
  pub image_pull_secret : Option String
  pub gateway_available_nodes : Option AvailableNodes
  pub chaos_available_nodes : Option AvailableNodes
  pub conditions : List ClusterCondition

pub record RainbondCluster : Type 0 where
  pub namespace : String
  pub name : String
  pub spec : ClusterSpec
  pub status : ClusterStatus

-- rainbondpackage_types.go.
pub data PackageConditionType : Type 0 where
  init download_package unpack_package push_image ready : PackageConditionType

pub data PackageConditionStatus : Type 0 where
  waiting running completed failed : PackageConditionStatus

pub record PackageCondition : Type 0 where
  pub typ3 : PackageConditionType
  pub status : PackageConditionStatus
  pub last_heartbeat_time : ℕ
  pub last_transition_time : ℕ
  pub reason : String
  pub message : String
  pub progress : ℕ

pub record PackageStatus : Type 0 where
  pub conditions : List PackageCondition
  pub images_number : ℕ
  pub images_pushed : List String

pub record RainbondPackage : Type 0 where
  pub namespace : String
  pub name : String
  pub resource_version : String
  pub pkg_path : String
  pub image_hub_user : String
  pub image_hub_pass : String
  pub status : PackageStatus
