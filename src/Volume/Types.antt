-- ===== src/Volume/Types.antt =====
-- api/v1alpha1/rainbondvolume_types.go, and what the volume reconciler writes of a StorageClass.
use rainbond_operator.Base.{ℕ, String, Option, List}
use rainbond_operator.Conditions.{Condition}

pub record AliyunCloudDisk : Type 0 where
  pub access_key_id : String
  pub access_key_secret : String
  pub max_volume_per_node : String

pub record AliyunNas : Type 0 where
  pub access_key_id : String
  pub access_key_secret : String

pub record Nfs : Type 0 where

-- `Parameters` is a map, with each key once.
pub record StorageClassParameters : Type 0 where
  pub mount_options : List String
  pub provisioner : String
  pub parameters : List (String × String)

pub record CsiPluginSource : Type 0 where
  pub aliyun_cloud_disk : Option AliyunCloudDisk
  pub aliyun_nas : Option AliyunNas
  pub nfs : Option Nfs

pub record VolumeSpec : Type 0 where
  pub storage_class_name : String
  pub storage_class_parameters : Option StorageClassParameters
  pub csi_plugin : Option CsiPluginSource
  pub storage_request : Option ℕ
  pub image_repository : String

-- `RainbondVolumeReady`.
abbrev pub volume_ready : String
volume_ready = "Ready"

abbrev pub VolumeCondition : Type 0
VolumeCondition = Condition String (Unit {0})

pub record VolumeStatus : Type 0 where
  pub conditions : List VolumeCondition

pub record RainbondVolume : Type 0 where
  pub namespace : String
  pub name : String
  pub resource_version : ℕ
  pub labels : List (String × String)
  pub annotations : List (String × String)
  pub spec : VolumeSpec
  pub status : VolumeStatus

pub record StorageClass : Type 0 where
  pub name : String
  pub labels : List (String × String)
  pub mount_options : List String
  pub provisioner : String
  pub parameters : List (String × String)
  pub reclaim_policy : String
