-- ===== src/Api/ComponentConditionType.antt =====
-- The condition types of api/v1alpha1/rbdcomponent_types.go.
use rainbond_operator.Base.{String}

abbrev pub cluster_config_completed : String
cluster_config_completed = "ClusterConfigCompeleted"

abbrev pub rainbond_package_ready : String
rainbond_package_ready = "RainbondPackageReady"

abbrev pub rbd_component_ready : String
rbd_component_ready = "Ready"
