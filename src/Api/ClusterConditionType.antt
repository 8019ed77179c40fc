-- ===== src/Api/ClusterConditionType.antt =====
-- The condition types of api/v1alpha1/rainbondcluster_types.go.
use rainbond_operator.Base.{String}

abbrev pub database_region : String
database_region = "DatabaseRegion"

abbrev pub image_repository : String
image_repository = "ImageRepository"

abbrev pub kubernetes_version : String
kubernetes_version = "KubernetesVersion"

abbrev pub storage : String
storage = "Storage"

abbrev pub dns : String
dns = "DNS"

abbrev pub container_network : String
container_network = "ContainerNetwork"

abbrev pub running : String
running = "Running"

abbrev pub memory : String
memory = "Memory"
