-- ===== src/Api/InstallMode.antt =====
-- The installation modes of api/v1alpha1/rainbondcluster_types.go.
use rainbond_operator.Base.{String}

abbrev pub full_online : String
full_online = "FullOnline"

abbrev pub offline : String
offline = "Offline"
