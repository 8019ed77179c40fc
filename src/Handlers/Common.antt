-- ===== src/Handlers/Common.antt =====
-- controllers/handler/common.go, errors.go and uitls.go: databases, secrets, storage classes and
-- the other prerequisites of the handlers.
use rainbond_operator.Base.{
  String, Bool, true, false, not, Option, none, some, List, [], ◌∷◌, ◌==◌, string_eq, nat_eq, ◌<>◌,
  if◌then◌else◌,
}
use rainbond_operator.Api.{RbdComponent, RainbondCluster, Database, K8sNode}
use rainbond_operator.Kube.{Response, ok, err}
use rainbond_operator.Kube.Action.{◌>>=◌, pure, throw, try, modify}
use rainbond_operator.Merge.{label}
use rainbond_operator.Volume.Types.{RainbondVolume}
use rainbond_operator.Handlers.Env.{
  Env, Secret, Failure, ignore, failure, PvcParameters, H, call, call_or,
}

abbrev pub rainbond_volume_not_found : String
rainbond_volume_not_found = "rainbond volume not found"

abbrev pub db_name : String
db_name = "rbd-db"

abbrev pub region_database_name : String
region_database_name = "region"

-- `IsIgnoreError`.
unfoldable pub is_ignore_error : {Err : Type 0} → Failure Err → Bool
is_ignore_error (ignore msg) = true
is_ignore_error (failure e) = false

-- `IsRainbondVolumeNotFound`.
unfoldable pub is_rainbond_volume_not_found : {Err : Type 0} → Failure Err → Bool
is_rainbond_volume_not_found (ignore msg) = msg == rainbond_volume_not_found
is_rainbond_volume_not_found (failure e) = false

-- `err.Error()`.
abbrev pub text : (E : Env) → Failure E.Err → String
text E (ignore msg) = msg
text E (failure e) = E.error e

unfoldable pub labels_for_access_mode_rwx : List (String × String)
labels_for_access_mode_rwx = ("accessModes", "rwx") ∷ []

unfoldable pub labels_for_access_mode_rwo : List (String × String)
labels_for_access_mode_rwo = ("accessModes", "rwo") ∷ []

-- `storageClassNameFromRainbondVolume`, after the listing.
unfoldable pub first_class :
    {Err : Type 0} → Bool → List RainbondVolume → Response (Failure Err) PvcParameters
first_class rwo [] = err (ignore rainbond_volume_not_found)
first_class rwo (volume ∷ volumes) =
    if volume.spec.storage_class_name == ""
    then err (ignore "storage class not ready")
    else ok (record {
      storage_class_name = volume.spec.storage_class_name;
      storage_request = if rwo then none else some 1;
    })

-- `imagePullSecrets`: the names of the secrets.
unfoldable pub image_pull_secrets : RbdComponent → RainbondCluster → List String
image_pull_secrets cpt cluster =
    if cpt.spec.priority_component
    then []
    else elim cluster.status.image_pull_secret [ none ↦ [] | some name ↦ name ∷ [] ]

-- `etcdEndpoints`.
unfoldable pub etcd_endpoints : RainbondCluster → List String
etcd_endpoints cluster = elim cluster.spec.etcd_config [
  | none ↦ "http://rbd-etcd:2379" ∷ []
  | some config ↦ config.endpoints
]

-- `nodeAffnityNodesForChaos`: the node that the affinity names.
unfoldable pub node_affnity_nodes_for_chaos :
    (E : Env) → RainbondCluster → Response (Failure E.Err) K8sNode
node_affnity_nodes_for_chaos E cluster = elim cluster.spec.nodes_for_chaos [
  | [] ↦ err (failure (E.errorf "nodes for chaos not found"))
  | node ∷ nodes ↦ ok node
]

-- `db.Name = RegionDatabaseName` where it is empty.
abbrev pub with_name : Database → Database
with_name db = if db.name == "" then record db { name = region_database_name } else db

module _ {E : Env} where
  open E use {World, Err}

  unfoldable pub from_response : {A : Type 0} → Response (Failure Err) A → H E A
  from_response r s = (r, s)

  -- An error that `fmt.Errorf` wraps: it is no `IgnoreError` any more.
  unfoldable pub wrapped : {A : Type 0} → String → H E A → H E A
  wrapped prefix m = do
    r ← try m
    elim r [ ok a ↦ pure a | err e ↦ throw (failure (E.errorf (prefix <> text E e))) ]

  -- `getDefaultDBInfo`.
  unfoldable pub get_default_db_info : Option Database → String → String → H E Database
  unfolding label
  get_default_db_info (some db) namespace name = pure db
  get_default_db_info none namespace name = do
    found ← call (E.get_secret namespace name)
    elim found [
      | err e ↦
          if not (E.is_not_found e)
          then throw
              (failure (E.errorf ("get secret " <> name <> "/" <> namespace <> ": " <> E.error e)))
          else throw (ignore ("secret " <> name <> "/" <> namespace <> " not fount: " <> E.error e))
      | ok secret ↦ pure (record {
        host = "rbd-db-rw";
        port = 3306;
        username = label "mysql-user" secret.secret_data;
        password = label "mysql-password" secret.secret_data;
        name = "";
      })
    ]

  -- `etcdSecret`: none without TLS.
  unfoldable pub etcd_secret_of : RainbondCluster → H E (Option Secret)
  etcd_secret_of cluster = elim cluster.spec.etcd_config [
    | none ↦ pure none
    | some config ↦ if config.secret_name == "" then pure none else do
      secret ← call_or (E.get_secret cluster.namespace config.secret_name)
      pure (some secret)
  ]

  -- `storageClassNameFromRainbondVolume`.
  unfoldable pub storage_class_name_from_rainbond_volume : String → Bool → H E PvcParameters
  unfolding first_class from_response labels_for_access_mode_rwo labels_for_access_mode_rwx
  storage_class_name_from_rainbond_volume ns rwo = do
    volumes ←
        call_or (
          E.list_volumes ns
            (if rwo then labels_for_access_mode_rwo else labels_for_access_mode_rwx))
    from_response (first_class rwo volumes)

  -- `storageClassNameFromRainbondVolumeRWX`.
  unfoldable pub storage_class_name_from_rainbond_volume_rwx : String → H E PvcParameters
  unfolding storage_class_name_from_rainbond_volume
  storage_class_name_from_rainbond_volume_rwx ns = storage_class_name_from_rainbond_volume ns false

  -- `storageClassNameFromRainbondVolumeRWO`.
  unfoldable pub storage_class_name_from_rainbond_volume_rwo : String → H E PvcParameters
  unfolding storage_class_name_from_rainbond_volume storage_class_name_from_rainbond_volume_rwx
      is_rainbond_volume_not_found
  storage_class_name_from_rainbond_volume_rwo ns = do
    r ← try (storage_class_name_from_rainbond_volume ns true)
    elim r [
      | ok parameters ↦ pure parameters
      | err e ↦
          if not (is_rainbond_volume_not_found e)
          then throw e
          else storage_class_name_from_rainbond_volume_rwx ns
    ]

  -- `setStorageCassName`, for a handler with `SetStorageClassNameRWX` and for one with
  -- `SetStorageClassNameRWO`.
  unfoldable pub set_storage_cass_name_rwx : String → H E (Unit {0})
  unfolding storage_class_name_from_rainbond_volume_rwx
  set_storage_cass_name_rwx ns = do
    sc ← storage_class_name_from_rainbond_volume_rwx ns
    modify (λ s. record s { pvc_parameters_rwx = some sc })

  unfoldable pub set_storage_cass_name_rwo : String → H E (Unit {0})
  unfolding storage_class_name_from_rainbond_volume_rwo
  set_storage_cass_name_rwo ns = do
    sc ← storage_class_name_from_rainbond_volume_rwo ns
    modify (λ s. record s { pvc_parameters_rwo = some sc })

  -- `isEtcdAvailable`.
  unfoldable pub is_etcd_available : RbdComponent → RainbondCluster → H E (Unit {0})
  is_etcd_available cpt cluster = elim cluster.spec.etcd_config [
    | some config ↦ pure tt
    | none ↦ do
      dbcpt ← call_or (E.get_component cpt.namespace "rbd-etcd")
      if dbcpt.status.ready_replicas == 0
          then throw (failure (E.errorf "no ready replicas for rbdcomponent rbd-etcd"))
          else pure tt
  ]
