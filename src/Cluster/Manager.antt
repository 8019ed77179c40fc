-- ===== src/Cluster/Manager.antt =====
-- controllers/cluster-mgr/cluster_mgr.go: `CreateImagePullSecret` and `CreateFoobarPVCIfNotExists`,
-- with the claim of util/k8sutil/k8sutil.go.
use rainbond_operator.Base.{
  String, Bool, true, false, not, Option, none, some, List, [], ◌∷◌, ◌==◌, string_eq, ◌<>◌,
  if◌then◌else◌,
}
use rainbond_operator.Api.{RainbondCluster, ClusterSpec, ImageHub}
use rainbond_operator.Kube.{ok, err}
use rainbond_operator.Kube.Action.{◌>>=◌, ◌>>◌, pure, throw, get}
use rainbond_operator.Merge.{labels_for_rainbond}
use rainbond_operator.Cluster.Env.{Env, Secret, Pvc, panic, failure, C, call, check}
use rainbond_operator.Cluster.Status.{rdb_hub_credentials_name, read_write_many}

abbrev pub docker_config_key : String
docker_config_key = ".dockerconfigjson"

-- `value, exist := secret.Data[key]`.
unfoldable pub data_at : String → List (String × String) → Option String
data_at key [] = none
data_at key ((k, v) ∷ entries) = if k == key then some v else data_at key entries

abbrev pub is_text : String → Option String → Bool
is_text text none = false
is_text text (some t) = t == text

abbrev pub is_empty : Option String → Bool
is_empty none = true
is_empty (some t) = t == ""

-- `generateDockerConfig`, for the cluster's image hub.
unfoldable pub generate_docker_config : (E : Env) → ImageHub → String
generate_docker_config E hub = E.marshal_auths hub.domain (
    ("username", hub.username)
    ∷ ("password", hub.password)
    ∷ ("auth", E.base64 (hub.username <> ":" <> hub.password))
    ∷ [])

-- The name of the class that the claims shall have.
unfoldable pub wanted_class : ClusterSpec → String
wanted_class spec = elim spec.rainbond_volume_spec_rwx [ none ↦ "" | some name ↦ name ]

-- `PersistentVolumeClaimForGrdata` with the arguments of `createPVCForFoobar`.
unfoldable pub foobar_pvc : String → String → Pvc
foobar_pvc namespace storage_class_name = record {
  namespace = namespace;
  name = "foobar";
  labels = labels_for_rainbond [];
  access_modes = read_write_many ∷ [];
  storage_class_name = some storage_class_name;
  storage_request = 1;
}

-- The secret that `CreateImagePullSecret` writes, before it has an owner.
unfoldable pub pull_secret : RainbondCluster → String → Secret
pull_secret cluster config = record {
  namespace = cluster.namespace;
  name = rdb_hub_credentials_name;
  secret_data = (docker_config_key, config) ∷ [];
  typ3 = "kubernetes.io/dockerconfigjson";
}

module _ {E : Env} where
  open E use {World, Err}

  abbrev pub create_failed : Err → C E (Unit {0})
  create_failed e = throw (failure (E.errorf ("create secret for pulling images: " <> E.error e)))

  -- The rest of `CreateImagePullSecret`, with the new docker config.
  unfoldable pub write_secret : String → C E (Unit {0})
  unfolding pull_secret
  write_secret config = do
    s ← get
    elim (E.set_controller_reference s.cluster (pull_secret s.cluster config)) [
      | err e ↦ throw (
          failure (
            E.errorf (
              "set controller reference for secret "
              <> rdb_hub_credentials_name
              <> ": "
              <> E.error e)))
      | ok secret ↦ do
        created ← call (E.create_secret secret)
        elim created [
          | none ↦ pure tt
          | some e ↦ if not (E.is_already_exists e) then create_failed e else do
            updated ← call (E.update_secret secret)
            elim updated [ none ↦ pure tt | some f ↦ create_failed f ]
        ]
    ]

  -- `CreateImagePullSecret`, for the cluster's image hub.
  unfoldable pub create_image_pull_secret : ImageHub → C E (Unit {0})
  unfolding generate_docker_config data_at write_secret
  create_image_pull_secret hub = do
    s ← get
    found ← call (E.get_secret s.cluster.namespace rdb_hub_credentials_name)
    elim found [
      | err e ↦
          if not (E.is_not_found e)
          then throw (failure e)
          else write_secret (generate_docker_config E hub)
      | ok secret ↦
          if is_text (generate_docker_config E hub) (data_at docker_config_key secret.secret_data)
          then pure tt
          else write_secret (generate_docker_config E hub)
    ]

  -- `createPVCForFoobar`: the error of the call, if it makes one.
  unfoldable pub create_pvc_for_foobar : String → C E (Option Err)
  unfolding foobar_pvc
  create_pvc_for_foobar storage_class_name = do
    s ← get
    if storage_class_name == ""
        then pure none
        else call (E.create_pvc (foobar_pvc s.cluster.namespace storage_class_name))

  -- `CreateFoobarPVCIfNotExists`: a claim whose class is a nil pointer makes it panic.
  unfoldable pub create_foobar_pvc_if_not_exists : C E (Unit {0})
  unfolding wanted_class create_pvc_for_foobar
  create_foobar_pvc_if_not_exists = do
    s ← get
    found ← call (E.get_pvc s.cluster.namespace "foobar")
    elim found [
      | err e ↦ if not (E.is_not_found e) then throw (failure e) else do
        created ← create_pvc_for_foobar (wanted_class s.cluster.spec)
        elim created [ none ↦ pure tt | some f ↦ throw (failure f) ]
      | ok pvc ↦ elim pvc.storage_class_name [
        | none ↦ throw panic
        | some class_name ↦ if class_name == wanted_class s.cluster.spec then pure tt else do
          check (E.delete_pvc pvc)
          created ← create_pvc_for_foobar (wanted_class s.cluster.spec)
          elim created [
            | none ↦ pure tt
            | some f ↦ if E.is_already_exists f then pure tt else throw (failure f)
          ]
      ]
    ]
