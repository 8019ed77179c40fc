-- ===== src/Tests/Handlers.antt =====
-- Prerequisites of handlers on a server that keeps a list of volumes.
use rainbond_operator.Base.{
  ◌*◌, arith, String, true, false, none, some, List, [], ◌∷◌, ◌==◌, string_eq, if◌then◌else◌, ◌≡◌,
  refl,
}
use rainbond_operator.Api.{RbdComponent, Database}
use rainbond_operator.Kube.{ok, err}
use rainbond_operator.Kube.Action.{◌>>=◌, ◌>>◌, pure, throw, try, get, modify}
use rainbond_operator.Merge.{label, contains}
use rainbond_operator.Volume.Types.{RainbondVolume}
use rainbond_operator.Handlers.Env.{Env, PvcParameters, ignore, Prepared, call, call_or}
use rainbond_operator.Handlers.Common.{
  rainbond_volume_not_found, first_class, from_response, get_default_db_info,
  labels_for_access_mode_rwo, labels_for_access_mode_rwx, wrapped, set_storage_cass_name_rwx,
  storage_class_name_from_rainbond_volume, storage_class_name_from_rainbond_volume_rwx,
  storage_class_name_from_rainbond_volume_rwo,
}
use rainbond_operator.Handlers.Before.{
  rbd_worker, find_db, find_class_rwx, worker_before, before_of,
}
use rainbond_operator.Handlers.Classes.{
  chosen_class, storage_class_name_from_rainbond_volume_rwo_lem,
}
use rainbond_operator.Handlers.Ignored.{ignored_messages, before_of-ignored}
use rainbond_operator.Handlers.Claims.{create_persistent_volume_claim_rwo}
use rainbond_operator.Handlers.Claims.Sizes.{asked, create_persistent_volume_claim_rwo-size}
use rainbond_operator.Handlers.Ready.{HasClass, before_of-HasClass}
use rainbond_operator.Tests.ClusterLoop.{cluster}

-- The volumes with a label.
abbrev labelled : List (String × String) → List RainbondVolume → List RainbondVolume
unfolding label
labelled labels [] = []
labelled labels (v ∷ vs) =
    let rest = labelled labels vs in
    if label "accessModes" v.labels == label "accessModes" labels then v ∷ rest else rest

abbrev shelf_env : Env
shelf_env = record {
  World = List RainbondVolume;
  Err = String;
  is_not_found = λ e. e == "not found";
  error = λ e. e;
  errorf = λ e. e;
  get_secret = λ namespace name w. (err "not found", w);
  get_component = λ namespace name w. (err "not found", w);
  list_volumes = λ namespace labels w. (ok (labelled labels w), w);
  htpasswd = λ user password w. (ok user, w);
}

abbrev shared : RainbondVolume
shared = record {
  namespace = "rbd-system";
  name = "rainbondvolumerwx";
  resource_version = 1;
  labels = ("accessModes", "rwx") ∷ [];
  annotations = [];
  spec = record {
    storage_class_name = "nfs";
    storage_class_parameters = none;
    csi_plugin = none;
    storage_request = none;
    image_repository = "";
  };
  status = record { conditions = [] };
}

abbrev worker : RbdComponent
worker = record {
  namespace = "rbd-system";
  name = "rbd-worker";
  spec = record { replicas = none; priority_component = false; image_pull_policy = "" };
  status = record { replicas = 0; ready_replicas = 0; conditions = []; pods = [] };
}

abbrev region : Database
region = record {
  host = "10.0.0.9";
  port = 3306;
  username = "root";
  password = "12345678";
  name = "";
}

abbrev prepared : Prepared shelf_env
prepared = record {
  component = worker;
  cluster =
      let spec = cluster.spec in
      record cluster { spec = record spec { region_database = some region } };
  db = none;
  secret = none;
  etcd_secret = none;
  mysql_user = "";
  mysql_password = "";
  pvc_parameters_rwx = none;
  pvc_parameters_rwo = none;
  htpasswd = "";
  affinity = none;
  world = shared ∷ [];
}

storage_class_name_from_rainbond_volume_rwo_lem_example :
    (storage_class_name_from_rainbond_volume_rwo "rbd-system" prepared).0
    ≡ chosen_class [] (shared ∷ [])
unfolding labels_for_access_mode_rwo labels_for_access_mode_rwx label
storage_class_name_from_rainbond_volume_rwo_lem_example =
    storage_class_name_from_rainbond_volume_rwo_lem "rbd-system" prepared [] (shared ∷ [])
      (shared ∷ []) (shared ∷ []) refl refl

worker_starts : (before_of shelf_env rbd_worker prepared).0 ≡ ok tt
unfolding before_of worker_before find_db wrapped get_default_db_info find_class_rwx
    set_storage_cass_name_rwx storage_class_name_from_rainbond_volume_rwx
    storage_class_name_from_rainbond_volume call_or call from_response first_class
    labels_for_access_mode_rwx label ◌>>=◌ ◌>>◌ pure throw try get modify
worker_starts = refl

before_of-HasClass_example : HasClass rbd_worker (before_of shelf_env rbd_worker prepared).1
before_of-HasClass_example = before_of-HasClass rbd_worker prepared worker_starts

-- No volume is there yet.
worker_waits :
    (before_of shelf_env rbd_worker (record prepared { world = [] })).0
    ≡ err (ignore rainbond_volume_not_found)
unfolding before_of worker_before find_db wrapped get_default_db_info find_class_rwx
    set_storage_cass_name_rwx storage_class_name_from_rainbond_volume_rwx
    storage_class_name_from_rainbond_volume call_or call from_response first_class
    labels_for_access_mode_rwx label ◌>>=◌ ◌>>◌ pure throw try get modify
worker_waits = refl

before_of-ignored_example : contains rainbond_volume_not_found (ignored_messages rbd_worker) ≡ true
before_of-ignored_example =
    before_of-ignored rbd_worker (record prepared { world = [] }) rainbond_volume_not_found
      worker_waits

abbrev nfs_class : PvcParameters
nfs_class = record { storage_class_name = "nfs"; storage_request = some 1 }

fallen_back : (storage_class_name_from_rainbond_volume_rwo "rbd-system" prepared).0 ≡ ok nfs_class
unfolding labels_for_access_mode_rwo labels_for_access_mode_rwx label first_class
fallen_back =
    storage_class_name_from_rainbond_volume_rwo_lem "rbd-system" prepared [] (shared ∷ [])
      (shared ∷ []) (shared ∷ []) refl refl

-- Twenty-one gibibytes are set, and one is asked for.
create_persistent_volume_claim_rwo-size_example :
    (create_persistent_volume_claim_rwo "rbd-system" "data" nfs_class [] 21).claim_size
    ≡ asked [] 21 * 1073741824
unfolding labels_for_access_mode_rwo labels_for_access_mode_rwx label
create_persistent_volume_claim_rwo-size_example =
    create_persistent_volume_claim_rwo-size "rbd-system" "data" [] 21 prepared [] (shared ∷ [])
      (shared ∷ []) (shared ∷ []) nfs_class refl refl fallen_back (omega arith)
