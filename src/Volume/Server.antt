-- ===== src/Volume/Server.antt =====
-- What the API server and client-go promise for volumes, as laws on the calls of `Env`: a store
-- with optimistic concurrency. A write needs the resource version that is stored, and the
-- controller's retry repeats what ends in a conflict.
use rainbond_operator.Base.{String, true, false, Option, none, some, ◌≡◌, ◌≢◌}
use rainbond_operator.Kube.{Response, ok, err}
use rainbond_operator.Volume.Types.{RainbondVolume, StorageClass}
use rainbond_operator.Volume.Env.{Env}

module _ (E : Env) where
  open E use {World, Err}

  pub record Server : Type 1 where
    -- The volume of a namespace and a name.
    pub stored : World → String → String → Option RainbondVolume
    pub stored_key :
        (w : World) (namespace name : String) (v : RainbondVolume)
        → stored w namespace name ≡ some v
        → (v.namespace ≡ namespace) × (v.name ≡ name)
    pub get_stored :
        (w : World) (namespace name : String) (v : RainbondVolume)
        → stored w namespace name ≡ some v
        → E.get_volume namespace name w ≡ (ok v, w)
    -- Reading the clock and other objects, and creating a class, leave the volumes alone.
    pub now_stored : (w : World) → stored (E.now w).1 ≡ stored w
    pub get_stateful_set_stored :
        (namespace name : String) (w : World)
        → stored (E.get_stateful_set namespace name w).1 ≡ stored w
    pub get_service_stored :
        (namespace name : String) (w : World) → stored (E.get_service namespace name w).1 ≡ stored w
    pub get_storage_class_stored :
        (name : String) (w : World) → stored (E.get_storage_class name w).1 ≡ stored w
    pub create_storage_class_stored :
        (c : StorageClass) (w : World) → stored (E.create_storage_class c w).1 ≡ stored w
    -- A class that is found has the name; one that is not found can be created.
    pub get_storage_class_name :
        (name : String) (w : World) (c : StorageClass)
        → (E.get_storage_class name w).0 ≡ ok c
        → c.name ≡ name
    pub create_missing :
        (c : StorageClass) (w : World) (e : Err)
        → (E.get_storage_class c.name w).0 ≡ err e
        → E.is_not_found e ≡ true
        → (E.create_storage_class c (E.get_storage_class c.name w).1).0 ≡ none
    -- `Update` writes all but the status, `Status().Update` the status only.
    pub update_stored :
        (w : World) (v old : RainbondVolume)
        → stored w v.namespace v.name ≡ some old
        → v.resource_version ≡ old.resource_version
        → (v' : RainbondVolume) × (w' : World) × (E.update_volume v w ≡ (ok v', w'))
          × (stored w' v.namespace v.name ≡ some v')
          × (v'.spec ≡ v.spec)
          × (v'.status ≡ old.status)
          × (v'.resource_version ≢ old.resource_version)
    pub update_status_stored :
        (w : World) (v old : RainbondVolume)
        → stored w v.namespace v.name ≡ some old
        → v.resource_version ≡ old.resource_version
        → (v' : RainbondVolume) × (w' : World) × (E.update_volume_status v w ≡ (ok v', w'))
          × (stored w' v.namespace v.name ≡ some v')
          × (v'.spec ≡ old.spec)
          × (v'.status ≡ v.status)
    pub conflict : Err
    pub conflict_ne_not_found : E.is_not_found conflict ≡ false
    pub update_status_conflict :
        (w : World) (v old : RainbondVolume)
        → stored w v.namespace v.name ≡ some old
        → v.resource_version ≢ old.resource_version
        → E.update_volume_status v w ≡ (err conflict, w)
    pub retry_done :
        {A : Type 0} (f : World → Response Err A × World) (w w' : World) (a : A)
        → f w ≡ (ok a, w')
        → E.retry_on_conflict A f w ≡ (ok a, w')
    pub retry_conflict :
        {A : Type 0} (f : World → Response Err A × World) (w : World)
        → f w ≡ (err conflict, w)
        → E.retry_on_conflict A f w ≡ (err conflict, w)
