-- ===== src/Volume/Methods.antt =====
-- The methods of controllers/rainbondvolume_controller.go that `Reconcile` calls.
use rainbond_operator.Base.{
  String, Bool, true, false, not, Option, none, some, List, [], ◌∷◌, ◌==◌, string_eq, if◌then◌else◌,
}
use rainbond_operator.Conditions.{
  ConditionStatus, condition_true, condition_false, get_condition, update_condition,
}
use rainbond_operator.Kube.{Response, ok, err}
use rainbond_operator.Kube.Action.{◌>>=◌, ◌>>◌, pure, throw, get, modify, each}
use rainbond_operator.Merge.{labels_for_rainbond}
use rainbond_operator.Volume.Types.{
  RainbondVolume, VolumeSpec, VolumeCondition, volume_ready, StorageClassParameters, StorageClass,
  CsiPluginSource,
}
use rainbond_operator.Volume.Env.{
  Env, csi_plugin_not_ready, failure, Vol, V, CsiPlugin, call, call_or, check,
}

-- The status of the condition: whether the volume has the name of a class.
unfoldable pub class_status : VolumeSpec → ConditionStatus
class_status spec = if spec.storage_class_name == "" then condition_false else condition_true

-- The condition that `updateVolumeStatus` writes: a copy of the old one, or a new one.
unfoldable pub ready_condition : RainbondVolume → VolumeCondition
unfolding class_status
ready_condition volume = elim (get_condition volume_ready volume.status.conditions) [
  | some (_, c) ↦ record c { status = class_status volume.spec }
  | none ↦ record {
    typ3 = volume_ready;
    status = class_status volume.spec;
    last_transition_time = 0;
    reason = "";
    message = "";
    extra = tt;
  }
]

-- The mount options of the plugin aliyunNas where none are given.
abbrev pub nas_mount_options : List String
nas_mount_options =
    "nolock,tcp,noresvport" ∷ "vers=4" ∷ "minorversion=0" ∷ "rsize=1048576" ∷ "wsize=1048576"
    ∷ "timeo=600" ∷ "retrans=2" ∷ "hard" ∷ []

abbrev pub is_aliyun_nas : Option CsiPluginSource → Bool
is_aliyun_nas none = false
is_aliyun_nas (some cp) = elim cp.aliyun_nas [ some _ ↦ true | none ↦ false ]

unfoldable pub mount_options : Bool → List String → List String
mount_options nas (o ∷ options) = o ∷ options
mount_options nas [] = if nas then nas_mount_options else []

-- `storageClassForRainbondVolume`, for the parameters that the volume has.
unfoldable pub storage_class_for : RainbondVolume → StorageClassParameters → StorageClass
unfolding mount_options
storage_class_for volume parameters = record {
  name = volume.name;
  labels = labels_for_rainbond [];
  mount_options = mount_options (is_aliyun_nas volume.spec.csi_plugin) parameters.mount_options;
  provisioner = parameters.provisioner;
  parameters = parameters.parameters;
  reclaim_policy = "Retain";
}

-- `volume.Spec.StorageClassParameters` with the provisioner.
unfoldable pub with_provisioner : String → VolumeSpec → VolumeSpec
with_provisioner provisioner spec = elim spec.storage_class_parameters [
  | some p ↦ record spec {
    storage_class_parameters = some (record p { provisioner = provisioner });
  }
  | none ↦ record spec {
    storage_class_parameters =
        some (record { mount_options = []; provisioner = provisioner; parameters = [] });
  }
]

-- The function that `updateVolumeRetryOnConflict` repeats.
unfoldable pub rewrite_volume :
    (E : Env) → RainbondVolume → E.World → Response E.Err RainbondVolume × E.World
rewrite_volume E volume w =
    let (r, w') = E.get_volume volume.namespace volume.name w in
    elim r [
      | err e ↦ (err e, w')
      | ok old ↦
          E.update_volume
            (record old {
              labels = volume.labels;
              annotations = volume.annotations;
              spec = volume.spec;
            })
            w'
    ]

module _ {E : Env} where
  open E use {World, Err, Obj}

  abbrev pub with_conditions : List VolumeCondition → Vol E → Vol E
  with_conditions cs s =
      let volume = s.volume in
      record s { volume = record volume { status = record { conditions = cs } } }

  abbrev pub with_spec : VolumeSpec → Vol E → Vol E
  with_spec spec s = let volume = s.volume in record s { volume = record volume { spec = spec } }

  -- `updateVolumeStatusRetryOnConflict`.
  unfoldable pub update_volume_status_retry_on_conflict : V E (Unit {0})
  update_volume_status_retry_on_conflict = do
    s ← get
    v ← call_or (E.retry_on_conflict RainbondVolume (E.update_volume_status s.volume))
    modify (λ t. record t { volume = v })

  -- `updateVolumeStatus`: the condition goes into the volume and into a copy of its status, at two
  -- times, and the volume is written if the copy has changed.
  unfoldable pub update_volume_status : V E (Unit {0})
  unfolding ready_condition update_volume_status_retry_on_conflict
  update_volume_status = do
    s ← get
    now ← call E.now
    modify (
        with_conditions
          (update_condition now (ready_condition s.volume) s.volume.status.conditions).0)
    later ← call E.now
    if (update_condition later (ready_condition s.volume) s.volume.status.conditions).1
        then update_volume_status_retry_on_conflict
        else pure tt

  -- `updateVolumeRetryOnConflict`, which leaves the volume itself as it is.
  unfoldable pub update_volume_retry_on_conflict : V E (Unit {0})
  unfolding rewrite_volume
  update_volume_retry_on_conflict = do
    s ← get
    v ← call_or (E.retry_on_conflict RainbondVolume (rewrite_volume E s.volume))
    pure tt

  -- `createIfNotExists`.
  unfoldable pub create_if_not_exists : Obj → V E (Unit {0})
  create_if_not_exists obj = do
    r ← call (E.get_object obj)
    elim r [
      | none ↦ pure tt
      | some e ↦ if E.is_not_found e then check (E.create obj) else throw (failure e)
    ]

  unfoldable pub create_optional : Option Obj → V E (Unit {0})
  unfolding create_if_not_exists
  create_optional none = pure tt
  create_optional (some obj) = create_if_not_exists obj

  unfoldable pub create_owned : Option Obj → V E (Unit {0})
  unfolding create_if_not_exists
  create_owned none = pure tt
  create_owned (some obj) = do
    s ← get
    owned ← call_or (λ w. (E.set_controller_reference s.volume obj, w))
    create_if_not_exists owned

  -- `applyCSIPlugin`.
  unfoldable pub apply_csi_plugin : CsiPlugin E → V E (Unit {0})
  unfolding create_optional create_owned with_provisioner
  apply_csi_plugin plugin = do
    ready ← call plugin.is_plugin_ready
    if ready
        then modify (λ s. with_spec (with_provisioner plugin.get_provisioner s.volume.spec) s)
        else do
          each create_optional plugin.get_cluster_scoped_resources
          each create_owned plugin.get_sub_resources
          throw csi_plugin_not_ready

  -- `createIfNotExistStorageClass`.
  unfoldable pub create_if_not_exist_storage_class : StorageClassParameters → V E String
  unfolding storage_class_for
  create_if_not_exist_storage_class parameters = do
    s ← get
    r ← call (E.get_storage_class s.volume.name)
    elim r [
      | ok old ↦ pure old.name
      | err e ↦ if not (E.is_not_found e) then throw (failure e) else do
        check (E.create_storage_class (storage_class_for s.volume parameters))
        pure (storage_class_for s.volume parameters).name
    ]
