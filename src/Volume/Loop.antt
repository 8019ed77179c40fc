-- ===== src/Volume/Loop.antt =====
-- `Reconcile` of controllers/rainbondvolume_controller.go.
use rainbond_operator.Base.{String, Option, none, some, ◌==◌, string_eq, if◌then◌else◌}
use rainbond_operator.Kube.{Response, ok, err, Result, no_requeue, requeue_now, requeue_in}
use rainbond_operator.Kube.Action.{◌>>=◌, ◌>>◌, pure, throw, try, get, modify}
use rainbond_operator.Volume.Types.{VolumeSpec, StorageClassParameters, CsiPluginSource}
use rainbond_operator.Volume.Env.{Env, Failure, csi_plugin_not_ready, failure, V}
use rainbond_operator.Volume.Plugins.{Builders, new_csi_plugin}
use rainbond_operator.Volume.Methods.{
  with_spec, update_volume_status, update_volume_retry_on_conflict, apply_csi_plugin,
  create_if_not_exist_storage_class,
}

-- `useStorageClassParameters`, with the parameters.
unfoldable pub used_parameters : VolumeSpec → Option StorageClassParameters
used_parameters spec = elim spec.storage_class_parameters [
  | none ↦ none
  | some p ↦ if p.provisioner == "" then none else some p
]

module _ (E : Env) (B : Builders E.Obj) where
  open E use {World, Err}

  -- The branch for a volume with a provisioner.
  unfoldable pub sync_storage_class : StorageClassParameters → V E Result
  sync_storage_class parameters = do
    class_name ← create_if_not_exist_storage_class parameters
    modify (λ s.
        let spec = s.volume.spec in with_spec (record spec { storage_class_name = class_name }) s)
    update_volume_retry_on_conflict
    update_volume_status
    pure no_requeue

  -- What `applyCSIPlugin` answers: not ready yet, another error, or done.
  unfoldable pub after_plugin : Response (Failure Err) (Unit {0}) → V E Result
  after_plugin (err csi_plugin_not_ready) = pure (requeue_in 3)
  after_plugin (err (failure e)) = do update_volume_status; throw (failure e)
  after_plugin (ok _) = do update_volume_retry_on_conflict; pure requeue_now

  -- The branch for a volume with a plugin.
  unfoldable pub sync_csi_plugin : CsiPluginSource → V E Result
  unfolding after_plugin
  sync_csi_plugin cp = do
    s ← get
    r ← try (new_csi_plugin E B cp s.volume)
    elim r [
      | err e ↦ do update_volume_status; throw e
      | ok plugin ↦ do applied ← try (apply_csi_plugin plugin); after_plugin applied
    ]

  -- `Reconcile` after the volume is read.
  unfoldable pub reconcile_volume : V E Result
  unfolding used_parameters sync_storage_class sync_csi_plugin
  reconcile_volume = do
    s ← get
    if s.volume.spec.storage_class_name == ""
        then elim (used_parameters s.volume.spec) [
          | some parameters ↦ sync_storage_class parameters
          | none ↦ elim s.volume.spec.csi_plugin [
            | some cp ↦ sync_csi_plugin cp
            | none ↦ pure no_requeue
          ]
        ]
        else do update_volume_status; pure no_requeue

  -- `Reconcile`: the result or the error, and the world.
  unfoldable pub reconcile : String → String → World → Response (Failure Err) Result × World
  unfolding reconcile_volume
  reconcile namespace name w =
      let (r, w') = E.get_volume namespace name w in
      elim r [
        | err e ↦ (if E.is_not_found e then ok no_requeue else err (failure e), w')
        | ok volume ↦
            let (answer, s) = reconcile_volume (record { volume = volume; world = w' }) in
            (answer, s.world)
      ]
