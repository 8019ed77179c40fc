-- ===== src/Volume/Plugins.antt =====
-- controllers/plugin_factory.go and the plugins of controllers/plugin: which plugin a volume asks
-- for, when it counts as ready, its provisioner and the objects that it needs. The objects
-- themselves are built from literals and are a parameter.
use rainbond_operator.Base.{String, Bool, false, Option, none, some, [], ◌∷◌, ◌==◌, nat_eq}
use rainbond_operator.Kube.{Response, ok, err}
use rainbond_operator.Kube.Action.{pure, throw}
use rainbond_operator.Volume.Types.{RainbondVolume, CsiPluginSource}
use rainbond_operator.Volume.Env.{Env, failure, CsiPlugin, StatefulSet, V}

-- What the builders of the plugins make for a volume.
pub record Builders (Obj : Type 0) : Type 0 where
  pub disk_csi_driver : RainbondVolume → Obj
  pub disk_daemonset : RainbondVolume → Obj
  pub disk_service_for_provisioner : RainbondVolume → Obj
  pub disk_statefulset : RainbondVolume → Obj
  pub nas_csi_driver : RainbondVolume → Obj
  pub nas_daemonset : RainbondVolume → Obj
  pub nas_service_for_provisioner : RainbondVolume → Obj
  pub nas_statefulset : RainbondVolume → Obj
  pub nfs_pv : RainbondVolume → Obj
  pub nfs_service : RainbondVolume → Obj
  pub nfs_statefulset : RainbondVolume → Obj

-- `sts.Status.ReadyReplicas == sts.Status.Replicas`, and false for an error.
unfoldable pub all_replicas_ready : {Err : Type 0} → Response Err StatefulSet → Bool
all_replicas_ready (ok sts) = sts.ready_replicas == sts.replicas
all_replicas_ready (err e) = false

module _ (E : Env) where
  open E use {World, Obj}

  -- `IsPluginReady` of the plugins aliyunclouddisk and aliyunnas, with the name of the provisioner.
  unfoldable pub is_provisioner_ready : String → RainbondVolume → World → Bool × World
  unfolding all_replicas_ready
  is_provisioner_ready name volume w =
      let (sts, w') = E.get_stateful_set volume.namespace name w in (all_replicas_ready sts, w')

  -- `IsPluginReady` of the plugin nfs, which also asks for the service.
  unfoldable pub is_nfs_ready : RainbondVolume → World → Bool × World
  unfolding all_replicas_ready
  is_nfs_ready volume w =
      let (sts, w1) = E.get_stateful_set volume.namespace "nfs-provisioner" w in
      elim sts [
        | err e ↦ (false, w1)
        | ok found ↦
            let (missing, w2) = E.get_service volume.namespace "nfs-provisioner" w1 in
            elim missing [
              | some e ↦ (false, w2)
              | none ↦ (found.ready_replicas == found.replicas, w2)
            ]
      ]

  module _ (B : Builders Obj) where
    unfoldable pub aliyun_cloud_disk_plugin : RainbondVolume → CsiPlugin E
    unfolding is_provisioner_ready
    aliyun_cloud_disk_plugin volume = record {
      is_plugin_ready = is_provisioner_ready "aliyun-csi-disk-provisioner" volume;
      get_provisioner = "diskplugin.csi.alibabacloud.com";
      get_cluster_scoped_resources = some (B.disk_csi_driver volume) ∷ [];
      get_sub_resources =
          some (B.disk_daemonset volume)
          ∷ some (B.disk_service_for_provisioner volume)
          ∷ some (B.disk_statefulset volume)
          ∷ [];
    }

    unfoldable pub aliyun_nas_plugin : RainbondVolume → CsiPlugin E
    unfolding is_provisioner_ready
    aliyun_nas_plugin volume = record {
      is_plugin_ready = is_provisioner_ready "aliyun-csi-nas-provisioner" volume;
      get_provisioner = "nasplugin.csi.alibabacloud.com";
      get_cluster_scoped_resources = some (B.nas_csi_driver volume) ∷ [];
      get_sub_resources =
          some (B.nas_daemonset volume)
          ∷ some (B.nas_service_for_provisioner volume)
          ∷ some (B.nas_statefulset volume)
          ∷ [];
    }

    unfoldable pub nfs_plugin : RainbondVolume → CsiPlugin E
    unfolding is_nfs_ready
    nfs_plugin volume = record {
      is_plugin_ready = is_nfs_ready volume;
      get_provisioner = "rainbond.io/nfs";
      get_cluster_scoped_resources = some (B.nfs_pv volume) ∷ [];
      get_sub_resources = some (B.nfs_service volume) ∷ some (B.nfs_statefulset volume) ∷ [];
    }

    -- The switch of `NewCSIPlugin`.
    unfoldable pub choose_plugin : CsiPluginSource → RainbondVolume → Option (CsiPlugin E)
    unfolding aliyun_cloud_disk_plugin aliyun_nas_plugin nfs_plugin
    choose_plugin cp volume = elim cp.aliyun_cloud_disk [
      | some _ ↦ some (aliyun_cloud_disk_plugin volume)
      | none ↦ elim cp.aliyun_nas [
        | some _ ↦ some (aliyun_nas_plugin volume)
        | none ↦ elim cp.nfs [ some _ ↦ some (nfs_plugin volume) | none ↦ none ]
      ]
    ]

    -- `NewCSIPlugin`.
    unfoldable pub new_csi_plugin : CsiPluginSource → RainbondVolume → V E (CsiPlugin E)
    unfolding choose_plugin
    new_csi_plugin cp volume = elim (choose_plugin cp volume) [
      | some p ↦ pure p
      | none ↦ throw (failure (E.new_error "unsupported csi plugin"))
    ]
