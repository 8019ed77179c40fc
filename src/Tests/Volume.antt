-- ===== src/Tests/Volume.antt =====
-- Volumes on a server that keeps one volume and one class.
use rainbond_operator.Base.{
  String, Bool, true, false, none, some, [], ◌∷◌, ◌==◌, string_eq, nat_eq, ◌≡◌, ◌⊎◌, refl, arith,
}
use rainbond_operator.Conditions.{condition_true}
use rainbond_operator.Volume.Ready.{IsCurrent}
use rainbond_operator.Volume.Quiet.{reconcile-quiet}
use rainbond_operator.Volume.Methods.{class_status}
use text.Mathlib.TextEquality.{eq_iff}
use rainbond_operator.Kube.{Response, ok, err, Result, no_requeue}
use rainbond_operator.Volume.Types.{RainbondVolume, StorageClassParameters}
use rainbond_operator.Volume.Env.{Failure, failure}
use rainbond_operator.Volume.Plugins.{Builders, choose_plugin, nfs_plugin, is_nfs_ready}
use rainbond_operator.Volume.Loop.{used_parameters, reconcile}
use rainbond_operator.Volume.Provision.{classed, reconcile-provisioned}
use rainbond_operator.Volume.Progress.{reconcile-IsReady, after, IsReady}
use rainbond_operator.Tests.Disk.{Disk, lookup, class_answer, disk_env, disk_server}

abbrev builders : Builders String
builders = record {
  disk_csi_driver = λ v. "CSIDriver";
  disk_daemonset = λ v. "DaemonSet";
  disk_service_for_provisioner = λ v. "Service";
  disk_statefulset = λ v. "StatefulSet";
  nas_csi_driver = λ v. "CSIDriver";
  nas_daemonset = λ v. "DaemonSet";
  nas_service_for_provisioner = λ v. "Service";
  nas_statefulset = λ v. "StatefulSet";
  nfs_pv = λ v. "PersistentVolume";
  nfs_service = λ v. "Service";
  nfs_statefulset = λ v. "StatefulSet";
}

-- A volume that asks for the plugin nfs.
abbrev nfs_volume : RainbondVolume
nfs_volume = record {
  namespace = "rbd-system";
  name = "rwx";
  resource_version = 3;
  labels = [];
  annotations = [];
  spec = record {
    storage_class_name = "";
    storage_class_parameters = none;
    csi_plugin =
        some (record { aliyun_cloud_disk = none; aliyun_nas = none; nfs = some (record {}) });
    storage_request = none;
    image_repository = "";
  };
  status = record { conditions = [] };
}

abbrev start : Disk
start = (nfs_volume, false)

no_class :
    (found : Bool) (name e : String) → class_answer found name ≡ err e → (e == "not found") ≡ true
no_class true name e h = ground arith
no_class false name e h = ground (arith, eq_iff e "not found")

abbrev second : Disk
second =
    after disk_env disk_server builders "rbd-system" "rwx"
      (after disk_env disk_server builders "rbd-system" "rwx" start)

reconcile-IsReady_example :
    ((reconcile disk_env builders "rbd-system" "rwx" second).0 ≡ ok no_requeue)
    × ((v : RainbondVolume) × (lookup
            (after disk_env disk_server builders "rbd-system" "rwx" second)
            "rbd-system"
            "rwx"
          ≡ some v)
        × IsReady "rwx" v)
unfolding choose_plugin nfs_plugin is_nfs_ready used_parameters
reconcile-IsReady_example =
    reconcile-IsReady disk_env disk_server builders "rbd-system" "rwx" start nfs_volume
      (record { aliyun_cloud_disk = none; aliyun_nas = none; nfs = some (record {}) })
      (nfs_plugin disk_env builders nfs_volume) refl refl refl refl refl refl refl
      (λ u e h. no_class u.1 "rwx" e h)

-- With a provisioner, and no condition yet: the name of the class is stored, and the status is not.
abbrev provisioned : RainbondVolume
provisioned =
    let spec = nfs_volume.spec in
    record nfs_volume {
      spec = record spec {
        storage_class_parameters =
            some (record { mount_options = []; provisioner = "rainbond.io/nfs"; parameters = [] });
      };
    }

abbrev parameters : StorageClassParameters
parameters = record { mount_options = []; provisioner = "rainbond.io/nfs"; parameters = [] }

reconcile-provisioned_example :
    (r : Response (Failure String) Result) × (w' : Disk) × (reconcile disk_env builders "rbd-system"
        "rwx"
        (provisioned, false)
      ≡ (r, w'))
    × ((v : RainbondVolume) × (lookup w' "rbd-system" "rwx" ≡ some v)
        × (v.spec ≡ (classed disk_env disk_server builders provisioned).spec)
        × (v.status ≡ provisioned.status))
    × ((IsCurrent (classed disk_env disk_server builders provisioned) × (r ≡ ok no_requeue))
        ⊎ ((¬ IsCurrent (classed disk_env disk_server builders provisioned))
            × (r ≡ err (failure "conflict"))))
unfolding used_parameters
reconcile-provisioned_example =
    reconcile-provisioned disk_env disk_server builders "rbd-system" "rwx" (provisioned, false)
      provisioned parameters refl refl refl (λ e h. no_class false "rwx" e h)

abbrev current : RainbondVolume
current =
    let spec = nfs_volume.spec in
    record nfs_volume {
      spec = record spec { storage_class_name = "rwx" };
      status = record {
        conditions =
            record {
              typ3 = "Ready";
              status = condition_true;
              last_transition_time = 5;
              reason = "";
              message = "";
              extra = tt;
            }
            ∷ [];
      };
    }

reconcile-quiet_example :
    reconcile disk_env builders "rbd-system" "rwx" (current, true)
    ≡ (ok no_requeue, (current, true))
unfolding class_status
reconcile-quiet_example =
    reconcile-quiet disk_env builders "rbd-system" "rwx" (current, true) (current, true) current
      refl refl
      (
        record {
          typ3 = "Ready";
          status = condition_true;
          last_transition_time = 5;
          reason = "";
          message = "";
          extra = tt;
        },
        refl,
        refl,
      )
