-- ===== src/Volume/Plugged.antt =====
-- The branch of `Reconcile` for a volume with a plugin that is ready.
use rainbond_operator.Base.{
  String, true, false, none, some, [], ◌==◌, string_eq, ◌≡◌, ◌⊎◌, refl, ◌∙◌, arith, inl, inr,
  Option-cases,
}
use rainbond_operator.Kube.{ok, requeue_now}
use rainbond_operator.Kube.Action.{◌>>=◌, ◌>>◌, pure, try, get, modify, bind_ok, then_ok, try_lem}
use rainbond_operator.Package.Once.{answer_cases}
use rainbond_operator.Volume.Types.{
  RainbondVolume, VolumeSpec, StorageClassParameters, CsiPluginSource,
}
use rainbond_operator.Volume.Env.{Env, Vol, CsiPlugin, call}
use rainbond_operator.Volume.Server.{Server}
use rainbond_operator.Volume.Plugins.{
  Builders, choose_plugin, new_csi_plugin, aliyun_cloud_disk_plugin, aliyun_nas_plugin, nfs_plugin,
  is_provisioner_ready, is_nfs_ready,
}
use rainbond_operator.Volume.Methods.{
  with_provisioner, apply_csi_plugin, update_volume_retry_on_conflict,
}
use rainbond_operator.Volume.Loop.{
  used_parameters, after_plugin, sync_csi_plugin, reconcile_volume, reconcile,
}
use rainbond_operator.Volume.Provision.{reconcile-answer, update_volume-stored, own_key}

pub used_parameters-with_provisioner :
    (provisioner : String) (spec : VolumeSpec)
    → (provisioner == "") ≡ false
    → (p : StorageClassParameters) × (used_parameters (with_provisioner provisioner spec) ≡ some p)
unfolding used_parameters with_provisioner
used_parameters-with_provisioner provisioner spec h =
    elim (Option-cases spec.storage_class_parameters) [
      | inl e ↦ (
        record { mount_options = []; provisioner = provisioner; parameters = [] },
        rw (e, with_provisioner) (rw h refl),
      )
      | inr (p, e) ↦ (record p { provisioner = provisioner }, rw (e, with_provisioner) (rw h refl))
    ]

pub with_provisioner-storage_class_name :
    (provisioner : String) (spec : VolumeSpec)
    → (with_provisioner provisioner spec).storage_class_name ≡ spec.storage_class_name
unfolding with_provisioner
with_provisioner-storage_class_name provisioner spec =
    elim (Option-cases spec.storage_class_parameters) [
      | inl e ↦ rw (e, with_provisioner) refl
      | inr (p, e) ↦ rw (e, with_provisioner) refl
    ]

module _ (E : Env) (S : Server E) (B : Builders E.Obj) where
  open E use {World, Err}
  open S use {stored}

  -- What the liveness needs of a plugin: it has a provisioner, and asking it changes no volume.
  abbrev pub IsSound : CsiPlugin E → Type 0
  IsSound p =
      ((p.get_provisioner == "") ≡ false)
      × ((w : World) → stored (p.is_plugin_ready w).1 ≡ stored w)

  is_nfs_ready-stored : (v : RainbondVolume) (w : World) → stored (is_nfs_ready E v w).1 ≡ stored w
  unfolding is_nfs_ready
  is_nfs_ready-stored v w =
      let asked = S.get_stateful_set_stored v.namespace "nfs-provisioner" w in
      let w1 = (E.get_stateful_set v.namespace "nfs-provisioner" w).1 in
      let service = S.get_service_stored v.namespace "nfs-provisioner" w1 in
      elim (answer_cases (E.get_stateful_set v.namespace "nfs-provisioner" w).0) [
        | inr (x, e) ↦ rw (e, is_nfs_ready) asked
        | inl (sts, e) ↦
            rw (e, is_nfs_ready)
              (elim (Option-cases (E.get_service v.namespace "nfs-provisioner" w1).0) [
                | inl f ↦ rw f (service ∙ asked)
                | inr (x, f) ↦ rw f (service ∙ asked)
              ])
      ]

  choose_plugin-cases :
      (cp : CsiPluginSource) (v : RainbondVolume) (p : CsiPlugin E)
      → choose_plugin E B cp v ≡ some p
      → (p ≡ aliyun_cloud_disk_plugin E B v)
        ⊎ (p ≡ aliyun_nas_plugin E B v)
        ⊎ (p ≡ nfs_plugin E B v)
  unfolding choose_plugin
  choose_plugin-cases cp v p h = ground arith

  pub choose_plugin-IsSound :
      (cp : CsiPluginSource) (v : RainbondVolume) (p : CsiPlugin E)
      → choose_plugin E B cp v ≡ some p
      → IsSound p
  unfolding aliyun_cloud_disk_plugin aliyun_nas_plugin nfs_plugin is_provisioner_ready
  choose_plugin-IsSound cp v p h = elim (choose_plugin-cases cp v p h) [
    | inl q ↦
        rw q (refl, λ w. S.get_stateful_set_stored v.namespace "aliyun-csi-disk-provisioner" w)
    | inr (inl q) ↦
        rw q (refl, λ w. S.get_stateful_set_stored v.namespace "aliyun-csi-nas-provisioner" w)
    | inr (inr q) ↦ rw q (refl, is_nfs_ready-stored v)
  ]

  reconcile_volume-plugin :
      (s : Vol E) (cp : CsiPluginSource)
      → (s.volume.spec.storage_class_name == "") ≡ true
      → used_parameters s.volume.spec ≡ none
      → s.volume.spec.csi_plugin ≡ some cp
      → reconcile_volume E B s ≡ sync_csi_plugin E B cp s
  unfolding reconcile_volume get ◌>>=◌
  reconcile_volume-plugin s cp h used plugged = rw h (rw used (rw plugged refl))

  -- The volume with the provisioner of its plugin.
  abbrev pub provided : CsiPlugin E → RainbondVolume → RainbondVolume
  provided p v = record v { spec = with_provisioner p.get_provisioner v.spec }

  apply_csi_plugin-ready :
      (s : Vol E) (p : CsiPlugin E)
      → (p.is_plugin_ready s.world).0 ≡ true
      → apply_csi_plugin p s
        ≡ (ok tt, record { volume = provided p s.volume; world = (p.is_plugin_ready s.world).1 })
  unfolding apply_csi_plugin call modify ◌>>=◌
  apply_csi_plugin-ready s p h = rw h refl

  new_csi_plugin-some :
      (s : Vol E) (cp : CsiPluginSource) (p : CsiPlugin E)
      → choose_plugin E B cp s.volume ≡ some p
      → new_csi_plugin E B cp s.volume s ≡ (ok p, s)
  unfolding new_csi_plugin pure
  new_csi_plugin-some s cp p h = rw (h, new_csi_plugin) refl

  sync_csi_plugin-ready :
      (s s' : Vol E) (cp : CsiPluginSource) (p : CsiPlugin E)
      → choose_plugin E B cp s.volume ≡ some p
      → apply_csi_plugin p s ≡ (ok tt, s')
      → sync_csi_plugin E B cp s ≡ (update_volume_retry_on_conflict >> pure requeue_now) s'
  unfolding sync_csi_plugin after_plugin get
  sync_csi_plugin-ready s s' cp p h a =
      bind_ok get _ s s s refl
      ∙ bind_ok (try (new_csi_plugin E B cp s.volume)) _ s s (ok p)
          (try_lem (new_csi_plugin E B cp s.volume) s s (ok p) (new_csi_plugin-some s cp p h))
      ∙ bind_ok (try (apply_csi_plugin p)) (after_plugin E B) s s' (ok tt)
          (try_lem (apply_csi_plugin p) s s' (ok tt) a)

  -- A volume with a plugin that is ready: `Reconcile` stores the plugin's provisioner and comes again
  -- at once.
  pub reconcile-plugged :
      (namespace name : String) (w : World) (v : RainbondVolume) (cp : CsiPluginSource)
      (p : CsiPlugin E)
      → stored w namespace name ≡ some v
      → (v.spec.storage_class_name == "") ≡ true
      → used_parameters v.spec ≡ none
      → v.spec.csi_plugin ≡ some cp
      → choose_plugin E B cp v ≡ some p
      → (p.is_plugin_ready w).0 ≡ true
      → (w' : World) × (reconcile E B namespace name w ≡ (ok requeue_now, w'))
        × ((v' : RainbondVolume) × (stored w' namespace name ≡ some v')
            × (v'.spec ≡ (provided p v).spec)
            × (v'.status ≡ v.status))
  unfolding pure
  reconcile-plugged namespace name w v cp p h unnamed used plugged chosen ready =
      let key = S.stored_key w namespace name v h in
      let s : Vol E = record { volume = v; world = w } in
      let w1 = (p.is_plugin_ready w).1 in
      let s1 : Vol E = record { volume = provided p v; world = w1 } in
      let k1 = (choose_plugin-IsSound cp v p chosen).1 w in
      let (w2, updated, out) =
        update_volume-stored E S B s1 v (rw k1 ((own_key E S B w namespace name v v key).1 h)) in
      let (v', g, e, f, n) = out in
      let s2 : Vol E = record s1 { world = w2 } in
      (
        w2,
        reconcile-answer E S B namespace name w v (ok requeue_now) s2 h (
            reconcile_volume-plugin s cp unnamed used plugged
            ∙ sync_csi_plugin-ready s s1 cp p chosen (apply_csi_plugin-ready s p ready)
            ∙ then_ok update_volume_retry_on_conflict (pure requeue_now) s1 s2 updated),
        (v', (own_key E S B w2 namespace name v v' key).0 g, e, f),
      )
