-- ===== src/Volume/Progress.antt =====
-- A volume whose plugin is ready becomes ready in three runs of `Reconcile`.
use rainbond_operator.Base.{
  String, true, false, none, some, ◌==◌, string_eq, ◌≡◌, ◌≢◌, inl, inr, Option-cases, refl, ◌∙◌, ap,
}
use rainbond_operator.Conditions.{condition_true}
use rainbond_operator.Conditions.Find.{find}
use rainbond_operator.Kube.{ok, no_requeue}
use rainbond_operator.Volume.Types.{
  RainbondVolume, VolumeCondition, StorageClassParameters, CsiPluginSource, volume_ready,
}
use rainbond_operator.Volume.Env.{Env, CsiPlugin}
use rainbond_operator.Volume.Server.{Server}
use rainbond_operator.Volume.Ready.{IsCurrent}
use rainbond_operator.Volume.Plugins.{Builders, choose_plugin}
use rainbond_operator.Volume.Methods.{class_status}
use rainbond_operator.Volume.Loop.{used_parameters, reconcile}
use rainbond_operator.Volume.Provision.{CanAsk, reconcile-named, reconcile-provisioned}
use rainbond_operator.Volume.Plugged.{
  used_parameters-with_provisioner, with_provisioner-storage_class_name, choose_plugin-IsSound,
  reconcile-plugged,
}

-- The volume has the name of the class, and the condition `Ready` is true.
abbrev pub IsReady : String → RainbondVolume → Type 0
IsReady class_name v =
    (v.spec.storage_class_name ≡ class_name)
    × ((c : VolumeCondition) × (find volume_ready v.status.conditions ≡ some c)
        × (c.status ≡ condition_true))

IsReady-of :
    (v : RainbondVolume) (class_name : String)
    → v.spec.storage_class_name ≡ class_name
    → (class_name == "") ≡ false
    → IsCurrent v
    → IsReady class_name v
unfolding class_status
IsReady-of v class_name named given (c, f, e) =
    let ready : (k : VolumeCondition) × (find volume_ready v.status.conditions ≡ some k)
        × (k.status ≡ condition_true) =
      (c, f, e ∙ rw (named, class_status) (rw given refl)) in
    (named, ready)

module _ (E : Env) (S : Server E) (B : Builders E.Obj) where
  open E use {World}
  open S use {stored}

  -- The world after a run.
  abbrev pub after : String → String → World → World
  after namespace name w = (reconcile E B namespace name w).1

  -- A volume with a provisioner becomes ready in two runs, though the first may end in an error.
  pub reconcile-IsReady_of_provisioner :
      (namespace name : String) (w : World) (v : RainbondVolume)
      → stored w namespace name ≡ some v
      → (v.spec.storage_class_name == "") ≡ true
      → (used_parameters v.spec ≢ none)
      → (name == "") ≡ false
      → CanAsk E S B name w
      → ((reconcile E B namespace name (after namespace name w)).0 ≡ ok no_requeue)
        × ((v' : RainbondVolume) × (stored
                (after namespace name (after namespace name w))
                namespace
                name
              ≡ some v')
            × IsReady name v')
  reconcile-IsReady_of_provisioner namespace name w v h unnamed used given can =
      let (p, q) = is_used in
      let key = S.stored_key w namespace name v h in
      let (r, w1, run, out, which) =
        reconcile-provisioned E S B namespace name w v p h unnamed q (rw (key.1) can) in
      let (v1, g, e, f) = out in
      let named : v1.spec.storage_class_name ≡ name = ap (λ x. x.storage_class_name) e ∙ key.1 in
      let (w2, again, out2) = reconcile-named E S B namespace name w1 v1 g (rw named given) in
      let (v2, g2, e2, c2) = out2 in
      let after1 : after namespace name w ≡ w1 = ap (λ x. x.1) run in
      (
        rw after1 (ap (λ x. x.0) again),
        (
          v2,
          rw (after1, ap (λ x. x.1) again) g2,
          IsReady-of v2 name (ap (λ x. x.storage_class_name) e2 ∙ named) given c2,
        ),
      )
    where
      is_used : (p : StorageClassParameters) × (used_parameters v.spec ≡ some p)
      is_used = elim (Option-cases (used_parameters v.spec)) [ inl e ↦ absurd (used e) | inr x ↦ x ]

  -- A volume with a plugin that is ready becomes ready in three runs.
  pub reconcile-IsReady :
      (namespace name : String) (w : World) (v : RainbondVolume) (cp : CsiPluginSource)
      (p : CsiPlugin E)
      → stored w namespace name ≡ some v
      → (v.spec.storage_class_name == "") ≡ true
      → used_parameters v.spec ≡ none
      → v.spec.csi_plugin ≡ some cp
      → choose_plugin E B cp v ≡ some p
      → (p.is_plugin_ready w).0 ≡ true
      → (name == "") ≡ false
      → ((u : World) → CanAsk E S B name u)
      → let w2 = after namespace name (after namespace name w) in
        ((reconcile E B namespace name w2).0 ≡ ok no_requeue)
        × ((v' : RainbondVolume) × (stored (after namespace name w2) namespace name ≡ some v')
            × IsReady name v')
  reconcile-IsReady namespace name w v cp p h unnamed used plugged chosen ready given can =
      let (w1, run, out) =
        reconcile-plugged E S B namespace name w v cp p h unnamed used plugged chosen ready in
      let (v1, g, e, f) = out in
      let (q, provided_used) =
        used_parameters-with_provisioner p.get_provisioner v.spec
          (choose_plugin-IsSound E S B cp v p chosen).0 in
      let unnamed1 : (v1.spec.storage_class_name == "") ≡ true =
        rw e (rw (with_provisioner-storage_class_name p.get_provisioner v.spec) unnamed) in
      let after1 : after namespace name w ≡ w1 = ap (λ x. x.1) run in
      rw after1 (
        reconcile-IsReady_of_provisioner namespace name w1 v1 g unnamed1
          (λ z. cc (ap used_parameters e ∙ provided_used)) given (can w1))
