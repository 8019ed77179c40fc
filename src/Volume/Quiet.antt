-- ===== src/Volume/Quiet.antt =====
-- A volume that is up to date is not written.
use rainbond_operator.Base.{String, false, ◌==◌, string_eq, ◌≡◌, ◌∙◌, ap}
use rainbond_operator.Kube.{Response, ok, Result, no_requeue}
use rainbond_operator.Kube.Action.{pure, then_ok}
use rainbond_operator.Volume.Types.{RainbondVolume}
use rainbond_operator.Volume.Env.{Env, Failure, Vol}
use rainbond_operator.Volume.Ready.{IsCurrent, update_volume_status-current}
use rainbond_operator.Volume.Plugins.{Builders}
use rainbond_operator.Volume.Methods.{update_volume_status}
use rainbond_operator.Volume.Loop.{reconcile}
use rainbond_operator.Volume.Provision.{reconcile_volume-named, reconcile-got}

module _ (E : Env) (B : Builders E.Obj) where
  open E use {World}

  -- For a volume with the name of a class whose condition is right, `Reconcile` reads the volume
  -- and the clock twice, and does nothing else.
  pub reconcile-quiet :
      (namespace name : String) (w w' : World) (v : RainbondVolume)
      → E.get_volume namespace name w ≡ (ok v, w')
      → (v.spec.storage_class_name == "") ≡ false
      → IsCurrent v
      → reconcile E B namespace name w ≡ (ok no_requeue, (E.now (E.now w').1).1)
  unfolding pure
  reconcile-quiet namespace name w w' v h named current =
      let s : Vol E = record { volume = v; world = w' } in
      let (s', r, clock, same) = update_volume_status-current s current in
      reconcile-got E B namespace name w w' v (ok no_requeue) s' h
        (reconcile_volume-named E B s named ∙ then_ok update_volume_status (pure no_requeue) s s' r)
      ∙ ap {B = Response (Failure E.Err) Result × World} (λ u. (ok no_requeue, u)) clock
