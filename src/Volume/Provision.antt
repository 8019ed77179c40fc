-- ===== src/Volume/Provision.antt =====
-- How a volume gets its class: each branch of `Reconcile` brings the stored volume one step on.
use rainbond_operator.Base.{
  String, true, false, some, ◌==◌, string_eq, ◌≡◌, ◌≢◌, ◌↔◌, ◌⊎◌, refl, sym, ◌∙◌, ap, inl, inr,
}
use rainbond_operator.Kube.{Response, ok, err, Result, no_requeue}
use rainbond_operator.Kube.Action.{
  ◌>>=◌, ◌>>◌, pure, throw, get, modify, bind_ok, then_ok, then_err,
}
use rainbond_operator.Package.Once.{answer_cases}
use rainbond_operator.Volume.Types.{RainbondVolume, StorageClassParameters}
use rainbond_operator.Volume.Env.{Env, Failure, failure, Vol, call, call_or, check}
use rainbond_operator.Volume.Server.{Server}
use rainbond_operator.Volume.Ready.{
  IsCurrent, update_volume_status-stored, update_volume_status-stale,
}
use rainbond_operator.Volume.Plugins.{Builders}
use rainbond_operator.Volume.Methods.{
  update_volume_status, with_spec, update_volume_retry_on_conflict, rewrite_volume,
  create_if_not_exist_storage_class, storage_class_for,
}
use rainbond_operator.Volume.Loop.{used_parameters, sync_storage_class, reconcile_volume, reconcile}

module _ (E : Env) (B : Builders E.Obj) where
  open E use {World, Err}

  -- What `Reconcile` does with the volume that it has got.
  pub reconcile-got :
      (namespace name : String) (w w' : World) (v : RainbondVolume)
      (r : Response (Failure Err) Result) (s' : Vol E)
      → E.get_volume namespace name w ≡ (ok v, w')
      → reconcile_volume E B (record { volume = v; world = w' }) ≡ (r, s')
      → reconcile E B namespace name w ≡ (r, s'.world)
  unfolding reconcile
  reconcile-got namespace name w w' v r s' found e =
      rw (found, reconcile) (rw found refl)
      ∙ ap {B = Response (Failure Err) Result × World} (λ p. (p.0, p.1.world)) e

  pub reconcile_volume-named :
      (s : Vol E)
      → (s.volume.spec.storage_class_name == "") ≡ false
      → reconcile_volume E B s ≡ (update_volume_status >> pure no_requeue) s
  unfolding reconcile_volume get ◌>>=◌
  reconcile_volume-named s h = rw h refl

module _ (E : Env) (S : Server E) (B : Builders E.Obj) where
  open E use {World, Err}
  open S use {stored}

  -- A volume is found under its own namespace and name.
  pub own_key :
      (w : World) (namespace name : String) (v u : RainbondVolume)
      → (v.namespace ≡ namespace) × (v.name ≡ name)
      → (stored w v.namespace v.name ≡ some u) ↔ (stored w namespace name ≡ some u)
  own_key w namespace name v u (a, b) =
      let e : stored w v.namespace v.name ≡ stored w namespace name =
        ap (λ x. stored w x v.name) a ∙ ap (λ x. stored w namespace x) b in
      ((λ h. sym e ∙ h), (λ h. e ∙ h))

  pub reconcile-answer :
      (namespace name : String) (w : World) (v : RainbondVolume) (r : Response (Failure Err) Result)
      (s' : Vol E)
      → stored w namespace name ≡ some v
      → reconcile_volume E B (record { volume = v; world = w }) ≡ (r, s')
      → reconcile E B namespace name w ≡ (r, s'.world)
  reconcile-answer namespace name w v r s' h e =
      reconcile-got E B namespace name w w v r s' (S.get_stored w namespace name v h) e

  -- A volume with the name of a class: `Reconcile` ends with the stored volume current.
  pub reconcile-named :
      (namespace name : String) (w : World) (v : RainbondVolume)
      → stored w namespace name ≡ some v
      → (v.spec.storage_class_name == "") ≡ false
      → (w' : World) × (reconcile E B namespace name w ≡ (ok no_requeue, w'))
        × ((v' : RainbondVolume) × (stored w' namespace name ≡ some v')
            × (v'.spec ≡ v.spec)
            × IsCurrent v')
  unfolding pure
  reconcile-named namespace name w v h named =
      let key = S.stored_key w namespace name v h in
      let s : Vol E = record { volume = v; world = w } in
      let (s', r, out) = update_volume_status-stored S s ((own_key w namespace name v v key).1 h) in
      let (v', g, p, c) = out in
      (
        s'.world,
        reconcile-answer namespace name w v (ok no_requeue) s' h (
            reconcile_volume-named E B s named
            ∙ then_ok update_volume_status (pure no_requeue) s s' r),
        (v', (own_key s'.world namespace name v v' key).0 g, p, c),
      )

  -- `updateVolumeRetryOnConflict` stores the spec of the volume.
  pub update_volume-stored :
      (s : Vol E) (old : RainbondVolume)
      → stored s.world s.volume.namespace s.volume.name ≡ some old
      → (w' : World) × (update_volume_retry_on_conflict s ≡ (ok tt, record s { world = w' }))
        × ((v : RainbondVolume) × (stored w' s.volume.namespace s.volume.name ≡ some v)
            × (v.spec ≡ s.volume.spec)
            × (v.status ≡ old.status)
            × (v.resource_version ≢ old.resource_version))
  unfolding update_volume_retry_on_conflict rewrite_volume call_or get pure ◌>>=◌ ◌>>◌
  update_volume-stored s old h =
      let key = S.stored_key s.world s.volume.namespace s.volume.name old h in
      let new : RainbondVolume = record old {
        labels = s.volume.labels;
        annotations = s.volume.annotations;
        spec = s.volume.spec;
      } in
      let (v, w', u, g, p, q, n) =
        S.update_stored s.world new old
          ((own_key s.world s.volume.namespace s.volume.name old old key).1 h) refl in
      let found = S.get_stored s.world s.volume.namespace s.volume.name old h in
      let r : E.retry_on_conflict RainbondVolume (rewrite_volume E s.volume) s.world ≡ (ok v, w') =
        S.retry_done (rewrite_volume E s.volume) s.world w' v
          (rw (found, rewrite_volume) (rw found u)) in
      (w', rw r (rw r), (v, (own_key w' s.volume.namespace s.volume.name old v key).0 g, p, q, n))

  -- Every error on the way to a class says that it is not there.
  abbrev pub CanAsk : String → World → Type 0
  CanAsk name w = (e : Err) → (E.get_storage_class name w).0 ≡ err e → E.is_not_found e ≡ true

  class-created :
      (s : Vol E) (p : StorageClassParameters)
      → CanAsk s.volume.name s.world
      → (w' : World) × (create_if_not_exist_storage_class p s
          ≡ (ok s.volume.name, record s { world = w' }))
        × (stored w' ≡ stored s.world)
  unfolding create_if_not_exist_storage_class storage_class_for check call get pure throw ◌>>=◌ ◌>>◌
  class-created s p can = elim (answer_cases (E.get_storage_class s.volume.name s.world).0) [
    | inl (c, found) ↦ (
      (E.get_storage_class s.volume.name s.world).1,
      rw found (rw (S.get_storage_class_name s.volume.name s.world c found)),
      S.get_storage_class_stored s.volume.name s.world,
    )
    | inr (e, missing) ↦
        let k = S.create_missing (storage_class_for s.volume p) s.world e missing (can e missing) in
        (
          (E.create_storage_class (storage_class_for s.volume p)
              (E.get_storage_class s.volume.name s.world).1).1,
          rw missing (rw (can e missing) (rw k)),
          S.create_storage_class_stored (storage_class_for s.volume p)
                (E.get_storage_class s.volume.name s.world).1
              ∙ S.get_storage_class_stored s.volume.name s.world,
        )
  ]

  -- The spec of a volume that has the class with its own name.
  abbrev pub classed : RainbondVolume → RainbondVolume
  classed v = let spec = v.spec in record v { spec = record spec { storage_class_name = v.name } }

  reconcile_volume-parameters :
      (s : Vol E) (p : StorageClassParameters)
      → (s.volume.spec.storage_class_name == "") ≡ true
      → used_parameters s.volume.spec ≡ some p
      → reconcile_volume E B s ≡ sync_storage_class E B p s
  unfolding reconcile_volume get ◌>>=◌
  reconcile_volume-parameters s p h used = rw h (rw used refl)

  -- A volume with a provisioner: `Reconcile` stores the name of its class, which it creates if need
  -- be. Then it writes the status of a volume that is out of date, which ends in a conflict unless
  -- the condition is right already.
  pub reconcile-provisioned :
      (namespace name : String) (w : World) (v : RainbondVolume) (p : StorageClassParameters)
      → stored w namespace name ≡ some v
      → (v.spec.storage_class_name == "") ≡ true
      → used_parameters v.spec ≡ some p
      → CanAsk v.name w
      → (r : Response (Failure Err) Result) × (w' : World) × (reconcile E B namespace name w
          ≡ (r, w'))
        × ((v' : RainbondVolume) × (stored w' namespace name ≡ some v')
            × (v'.spec ≡ (classed v).spec)
            × (v'.status ≡ v.status))
        × ((IsCurrent (classed v) × (r ≡ ok no_requeue))
            ⊎ ((¬ IsCurrent (classed v)) × (r ≡ err (failure S.conflict))))
  unfolding sync_storage_class modify pure
  reconcile-provisioned namespace name w v p h unnamed used can =
      let key = S.stored_key w namespace name v h in
      let s : Vol E = record { volume = v; world = w } in
      let (w1, created, k1) = class-created s p can in
      let s1 : Vol E = record { volume = classed v; world = w1 } in
      let (w2, updated, out) =
        update_volume-stored s1 v (rw k1 ((own_key w namespace name v v key).1 h)) in
      let (v', g, e, f, n) = out in
      let s2 : Vol E = record { volume = classed v; world = w2 } in
      let (r, s3, stale, k3, which) = update_volume_status-stale S s2 v' g (λ q. n (sym q)) in
      let start =
        reconcile_volume-parameters s p unnamed used
        ∙ bind_ok (create_if_not_exist_storage_class p) _ s (record s { world = w1 }) v.name created
        ∙ then_ok (modify name_class) _ (record s { world = w1 }) s1 refl
        ∙ then_ok update_volume_retry_on_conflict (update_volume_status >> pure no_requeue) s1 s2
            updated in
      elim which [
        | inl (c, good) ↦ (
          ok no_requeue,
          s3.world,
          reconcile-answer namespace name w v (ok no_requeue) s3 h
              (start ∙ then_ok update_volume_status (pure no_requeue) s2 s3 (rw (← good) stale)),
          (v', rw k3 ((own_key w2 namespace name v v' key).0 g), e, f),
          inl (c, refl),
        )
        | inr (c, bad) ↦ (
          err (failure S.conflict),
          s3.world,
          reconcile-answer namespace name w v (err (failure S.conflict)) s3 h (
              start
              ∙ then_err update_volume_status (pure no_requeue) s2 s3 (failure S.conflict)
                  (rw (← bad) stale)),
          (v', rw k3 ((own_key w2 namespace name v v' key).0 g), e, f),
          inr (c, refl),
        )
      ]
    where
      name_class : Vol E → Vol E
      name_class t =
          let spec = t.volume.spec in with_spec (record spec { storage_class_name = v.name }) t
