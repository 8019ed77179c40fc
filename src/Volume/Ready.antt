-- ===== src/Volume/Ready.antt =====
-- The condition `Ready` of a volume, and when it is written.
use rainbond_operator.Base.{
  ℕ, false, some, string_eq, ◌≡◌, ◌≢◌, ◌⊎◌, refl, sym, ◌∙◌, ap, inl, inr, Option-cases, Bool-cases,
}
use rainbond_operator.Conditions.{update_condition, stamped, status_eq}
use rainbond_operator.Conditions.Find.{find, get_condition-none, get_condition-some, find-typ3}
use rainbond_operator.Conditions.Update.{find-update_condition, update_condition-unchanged_iff}
use rainbond_operator.Kube.{Response, ok, err}
use rainbond_operator.Kube.Action.{◌>>=◌, ◌>>◌, pure, get, modify}
use rainbond_operator.Volume.Types.{RainbondVolume, VolumeCondition, volume_ready}
use rainbond_operator.Volume.Env.{Env, Failure, failure, Vol, call, call_or}
use rainbond_operator.Volume.Server.{Server}
use rainbond_operator.Volume.Methods.{
  class_status, ready_condition, with_conditions, update_volume_status,
  update_volume_status_retry_on_conflict,
}

-- The condition of a volume is there and says whether it has the name of a class.
abbrev pub IsCurrent : RainbondVolume → Type 0
IsCurrent volume =
    (c : VolumeCondition) × (find volume_ready volume.status.conditions ≡ some c)
    × (c.status ≡ class_status volume.spec)

pub ready_condition-typ3 : (v : RainbondVolume) → (ready_condition v).typ3 ≡ volume_ready
unfolding ready_condition
ready_condition-typ3 v = elim (Option-cases (find volume_ready v.status.conditions)) [
  | inl h ↦ rw (get_condition-none volume_ready v.status.conditions h, ready_condition)
  | inr (c, h) ↦
      rw (get_condition-some volume_ready v.status.conditions c h, ready_condition)
        (sym (find-typ3 volume_ready v.status.conditions c h))
]

pub ready_condition-status : (v : RainbondVolume) → (ready_condition v).status ≡ class_status v.spec
unfolding ready_condition
ready_condition-status v = elim (Option-cases (find volume_ready v.status.conditions)) [
  | inl h ↦ rw (get_condition-none volume_ready v.status.conditions h, ready_condition)
  | inr (c, h) ↦ rw (get_condition-some volume_ready v.status.conditions c h, ready_condition)
]

-- The condition that is written keeps the reason and the message of the old one.
ready_condition-some :
    (v : RainbondVolume) (c : VolumeCondition)
    → find volume_ready v.status.conditions ≡ some c
    → ready_condition v ≡ record c { status = class_status v.spec }
unfolding ready_condition
ready_condition-some v c h =
    rw (get_condition-some volume_ready v.status.conditions c h, ready_condition)

current-unchanged :
    (v : RainbondVolume) (now : ℕ)
    → IsCurrent v
    → (update_condition now (ready_condition v) v.status.conditions).1 ≡ false
current-unchanged v now (c, f, h) =
    let q = ready_condition-some v c f in
    (update_condition-unchanged_iff now (ready_condition v) v.status.conditions).1 (
      c,
      rw (ready_condition-typ3 v) f,
      ready_condition-status v ∙ sym h,
      ap (λ x. x.reason) q,
      ap (λ x. x.message) q,
    )

-- What `updateVolumeStatus` leaves as the conditions is current.
current-updated :
    (v : RainbondVolume) (now : ℕ)
    → let cs = (update_condition now (ready_condition v) v.status.conditions).0 in
      (c : VolumeCondition) × (find volume_ready cs ≡ some c) × (c.status ≡ class_status v.spec)
current-updated v now =
    let rc = ready_condition v in
    let c = stamped now rc (find rc.typ3 v.status.conditions) in
    (
      c,
      rw (find-update_condition now volume_ready rc v.status.conditions)
          (rw (ready_condition-typ3 v) (refl)),
      ready_condition-status v,
    )

unchanged-IsCurrent :
    (v : RainbondVolume) (now : ℕ)
    → (update_condition now (ready_condition v) v.status.conditions).1 ≡ false
    → IsCurrent v
unchanged-IsCurrent v now h =
    let (old, f, p, _, _) =
      (update_condition-unchanged_iff now (ready_condition v) v.status.conditions).0 h in
    (
      old,
      ap (λ t. find t v.status.conditions) (sym (ready_condition-typ3 v)) ∙ f,
      sym p ∙ ready_condition-status v,
    )

module _ {E : Env} where
  open E use {World, Err}

  -- Where the condition is current, `updateVolumeStatus` only reads the clock twice.
  pub update_volume_status-current :
      (s : Vol E)
      → IsCurrent s.volume
      → (s' : Vol E) × (update_volume_status s ≡ (ok tt, s'))
        × (s'.world ≡ (E.now (E.now s.world).1).1)
        × (s'.volume.spec ≡ s.volume.spec)
  unfolding update_volume_status ◌>>=◌ ◌>>◌ get call modify pure
  update_volume_status-current s h =
      let now = (E.now s.world).0 in
      (
        record (with_conditions
            (update_condition now (ready_condition s.volume) s.volume.status.conditions).0 s) {
              world = (E.now (E.now s.world).1).1;
            },
        rw (current-unchanged s.volume (E.now (E.now s.world).1).0 h) refl,
        refl,
        refl,
      )

  module _ (S : Server E) where
    open S use {stored}

    -- The world after the two times, the second of them, and the volume with its new condition.
    abbrev clock : Vol E → World
    clock s = (E.now (E.now s.world).1).1

    abbrev later : Vol E → ℕ
    later s = (E.now (E.now s.world).1).0

    abbrev marked : Vol E → RainbondVolume
    marked s =
        let v = s.volume in
        record v {
          status = record {
            conditions =
                (update_condition (E.now s.world).0 (ready_condition v) v.status.conditions).0;
          };
        }

    kept_clock : (s : Vol E) → stored (clock s) ≡ stored s.world
    kept_clock s = S.now_stored (E.now s.world).1 ∙ S.now_stored s.world

    -- `updateVolumeStatus` of the volume that is stored succeeds, and what is stored then is current.
    pub update_volume_status-stored :
        (s : Vol E)
        → stored s.world s.volume.namespace s.volume.name ≡ some s.volume
        → (s' : Vol E) × (update_volume_status s ≡ (ok tt, s'))
          × ((v : RainbondVolume) × (stored s'.world s.volume.namespace s.volume.name ≡ some v)
              × (v.spec ≡ s.volume.spec)
              × IsCurrent v)
    unfolding update_volume_status update_volume_status_retry_on_conflict call_or ◌>>=◌ ◌>>◌ get
        call modify pure
    update_volume_status-stored s h =
        elim (Bool-cases
          (update_condition (later s) (ready_condition s.volume) s.volume.status.conditions).1) [
            | inl changed ↦
                let (v, w', u, g, p, q) =
                  S.update_status_stored (clock s) (marked s) s.volume (rw (kept_clock s) h) refl in
                let r = S.retry_done (E.update_volume_status (marked s)) (clock s) w' v u in
                (
                  record { volume = v; world = w' },
                  rw changed (rw r (rw r)),
                  (
                    v,
                    g,
                    p,
                    (let (c, f, e) = current-updated s.volume (E.now s.world).0 in
                        (
                          c,
                          ap (λ x. find volume_ready x.conditions) q ∙ f,
                          e ∙ sym (ap class_status p),
                        )),
                  ),
                )
            | inr same ↦ (
              record { volume = (marked s); world = clock s },
              rw same,
              (s.volume, rw (kept_clock s) h, refl, unchanged-IsCurrent s.volume (later s) same),
            )
          ]

    -- A volume that is not the stored one, in its version, is not written: the call ends in a
    -- conflict, unless the condition is current already.
    pub update_volume_status-stale :
        (s : Vol E) (old : RainbondVolume)
        → stored s.world s.volume.namespace s.volume.name ≡ some old
        → s.volume.resource_version ≢ old.resource_version
        → (r : Response (Failure Err) (Unit {0})) × (s' : Vol E) × (update_volume_status s
            ≡ (r, s'))
          × (stored s'.world ≡ stored s.world)
          × ((IsCurrent s.volume × (r ≡ ok tt))
              ⊎ ((¬ IsCurrent s.volume) × (r ≡ err (failure S.conflict))))
    unfolding update_volume_status update_volume_status_retry_on_conflict call_or ◌>>=◌ ◌>>◌ get
        call modify pure
    update_volume_status-stale s old h stale =
        elim (Bool-cases
          (update_condition (later s) (ready_condition s.volume) s.volume.status.conditions).1) [
            | inl changed ↦
                let u =
                  S.update_status_conflict (clock s) (marked s) old (rw (kept_clock s) h) stale in
                let r = S.retry_conflict (E.update_volume_status (marked s)) (clock s) u in
                (
                  err (failure S.conflict),
                  record { volume = (marked s); world = clock s },
                  rw changed (rw r (rw r)),
                  kept_clock s,
                  inr ((λ c. cc (current-unchanged s.volume (later s) c)), refl),
                )
            | inr same ↦ (
              ok tt,
              record { volume = (marked s); world = clock s },
              rw same,
              kept_clock s,
              inl (unchanged-IsCurrent s.volume (later s) same, refl),
            )
          ]
