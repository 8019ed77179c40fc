-- ===== src/Handlers/Classes.antt =====
-- The storage classes that the handlers find.
use rainbond_operator.Base.{
  String, Bool, true, false, List, [], ◌∷◌, ◌==◌, string_eq, if◌then◌else◌, ◌≡◌, refl, ◌∙◌, ap,
  Bool-cases, inl, inr,
}
use rainbond_operator.Kube.{Response, ok}
use rainbond_operator.Kube.Action.{◌>>=◌, pure, throw, try, bind_ok, try_lem}
use rainbond_operator.Package.Turns.{ok_inj}
use rainbond_operator.Volume.Types.{RainbondVolume}
use rainbond_operator.Handlers.Env.{Env, Failure, PvcParameters, Prepared, call_or}
use rainbond_operator.Handlers.Common.{
  first_class, from_response, labels_for_access_mode_rwx, labels_for_access_mode_rwo,
  storage_class_name_from_rainbond_volume, storage_class_name_from_rainbond_volume_rwx,
  storage_class_name_from_rainbond_volume_rwo, is_rainbond_volume_not_found,
}

-- The class of the first volume that is listed for one writer, else of the first that is listed for
-- many writers, for which one gibibyte is asked.
abbrev pub chosen_class :
    {Err : Type 0}
    → List RainbondVolume
    → List RainbondVolume
    → Response (Failure Err) PvcParameters
chosen_class (v ∷ _) _ = first_class true (v ∷ [])
chosen_class [] us = first_class false us

-- Parameters with the name of a class.
abbrev pub IsNamed : PvcParameters → Type 0
IsNamed p = (p.storage_class_name == "") ≡ false

pub first_class-IsNamed :
    {Err : Type 0} (rwo : Bool) (volumes : List RainbondVolume) (p : PvcParameters)
    → ◌≡◌ {A = Response (Failure Err) PvcParameters} (first_class rwo volumes) (ok p)
    → IsNamed p
unfolding first_class
first_class-IsNamed rwo [] p h = absurd (cc h)
first_class-IsNamed rwo (v ∷ vs) p h = elim (Bool-cases (v.spec.storage_class_name == "")) [
  | inl q ↦ absurd (cc (rw q at h))
  | inr q ↦ rw (← (ap (λ x. x.storage_class_name) (ok_inj _ _ (rw q at h)))) q
]

module _ {E : Env} where
  open E use {World, Err}

  listed :
      (ns : String) (rwo : Bool) (s : Prepared E) (vs : List RainbondVolume) (w : World)
      → E.list_volumes ns
          (if rwo then labels_for_access_mode_rwo else labels_for_access_mode_rwx)
          s.world
        ≡ (ok vs, w)
      → storage_class_name_from_rainbond_volume ns rwo s
        ≡ (first_class rwo vs, record s { world = w })
  unfolding storage_class_name_from_rainbond_volume call_or from_response ◌>>=◌
  listed ns rwo s vs w h = rw h (rw h refl)

  -- For one writer the class of the first volume for one writer is found; only if no such volume
  -- is listed, the class of the first volume for many writers. A first volume without a class is an
  -- error in either case.
  pub storage_class_name_from_rainbond_volume_rwo_lem :
      (ns : String) (s : Prepared E) (vs us : List RainbondVolume) (w u : World)
      → E.list_volumes ns labels_for_access_mode_rwo s.world ≡ (ok vs, w)
      → E.list_volumes ns labels_for_access_mode_rwx w ≡ (ok us, u)
      → (storage_class_name_from_rainbond_volume_rwo ns s).0 ≡ chosen_class vs us
  unfolding storage_class_name_from_rainbond_volume_rwo storage_class_name_from_rainbond_volume_rwx
      first_class is_rainbond_volume_not_found pure throw
  storage_class_name_from_rainbond_volume_rwo_lem ns s [] us w u h k =
      let m = storage_class_name_from_rainbond_volume {E = E} ns true in
      let s1 : Prepared E = record s { world = w } in
      let r = first_class {Err = Err} true [] in
      ap (λ x. x.0) (bind_ok (try m) _ s s1 r (try_lem m s s1 r (listed ns true s [] w h)))
      ∙ ap (λ x. x.0) (listed ns false s1 us u k)
  storage_class_name_from_rainbond_volume_rwo_lem ns s (v ∷ vs) us w u h k =
      let m = storage_class_name_from_rainbond_volume {E = E} ns true in
      let s1 : Prepared E = record s { world = w } in
      let r = first_class {Err = Err} true (v ∷ vs) in
      ap (λ x. x.0) (bind_ok (try m) _ s s1 r (try_lem m s s1 r (listed ns true s (v ∷ vs) w h)))
      ∙ elim (Bool-cases (v.spec.storage_class_name == "")) [
        | inl q ↦ rw q refl
        | inr q ↦ rw q refl
      ]
