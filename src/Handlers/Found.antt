-- ===== src/Handlers/Found.antt =====
-- Methods of the handlers that find a storage class.
use rainbond_operator.Base.{
  String, Bool, true, false, not, some, string_eq, if◌then◌else◌, ◌≡◌, refl, ◌∙◌, Bool-cases, inl,
  inr,
}
use rainbond_operator.Kube.{Response, ok, err}
use rainbond_operator.Kube.Action.{◌>>=◌, pure, throw, try, get, modify, bind-eq-ok, bind_after}
use rainbond_operator.Package.Turns.{ok_inj}
use rainbond_operator.Handlers.Env.{Env, Failure, PvcParameters, Prepared, H, call_or}
use rainbond_operator.Handlers.Common.{
  first_class, from_response, storage_class_name_from_rainbond_volume,
  storage_class_name_from_rainbond_volume_rwx, storage_class_name_from_rainbond_volume_rwo,
  set_storage_cass_name_rwx, set_storage_cass_name_rwo, is_rainbond_volume_not_found,
  labels_for_access_mode_rwo, labels_for_access_mode_rwx,
}
use rainbond_operator.Handlers.Before.{find_class_rwx, find_class_rwo}
use rainbond_operator.Handlers.Classes.{IsNamed, first_class-IsNamed}

module _ {E : Env} where
  open E use {World, Err}

  -- What holds whenever a method succeeds, and what a method keeps.
  pub record Finds {A : Type 0} (P : Prepared E → Type 0) (m : H E A) : Type 0 where
    pub finds : (s : Prepared E) (a : A) → (m s).0 ≡ ok a → P (m s).1

  pub last-Finds :
      {A B : Type 0} (P : Prepared E → Type 0) (m : H E A) (k : A → H E B)
      → ((a : A) → Finds P (k a))
      → Finds P (m >>= k)
  last-Finds P m k h = record {
    finds = λ s b e.
        let (a, f, g) = bind-eq-ok m k s b e in rw (bind_after m k s a f) ((h a).finds (m s).1 b g);
  }

  pub first-Finds :
      {A B : Type 0} (P : Prepared E → Type 0) (m : H E A) (k : A → H E B)
      → Finds P m
      → ((a : A) (s : Prepared E) → P s → P (k a s).1)
      → Finds P (m >>= k)
  first-Finds P m k h keep = record {
    finds = λ s b e.
        let (a, f, g) = bind-eq-ok m k s b e in
        rw (bind_after m k s a f) (keep a (m s).1 (h.finds s a f));
  }

  pub throw-Finds :
      {A : Type 0} (P : Prepared E → Type 0) (e : Failure Err) → Finds {A = A} P (throw e)
  unfolding throw
  throw-Finds P e = record { finds = λ s a h. absurd (cc h) }

  abbrev pub HasRwx : Prepared E → Type 0
  HasRwx s = (p : PvcParameters) × (s.pvc_parameters_rwx ≡ some p) × IsNamed p

  abbrev pub HasRwo : Prepared E → Type 0
  HasRwo s = (p : PvcParameters) × (s.pvc_parameters_rwo ≡ some p) × IsNamed p

  class-IsNamed :
      (ns : String) (rwo : Bool) (s : Prepared E) (p : PvcParameters)
      → (storage_class_name_from_rainbond_volume ns rwo s).0 ≡ ok p
      → IsNamed p
  unfolding storage_class_name_from_rainbond_volume from_response
  class-IsNamed ns rwo s p h =
      let m = call_or {E = E} (
        E.list_volumes ns
          (if rwo then labels_for_access_mode_rwo else labels_for_access_mode_rwx)) in
      let (vs, f, g) = bind-eq-ok m (λ volumes. from_response (first_class rwo volumes)) s p h in
      first_class-IsNamed rwo vs p g

  rwo_answer-IsNamed :
      (ns : String) (r : Response (Failure Err) PvcParameters) (s : Prepared E) (p : PvcParameters)
      → ((q : PvcParameters) → r ≡ ok q → IsNamed q)
      → (let m : H E PvcParameters = elim r [
        | ok parameters ↦ pure parameters
        | err e ↦
            if not (is_rainbond_volume_not_found e)
            then throw e
            else storage_class_name_from_rainbond_volume_rwx ns
      ] in
          m s).0
        ≡ ok p
      → IsNamed p
  unfolding pure throw storage_class_name_from_rainbond_volume_rwx
  rwo_answer-IsNamed ns (ok q) s p named h = named p h
  rwo_answer-IsNamed ns (err e) s p named h = elim (Bool-cases (is_rainbond_volume_not_found e)) [
    | inl b ↦ class-IsNamed ns false s p (rw b at h)
    | inr b ↦ absurd (cc (rw b at h))
  ]

  rwo-IsNamed :
      (ns : String) (s : Prepared E) (p : PvcParameters)
      → (storage_class_name_from_rainbond_volume_rwo ns s).0 ≡ ok p
      → IsNamed p
  unfolding storage_class_name_from_rainbond_volume_rwo try
  rwo-IsNamed ns s p h =
      let m = storage_class_name_from_rainbond_volume {E = E} ns true in
      let (r, f, g) = bind-eq-ok (try m) _ s p h in
      rwo_answer-IsNamed ns r (try m s).1 p (λ q e. class-IsNamed ns true s q (ok_inj _ _ f ∙ e)) g

  pub find_class_rwx-HasRwx : Finds HasRwx find_class_rwx
  unfolding find_class_rwx set_storage_cass_name_rwx storage_class_name_from_rainbond_volume_rwx
      modify
  find_class_rwx-HasRwx = last-Finds HasRwx get _ λ t. record {
    finds = λ s a h.
        let m = storage_class_name_from_rainbond_volume_rwx {E = E} t.component.namespace in
        let (p, f, g) = bind-eq-ok m _ s a h in
        rw (bind_after m _ s p f) (p, refl, class-IsNamed t.component.namespace false s p f);
  }

  pub find_class_rwo-HasRwo : Finds HasRwo find_class_rwo
  unfolding find_class_rwo set_storage_cass_name_rwo modify
  find_class_rwo-HasRwo = last-Finds HasRwo get _ λ t. record {
    finds = λ s a h.
        let m = storage_class_name_from_rainbond_volume_rwo {E = E} t.component.namespace in
        let (p, f, g) = bind-eq-ok m _ s a h in
        rw (bind_after m _ s p f) (p, refl, rwo-IsNamed t.component.namespace s p f);
  }
