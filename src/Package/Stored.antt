-- ===== src/Package/Stored.antt =====
-- Which conditions are completed when the status of a package is written and its images are pushed.
use rainbond_operator.Base.{
  ◌<>◌, ℕ, ◌*◌, ◌/◌, ◌++◌, length, ◌+◌, string_eq, String, Bool, true, false, List, [], ◌∷◌, ◌≡◌,
  refl, if◌then◌else◌, inl, inr, ap, sym, ◌∙◌,
}
use rainbond_operator.Api.{PackageConditionType, RainbondPackage, push_image}
use rainbond_operator.Kube.{Response, ok, err}
use rainbond_operator.Package.Env.{
  call, Env, Failure, failure, Pkg, P, ◌>>=◌, ◌>>◌, pure, throw, try, get, modify, call_or,
}
use rainbond_operator.Package.Docker.{write_latest, update_cr_status_of, update_cr_status}
use rainbond_operator.Package.Pull.{
  text, with_status, set_progress, note_pushed, push_images, image_pull_and_push,
}
use rainbond_operator.Package.Once.{answer_cases}
use rainbond_operator.Package.Phases.{
  call-Steady, is_done, Echo, Steady, bind-Steady, try-Steady, seq-Steady, pure-Steady,
  throw-Steady,
}
use rainbond_operator.Package.Steady.{get-Steady, handle_image-Steady, set_progress-Steady}

ok_inj : {F A : Type 0} (a b : A) → ◌≡◌ {A = Response F A} (ok a) (ok b) → a ≡ b
ok_inj a b h = cc

module _ {E : Env} (echo : Echo E) where
  open E use {World, Err}

  latest_status :
      (p a : RainbondPackage) (w : World) → (write_latest E p w).0 ≡ ok a → a.status ≡ p.status
  unfolding write_latest
  latest_status p a w h = elim (answer_cases (E.get_package p.namespace p.name w).0) [
    | inl (found, g) ↦ echo.written _ a _ (rw (g, write_latest) at h)
    | inr (e, g) ↦ absurd (cc (rw (g, write_latest) at h))
  ]

  write_status :
      (p q : RainbondPackage) (w : World)
      → (update_cr_status_of E p w).0 ≡ ok q
      → q.status ≡ p.status
  unfolding update_cr_status_of
  write_status p q w h =
      elim (answer_cases (E.retry_on_conflict RainbondPackage (write_latest E p) w).0) [
        | inl (a, g) ↦
            let same : ok a ≡ ok q = rw (g, update_cr_status_of) at h in
            let (w', l) = echo.retried RainbondPackage (write_latest E p) w a g in
            rw (ok_inj q a (sym same)) (latest_status p a w' l)
        | inr (e, g) ↦ absurd (cc (rw (g, update_cr_status_of) at h))
      ]

  saved-Steady :
      (f : World → Response Err RainbondPackage × World) (s : Pkg E) (u : PackageConditionType)
      → ((q : RainbondPackage) → (f s.world).0 ≡ ok q → q.status ≡ s.pkg.status)
      → is_done u
          ((call_or {E = E} (λ e. e) f >>= λ q. modify (λ s. record s { pkg = q }))
            s).1.pkg.status.conditions
        ≡ is_done u s.pkg.status.conditions
  unfolding ◌>>=◌ call_or modify
  saved-Steady f s u h = elim (answer_cases (f s.world).0) [
    | inl (q, g) ↦ rw g (ap (λ x. is_done u x.conditions) (h q g))
    | inr (e, g) ↦ rw g refl
  ]

  pub update_cr_status-Steady : Steady {E = E} update_cr_status
  unfolding update_cr_status ◌>>=◌ get
  update_cr_status-Steady = record {
    steady = λ s u.
        saved-Steady (update_cr_status_of E s.pkg) s u (λ q g. write_status s.pkg q s.world g);
  }

  -- What follows once the image is listed as pushed.
  progress-Steady :
      (progress : ℕ)
      → Steady {E = E} {A = Unit {0}} (
          set_progress push_image progress >>= λ changed.
          try (if changed then update_cr_status else pure tt) >>= λ written. elim written [
            | ok _ ↦ pure tt
            | err e ↦ throw (failure (E.errorf ("update cr status: " <> text E e)))
          ])
  progress-Steady progress =
      bind-Steady _ _ (set_progress-Steady push_image progress)
        λ changed. bind-Steady _ _ (try-Steady _ (update-Steady changed)) done-Steady
    where
      update-Steady :
          (changed : Bool) → Steady {E = E} (if changed then update_cr_status else pure tt)
      update-Steady true = update_cr_status-Steady
      update-Steady false = pure-Steady tt

      done-Steady :
          (r : Response (Failure Err) (Unit {0}))
          → Steady {E = E} {A = Unit {0}} (elim r [
            | ok _ ↦ pure tt
            | err e ↦ throw (failure (E.errorf ("update cr status: " <> text E e)))
          ])
      done-Steady (ok _) = pure-Steady tt
      done-Steady (err e) = throw-Steady _

  get-modify-Steady :
      {A : Type 0} (f : Pkg E → Pkg E → Pkg E) (k : Pkg E → P E A)
      → ((s : Pkg E) (u : PackageConditionType)
          → is_done u (f s s).pkg.status.conditions ≡ is_done u s.pkg.status.conditions)
      → ((s : Pkg E) → Steady (k s))
      → Steady (get >>= λ s. modify (f s) >> k s)
  unfolding get modify ◌>>=◌ ◌>>◌
  get-modify-Steady f k h hk = record { steady = λ s u. (hk s).steady (f s s) u ∙ h s u }

  note_pushed-Steady : (count : ℕ) (local : String) → Steady {E = E} (note_pushed count local)
  unfolding note_pushed
  note_pushed-Steady count local =
      get-modify-Steady
        (λ s.
          with_status
            (record (s.pkg.status) { images_pushed = s.pkg.status.images_pushed ++ (local ∷ []) }))
        _ (λ s u. refl) (λ s. progress-Steady (count * 100 / s.pkg.status.images_number))

  push_images-Steady :
      (count : ℕ) (images : List (String × String)) → Steady {E = E} (push_images count images)
  unfolding push_images
  push_images-Steady count [] = pure-Steady tt
  push_images-Steady count ((old, new) ∷ images) = bind-Steady _ _ get-Steady λ s.
      seq-Steady _ _ (handle_image-Steady _ _)
        (seq-Steady _ _ (note_pushed-Steady _ _) (push_images-Steady (count + 1) images))

  pub image_pull_and_push-Steady : Steady {E = E} image_pull_and_push
  unfolding image_pull_and_push
  image_pull_and_push-Steady =
      get-modify-Steady
        (λ s.
          with_status
            (record (s.pkg.status) { images_number = length s.images; images_pushed = [] }))
        (λ s. call (E.range s.images) >>= push_images 0) (λ s u. refl)
        (λ s. bind-Steady _ _ (call-Steady (E.range s.images)) (push_images-Steady 0))
