-- ===== src/Package/Turns.antt =====
-- What `canPushImage` and `canReady` answer, and what the marks of `canDownload` and `canUnpack` do.
use rainbond_operator.Base.{
  Bool, true, false, not, ◌&&◌, Option, none, some, ◌==◌, if◌then◌else◌, ◌≡◌, refl, arith,
  Bool-cases, inl, inr,
}
use rainbond_operator.Api.{
  PackageConditionType, PackageConditionStatus, PackageCondition, unpack_package, push_image, ready,
  completed,
}
use rainbond_operator.Kube.{Response, ok}
use rainbond_operator.Package.Status.{find_condition, type_eq, phase_eq}
use rainbond_operator.Package.Env.{Env, Pkg, P, ◌>>=◌, ◌>>◌, pure, try, modify, call}
use rainbond_operator.Package.Docker.{update_cr_status}
use rainbond_operator.Package.Pull.{set_status}
use rainbond_operator.Package.Checks.{mark, can_push_image, can_ready, condition}
use rainbond_operator.Package.Phases.{
  is_done_of, Echo, Steady, bind-Steady, try-Steady, pure-Steady,
}
use rainbond_operator.Package.Stored.{update_cr_status-Steady}
use rainbond_operator.Package.Order.{IsOrdered, IsDue, same-IsDue}
use rainbond_operator.Package.Moves.{
  view, Asks, then-KeepsDue, set_status-KeepsDue, set_status-IsDue,
}

pub ok_inj : {F A : Type 0} (a b : A) → ◌≡◌ {A = Response F A} (ok a) (ok b) → a ≡ b
ok_inj a b h = cc

module _ {E : Env} (echo : Echo E) where
  open E use {World, Err}

  pub update_try-Steady : Steady {E = E} (try update_cr_status >>= λ _. pure tt)
  update_try-Steady =
      bind-Steady _ _ (try-Steady _ (update_cr_status-Steady echo)) (λ _. pure-Steady tt)

  pub mark-Keeps :
      (t : PackageConditionType) (status : PackageConditionStatus) (b : Bool) (s : Pkg E)
      → IsOrdered (view s)
      → IsDue t (view s)
      → IsOrdered (view ((mark t status >> pure b) s).1)
  unfolding mark
  mark-Keeps t status b s o d =
      (then-KeepsDue t _ _ (then-KeepsDue t _ _ (set_status-KeepsDue t status) update_try-Steady)
          (pure-Steady b)).keeps_due
        s o d

  pub mark-IsDue :
      (t : PackageConditionType) (status : PackageConditionStatus) (b : Bool) (s : Pkg E)
      → (status == completed) ≡ false
      → IsDue t (view s)
      → IsDue t (view ((mark t status >> pure b) s).1)
  unfolding mark ◌>>◌ ◌>>=◌ set_status call modify try pure
  mark-IsDue t status b s n d =
      let s1 = (set_status {E = E} t status s).1 in
      same-IsDue (view (update_cr_status {E = E} s1).1) (view s1)
        ((update_cr_status-Steady echo).steady s1) t (set_status-IsDue t status s n d)

  -- The answer of `canPushImage`, from the conditions of the unpacking and of the pushing.
  may_push : Option PackageCondition → Option PackageCondition → Bool
  may_push none push = false
  may_push (some u) none = false
  may_push (some u) (some c) = u.status == completed && not (c.status == completed)

  push_choice :
      (unpack push : Option PackageCondition) (s : Pkg E)
      → (let m : P E Bool = elim unpack [
        | none ↦ pure false
        | some uncon ↦
            if uncon.status == completed
            then elim push [ none ↦ pure false | some pcon ↦ pure (not (pcon.status == completed)) ]
            else pure false
      ] in
          m s)
        ≡ (ok (may_push unpack push), s)
  unfolding pure may_push
  push_choice none push s = refl
  push_choice (some u) none s = elim (Bool-cases (u.status == completed)) [
    | inl p ↦ rw p refl
    | inr p ↦ rw p refl
  ]
  push_choice (some u) (some c) s = elim (Bool-cases (u.status == completed)) [
    | inl p ↦ rw p refl
    | inr p ↦ rw p refl
  ]

  can_push_image_answer :
      (s : Pkg E)
      → can_push_image s ≡ (
        ok (
            may_push
              (find_condition unpack_package s.pkg.status.conditions)
              (find_condition push_image s.pkg.status.conditions)),
        s,
      )
  unfolding can_push_image ◌>>=◌ condition
  can_push_image_answer s =
      push_choice (find_condition unpack_package s.pkg.status.conditions)
        (find_condition push_image s.pkg.status.conditions) s

  may_push_due :
      (unpack push : Option PackageCondition)
      → may_push unpack push ≡ true
      → (is_done_of push ≡ false) × (is_done_of unpack ≡ true)
  unfolding may_push
  may_push_due none push h = absurd (cc)
  may_push_due (some u) none h = absurd (cc)
  may_push_due (some u) (some c) h = ground (arith, h)

  pub can_push_image-Asks : Asks {E = E} push_image can_push_image
  can_push_image-Asks = record {
    asks = λ s o. rw (can_push_image_answer s) (
      o,
      λ h.
          let d =
            may_push_due (find_condition unpack_package s.pkg.status.conditions)
              (find_condition push_image s.pkg.status.conditions) (ok_inj _ _ h) in
          (inl d.0, d.1),
    );
  }

  ready_choice :
      (push : Option PackageCondition) (s : Pkg E)
      → (let m : P E Bool = elim push [
        | none ↦ pure false
        | some pcon ↦ pure (pcon.status == completed)
      ] in
          m s)
        ≡ (ok (is_done_of push), s)
  unfolding pure
  ready_choice none s = refl
  ready_choice (some c) s = refl

  pub can_ready-Asks : Asks {E = E} ready can_ready
  unfolding can_ready ◌>>=◌ condition
  can_ready-Asks = record {
    asks = λ s o.
        rw (ready_choice (find_condition push_image s.pkg.status.conditions) s)
          (o, λ h. (inr refl, ok_inj _ _ h));
  }
