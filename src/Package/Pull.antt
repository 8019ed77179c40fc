-- ===== src/Package/Pull.antt =====
-- controllers/rainbondpackage_controller.go: `imagePullAndPush`, and the changes of conditions
-- through `pkg`.
use rainbond_operator.Base.{
  ℕ, ◌+◌, ◌*◌, ◌/◌, String, Bool, none, some, List, [], ◌∷◌, ◌++◌, ◌<>◌, length, if◌then◌else◌,
}
use rainbond_operator.Api.{
  PackageStatus, PackageCondition, PackageConditionType, PackageConditionStatus, push_image,
}
use rainbond_operator.Kube.{ok, err}
use rainbond_operator.Retry.{
  Attempt, done, fail, RetryFailure, bad_max_retries, still_failing, retry,
}
use rainbond_operator.Package.Status.{
  update_condition_status, update_condition_reason, update_condition_progress,
}
use rainbond_operator.Package.Env.{
  Env, Failure, cluster_config_not_ready, cluster_config_no_local_hub, failure, Pkg, P, ◌>>=◌, ◌>>◌,
  pure, throw, try, get, modify, call, check_or,
}
use rainbond_operator.Package.Docker.{
  image_push, image_pull, check_if_image_exists, update_cr_status,
}

-- `err.Error()`.
abbrev pub text : (E : Env) → Failure E.Err → String
text E cluster_config_not_ready = "cluster config can not be ready"
text E cluster_config_no_local_hub = "cluster spec not have local image hub info "
text E (failure e) = E.error e

-- The error of a `Retry` with 3 retries.
abbrev pub retry_error : (E : Env) → RetryFailure (Failure E.Err) → Failure E.Err
retry_error E (bad_max_retries n) = failure (E.errorf "maxRetries (3) should be > 0")
retry_error E (RetryFailure.failed e) = e
retry_error E (still_failing n) = failure (E.errorf "still failing after 3 retries")

module _ {E : Env} where
  open E use {World, Err}

  abbrev pub with_status : PackageStatus → Pkg E → Pkg E
  with_status status s = let pkg = s.pkg in record s { pkg = record pkg { status = status } }

  abbrev pub with_conditions : List PackageCondition → Pkg E → Pkg E
  with_conditions cs s =
      let status = s.pkg.status in with_status (record status { conditions = cs }) s

  -- The methods that change a condition at the time `metav1.Now()`.
  unfoldable pub set_status : PackageConditionType → PackageConditionStatus → P E (Unit {0})
  set_status t status = do
    now ← call E.now
    modify (λ s. with_conditions (update_condition_status now t status s.pkg.status.conditions) s)

  unfoldable pub set_reason : PackageConditionType → String → String → P E (Unit {0})
  set_reason t reason message = do
    now ← call E.now
    modify (λ s.
        with_conditions (update_condition_reason now t reason message s.pkg.status.conditions) s)

  unfoldable pub set_progress : PackageConditionType → ℕ → P E Bool
  set_progress t progress = do
    now ← call E.now
    s ← get
    let (cs, changed) = update_condition_progress now t progress s.pkg.status.conditions
    modify (with_conditions cs)
    pure changed

  -- The function that `handleImgae` retries.
  unfoldable pub handle_image_once : String → String → P E (Unit {0})
  handle_image_once remote local = do
    checked ← try (check_if_image_exists remote)
    exists ← elim checked [
      | ok found ↦ pure found
      | err e ↦ throw (failure (E.errorf ("check if image exists: " <> text E e)))
    ]
    pulled ← try (if exists then pure tt else image_pull remote)
    elim pulled [
      | ok _ ↦ pure tt
      | err e ↦ throw (failure (E.errorf ("pull image " <> remote <> " failure " <> text E e)))
    ]
    check_or
        (λ e.
          E.errorf ("change image tag(" <> remote <> " => " <> local <> ") failure: " <> E.error e))
        (E.image_tag remote local)
    pushed ← try (image_push local)
    elim pushed [
      | ok _ ↦ pure tt
      | err e ↦ throw (failure (E.errorf ("push image " <> local <> " failure " <> text E e)))
    ]

  -- Its answer to `Retry`: `(true, nil)`, or `false` with an error.
  unfoldable pub attempt : P E (Unit {0}) → Pkg E → Attempt (Failure Err) × Pkg E
  attempt m s = let (r, s') = m s in (elim r [ ok _ ↦ done | err e ↦ fail e ], s')

  -- `handleImgae`.
  unfoldable pub handle_image : String → String → P E (Unit {0})
  unfolding attempt
  handle_image remote local s =
      let (r, s') = retry 3 (attempt (handle_image_once remote local)) s in
      (elim r [ none ↦ ok tt | some e ↦ err (retry_error E e) ], s')

  -- What follows the push of an image, the `count`-th: it is listed as pushed, and the progress is
  -- written if it has changed.
  unfoldable pub note_pushed : ℕ → String → P E (Unit {0})
  note_pushed count local = do
    s ← get
    let status = s.pkg.status
    modify (with_status (record status { images_pushed = status.images_pushed ++ (local ∷ []) }))
    changed ← set_progress push_image (count * 100 / status.images_number)
    written ← try (if changed then update_cr_status else pure tt)
    elim written [
      | ok _ ↦ pure tt
      | err e ↦ throw (failure (E.errorf ("update cr status: " <> text E e)))
    ]

  -- The loop over the images, `count` of which are done.
  unfoldable pub push_images : ℕ → List (String × String) → P E (Unit {0})
  push_images count [] = pure tt
  push_images count ((old, new) ∷ images) = do
    s ← get
    let local = E.path_join s.push_image_domain new
    handle_image (E.path_join s.download_image_domain old) local
    note_pushed (count + 1) local
    push_images (count + 1) images

  -- `imagePullAndPush`.
  unfoldable pub image_pull_and_push : P E (Unit {0})
  unfolding push_images
  image_pull_and_push = do
    s ← get
    let status = s.pkg.status
    modify (with_status (record status { images_number = length s.images; images_pushed = [] }))
    images ← call (E.range s.images)
    push_images 0 images
