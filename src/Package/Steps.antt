-- ===== src/Package/Steps.antt =====
-- The steps of `handle` and the order of a package's conditions.
use rainbond_operator.Base.{String, Bool, true, false, if◌then◌else◌, ◌<>◌}
use rainbond_operator.Api.{
  PackageConditionType, download_package, unpack_package, push_image, ready, completed, failed,
}
use rainbond_operator.Kube.{Response, ok, err}
use rainbond_operator.Package.Status.{type_eq, phase_eq}
use rainbond_operator.Package.Env.{Env, Failure, failure, Pkg, P, ◌>>◌, throw}
use rainbond_operator.Package.Docker.{update_cr_status}
use rainbond_operator.Package.Pull.{text, set_status, image_pull_and_push}
use rainbond_operator.Package.Handle.{Tasks, note_failure, run_step, handle_steps, handle}
use rainbond_operator.Package.Phases.{
  Echo, Steady, seq-Steady, try-Steady, pure-Steady, throw-Steady,
}
use rainbond_operator.Package.Steady.{get-Steady, set_reason-Steady}
use rainbond_operator.Package.Stored.{update_cr_status-Steady, image_pull_and_push-Steady}
use rainbond_operator.Package.Order.{IsOrdered}
use rainbond_operator.Package.Moves.{
  view, Keeps, KeepsDue, Steady-Keeps, bind-Keeps, seq-Keeps, bind-KeepsDue, then-KeepsDue,
  ask-Keeps, set_status-KeepsDue,
}
use rainbond_operator.Package.Start.{handle_config-Keeps, handle_init-Keeps}
use rainbond_operator.Package.Turns.{update_try-Steady, can_push_image-Asks, can_ready-Asks}
use rainbond_operator.Package.Downloads.{can_download-Asks, can_unpack-Asks}

module _ {E : Env} where
  -- The steps of a downloaded package, which are a parameter, leave the statuses alone.
  pub record AreSteady (tasks : Tasks E) : Type 0 where
    pub download_steady : Steady tasks.download
    pub untar_steady : Steady tasks.untar
    pub load_steady : Steady tasks.images_load_and_push

module _ {E : Env} (echo : Echo E) where
  open E use {World, Err}

  note_failure-KeepsDue :
      (t : PackageConditionType) (reason message : String)
      → KeepsDue {E = E} t (note_failure t reason message)
  unfolding note_failure
  note_failure-KeepsDue t reason message =
      then-KeepsDue t _ _ (set_status-KeepsDue t failed)
        (seq-Steady _ _ (set_reason-Steady t reason message) (update_try-Steady echo))

  run_step-KeepsDue :
      (t : PackageConditionType) (message : String) (wrap : String → String) (step : P E (Unit {0}))
      → Steady step
      → KeepsDue {E = E} t (run_step t message wrap step)
  unfolding run_step
  run_step-KeepsDue t message wrap step h = bind-KeepsDue t _ _ (try-Steady step h) outcome-KeepsDue
    where
      outcome-KeepsDue :
          (r : Response (Failure Err) (Unit {0}))
          → KeepsDue {E = E} {A = Unit {0}} t (elim r [
            | ok _ ↦ set_status t completed >> update_cr_status
            | err e ↦
                note_failure t (text E e) message >> throw (failure (E.errorf (wrap (text E e))))
          ])
      outcome-KeepsDue (ok _) =
          then-KeepsDue t _ _ (set_status-KeepsDue t completed) (update_cr_status-Steady echo)
      outcome-KeepsDue (err e) =
          then-KeepsDue t _ _ (note_failure-KeepsDue t _ message) (throw-Steady _)

  handle_steps-Keeps : (tasks : Tasks E) → AreSteady tasks → Keeps {E = E} (handle_steps tasks)
  unfolding handle_steps
  handle_steps-Keeps tasks h =
      ask-Keeps download_package _ _ (can_download-Asks echo)
        (run_step-KeepsDue download_package "download package failure"
          (λ e. "failed to download package " <> e) tasks.download h.download_steady)
        (ask-Keeps unpack_package _ _ (can_unpack-Asks echo)
          (bind-KeepsDue unpack_package _ _ get-Steady λ s.
            run_step-KeepsDue unpack_package "unpack package failure"
              (λ e. "failed to untar " <> s.pkg.pkg_path <> ": " <> e) tasks.untar h.untar_steady)
          (bind-Keeps _ _ (Steady-Keeps _ get-Steady) λ s.
            ask-Keeps push_image _ _ (can_push_image-Asks echo) (push-KeepsDue s.download_package) (
              ask-Keeps ready _ _ (can_ready-Asks echo)
                (then-KeepsDue ready _ _ (set_status-KeepsDue ready completed)
                  (update_cr_status-Steady echo))
                (Steady-Keeps _ (pure-Steady tt)))))
    where
      push-KeepsDue :
          (downloads : Bool)
          → KeepsDue {E = E} {A = Unit {0}} push_image (
              if downloads
              then run_step push_image "load and push images failure"
                  (λ e. "failed to load and push images: " <> e)
                  tasks.images_load_and_push
              else run_step push_image "pull and push images failure"
                  (λ e. "failed to pull and push images: " <> e)
                  image_pull_and_push)
      push-KeepsDue true =
          run_step-KeepsDue push_image "load and push images failure"
            (λ e. "failed to load and push images: " <> e) tasks.images_load_and_push h.load_steady
      push-KeepsDue false =
          run_step-KeepsDue push_image "pull and push images failure"
            (λ e. "failed to pull and push images: " <> e) image_pull_and_push
            (image_pull_and_push-Steady echo)

  -- If no condition of a package - the download, the unpacking, the pushing of the images, `Ready` -
  -- is completed before the one that precedes it, then so it is after `handle`, whatever fails in
  -- it; provided that the server stores a status as it is given, and that the steps on a
  -- downloaded package leave the statuses of the conditions alone.
  pub handle-IsOrdered :
      (tasks : Tasks E)
      → AreSteady tasks
      → (s : Pkg E) → IsOrdered (view s)
      → IsOrdered (view (handle tasks s).1)
  unfolding handle
  handle-IsOrdered tasks h =
      (seq-Keeps _ _ (handle_config-Keeps echo)
        (seq-Keeps _ _ (handle_init-Keeps echo) (handle_steps-Keeps tasks h))).keeps
