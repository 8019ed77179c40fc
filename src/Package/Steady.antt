-- ===== src/Package/Steady.antt =====
-- Which conditions are completed after the package reconciler talks to docker or notes a reason.
use rainbond_operator.Base.{
  ◌<>◌, ℕ, ◌==◌, string_eq, String, Bool, true, false, Option, none, some, List, refl,
  if◌then◌else◌, Bool-cases, inl, inr,
}
use rainbond_operator.Api.{PackageConditionType, ImageHub}
use rainbond_operator.Kube.{Response, ok, err}
use rainbond_operator.Package.Env.{
  StreamItem, Env, Failure, failure, ◌>>=◌, ◌>>◌, pure, throw, get, modify, call, from_response,
}
use rainbond_operator.Package.Docker.{
  registry_auth, drain_answer, image_push, image_pull, check_if_image_exists,
}
use rainbond_operator.Package.Pull.{text, set_reason, set_progress, handle_image, handle_image_once}
use rainbond_operator.Package.Once.{handle_image-once}
use rainbond_operator.Package.Phases.{
  Steady, bind-Steady, try-Steady, seq-Steady, pure-Steady, throw-Steady, call_or-Steady,
  check_or-Steady, is_done-update_condition_reason, is_done-update_condition_progress,
}

module _ {E : Env} where
  open E use {World, Err}

  pub get-Steady : Steady {E = E} get
  unfolding get
  get-Steady = record { steady = λ s u. refl }

  pub from_response-Steady :
      {A : Type 0} (wrap : Err → Err) (r : Response Err A) → Steady {E = E} (from_response wrap r)
  unfolding from_response
  from_response-Steady wrap r = record { steady = λ s u. refl }

  registry_auth-Steady : (user password : String) → Steady {E = E} (registry_auth user password)
  unfolding registry_auth
  registry_auth-Steady user password = elim (Bool-cases (user == "")) [
    | inl p ↦ rw p (pure-Steady none)
    | inr p ↦ rw p (bind-Steady _ _ (from_response-Steady _ _) (λ auth. pure-Steady (some auth)))
  ]

  drain_answer-Steady : (r : Option (List (StreamItem Err))) → Steady {E = E} (drain_answer r)
  unfolding drain_answer
  drain_answer-Steady none = record { steady = λ s u. refl }
  drain_answer-Steady (some items) = record { steady = λ s u. refl }

  hub_auth-Steady :
      (hub : Option ImageHub)
      → Steady {E = E} {A = Option String}
          (elim hub [ none ↦ pure none | some hub ↦ registry_auth hub.username hub.password ])
  hub_auth-Steady none = pure-Steady none
  hub_auth-Steady (some hub) = registry_auth-Steady _ _

  image_push-Steady : (image : String) → Steady {E = E} (image_push image)
  unfolding image_push
  image_push-Steady image = bind-Steady _ _ get-Steady λ p.
      bind-Steady _ _ (hub_auth-Steady p.cluster.spec.image_hub)
        λ auth. bind-Steady _ _ (call_or-Steady _ _) drain_answer-Steady

  image_pull-Steady : (image : String) → Steady {E = E} (image_pull image)
  unfolding image_pull
  image_pull-Steady image = bind-Steady _ _ (from_response-Steady _ _) λ rf.
      bind-Steady _ _ get-Steady λ p.
        bind-Steady _ _ (registry_auth-Steady _ _)
          λ auth. bind-Steady _ _ (call_or-Steady _ _) drain_answer-Steady

  check_if_image_exists-Steady : (image : String) → Steady {E = E} (check_if_image_exists image)
  unfolding check_if_image_exists
  check_if_image_exists-Steady image =
      bind-Steady _ _ (from_response-Steady _ _)
        λ parsed. bind-Steady _ _ (call_or-Steady _ _) λ listed. pure-Steady _

  pub set_reason-Steady :
      (t : PackageConditionType) (reason message : String)
      → Steady {E = E} (set_reason t reason message)
  unfolding set_reason ◌>>=◌ call modify
  set_reason-Steady t reason message = record {
    steady = λ s u. is_done-update_condition_reason _ t u reason message s.pkg.status.conditions;
  }

  pub set_progress-Steady :
      (t : PackageConditionType) (progress : ℕ) → Steady {E = E} (set_progress t progress)
  unfolding set_progress ◌>>=◌ call modify get pure ◌>>◌
  set_progress-Steady t progress = record {
    steady = λ s u. is_done-update_condition_progress _ t u progress s.pkg.status.conditions;
  }

  handle_image_once-Steady :
      (remote local : String) → Steady {E = E} (handle_image_once remote local)
  unfolding handle_image_once
  handle_image_once-Steady remote local =
      bind-Steady _ _ (try-Steady _ (check_if_image_exists-Steady remote)) λ checked.
        bind-Steady _ _ (found-Steady checked) λ exists.
          bind-Steady _ _ (try-Steady _ (pulled-Steady exists)) λ pulled.
            seq-Steady _ _ (done-Steady _ pulled) (
              seq-Steady _ _ (check_or-Steady _ _) (
                bind-Steady _ _ (try-Steady _ (image_push-Steady local))
                  λ pushed. done-Steady _ pushed))
    where
      found-Steady :
          (r : Response (Failure Err) Bool)
          → Steady {E = E} {A = Bool} (elim r [
            | ok found ↦ pure found
            | err e ↦ throw (failure (E.errorf ("check if image exists: " <> text E e)))
          ])
      found-Steady (ok found) = pure-Steady found
      found-Steady (err e) = throw-Steady _

      pulled-Steady :
          (exists : Bool) → Steady {E = E} (if exists then pure tt else image_pull remote)
      pulled-Steady true = pure-Steady tt
      pulled-Steady false = image_pull-Steady remote

      done-Steady :
          (wrap : Failure Err → Failure Err) (r : Response (Failure Err) (Unit {0}))
          → Steady {E = E} {A = Unit {0}} (elim r [ ok _ ↦ pure tt | err e ↦ throw (wrap e) ])
      done-Steady wrap (ok _) = pure-Steady tt
      done-Steady wrap (err e) = throw-Steady _

  pub handle_image-Steady : (remote local : String) → Steady {E = E} (handle_image remote local)
  handle_image-Steady remote local = record {
    steady = λ s u.
        rw (handle_image-once remote local s) ((handle_image_once-Steady remote local).steady s u);
  }
