-- ===== src/Cluster/Stays.antt =====
-- The methods that provide the secret and the claim leave the cluster itself alone.
use rainbond_operator.Base.{
  String, Bool, true, false, Option, none, some, string_eq, if◌then◌else◌, ◌≡◌, refl, ◌∙◌,
}
use rainbond_operator.Api.{ImageHub}
use rainbond_operator.Kube.{Response, ok, err}
use rainbond_operator.Kube.Action.{◌>>=◌, ◌>>◌, pure, throw, get, bind-keeps}
use rainbond_operator.Cluster.Env.{Env, Failure, panic, Mgr, C, call, check}
use rainbond_operator.Cluster.Manager.{
  pull_secret, write_secret, create_image_pull_secret, create_pvc_for_foobar,
  create_foobar_pvc_if_not_exists,
}
use rainbond_operator.Cluster.Loop.{secure}

module _ {E : Env} where
  open E use {World, Err}

  pub record Stays {A : Type 0} (m : C E A) : Type 0 where
    pub stays : (s : Mgr E) → (m s).1.cluster ≡ s.cluster

  bind-Stays :
      {A B : Type 0} (m : C E A) (k : A → C E B)
      → Stays m
      → ((a : A) → Stays (k a))
      → Stays (m >>= k)
  bind-Stays m k h g = record {
    stays =
        λ s. bind-keeps (λ t. t.cluster ≡ s.cluster) m k s (h.stays s) (λ a t e. (g a).stays t ∙ e);
  }

  pure-Stays : {A : Type 0} (a : A) → Stays (pure a)
  unfolding pure
  pure-Stays a = record { stays = λ s. refl }

  throw-Stays : {A : Type 0} (e : Failure Err) → Stays {A = A} (throw e)
  unfolding throw
  throw-Stays e = record { stays = λ s. refl }

  call-Stays : {A : Type 0} (f : World → A × World) → Stays (call f)
  unfolding call
  call-Stays f = record { stays = λ s. refl }

  check-Stays : (f : World → Option Err × World) → Stays (check f)
  unfolding check
  check-Stays f = record { stays = λ s. refl }

  get-Stays : Stays get
  unfolding get
  get-Stays = record { stays = λ s. refl }

  if-Stays : {A : Type 0} (b : Bool) (m k : C E A) → Stays m → Stays k → Stays (if b then m else k)
  if-Stays true m k h g = h
  if-Stays false m k h g = g

  answer-Stays :
      {A B F : Type 0} (f : A → C E B) (g : F → C E B)
      → ((a : A) → Stays (f a))
      → ((e : F) → Stays (g e))
      → (r : Response F A) → Stays (elim r [ ok a ↦ f a | err e ↦ g e ])
  answer-Stays f g h k (ok a) = h a
  answer-Stays f g h k (err e) = k e

  option-Stays :
      {A B : Type 0} (m : C E B) (f : A → C E B)
      → Stays m
      → ((a : A) → Stays (f a))
      → (o : Option A) → Stays (elim o [ none ↦ m | some a ↦ f a ])
  option-Stays m f h g none = h
  option-Stays m f h g (some a) = g a

  write_secret-Stays : (config : String) → Stays (write_secret config)
  unfolding write_secret
  write_secret-Stays config = bind-Stays _ _ get-Stays λ s.
      answer-Stays _ _
        (λ secret. bind-Stays _ _ (call-Stays _) (
          option-Stays _ _ (pure-Stays tt) λ e. if-Stays _ _ _ (throw-Stays _) (
            bind-Stays _ _ (call-Stays _) (option-Stays _ _ (pure-Stays tt) (λ f. throw-Stays _)))))
        (λ e. throw-Stays _) (E.set_controller_reference s.cluster (pull_secret s.cluster config))

  pub create_image_pull_secret-Stays : (hub : ImageHub) → Stays (create_image_pull_secret hub)
  unfolding create_image_pull_secret
  create_image_pull_secret-Stays hub = bind-Stays _ _ get-Stays λ s. bind-Stays _ _ (call-Stays _) (
      answer-Stays _ _ (λ secret. if-Stays _ _ _ (pure-Stays tt) (write_secret-Stays _))
        (λ e. if-Stays _ _ _ (throw-Stays _) (write_secret-Stays _)))

  pub secure-Stays : (hub : ImageHub) → Stays (secure E hub)
  unfolding secure
  secure-Stays hub = if-Stays _ _ _ (create_image_pull_secret-Stays hub) (pure-Stays tt)

  create_pvc_for_foobar-Stays : (name : String) → Stays (create_pvc_for_foobar name)
  unfolding create_pvc_for_foobar
  create_pvc_for_foobar-Stays name =
      bind-Stays _ _ get-Stays λ s. if-Stays _ _ _ (pure-Stays none) (call-Stays _)

  pub create_foobar_pvc_if_not_exists-Stays : Stays create_foobar_pvc_if_not_exists
  unfolding create_foobar_pvc_if_not_exists ◌>>◌
  create_foobar_pvc_if_not_exists-Stays = bind-Stays _ _ get-Stays λ s.
      bind-Stays _ _ (call-Stays _) (
        answer-Stays _ _
          (λ pvc.
            option-Stays _ _ (throw-Stays panic)
              (λ class_name. if-Stays _ _ _ (pure-Stays tt) (
                bind-Stays _ _ (check-Stays _) λ _. bind-Stays _ _ (create_pvc_for_foobar-Stays _) (
                  option-Stays _ _ (pure-Stays tt)
                    (λ f. if-Stays _ _ _ (pure-Stays tt) (throw-Stays _)))))
              pvc.storage_class_name)
          (λ e. if-Stays _ _ _ (throw-Stays _) (
            bind-Stays _ _ (create_pvc_for_foobar-Stays _)
              (option-Stays _ _ (pure-Stays tt) (λ f. throw-Stays _)))))
