-- ===== src/Cluster/PullSecret.antt =====
-- What `CreateImagePullSecret` leaves on the API server.
use rainbond_operator.Base.{
  String, true, Option, none, some, string_eq, ==_refl, ◌≡◌, refl, sym, ◌∙◌, ap, Bool-cases,
  Option-cases, inl, inr,
}
use text.Mathlib.TextEquality.{eq_iff}
use rainbond_operator.Api.{RainbondCluster, ImageHub}
use rainbond_operator.Kube.{ok}
use rainbond_operator.Kube.Action.{◌>>=◌, pure, throw, get}
use rainbond_operator.Package.Once.{answer_cases}
use rainbond_operator.Cluster.Env.{Env, Secret, Mgr, call}
use rainbond_operator.Cluster.Status.{rdb_hub_credentials_name}
use rainbond_operator.Cluster.Stays.{create_image_pull_secret-Stays}
use rainbond_operator.Cluster.Manager.{
  pull_secret, write_secret, create_image_pull_secret, generate_docker_config, is_text, data_at,
  docker_config_key,
}

module _ (E : Env) where
  open E use {World, Err}

  -- What the API server promises for secrets: what is written is read, and reading changes nothing;
  -- and an owner changes neither the key nor the data.
  pub record SecretStore : Type 0 where
    pub get_created :
        (secret : Secret) (w : World)
        → (E.create_secret secret w).0 ≡ none
        → (E.get_secret secret.namespace secret.name (E.create_secret secret w).1).0 ≡ ok secret
    pub get_updated :
        (secret : Secret) (w : World)
        → (E.update_secret secret w).0 ≡ none
        → (E.get_secret secret.namespace secret.name (E.update_secret secret w).1).0 ≡ ok secret
    pub get_again :
        (namespace name : String) (w : World)
        → (E.get_secret namespace name (E.get_secret namespace name w).1).0
          ≡ (E.get_secret namespace name w).0
    pub owned :
        (cluster : RainbondCluster) (secret owned : Secret)
        → E.set_controller_reference cluster secret ≡ ok owned
        → (owned.namespace ≡ secret.namespace)
          × (owned.name ≡ secret.name)
          × (owned.secret_data ≡ secret.secret_data)

  -- The secret of a cluster is there and holds the docker config.
  abbrev pub Holds : RainbondCluster → String → World → Type 0
  Holds cluster config w =
      (secret : Secret) × ((E.get_secret cluster.namespace rdb_hub_credentials_name w).0
        ≡ ok secret)
      × (data_at docker_config_key secret.secret_data ≡ some config)

module _ {E : Env} (store : SecretStore E) where
  open E use {World, Err}

  pull_secret-data :
      (cluster : RainbondCluster) (config : String)
      → data_at docker_config_key (pull_secret cluster config).secret_data ≡ some config
  unfolding data_at pull_secret
  pull_secret-data cluster config = refl

  -- The owned secret, written and read.
  owned-Holds :
      (cluster : RainbondCluster) (config : String) (owned : Secret) (w : World)
      → E.set_controller_reference cluster (pull_secret cluster config) ≡ ok owned
      → (E.get_secret owned.namespace owned.name w).0 ≡ ok owned
      → Holds E cluster config w
  unfolding pull_secret
  owned-Holds cluster config owned w h g =
      let (a, b, c) = store.owned cluster (pull_secret cluster config) owned h in
      (
        owned,
        ap (λ x. (E.get_secret x rdb_hub_credentials_name w).0) (sym a)
            ∙ ap (λ x. (E.get_secret owned.namespace x w).0) (sym b)
            ∙ g,
        ap (data_at docker_config_key) c ∙ pull_secret-data cluster config,
      )

  write_secret-Holds :
      (config : String) (s : Mgr E)
      → (write_secret config s).0 ≡ ok tt
      → Holds E s.cluster config (write_secret config s).1.world
  unfolding write_secret get call throw pure ◌>>=◌
  write_secret-Holds config s h =
      elim (answer_cases (E.set_controller_reference s.cluster (pull_secret s.cluster config))) [
        | inr (e, p) ↦ absurd (cc (rw (p, write_secret) at h))
        | inl (owned, p) ↦ elim (Option-cases (E.create_secret owned s.world).0) [
          | inl q ↦
              rw (p, write_secret)
                (rw q (
                  owned-Holds s.cluster config owned (E.create_secret owned s.world).1 p
                    (store.get_created owned s.world q)))
          | inr (e, q) ↦ elim (Bool-cases (E.is_already_exists e)) [
            | inr b ↦ absurd (cc (rw b at (rw q at (rw (p, write_secret) at h))))
            | inl b ↦
                elim (Option-cases (E.update_secret owned (E.create_secret owned s.world).1).0) [
                  | inl u ↦
                      rw (p, write_secret)
                        (rw q (
                          rw b (
                            rw u (
                              owned-Holds s.cluster config owned
                                (E.update_secret owned (E.create_secret owned s.world).1).1 p
                                (store.get_updated owned (E.create_secret owned s.world).1 u)))))
                  | inr (f, u) ↦
                      absurd (cc (rw u at (rw b at (rw q at (rw (p, write_secret) at h)))))
                ]
          ]
        ]
      ]

  is_text-some : (text : String) (o : Option String) → is_text text o ≡ true → o ≡ some text
  is_text-some text none h = absurd (cc h)
  is_text-some text (some t) h = ap some ((eq_iff t text).0 h)

  -- After a `CreateImagePullSecret` without an error the API server has the secret of the cluster,
  -- and it holds the docker config of the image hub.
  pub create_image_pull_secret-Holds :
      (hub : ImageHub) (s : Mgr E)
      → (create_image_pull_secret hub s).0 ≡ ok tt
      → Holds E s.cluster (generate_docker_config E hub) (create_image_pull_secret hub s).1.world
  unfolding create_image_pull_secret get call throw pure ◌>>=◌
  create_image_pull_secret-Holds hub s h =
      let config = generate_docker_config E hub in
      let s1 : Mgr E = record s {
        world = (E.get_secret s.cluster.namespace rdb_hub_credentials_name s.world).1;
      } in
      elim (answer_cases (E.get_secret s.cluster.namespace rdb_hub_credentials_name s.world).0) [
        | inr (e, p) ↦ elim (Bool-cases (E.is_not_found e)) [
          | inl b ↦ rw p (rw b (write_secret-Holds config s1 (rw b at (rw p at h))))
          | inr b ↦ absurd (cc (rw b at (rw p at h)))
        ]
        | inl (secret, p) ↦
            elim (Bool-cases (is_text config (data_at docker_config_key secret.secret_data))) [
              | inl b ↦ rw p (
                  rw b (
                    secret,
                    store.get_again s.cluster.namespace rdb_hub_credentials_name s.world ∙ p,
                    is_text-some config (data_at docker_config_key secret.secret_data) b,
                  ))
              | inr b ↦ rw p (rw b (write_secret-Holds config s1 (rw b at (rw p at h))))
            ]
      ]

  held :
      (hub : ImageHub) (s : Mgr E)
      → Holds E s.cluster (generate_docker_config E hub) s.world
      → create_image_pull_secret hub s ≡ (
        ok tt,
        record s { world = (E.get_secret s.cluster.namespace rdb_hub_credentials_name s.world).1 },
      )
  unfolding create_image_pull_secret get call pure ◌>>=◌
  held hub s (secret, p, d) = rw p (rw d (rw (==_refl (generate_docker_config E hub)) refl))

  -- A second `CreateImagePullSecret` only reads the secret.
  pub create_image_pull_secret-twice :
      (hub : ImageHub) (s : Mgr E)
      → (create_image_pull_secret hub s).0 ≡ ok tt
      → let s1 = (create_image_pull_secret hub s).1 in
        create_image_pull_secret hub s1 ≡ (
          ok tt,
          record s1 {
            world = (E.get_secret s.cluster.namespace rdb_hub_credentials_name s1.world).1;
          },
        )
  create_image_pull_secret-twice hub s h =
      let s1 = (create_image_pull_secret hub s).1 in
      let same = (create_image_pull_secret-Stays hub).stays s in
      held hub s1 (rw same (create_image_pull_secret-Holds hub s h)) ∙ rw same refl
