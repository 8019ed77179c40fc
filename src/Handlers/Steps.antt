-- ===== src/Handlers/Steps.antt =====
-- The parts of `Before` and the ignored errors that they do not answer.
use rainbond_operator.Base.{
  String, Bool, true, false, not, none, List, [], ◌∷◌, ◌==◌, string_eq, ◌<>◌, if◌then◌else◌, ◌≢◌,
  refl, sym, ◌∙◌, ap, Bool-cases, inl, inr,
}
use rainbond_operator.Api.{RainbondCluster, ImageHub}
use rainbond_operator.Kube.{Response, ok, err}
use rainbond_operator.Kube.Action.{◌>>◌, pure, throw, try, get, modify, bind_ok, try_lem}
use rainbond_operator.Volume.Types.{RainbondVolume}
use rainbond_operator.Handlers.Env.{
  Env, Secret, Failure, ignore, failure, PvcParameters, Prepared, H, call, call_or,
}
use rainbond_operator.Handlers.Common.{
  first_class, from_response, wrapped, rainbond_volume_not_found,
  storage_class_name_from_rainbond_volume, storage_class_name_from_rainbond_volume_rwx,
  storage_class_name_from_rainbond_volume_rwo, set_storage_cass_name_rwx, set_storage_cass_name_rwo,
  is_rainbond_volume_not_found, labels_for_access_mode_rwo, labels_for_access_mode_rwx,
  node_affnity_nodes_for_chaos, db_name,
}
use rainbond_operator.Handlers.Before.{
  find_class_rwx, find_class_rwo, find_db, find_etcd_secret, find_affinity, find_password,
  keep_password, generate_htpasswd, gateway_before,
}
use rainbond_operator.Handlers.Avoids.{
  Avoids, not_ready, err_ne, ignore_ne, bind-Avoids, get-Avoids, modify-Avoids, failure-Avoids,
  call-Avoids, call_or-Avoids, wrapped-Avoids,
}

module _ {E : Env} (msg : String) where
  open E use {World, Err}

  first_class-Avoids :
      (rwo : Bool)
      → not_ready ≢ msg
      → rainbond_volume_not_found ≢ msg
      → (volumes : List RainbondVolume)
      → Avoids {E = E} msg (from_response {E = E} (first_class rwo volumes))
  unfolding from_response first_class
  first_class-Avoids rwo h g [] = record {
    avoids = λ s. err_ne (ignore rainbond_volume_not_found) (ignore msg) (ignore_ne _ msg g);
  }
  first_class-Avoids rwo h g (v ∷ vs) = record {
    avoids = λ s. elim (Bool-cases (v.spec.storage_class_name == "")) [
      | inl q ↦ rw q (err_ne (ignore not_ready) (ignore msg) (ignore_ne _ msg h))
      | inr q ↦ λ e. absurd (cc (rw q at e))
    ];
  }

  class-Avoids :
      (ns : String) (rwo : Bool)
      → not_ready ≢ msg
      → rainbond_volume_not_found ≢ msg
      → Avoids {E = E} msg (storage_class_name_from_rainbond_volume {E = E} ns rwo)
  unfolding storage_class_name_from_rainbond_volume
  class-Avoids ns rwo h g =
      bind-Avoids msg
        (call_or (
          E.list_volumes ns
            (if rwo then labels_for_access_mode_rwo else labels_for_access_mode_rwx)))
        (λ volumes. from_response (first_class rwo volumes)) (call_or-Avoids msg _)
        (first_class-Avoids rwo h g)

  pub find_db-Avoids : Avoids {E = E} msg (find_db {E = E})
  unfolding find_db
  find_db-Avoids = bind-Avoids msg get _ (get-Avoids msg) λ s.
      bind-Avoids msg (wrapped "get db info: " _) _ (wrapped-Avoids msg _ _)
        (λ db. modify-Avoids msg _)

  pub find_etcd_secret-Avoids : Avoids {E = E} msg (find_etcd_secret {E = E})
  unfolding find_etcd_secret
  find_etcd_secret-Avoids = bind-Avoids msg get _ (get-Avoids msg) λ s.
      bind-Avoids msg (wrapped "failed to get etcd secret: " _) _ (wrapped-Avoids msg _ _)
        (λ secret. modify-Avoids msg _)

  -- What `storageClassNameFromRainbondVolumeRWO` does with the first answer.
  abbrev rwo_answer : String → Response (Failure Err) PvcParameters → H E PvcParameters
  rwo_answer ns r = elim r [
    | ok parameters ↦ pure parameters
    | err e ↦
        if not (is_rainbond_volume_not_found e)
        then throw e
        else storage_class_name_from_rainbond_volume_rwx ns
  ]

  rwo_answer-ne :
      (ns : String)
      → not_ready ≢ msg
      → rainbond_volume_not_found ≢ msg
      → (r : Response (Failure Err) PvcParameters) → r ≢ err (ignore msg)
      → (s : Prepared E) → (rwo_answer ns r s).0 ≢ err (ignore msg)
  unfolding pure throw storage_class_name_from_rainbond_volume_rwx
  rwo_answer-ne ns h g (ok p) k s = λ q. absurd (cc q)
  rwo_answer-ne ns h g (err e) k s = elim (Bool-cases (is_rainbond_volume_not_found e)) [
    | inl q ↦ rw q ((class-Avoids ns false h g).avoids s)
    | inr q ↦ rw q k
  ]

  rwo-Avoids :
      (ns : String)
      → not_ready ≢ msg
      → rainbond_volume_not_found ≢ msg
      → Avoids {E = E} msg (storage_class_name_from_rainbond_volume_rwo {E = E} ns)
  unfolding storage_class_name_from_rainbond_volume_rwo
  rwo-Avoids ns h g = record {
    avoids = λ s q.
        let m = storage_class_name_from_rainbond_volume {E = E} ns true in
        rwo_answer-ne ns h g (m s).0 ((class-Avoids ns true h g).avoids s) (m s).1 (
          sym (
            ap (λ x. x.0)
              (bind_ok (try m) (rwo_answer ns) s (m s).1 (m s).0
                (try_lem m s (m s).1 (m s).0 refl)))
          ∙ q);
  }

  pub rwx-Avoids :
      not_ready ≢ msg
      → rainbond_volume_not_found ≢ msg
      → Avoids {E = E} msg (find_class_rwx {E = E})
  unfolding find_class_rwx set_storage_cass_name_rwx storage_class_name_from_rainbond_volume_rwx
  rwx-Avoids h g = bind-Avoids msg get _ (get-Avoids msg) λ s.
      bind-Avoids msg (storage_class_name_from_rainbond_volume {E = E} s.component.namespace false)
        _ (class-Avoids s.component.namespace false h g) (λ sc. modify-Avoids msg _)

  pub find_class_rwo-Avoids :
      not_ready ≢ msg
      → rainbond_volume_not_found ≢ msg
      → Avoids {E = E} msg (find_class_rwo {E = E})
  unfolding find_class_rwo set_storage_cass_name_rwo
  find_class_rwo-Avoids h g = bind-Avoids msg get _ (get-Avoids msg) λ s.
      bind-Avoids msg (storage_class_name_from_rainbond_volume_rwo {E = E} s.component.namespace) _
        (rwo-Avoids s.component.namespace h g) (λ sc. modify-Avoids msg _)

  pub affinity-Avoids : Avoids {E = E} msg (find_affinity {E = E})
  unfolding find_affinity from_response node_affnity_nodes_for_chaos
  affinity-Avoids = bind-Avoids msg get _ (get-Avoids msg) λ s.
      bind-Avoids msg (from_response {E = E} (node_affnity_nodes_for_chaos E s.cluster)) _
        (nodes s.cluster) (λ node. modify-Avoids msg _)
    where
      nodes :
          (cluster : RainbondCluster)
          → Avoids {E = E} msg (from_response {E = E} (node_affnity_nodes_for_chaos E cluster))
      nodes cluster =
          elim cluster.spec.nodes_for_chaos
            as (λ ns. Avoids {E = E} msg (
              from_response {E = E} (elim ns [
                | [] ↦ err (failure (E.errorf "nodes for chaos not found"))
                | node ∷ others ↦ ok node
              ]))) [
                | [] ↦ record { avoids = λ s q. absurd (cc q) }
                | node ∷ others ↦ record { avoids = λ s q. absurd (cc q) }
              ]

  pub htpasswd-Avoids : (hub : ImageHub) → Avoids {E = E} msg (generate_htpasswd {E = E} hub)
  unfolding generate_htpasswd
  htpasswd-Avoids hub =
      bind-Avoids msg (wrapped "generate htpasswd: " _) _ (wrapped-Avoids msg _ _)
        (λ line. modify-Avoids msg _)

  pub gateway-Avoids : Avoids {E = E} msg (gateway_before {E = E})
  unfolding gateway_before ◌>>◌
  gateway-Avoids =
      bind-Avoids msg find_etcd_secret _ find_etcd_secret-Avoids
        λ _. bind-Avoids msg get _ (get-Avoids msg) λ s. wrapped-Avoids msg _ _

  keep_password-Avoids : (secret : Secret) → Avoids {E = E} msg (keep_password {E = E} secret)
  unfolding keep_password
  keep_password-Avoids secret = modify-Avoids msg _

  pub password-Avoids : Avoids {E = E} msg (find_password {E = E})
  unfolding find_password
  password-Avoids = bind-Avoids msg get _ (get-Avoids msg) λ s.
      bind-Avoids msg (call (E.get_secret s.component.namespace db_name)) _ (call-Avoids msg _)
        (answer s)
    where
      answer :
          (s : Prepared E) (found : Response Err Secret)
          → Avoids {E = E} msg {A = Unit {0}} (elim found [
            | ok secret ↦ keep_password secret
            | err e ↦
                if not (E.is_not_found e)
                then throw (
                    failure (
                      E.errorf (
                        "get secret "
                        <> db_name
                        <> "/"
                        <> s.component.namespace
                        <> ": "
                        <> E.error e)))
                else modify (λ t. record t { secret = none })
          ])
      answer s (ok secret) = keep_password-Avoids secret
      answer s (err e) = elim (Bool-cases (E.is_not_found e)) [
        | inl q ↦ rw q (modify-Avoids msg _)
        | inr q ↦ rw q (failure-Avoids msg _)
      ]
