-- ===== src/Handlers/Ignored.antt =====
-- The errors of `Before` that IsIgnoreError tells apart.
use rainbond_operator.Base.{
  String, Bool, true, false, Option, none, some, List, [], ◌∷◌, ◌==◌, string_eq, if◌then◌else◌, ◌≡◌,
  ◌≢◌, arith, Bool-cases, inl, inr,
}
use text.Mathlib.TextEquality.{eq_iff}
use rainbond_operator.Api.{ImageHub, EtcdConfig, Database}
use rainbond_operator.Kube.{err}
use rainbond_operator.Kube.Action.{◌>>◌, throw, get}
use rainbond_operator.Merge.{contains}
use rainbond_operator.Handlers.Env.{Env, ignore, Prepared}
use rainbond_operator.Handlers.Common.{rainbond_volume_not_found}
use rainbond_operator.Handlers.Before.{
  Name, rbd_api, rbd_chaos, rbd_eventlog, rbd_worker, rbd_monitor, rbd_mq, rbd_gateway, rbd_hub,
  rbd_etcd, rbd_db, rbd_resource_proxy, resource_proxy_before, find_class_rwx, find_class_rwo,
  find_db, find_etcd_secret, find_affinity, find_password, generate_htpasswd, is_custom, before_of,
  api_before, chaos_before, eventlog_before, worker_before, monitor_before, mq_before, hub_before,
  etcd_before, db_before,
}
use rainbond_operator.Handlers.Avoids.{
  Avoids, not_ready, bind-Avoids, then-Avoids, get-Avoids, ignore-Avoids,
}
use rainbond_operator.Handlers.Steps.{
  rwx-Avoids, find_class_rwo-Avoids, affinity-Avoids, htpasswd-Avoids, gateway-Avoids,
  password-Avoids, find_db-Avoids, find_etcd_secret-Avoids,
}

-- The messages of the ignored errors of a handler: the storage class, and settings that make the
-- component needless.
abbrev pub ignored_messages : Name → List String
ignored_messages rbd_mq = []
ignored_messages rbd_gateway = []
ignored_messages rbd_hub =
    not_ready ∷ rainbond_volume_not_found ∷ "use custom image repository" ∷ "imageHub is empty" ∷ []
ignored_messages rbd_etcd =
    not_ready ∷ rainbond_volume_not_found ∷ "specified etcd configuration" ∷ []
ignored_messages rbd_db = not_ready ∷ rainbond_volume_not_found ∷ "use custom database" ∷ []
ignored_messages _ = not_ready ∷ rainbond_volume_not_found ∷ []

abbrev Outside : String → List String → Type 0
Outside msg [] = Unit
Outside msg (a ∷ names) = (a ≢ msg) × Outside msg names

contains-Outside :
    (msg : String) (names : List String) → contains msg names ≡ false → Outside msg names
unfolding contains
contains-Outside msg [] h = tt
contains-Outside msg (a ∷ names) h = elim (Bool-cases (msg == a)) [
  | inl q ↦ absurd (cc (rw q at h))
  | inr q ↦ (λ e. ground (arith, eq_iff msg a), contains-Outside msg names (rw q at h))
]

module _ {E : Env} (msg : String) where
  hub_start-Avoids :
      (custom : Bool) (image_hub : Option ImageHub)
      → Outside msg (ignored_messages rbd_hub)
      → Avoids {E = E} msg {A = Unit {0}} (
          if custom
          then throw (ignore "use custom image repository")
          else find_class_rwx >> elim image_hub [
            | none ↦ throw (ignore "imageHub is empty")
            | some hub ↦ generate_htpasswd hub
          ])
  hub_start-Avoids true image_hub (a, (b, (c, (d, _)))) = ignore-Avoids msg _ c
  hub_start-Avoids false none (a, (b, (c, (d, _)))) =
      then-Avoids msg find_class_rwx _ (rwx-Avoids msg a b) (ignore-Avoids msg _ d)
  hub_start-Avoids false (some hub) (a, (b, (c, (d, _)))) =
      then-Avoids msg find_class_rwx _ (rwx-Avoids msg a b) (htpasswd-Avoids msg hub)

  etcd_start-Avoids :
      (config : Option EtcdConfig)
      → Outside msg (ignored_messages rbd_etcd)
      → Avoids {E = E} msg {A = Unit {0}} (elim config [
        | some c ↦ throw (ignore "specified etcd configuration")
        | none ↦ find_class_rwo >> find_affinity
      ])
  etcd_start-Avoids (some c) (a, (b, (d, _))) = ignore-Avoids msg _ d
  etcd_start-Avoids none (a, (b, (d, _))) =
      then-Avoids msg find_class_rwo find_affinity (find_class_rwo-Avoids msg a b)
        (affinity-Avoids msg)

  db_start-Avoids :
      (database : Option Database)
      → Outside msg (ignored_messages rbd_db)
      → Avoids {E = E} msg {A = Unit {0}} (elim database [
        | some db ↦ throw (ignore "use custom database")
        | none ↦ find_password >> (find_class_rwo >> find_affinity)
      ])
  db_start-Avoids (some d) (a, (b, (c, _))) = ignore-Avoids msg _ c
  db_start-Avoids none (a, (b, (c, _))) =
      then-Avoids msg find_password (find_class_rwo >> find_affinity) (password-Avoids msg) (
        then-Avoids msg find_class_rwo find_affinity (find_class_rwo-Avoids msg a b)
          (affinity-Avoids msg))

  api-Avoids :
      not_ready ≢ msg
      → rainbond_volume_not_found ≢ msg
      → Avoids {E = E} msg {A = Unit {0}} (find_db >> (find_etcd_secret >> find_class_rwx))
  api-Avoids a b =
      then-Avoids msg find_db (find_etcd_secret >> find_class_rwx) (find_db-Avoids msg) (
        then-Avoids msg find_etcd_secret find_class_rwx (find_etcd_secret-Avoids msg)
          (rwx-Avoids msg a b))

  worker-Avoids :
      not_ready ≢ msg
      → rainbond_volume_not_found ≢ msg
      → Avoids {E = E} msg {A = Unit {0}} (find_db >> find_class_rwx)
  worker-Avoids a b =
      then-Avoids msg find_db find_class_rwx (find_db-Avoids msg) (rwx-Avoids msg a b)

  before_of-Avoids :
      (name : Name) → Outside msg (ignored_messages name) → Avoids msg (before_of E name)
  unfolding before_of api_before chaos_before eventlog_before worker_before monitor_before mq_before
      hub_before etcd_before db_before resource_proxy_before
  before_of-Avoids rbd_api (a, (b, _)) = api-Avoids a b
  before_of-Avoids rbd_chaos (a, (b, _)) = api-Avoids a b
  before_of-Avoids rbd_eventlog (a, (b, _)) = worker-Avoids a b
  before_of-Avoids rbd_worker (a, (b, _)) = worker-Avoids a b
  before_of-Avoids rbd_monitor (a, (b, _)) = find_class_rwo-Avoids msg a b
  before_of-Avoids rbd_resource_proxy (a, (b, _)) = find_class_rwo-Avoids msg a b
  before_of-Avoids rbd_mq h = find_etcd_secret-Avoids msg
  before_of-Avoids rbd_gateway h = gateway-Avoids msg
  before_of-Avoids rbd_hub h =
      bind-Avoids msg get _ (get-Avoids msg)
        λ s. hub_start-Avoids (is_custom s.cluster.spec.image_hub) s.cluster.spec.image_hub h
  before_of-Avoids rbd_etcd h =
      bind-Avoids msg get _ (get-Avoids msg) λ s. etcd_start-Avoids s.cluster.spec.etcd_config h
  before_of-Avoids rbd_db h =
      bind-Avoids msg get _ (get-Avoids msg) λ s. db_start-Avoids s.cluster.spec.region_database h

module _ {E : Env} where
  -- An error of `Before` that IsIgnoreError accepts has one of the handler's own messages: no
  -- volume or no class for the storage or, for rbd-hub, rbd-etcd and rbd-db, a setting that makes
  -- the component needless. For rbd-mq and rbd-gateway there is none.
  pub before_of-ignored :
      (name : Name) (s : Prepared E) (msg : String)
      → (before_of E name s).0 ≡ err (ignore msg)
      → contains msg (ignored_messages name) ≡ true
  before_of-ignored name s msg h = elim (Bool-cases (contains msg (ignored_messages name))) [
    | inl q ↦ q
    | inr q ↦ absurd ((before_of-Avoids msg name (contains-Outside msg _ q)).avoids s h)
  ]
