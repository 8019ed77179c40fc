-- ===== src/Handlers/Before.antt =====
-- `Before` of the handlers in controllers/handler, one definition for each.
use rainbond_operator.Base.{
  Bool, false, not, Option, none, some, ◌==◌, string_eq, ◌<>◌, if◌then◌else◌,
}
use rainbond_operator.Api.{RainbondCluster, ImageHub}
use rainbond_operator.Kube.{ok, err}
use rainbond_operator.Kube.Action.{◌>>=◌, ◌>>◌, throw, get, modify}
use rainbond_operator.Merge.{label}
use rainbond_operator.Handlers.Env.{Env, Secret, ignore, failure, H, call, call_or}
use rainbond_operator.Handlers.Common.{
  db_name, with_name, wrapped, get_default_db_info, etcd_secret_of, set_storage_cass_name_rwx,
  set_storage_cass_name_rwo, is_etcd_available, node_affnity_nodes_for_chaos, from_response,
}

abbrev pub is_custom : Option ImageHub → Bool
is_custom none = false
is_custom (some hub) = not (hub.domain == "goodrain.me")

-- The name that is put in a database is put in the cluster's own one, which `db` points to.
abbrev pub name_database : RainbondCluster → RainbondCluster
name_database cluster = elim cluster.spec.region_database [
  | none ↦ cluster
  | some db ↦
      let spec = cluster.spec in
      record cluster { spec = record spec { region_database = some (with_name db) } }
]

-- The components whose handlers are modelled.
pub data Name : Type 0 where
  rbd_api rbd_chaos rbd_eventlog rbd_worker rbd_monitor rbd_mq rbd_gateway rbd_hub rbd_etcd rbd_db
        rbd_resource_proxy :
      Name

module _ {E : Env} where
  open E use {World, Err}

  -- The database, with a name.
  unfoldable pub find_db : H E (Unit {0})
  unfolding wrapped get_default_db_info
  find_db = do
    s ← get
    db ←
        wrapped "get db info: "
          (get_default_db_info s.cluster.spec.region_database s.component.namespace db_name)
    modify (λ t. record t { db = some (with_name db); cluster = name_database t.cluster })

  unfoldable pub find_etcd_secret : H E (Unit {0})
  unfolding wrapped etcd_secret_of
  find_etcd_secret = do
    s ← get
    secret ← wrapped "failed to get etcd secret: " (etcd_secret_of s.cluster)
    modify (λ t. record t { etcd_secret = secret })

  -- `setStorageCassName` in the component's namespace.
  unfoldable pub find_class_rwx : H E (Unit {0})
  unfolding set_storage_cass_name_rwx
  find_class_rwx = do s ← get; set_storage_cass_name_rwx s.component.namespace

  unfoldable pub find_class_rwo : H E (Unit {0})
  unfolding set_storage_cass_name_rwo
  find_class_rwo = do s ← get; set_storage_cass_name_rwo s.component.namespace

  unfoldable pub find_affinity : H E (Unit {0})
  unfolding node_affnity_nodes_for_chaos from_response
  find_affinity = do
    s ← get
    node ← from_response (node_affnity_nodes_for_chaos E s.cluster)
    modify (λ t. record t { affinity = some node })

  -- api.go.
  unfoldable pub api_before : H E (Unit {0})
  unfolding find_db find_etcd_secret find_class_rwx
  api_before = do find_db; find_etcd_secret; find_class_rwx

  -- chaos.go.
  unfoldable pub chaos_before : H E (Unit {0})
  unfolding find_db find_etcd_secret find_class_rwx
  chaos_before = do find_db; find_etcd_secret; find_class_rwx

  -- eventlog.go.
  unfoldable pub eventlog_before : H E (Unit {0})
  unfolding find_db find_class_rwx
  eventlog_before = do find_db; find_class_rwx

  -- worker.go.
  unfoldable pub worker_before : H E (Unit {0})
  unfolding find_db find_class_rwx
  worker_before = do find_db; find_class_rwx

  -- monitor.go.
  unfoldable pub monitor_before : H E (Unit {0})
  unfolding find_class_rwo
  monitor_before = find_class_rwo

  -- resource_proxy.go.
  unfoldable pub resource_proxy_before : H E (Unit {0})
  unfolding find_class_rwo
  resource_proxy_before = find_class_rwo

  -- mq.go.
  unfoldable pub mq_before : H E (Unit {0})
  unfolding find_etcd_secret
  mq_before = find_etcd_secret

  -- gateway.go.
  unfoldable pub gateway_before : H E (Unit {0})
  unfolding find_etcd_secret is_etcd_available wrapped
  gateway_before = do
    find_etcd_secret
    s ← get
    wrapped "etcd not available: " (is_etcd_available s.component s.cluster)

  -- hub.go.
  unfoldable pub generate_htpasswd : ImageHub → H E (Unit {0})
  unfolding wrapped
  generate_htpasswd hub = do
    line ← wrapped "generate htpasswd: " (call_or (E.htpasswd hub.username hub.password))
    modify (λ t. record t { htpasswd = line })

  unfoldable pub hub_before : H E (Unit {0})
  unfolding generate_htpasswd find_class_rwx
  hub_before = do
    s ← get
    if is_custom s.cluster.spec.image_hub then throw (ignore "use custom image repository") else do
      find_class_rwx
      elim s.cluster.spec.image_hub [
        | none ↦ throw (ignore "imageHub is empty")
        | some hub ↦ generate_htpasswd hub
      ]

  -- etcd.go.
  unfoldable pub etcd_before : H E (Unit {0})
  unfolding find_class_rwo find_affinity
  etcd_before = do
    s ← get
    elim s.cluster.spec.etcd_config [
      | some config ↦ throw (ignore "specified etcd configuration")
      | none ↦ do find_class_rwo; find_affinity
    ]

  -- db.go: the old password is kept.
  unfoldable pub keep_password : Secret → H E (Unit {0})
  unfolding label
  keep_password secret = modify (λ t. record t {
    secret = some secret;
    mysql_user = label "mysql-user" secret.secret_data;
    mysql_password = label "mysql-password" secret.secret_data;
  })

  unfoldable pub find_password : H E (Unit {0})
  unfolding keep_password
  find_password = do
    s ← get
    found ← call (E.get_secret s.component.namespace db_name)
    elim found [
      | ok secret ↦ keep_password secret
      | err e ↦
          if not (E.is_not_found e)
          then throw (
              failure (
                E.errorf
                  ("get secret " <> db_name <> "/" <> s.component.namespace <> ": " <> E.error e)))
          else modify (λ t. record t { secret = none })
    ]

  unfoldable pub db_before : H E (Unit {0})
  unfolding find_password find_class_rwo find_affinity
  db_before = do
    s ← get
    elim s.cluster.spec.region_database [
      | some db ↦ throw (ignore "use custom database")
      | none ↦ do find_password; find_class_rwo; find_affinity
    ]

module _ (E : Env) where
  unfoldable pub before_of : Name → H E (Unit {0})
  unfolding api_before chaos_before eventlog_before worker_before monitor_before mq_before
      gateway_before hub_before etcd_before db_before resource_proxy_before
  before_of rbd_api = api_before
  before_of rbd_chaos = chaos_before
  before_of rbd_eventlog = eventlog_before
  before_of rbd_worker = worker_before
  before_of rbd_monitor = monitor_before
  before_of rbd_mq = mq_before
  before_of rbd_gateway = gateway_before
  before_of rbd_hub = hub_before
  before_of rbd_etcd = etcd_before
  before_of rbd_db = db_before
  before_of rbd_resource_proxy = resource_proxy_before
