-- ===== src/Handlers/Ready.antt =====
-- A handler that is prepared has a storage class.
use rainbond_operator.Base.{
  String, Bool, true, false, Option, none, some, string_eq, ◌<>◌, if◌then◌else◌, ◌≡◌,
}
use rainbond_operator.Api.{ImageHub, EtcdConfig, Database}
use rainbond_operator.Kube.{Response, ok, err}
use rainbond_operator.Kube.Action.{◌>>◌, pure, throw, try, get, modify, bind-keeps}
use rainbond_operator.Handlers.Env.{Env, Failure, ignore, failure, Prepared, H, call_or}
use rainbond_operator.Handlers.Common.{from_response, wrapped, text, node_affnity_nodes_for_chaos}
use rainbond_operator.Handlers.Before.{
  Name, rbd_api, rbd_chaos, rbd_eventlog, rbd_worker, rbd_monitor, rbd_mq, rbd_gateway, rbd_hub,
  rbd_etcd, rbd_db, rbd_resource_proxy, resource_proxy_before, find_class_rwx, find_class_rwo,
  find_db, find_etcd_secret, find_affinity, find_password, generate_htpasswd, is_custom, api_before,
  chaos_before, eventlog_before, worker_before, monitor_before, hub_before, etcd_before, db_before,
  before_of,
}
use rainbond_operator.Handlers.Found.{
  Finds, last-Finds, first-Finds, throw-Finds, HasRwx, HasRwo, find_class_rwx-HasRwx,
  find_class_rwo-HasRwo,
}

module _ {E : Env} where
  open E use {World, Err}

  wrapped_call-HasRwx :
      {A : Type 0} (prefix : String) (f : World → Response Err A × World) (s : Prepared E)
      → HasRwx s
      → HasRwx (wrapped prefix (call_or f) s).1
  unfolding wrapped try call_or pure throw
  wrapped_call-HasRwx {A} prefix f s h =
      bind-keeps HasRwx (try (call_or {E = E} f)) _ s h answer-HasRwx
    where
      answer-HasRwx :
          (r : Response (Failure Err) A) (t : Prepared E)
          → HasRwx t
          → HasRwx
              (let m : H E A = elim r [
                | ok a ↦ pure a
                | err e ↦ throw (failure (E.errorf (prefix <> text E e)))
              ] in
                m t).1
      answer-HasRwx (ok a) t g = g
      answer-HasRwx (err e) t g = g

  generate_htpasswd-HasRwx :
      (image_hub : ImageHub) (s : Prepared E) → HasRwx s → HasRwx (generate_htpasswd image_hub s).1
  unfolding generate_htpasswd modify
  generate_htpasswd-HasRwx image_hub s h =
      bind-keeps HasRwx
        (wrapped "generate htpasswd: " (call_or (E.htpasswd image_hub.username image_hub.password)))
        _ s
        (wrapped_call-HasRwx "generate htpasswd: "
          (E.htpasswd image_hub.username image_hub.password) s h)
        (λ a t g. g)

  find_affinity-HasRwo : (s : Prepared E) → HasRwo s → HasRwo (find_affinity s).1
  unfolding find_affinity get modify from_response
  find_affinity-HasRwo s h = bind-keeps HasRwo get _ s h λ t u g.
      bind-keeps HasRwo (from_response (node_affnity_nodes_for_chaos E t.cluster)) _ u g
        (λ node z k. k)

  -- The end of `Before` of rbd-hub.
  abbrev hub_end : Option ImageHub → H E (Unit {0})
  hub_end image_hub = elim image_hub [
    | none ↦ throw (ignore "imageHub is empty")
    | some hub ↦ generate_htpasswd hub
  ]

  hub_end-HasRwx :
      (image_hub : Option ImageHub) (s : Prepared E) → HasRwx s → HasRwx (hub_end image_hub s).1
  unfolding throw
  hub_end-HasRwx none s h = h
  hub_end-HasRwx (some hub) s h = generate_htpasswd-HasRwx hub s h

  hub_start-HasRwx :
      (custom : Bool) (image_hub : Option ImageHub)
      → Finds {E = E} {A = Unit {0}} HasRwx (
          if custom
          then throw (ignore "use custom image repository")
          else find_class_rwx >> hub_end image_hub)
  unfolding ◌>>◌
  hub_start-HasRwx true image_hub = throw-Finds HasRwx (ignore "use custom image repository")
  hub_start-HasRwx false image_hub =
      first-Finds HasRwx find_class_rwx (λ _. hub_end image_hub) find_class_rwx-HasRwx
        (λ a s h. hub_end-HasRwx image_hub s h)

  hub_before-HasRwx : Finds {E = E} HasRwx hub_before
  unfolding hub_before
  hub_before-HasRwx =
      last-Finds HasRwx get _
        λ s. hub_start-HasRwx (is_custom s.cluster.spec.image_hub) s.cluster.spec.image_hub

  class_affinity-HasRwo : Finds {E = E} HasRwo (find_class_rwo >> find_affinity)
  unfolding ◌>>◌
  class_affinity-HasRwo =
      first-Finds HasRwo find_class_rwo (λ _. find_affinity) find_class_rwo-HasRwo
        (λ a s h. find_affinity-HasRwo s h)

  etcd_before-HasRwo : Finds {E = E} HasRwo etcd_before
  unfolding etcd_before
  etcd_before-HasRwo = last-Finds HasRwo get _ λ s. config s.cluster.spec.etcd_config
    where
      config :
          (o : Option EtcdConfig)
          → Finds {E = E} {A = Unit {0}} HasRwo (elim o [
            | some config ↦ throw (ignore "specified etcd configuration")
            | none ↦ find_class_rwo >> find_affinity
          ])
      config none = class_affinity-HasRwo
      config (some c) = throw-Finds HasRwo (ignore "specified etcd configuration")

  db_before-HasRwo : Finds {E = E} HasRwo db_before
  unfolding db_before ◌>>◌
  db_before-HasRwo = last-Finds HasRwo get _ λ s. database s.cluster.spec.region_database
    where
      database :
          (o : Option Database)
          → Finds {E = E} {A = Unit {0}} HasRwo (elim o [
            | some db ↦ throw (ignore "use custom database")
            | none ↦ find_password >> (find_class_rwo >> find_affinity)
          ])
      database none =
          last-Finds HasRwo find_password (λ _. find_class_rwo >> find_affinity)
            (λ _. class_affinity-HasRwo)
      database (some d) = throw-Finds HasRwo (ignore "use custom database")

  abbrev pub HasClass : Name → Prepared E → Type 0
  HasClass rbd_api s = HasRwx s
  HasClass rbd_chaos s = HasRwx s
  HasClass rbd_eventlog s = HasRwx s
  HasClass rbd_worker s = HasRwx s
  HasClass rbd_hub s = HasRwx s
  HasClass rbd_monitor s = HasRwo s
  HasClass rbd_etcd s = HasRwo s
  HasClass rbd_db s = HasRwo s
  HasClass rbd_resource_proxy s = HasRwo s
  HasClass rbd_mq s = Unit
  HasClass rbd_gateway s = Unit

  before_of-Finds : (name : Name) → Finds {E = E} (HasClass name) (before_of E name)
  unfolding before_of api_before chaos_before eventlog_before worker_before monitor_before
      resource_proxy_before ◌>>◌
  before_of-Finds rbd_api =
      last-Finds HasRwx find_db _
        λ _. last-Finds HasRwx find_etcd_secret _ λ _. find_class_rwx-HasRwx
  before_of-Finds rbd_chaos =
      last-Finds HasRwx find_db _
        λ _. last-Finds HasRwx find_etcd_secret _ λ _. find_class_rwx-HasRwx
  before_of-Finds rbd_eventlog = last-Finds HasRwx find_db _ λ _. find_class_rwx-HasRwx
  before_of-Finds rbd_worker = last-Finds HasRwx find_db _ λ _. find_class_rwx-HasRwx
  before_of-Finds rbd_hub = hub_before-HasRwx
  before_of-Finds rbd_monitor = find_class_rwo-HasRwo
  before_of-Finds rbd_etcd = etcd_before-HasRwo
  before_of-Finds rbd_db = db_before-HasRwo
  before_of-Finds rbd_resource_proxy = find_class_rwo-HasRwo
  before_of-Finds rbd_mq = record { finds = λ s a h. tt }
  before_of-Finds rbd_gateway = record { finds = λ s a h. tt }

  -- Once `Before` succeeds, a handler that keeps data has the name of a storage class: one for many
  -- writers in rbd-api, rbd-chaos, rbd-eventlog, rbd-worker and rbd-hub, and one for one writer in
  -- rbd-monitor, rbd-etcd, rbd-db and rbd-resource-proxy.
  pub before_of-HasClass :
      (name : Name) (s : Prepared E)
      → (before_of E name s).0 ≡ ok tt
      → HasClass name (before_of E name s).1
  before_of-HasClass name s h = (before_of-Finds name).finds s tt h
