-- ===== src/Cluster/Loop.antt =====
-- `Reconcile` of controllers/rainbondcluster_controller.go.
use rainbond_operator.Base.{String, not, ◌&&◌, Option, none, some, ◌==◌, string_eq, if◌then◌else◌}
use rainbond_operator.Api.{RainbondCluster, ClusterStatus, ImageHub}
use rainbond_operator.Kube.{Response, ok, err, Result, no_requeue, requeue_now, requeue_in}
use rainbond_operator.Kube.Action.{◌>>=◌, ◌>>◌, pure, get}
use rainbond_operator.Cluster.Generate.{all_true}
use rainbond_operator.Cluster.Env.{Env, Failure, panic, failure, Mgr, C}
use rainbond_operator.Cluster.Status.{generate_rainbond_cluster_status}
use rainbond_operator.Cluster.Manager.{create_image_pull_secret, create_foobar_pvc_if_not_exists}

-- What `Reconcile` answers: a result and an error; or it panics.
pub data Outcome (E : Type 0) : Type 0 where
  returned : Result → Option E → Outcome E
  panicked : Outcome E

module _ (E : Env) where
  open E use {World, Err}

  -- What the writes of the status and of the image hub repeat: read the cluster anew, change it,
  -- write it.
  unfoldable pub rewrite_status :
      String → String → ClusterStatus → World → Response Err RainbondCluster × World
  rewrite_status namespace name status w =
      let (r, w') = E.get_cluster namespace name w in
      elim r [
        | err e ↦ (err e, w')
        | ok rc ↦ E.update_cluster_status (record rc { status = status }) w'
      ]

  unfoldable pub rewrite_image_hub :
      String → String → ImageHub → World → Response Err RainbondCluster × World
  rewrite_image_hub namespace name hub w =
      let (r, w') = E.get_cluster namespace name w in
      elim r [
        | err e ↦ (err e, w')
        | ok rc ↦
            E.update_cluster
              (let spec = rc.spec in record rc { spec = record spec { image_hub = some hub } }) w'
      ]

  -- `getImageHub`; its error is never made.
  unfoldable pub get_image_hub : World → ImageHub × World
  get_image_hub w =
      let (password, w') = E.new_password w in
      (
        record { domain = "goodrain.me"; namespace = ""; username = "admin"; password = password },
        w',
      )

  -- The branch for a cluster without an image hub.
  unfoldable pub setup_image_hub : String → String → World → Outcome Err × World
  unfolding get_image_hub rewrite_image_hub
  setup_image_hub namespace name w =
      let (hub, w1) = get_image_hub w in
      let (r, w2) = E.retry_on_conflict RainbondCluster (rewrite_image_hub namespace name hub) w1 in
      elim r [
        | err e ↦ (returned (requeue_in 1) (some e), w2)
        | ok _ ↦ (returned requeue_now none, w2)
      ]

  -- The secret, if the image hub has a user and a password.
  unfoldable pub secure : ImageHub → C E (Unit {0})
  secure hub =
      if not (hub.username == "") && not (hub.password == "")
      then create_image_pull_secret hub
      else pure tt

  -- The end of `Reconcile`: it comes again if a condition is not true.
  unfoldable pub finish : C E Result
  finish = do
    s ← get
    pure (if all_true s.cluster.status.conditions then no_requeue else requeue_in 5)

  -- The branch for a cluster with an image hub.
  unfoldable pub provide : ImageHub → C E Result
  unfolding secure finish
  provide hub = do secure hub; create_foobar_pvc_if_not_exists; finish

  abbrev pub outcome : Response (Failure Err) Result → Outcome Err
  outcome (ok r) = returned r none
  outcome (err panic) = panicked
  outcome (err (failure e)) = returned no_requeue (some e)

  -- `Reconcile` once the status is written.
  unfoldable pub after_status : String → String → Mgr E → Outcome Err × World
  unfolding setup_image_hub provide
  after_status namespace name s = elim s.cluster.spec.image_hub [
    | none ↦ setup_image_hub namespace name s.world
    | some hub ↦ let (r, s') = provide hub s in (outcome r, s'.world)
  ]

  -- The write of the status that is generated.
  unfoldable pub write_status : String → String → ClusterStatus → Mgr E → Outcome Err × World
  unfolding rewrite_status after_status
  write_status namespace name status s =
      let (r, w) =
        E.retry_on_conflict RainbondCluster (rewrite_status namespace name status) s.world in
      elim r [
        | err e ↦ (returned (requeue_in 2) (some e), w)
        | ok _ ↦ after_status namespace name (record s { world = w })
      ]

  -- What `Reconcile` does with the answer of `GenerateRainbondClusterStatus`.
  unfoldable pub use_status :
      String → String → Response (Failure Err) ClusterStatus → Mgr E → Outcome Err × World
  unfolding write_status
  use_status namespace name (ok status) s = write_status namespace name status s
  use_status namespace name (err panic) s = (panicked, s.world)
  use_status namespace name (err (failure e)) s = (returned (requeue_in 2) (some e), s.world)

  -- `Reconcile`.
  unfoldable pub reconcile : String → String → World → Outcome Err × World
  unfolding use_status
  reconcile namespace name w =
      let (r, w1) = E.get_cluster namespace name w in
      elim r [
        | err e ↦ (returned no_requeue (if E.is_not_found e then none else some e), w1)
        | ok cluster ↦
            let (generated, s) =
              generate_rainbond_cluster_status (record { cluster = cluster; world = w1 }) in
            use_status namespace name generated s
      ]
