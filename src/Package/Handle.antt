-- ===== src/Package/Handle.antt =====
-- controllers/rainbondpackage_controller.go: `handle` and `Reconcile`.
use rainbond_operator.Base.{
  String, false, Option, none, some, [], ◌==◌, string_eq, ◌<>◌, if◌then◌else◌,
}
use rainbond_operator.Api.{
  PackageConditionType, RainbondPackage, RainbondCluster, init, download_package, unpack_package,
  push_image, ready, waiting, completed, failed,
}
use rainbond_operator.Api.InstallMode.{full_online}
use rainbond_operator.Kube.{ok, err, Result, no_requeue, requeue_in}
use rainbond_operator.Package.Status.{
  init_package_status, check_status_can_return, write_status, leave, go_on,
}
use rainbond_operator.Package.Env.{
  Env, cluster_config_not_ready, cluster_config_no_local_hub, failure, Pkg, P, ◌>>=◌, ◌>>◌, pure,
  throw, try, get,
}
use rainbond_operator.Package.Docker.{update_cr_status_of, update_cr_status}
use rainbond_operator.Package.Pull.{text, set_status, set_reason, image_pull_and_push}
use rainbond_operator.Package.Checks.{
  check_cluster_config, can_download, can_unpack, can_push_image, can_ready, set_init_status,
}

-- The steps on a downloaded installation package, which the code calls deprecated and takes only
-- if `downloadPackage` is set, as nothing does: `donwnloadPackage`, `untartar`, `imagesLoadAndPush`.
pub record Tasks (E : Env) : Type 0 where
  pub download : P E (Unit {0})
  pub untar : P E (Unit {0})
  pub images_load_and_push : P E (Unit {0})

module _ {E : Env} where
  -- The condition of a failed step, written with what went wrong; an error of the write is dropped.
  unfoldable pub note_failure : PackageConditionType → String → String → P E (Unit {0})
  note_failure t reason message = do
    set_status t failed
    set_reason t reason message
    dropped ← try update_cr_status
    pure tt

  -- A step of `handle`: on an error its condition fails, and `wrap` makes the error that is
  -- returned; else its condition is completed and written.
  unfoldable pub run_step :
      PackageConditionType → String → (String → String) → P E (Unit {0}) → P E (Unit {0})
  unfolding note_failure
  run_step t message wrap step = do
    outcome ← try step
    elim outcome [
      | ok _ ↦ set_status t completed >> update_cr_status
      | err e ↦ note_failure t (text E e) message >> throw (failure (E.errorf (wrap (text E e))))
    ]

  -- The start of `handle`: the cluster's configuration and the condition `Init`.
  unfoldable pub handle_config : P E (Unit {0})
  handle_config = do
    checked ← try check_cluster_config
    elim checked [
      | ok _ ↦ pure tt
      | err cluster_config_not_ready ↦ throw cluster_config_not_ready
      | err cluster_config_no_local_hub ↦ throw cluster_config_no_local_hub
      | err (failure e) ↦ do
        set_status init waiting
        set_reason init (E.error e) "get rainbond cluster config failure"
        dropped ← try update_cr_status
        throw (failure e)
    ]

  unfoldable pub handle_init : P E (Unit {0})
  unfolding note_failure
  handle_init = do
    started ← try set_init_status
    elim started [
      | ok _ ↦ pure tt
      | err e ↦ note_failure init (text E e) "set init status failure" >> throw e
    ]

module _ {E : Env} (tasks : Tasks E) where
  open E use {World, Err}

  -- The steps of `handle` that follow `setInitStatus`.
  unfoldable pub handle_steps : P E (Unit {0})
  unfolding run_step
  handle_steps = do
    downloading ← can_download
    if downloading
        then run_step download_package "download package failure"
            (λ e. "failed to download package " <> e) tasks.download
        else (do
          unpacking ← can_unpack
          s ← get
          if unpacking
              then run_step unpack_package "unpack package failure"
                  (λ e. "failed to untar " <> s.pkg.pkg_path <> ": " <> e) tasks.untar
              else (do
                pushing ← can_push_image
                if pushing
                    then (if s.download_package
                        then run_step push_image "load and push images failure"
                            (λ e. "failed to load and push images: " <> e)
                            tasks.images_load_and_push
                        else run_step push_image "pull and push images failure"
                            (λ e. "failed to pull and push images: " <> e) image_pull_and_push)
                    else (do
                      finishing ← can_ready
                      if finishing
                          then set_status ready completed >> update_cr_status
                          else pure tt)))

  -- `handle`.
  unfoldable pub handle : P E (Unit {0})
  unfolding handle_config handle_init handle_steps
  handle = do handle_config; handle_init; handle_steps

  -- `newpkg`, after the docker client: nothing downloads, and the domains are not set yet.
  unfoldable pub new_pkg : RainbondPackage → RainbondCluster → World → Pkg E
  new_pkg p cluster w = record {
    pkg = p;
    cluster = cluster;
    download_package = false;
    local_package_path = "";
    download_image_domain = "";
    push_image_domain = "";
    images = [];
    version = cluster.spec.install_version;
    world = w;
  }

  -- `updateCRStatus(r.Client, pkg)` in `Reconcile`: an error makes it come again in 5 seconds.
  unfoldable pub write_and_return : RainbondPackage → World → (Result × Option Err) × World
  write_and_return p w =
      let (r, w') = update_cr_status_of E p w in
      elim r [ ok _ ↦ ((no_requeue, none), w') | err e ↦ ((requeue_in 5, none), w') ]

  -- `Reconcile` from `newpkg` on; a failed `newpkg` returns a nil `p`.
  unfoldable pub run_handle :
      RainbondPackage → RainbondCluster → World → (Result × Option Err) × World
  unfolding new_pkg
  run_handle p cluster w =
      let (refused, w') = E.new_docker_client w in
      elim refused [
        | some e ↦ ((requeue_in 5, none), w')
        | none ↦
            let (r, s) = handle (new_pkg p cluster w') in
            elim r [
              | ok _ ↦ ((no_requeue, none), s.world)
              | err e ↦ ((requeue_in 8, none), s.world)
            ]
      ]

  -- `Reconcile`, once the package and its cluster are read.
  unfoldable pub reconcile_package :
      RainbondPackage → RainbondCluster → World → (Result × Option Err) × World
  unfolding write_and_return
  reconcile_package p cluster w =
      if cluster.spec.config_completed
      then (if cluster.spec.install_mode == full_online
          then (let (now, w') = E.now w in
              write_and_return (record p { status = init_package_status now completed }) w')
          else elim (check_status_can_return p.status.conditions) [
            | write_status ↦
                let (now, w') = E.now w in
                write_and_return (record p { status = init_package_status now waiting }) w'
            | leave ↦ ((no_requeue, none), w)
            | go_on ↦ run_handle p cluster w
          ])
      else ((requeue_in 3, none), w)

  -- `Reconcile` of a request.
  unfoldable pub reconcile : String → String → World → (Result × Option Err) × World
  reconcile namespace name w =
      let (found, w1) = E.get_package namespace name w in
      elim found [
        | err e ↦ ((no_requeue, if E.is_not_found e then none else some e), w1)
        | ok p ↦
            let (cluster, w2) = E.get_cluster p.namespace "rainbondcluster" w1 in
            elim cluster [ err e ↦ ((requeue_in 3, none), w2) | ok c ↦ reconcile_package p c w2 ]
      ]
