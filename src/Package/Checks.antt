-- ===== src/Package/Checks.antt =====
-- controllers/rainbondpackage_controller.go: what `handle` asks of the cluster and of the
-- conditions before each of its steps. An error of `updateCRStatus` that is only logged is dropped
-- by `try`.
use rainbond_operator.Base.{
  String, Bool, true, false, not, Option, none, some, List, [], ◌∷◌, ◌==◌, string_eq, ◌<>◌,
  if◌then◌else◌,
}
use rainbond_operator.Conditions.{condition_true, status_eq, get_condition}
use rainbond_operator.Api.{
  PackageConditionType, PackageConditionStatus, PackageCondition, RainbondCluster, ImageHub, init,
  download_package, unpack_package, push_image, running, completed,
}
use rainbond_operator.Api.ClusterConditionType.{image_repository}
use rainbond_operator.Kube.{ok}
use rainbond_operator.Package.Status.{find_condition, phase_eq, type_eq}
use rainbond_operator.Package.Env.{
  Env, cluster_config_not_ready, cluster_config_no_local_hub, P, ◌>>=◌, ◌>>◌, pure, throw, try, get,
  modify,
}
use rainbond_operator.Package.Docker.{update_cr_status}
use rainbond_operator.Package.Pull.{set_status, with_conditions}

-- `isImageRepositoryReady`.
unfoldable pub is_image_repository_ready : RainbondCluster → Bool
is_image_repository_ready c = elim (get_condition image_repository c.status.conditions) [
  | none ↦ false
  | some (_, r) ↦ r.status == condition_true
]

-- The images of `configByCluster`: a map, whose order `Env.range` decides on.
abbrev pub wanted_images : String → String → List (String × String)
wanted_images ci_version version =
    ("/builder:" <> ci_version, "/builder")
    ∷ ("/runner:" <> ci_version, "/runner")
    ∷ ("/rbd-init-probe:" <> version, "/rbd-init-probe")
    ∷ ("/rbd-mesh-data-panel:" <> version, "/rbd-mesh-data-panel")
    ∷ ("/plugins-tcm:5.1.7", "/tcm")
    ∷ []

-- `pushImageDomain` in `checkClusterConfig`, from what it was before.
unfoldable pub push_domain : Option ImageHub → String → String
push_domain hub before =
    let domain : String = elim hub [
      | none ↦ before
      | some h ↦ if h.namespace == "" then h.domain else h.domain <> "/" <> h.namespace
    ] in
    if domain == "" then "goodrain.me" else domain

-- The first condition of a type with another status: `con.Status = status`.
unfoldable pub overwrite_status :
    PackageConditionType → PackageConditionStatus → List PackageCondition → List PackageCondition
overwrite_status t status [] = []
overwrite_status t status (c ∷ cs) =
    if c.typ3 == t then record c { status = status } ∷ cs else c ∷ overwrite_status t status cs

module _ {E : Env} where
  open E use {World, Err}

  -- `configByCluster`.
  unfoldable pub config_by_cluster : P E (Unit {0})
  unfolding is_image_repository_ready
  config_by_cluster = do
    s ← get
    let spec = s.cluster.spec
    if spec.config_completed then pure tt else throw cluster_config_not_ready
    if is_image_repository_ready s.cluster then pure tt else throw cluster_config_no_local_hub
    let version : String = if spec.install_version == "" then s.version else spec.install_version
    let ci_version : String = if spec.ci_version == "" then "v5.3.3" else spec.ci_version
    modify (λ p. record p {
      version = version;
      local_package_path = p.pkg.pkg_path;
      images = wanted_images ci_version version;
    })

  -- `checkClusterConfig`.
  unfoldable pub check_cluster_config : P E (Unit {0})
  unfolding config_by_cluster push_domain
  check_cluster_config = do
    config_by_cluster
    s ← get
    let repository = s.cluster.spec.rainbond_image_repository
    modify (λ p. record p {
      download_image_domain = if repository == "" then "rainbond" else repository;
      push_image_domain = push_domain s.cluster.spec.image_hub p.push_image_domain;
    })

  unfoldable pub condition : PackageConditionType → P E (Option PackageCondition)
  unfolding find_condition
  condition t s = (ok (find_condition t s.pkg.status.conditions), s)

  -- `completeCondition` and `runningCondition` of a condition that is there, with the error logged.
  unfoldable pub mark : PackageConditionType → PackageConditionStatus → P E (Unit {0})
  mark t status = do set_status t status; logged ← try update_cr_status; pure tt

  -- `canDownload`.
  unfoldable pub can_download : P E Bool
  unfolding mark
  can_download = do
    found ← condition download_package
    s ← get
    elim found [
      | none ↦ pure false
      | some con ↦
          if con.status == completed
          then pure false
          else if s.download_package
          then mark download_package running >> pure true
          else mark download_package completed >> pure false
    ]

  -- `canUnpack`.
  unfoldable pub can_unpack : P E Bool
  unfolding mark
  can_unpack = do
    found ← condition download_package
    unpack ← condition unpack_package
    s ← get
    elim found [
      | none ↦ pure false
      | some con ↦
          if con.status == completed
          then elim unpack [
            | none ↦ pure false
            | some uncon ↦
                if uncon.status == completed
                then pure false
                else if s.download_package
                then mark unpack_package running >> pure true
                else mark unpack_package completed >> pure false
          ]
          else pure false
    ]

  -- `canPushImage`.
  unfoldable pub can_push_image : P E Bool
  can_push_image = do
    unpack ← condition unpack_package
    push ← condition push_image
    elim unpack [
      | none ↦ pure false
      | some uncon ↦
          if uncon.status == completed
          then elim push [ none ↦ pure false | some pcon ↦ pure (not (pcon.status == completed)) ]
          else pure false
    ]

  -- `canReady`.
  unfoldable pub can_ready : P E Bool
  can_ready = do
    push ← condition push_image
    elim push [ none ↦ pure false | some pcon ↦ pure (pcon.status == completed) ]

  -- `setInitStatus`.
  unfoldable pub set_init_status : P E (Unit {0})
  unfolding overwrite_status
  set_init_status = do
    found ← condition init
    elim found [
      | none ↦ pure tt
      | some con ↦ if con.status == completed then pure tt else (do
        modify (λ s. with_conditions (overwrite_status init completed s.pkg.status.conditions) s)
        update_cr_status)
    ]
