-- ===== src/Lib.antt =====
-- The Rainbond operator: a Kubernetes operator that installs Rainbond. Its controllers read custom
-- resources, compare them with the cluster, and write objects and statuses until they agree.
--
-- The parts, and the files that model them:
--
--   Conditions     the condition lists of the custom resources: GetCondition, SetCondition,
--                  UpdateCondition and DeleteCondition (api/v1alpha1/rbdcomponent_types.go,
--                  rainbondcluster_types.go, rainbondvolume_types.go). Every controller reports
--                  through them. `find` in Conditions.Find is the plain view that theorems use.
--   Api            the custom resources, with the fields that are read or written.
--   Kube           the objects and the client of Kubernetes, which is a parameter: a record of calls
--                  on a state of the world, each of which may change it. `Handler` is the interface
--                  of controllers/handler/handler.go; a handler's own state is in the world.
--   Component      RbdComponentReconciler.Reconcile (controllers/rbdcomponent_controller.go) and
--                  RbdcomponentMgr (controllers/component-mgr/component.go). Component.Flow has the
--                  control flow: a step goes on, returns from Reconcile, or panics. Objects and
--                  Status have the pure parts, Manager the methods of RbdcomponentMgr, Reconcile the
--                  stages of Reconcile and Loop the whole. Component.Store has the promises of an API
--                  server that stores objects by their keys.
--   Package        RainbondPackageReconciler (controllers/rainbondpackage_controller.go). Package.Env
--                  has what it asks of the API server and of docker, a parameter, and the monad of
--                  its methods; Status the changes of conditions, Docker the pushing and pulling,
--                  Pull imagePullAndPush, Checks what is asked before each step, and Handle `handle`
--                  and Reconcile.
--   Retry          Retry (util/retryutil/retry_util.go), which Package.Pull calls.
--   Merge          the merges of settings and the labels (controllers/handler/common.go,
--                  util/rbdutil/rbdutil.go).
--   Cluster        RainbondClusterReconciler.Reconcile (controllers/rainbondcluster_controller.go) and
--                  the cluster manager (controllers/cluster-mgr/cluster_mgr.go): Nodes has the master
--                  label and the nodes that are offered for the gateway, Checks the decisions of
--                  controllers/cluster-mgr/precheck, Generate `generateConditions`, Status
--                  GenerateRainbondClusterStatus, Manager the secret for pulling and the claim, and
--                  Loop Reconcile. Cluster.PullSecret states what a server does with a secret that is
--                  created or updated: it can be read after.
--   Volume         RainbondVolumeReconciler (controllers/rainbondvolume_controller.go), the choice of
--                  a plugin (controllers/plugin_factory.go) and what the plugins of
--                  controllers/plugin say of themselves. Methods has the steps, Loop Reconcile, and
--                  Server the promises of an API server on which progress rests: a write with the
--                  stored version succeeds and is read back, with any other it fails.
--   Handlers       `Before` of the handlers of controllers/handler, with the helpers in common.go,
--                  errors.go and uitls.go, and the claims that common.go builds. An error is an
--                  `IgnoreError` or any other; the sizes of claims are taken modulo 2 ^ 64.
--   Kube.Action    the monad of methods that change a state and may fail, for Cluster, Volume and
--                  Handlers: what was written before a failure stays written.
--   Base           lists, texts, tests on numbers and case lemmas that all parts share.
--   Tests          runs at concrete inputs.
--
-- A pointer that may be nil is an Option, an error result is `Response` or an Option of an error, and
-- counts and times are natural numbers; the sum of memories keeps the wrap-around of int64. Loops
-- over slices are structural recursions; `Retry` counts down the rounds that are left, which is its
-- own bound. A Go map is the list of its keys or pairs in the order in which a loop meets them; the
-- order of the images of a package is asked of the world. `sort.Sort` is computed by insertion.
--
-- Not modelled: the builders of objects of the handlers and of the volume plugins, which are literals
-- of Kubernetes objects, the prechecks that open connections, generated code, and the conversions of
-- pointers in util/commonutil, which are another project's. The steps on a downloaded package, which
-- the package controller calls deprecated and does not reach, are a parameter of `handle`. Log lines,
-- contexts and timers are left out.
pub mod Base
pub mod Conditions
pub mod Api
pub mod Kube
pub mod Component
pub mod Package
pub mod Retry
pub mod Handlers
pub mod Merge
pub mod Cluster
pub mod Tests
pub mod Volume
