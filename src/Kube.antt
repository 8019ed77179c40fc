-- ===== src/Kube.antt =====
-- What the controllers use of Kubernetes: the objects, and the client of controller-runtime and
-- client-go with the errors of apimachinery, none of which is code of the repository. They are a
-- parameter: a state of the world, calls that answer and may change it, and the tests on errors.
pub mod Action
use rainbond_operator.Base.{ℕ, String, Bool, true, false, Option, List}
use rainbond_operator.Conditions.{ConditionStatus}
use rainbond_operator.Api.{RbdComponent, RainbondCluster, RainbondPackage}

-- The Go types of objects that the code tells apart by type assertions.
pub data Kind : Type 0 where
  service service_monitor persistent_volume_claim persistent_volume storage_class job : Kind
  other : String → Kind

-- `cluster_ip` is `Spec.ClusterIP` of a service; `body` is the rest of the object.
pub record Object (B : Type 0) : Type 0 where
  pub kind : Kind
  pub namespace : String
  pub name : String
  pub annotations : List (String × String)
  pub resource_version : String
  pub cluster_ip : String
  pub body : B

pub record PodCondition : Type 0 where
  pub typ3 : String
  pub status : ConditionStatus
  pub reason : String

pub record Pod : Type 0 where
  pub name : String
  pub conditions : List PodCondition

-- The `(value, error)` pair of a call.
pub data Response (E A : Type 0) : Type 0 where
  ok : A → Response E A
  err : E → Response E A

pub record Client : Type 1 where
  pub World : Type 0
  pub Err : Type 0
  pub Body : Type 0
  -- `k8sErrors.IsNotFound`, `IsAlreadyExists`, and the text of an error.
  pub is_not_found : Err → Bool
  pub is_already_exists : Err → Bool
  pub error : Err → String
  -- `metav1.Now()`.
  pub now : World → ℕ × World
  pub get_component : String → String → World → Response Err RbdComponent × World
  pub get_cluster : String → String → World → Response Err RainbondCluster × World
  pub get_package : String → String → World → Response Err RainbondPackage × World
  pub get_object : Kind → String → String → World → Response Err (Object Body) × World
  pub create : Object Body → World → Option Err × World
  pub update : Object Body → World → Option Err × World
  pub delete : Object Body → World → Option Err × World
  -- `Status().Update`, which fills the object from the answer.
  pub update_component_status : RbdComponent → World → Response Err RbdComponent × World
  -- `Recorder.Event` with the type `Warning`.
  pub event : RbdComponent → String → String → World → World
  -- `controllerutil.SetControllerReference`.
  pub set_controller_reference : RbdComponent → Object Body → Response Err (Object Body)
  -- `retry.RetryOnConflict(retry.DefaultRetry, f)`.
  pub retry_on_conflict :
      (A : Type 0) → (World → Response Err A × World) → World → Response Err A × World

-- `reconcile.Result`; the time is in seconds.
pub record Result : Type 0 where
  pub requeue : Bool
  pub requeue_after : ℕ

-- `reconcile.Result{}`, with `Requeue: true`, and with `RequeueAfter`.
abbrev pub no_requeue : Result
no_requeue = record { requeue = false; requeue_after = 0 }

abbrev pub requeue_now : Result
requeue_now = record { requeue = true; requeue_after = 0 }

abbrev pub requeue_in : ℕ → Result
requeue_in seconds = record { requeue = false; requeue_after = seconds }

module _ (C : Client) where
  open C use {World, Err, Body}

  -- `handler.ComponentHandler` (controllers/handler/handler.go) with its optional interfaces, made
  -- for a component and its cluster. A handler's own state is a part of the world.
  pub record Handler : Type 0 where
    pub before : World → Option Err × World
    pub resources_need_delete : Option (World → List (Option (Object Body)) × World)
    pub resources_create_if_not_exists : Option (World → List (Option (Object Body)) × World)
    pub create_cluster_scoped : Option (World → List (Option (Object Body)) × World)
    pub replicas : Option (World → Option ℕ × World)
    pub resources : World → List (Option (Object Body)) × World
    pub after : World → Option Err × World
    pub list_pods : World → Response Err (List Pod) × World
