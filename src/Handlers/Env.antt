-- ===== src/Handlers/Env.antt =====
-- What the handlers ask of the API server, as a parameter, and the state of a handler.
use rainbond_operator.Base.{ℕ, String, Bool, Option, List}
use rainbond_operator.Api.{RbdComponent, RainbondCluster, Database, K8sNode}
use rainbond_operator.Kube.{Response, ok, err}
use rainbond_operator.Kube.Action.{Act}
use rainbond_operator.Volume.Types.{RainbondVolume}

-- `secret_data` is the map `Data`, with each key once.
pub record Secret : Type 0 where
  pub name : String
  pub secret_data : List (String × String)

pub record Env : Type 1 where
  pub World : Type 0
  pub Err : Type 0
  pub is_not_found : Err → Bool
  pub error : Err → String
  pub errorf : String → Err
  pub get_secret : String → String → World → Response Err Secret × World
  pub get_component : String → String → World → Response Err RbdComponent × World
  pub list_volumes :
      String → List (String × String) → World → Response Err (List RainbondVolume) × World
  -- The command `htpasswd` with a user and a password.
  pub htpasswd : String → String → World → Response Err String × World

-- `IgnoreError`, and all other errors.
pub data Failure (E : Type 0) : Type 0 where
  ignore : String → Failure E
  failure : E → Failure E

-- `pvcParameters`.
pub record PvcParameters : Type 0 where
  pub storage_class_name : String
  pub storage_request : Option ℕ

-- A handler: its component and cluster, and what `Before` finds.
pub record Prepared (E : Env) : Type 0 where
  pub component : RbdComponent
  pub cluster : RainbondCluster
  pub db : Option Database
  pub secret : Option Secret
  pub etcd_secret : Option Secret
  pub mysql_user : String
  pub mysql_password : String
  pub pvc_parameters_rwx : Option PvcParameters
  pub pvc_parameters_rwo : Option PvcParameters
  pub htpasswd : String
  pub affinity : Option K8sNode
  pub world : E.World

abbrev pub H : Env → Type 0 → Type 0
H E A = Act (Prepared E) (Failure E.Err) A

module _ {E : Env} where
  open E use {World, Err}

  unfoldable pub call : {A : Type 0} → (World → A × World) → H E A
  call f s = let (a, w) = f s.world in (ok a, record s { world = w })

  -- A call whose error is returned.
  unfoldable pub call_or : {A : Type 0} → (World → Response Err A × World) → H E A
  call_or f s =
      let (r, w) = f s.world in
      (elim r [ ok a ↦ ok a | err e ↦ err (failure e) ], record s { world = w })
