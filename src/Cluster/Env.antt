-- ===== src/Cluster/Env.antt =====
-- What the cluster reconciler uses of the code that is not in the repository, as a parameter: the
-- API server through controller-runtime, encodings, and network dials; and the prechecks, which it
-- makes for a cluster.
use rainbond_operator.Base.{ℕ, String, Bool, Option, none, some, List}
use rainbond_operator.Api.{RainbondCluster}
use rainbond_operator.Kube.{Response, ok, err}
use rainbond_operator.Kube.Action.{Act}
use rainbond_operator.Cluster.Nodes.{NodeAddress}
use rainbond_operator.Cluster.Generate.{Prechecks}

pub record Node : Type 0 where
  pub name : String
  pub label_keys : List String
  pub addresses : List NodeAddress

-- `secret_data` is the map `Data`, with each key once.
pub record Secret : Type 0 where
  pub namespace : String
  pub name : String
  pub secret_data : List (String × String)
  pub typ3 : String

-- `storage_request` counts gibibytes; `storage_class_name` is a pointer.
pub record Pvc : Type 0 where
  pub namespace : String
  pub name : String
  pub labels : List (String × String)
  pub access_modes : List String
  pub storage_class_name : Option String
  pub storage_request : ℕ

pub record Env : Type 1 where
  pub World : Type 0
  pub Err : Type 0
  pub is_not_found : Err → Bool
  pub is_already_exists : Err → Bool
  pub error : Err → String
  pub errorf : String → Err
  pub get_cluster : String → String → World → Response Err RainbondCluster × World
  pub update_cluster : RainbondCluster → World → Response Err RainbondCluster × World
  pub update_cluster_status : RainbondCluster → World → Response Err RainbondCluster × World
  pub retry_on_conflict :
      (A : Type 0) → (World → Response Err A × World) → World → Response Err A × World
  -- The nodes with the labels; the names and provisioners of the storage classes.
  pub list_nodes : List (String × String) → World → Response Err (List Node) × World
  pub list_storage_classes : World → Response Err (List (String × String)) × World
  pub get_secret : String → String → World → Response Err Secret × World
  pub create_secret : Secret → World → Option Err × World
  pub update_secret : Secret → World → Option Err × World
  pub get_pvc : String → String → World → Response Err Pvc × World
  pub create_pvc : Pvc → World → Option Err × World
  pub delete_pvc : Pvc → World → Option Err × World
  -- `controllerutil.SetControllerReference`.
  pub set_controller_reference : RainbondCluster → Secret → Response Err Secret
  -- `base64.StdEncoding`, and `ffjson.Marshal` of `auths` for a domain and its map of strings.
  pub base64 : String → String
  pub marshal_auths : String → List (String × String) → String
  -- The first eight characters of a new UUID.
  pub new_password : World → String × World
  -- Whether a dial of an address and a port succeeds.
  pub is_port_occupied : World → String → ℕ → Bool
  pub prechecks : RainbondCluster → Prechecks World

-- An error, or the panic of a nil pointer, which nothing recovers.
pub data Failure (E : Type 0) : Type 0 where
  panic : Failure E
  failure : E → Failure E

-- `RainbondClusteMgr`, with the world.
pub record Mgr (E : Env) : Type 0 where
  pub cluster : RainbondCluster
  pub world : E.World

abbrev pub C : Env → Type 0 → Type 0
C E A = Act (Mgr E) (Failure E.Err) A

module _ {E : Env} where
  open E use {World, Err}

  unfoldable pub call : {A : Type 0} → (World → A × World) → C E A
  call f s = let (a, w) = f s.world in (ok a, record s { world = w })

  -- A call whose error is returned.
  unfoldable pub check : (World → Option Err × World) → C E (Unit {0})
  check f s =
      let (r, w) = f s.world in
      (elim r [ none ↦ ok tt | some e ↦ err (failure e) ], record s { world = w })
