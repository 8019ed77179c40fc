-- ===== src/Volume/Env.antt =====
-- What the volume reconciler uses of the code that is not in the repository, as a parameter: the
-- API server through controller-runtime and client-go. And the interface of controllers/plugin.
use rainbond_operator.Base.{ℕ, String, Bool, Option, none, some, List}
use rainbond_operator.Kube.{Response, ok, err}
use rainbond_operator.Kube.Action.{Act}
use rainbond_operator.Volume.Types.{RainbondVolume, StorageClass}

-- The replicas of a StatefulSet's status.
pub record StatefulSet : Type 0 where
  pub replicas : ℕ
  pub ready_replicas : ℕ

-- `Obj` is `client.Object`.
pub record Env : Type 1 where
  pub World : Type 0
  pub Err : Type 0
  pub Obj : Type 0
  pub is_not_found : Err → Bool
  -- `errors.New`.
  pub new_error : String → Err
  pub now : World → ℕ × World
  pub get_volume : String → String → World → Response Err RainbondVolume × World
  pub get_storage_class : String → World → Response Err StorageClass × World
  pub get_stateful_set : String → String → World → Response Err StatefulSet × World
  -- Whether a service, and an object with the kind, the namespace and the name of the given one, is
  -- there.
  pub get_service : String → String → World → Option Err × World
  pub get_object : Obj → World → Option Err × World
  pub create : Obj → World → Option Err × World
  pub create_storage_class : StorageClass → World → Option Err × World
  -- `Update` of the metadata and the spec, and `Status().Update`, which fills the volume from the
  -- answer.
  pub update_volume : RainbondVolume → World → Response Err RainbondVolume × World
  pub update_volume_status : RainbondVolume → World → Response Err RainbondVolume × World
  pub retry_on_conflict :
      (A : Type 0) → (World → Response Err A × World) → World → Response Err A × World
  -- `controllerutil.SetControllerReference`.
  pub set_controller_reference : RainbondVolume → Obj → Response Err Obj

-- The error that the reconciler tells apart, `ErrCSIPluginNotReady`, and all others.
pub data Failure (E : Type 0) : Type 0 where
  csi_plugin_not_ready : Failure E
  failure : E → Failure E

pub record Vol (E : Env) : Type 0 where
  pub volume : RainbondVolume
  pub world : E.World

abbrev pub V : Env → Type 0 → Type 0
V E A = Act (Vol E) (Failure E.Err) A

-- `plugin.CSIPlugin`.
pub record CsiPlugin (E : Env) : Type 0 where
  pub is_plugin_ready : E.World → Bool × E.World
  pub get_provisioner : String
  pub get_cluster_scoped_resources : List (Option E.Obj)
  pub get_sub_resources : List (Option E.Obj)

module _ {E : Env} where
  open E use {World, Err}

  unfoldable pub call : {A : Type 0} → (World → A × World) → V E A
  call f s = let (a, w) = f s.world in (ok a, record s { world = w })

  -- A call whose error is returned.
  unfoldable pub call_or : {A : Type 0} → (World → Response Err A × World) → V E A
  call_or f s =
      let (r, w) = f s.world in
      (elim r [ ok a ↦ ok a | err e ↦ err (failure e) ], record s { world = w })

  unfoldable pub check : (World → Option Err × World) → V E (Unit {0})
  check f s =
      let (r, w) = f s.world in
      (elim r [ none ↦ ok tt | some e ↦ err (failure e) ], record s { world = w })
