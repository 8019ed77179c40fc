-- ===== src/Component/Store.antt =====
-- What the API server promises of the objects that a component's resources are.
use rainbond_operator.Base.{String, Option, some, ◌≡◌}
use rainbond_operator.Api.{RbdComponent}
use rainbond_operator.Kube.{Client, Object, Kind, Response, ok}

-- The key of an object on a server.
abbrev pub HasKey : {B : Type 0} → Kind → String → String → Object B → Type 0
HasKey k namespace name o = (o.kind ≡ k) × (o.namespace ≡ namespace) × (o.name ≡ name)

-- An API server that stores objects by their keys: what it answers is stored, a creation leaves
-- what is there, an update writes no object with another key, and no other call writes an object.
pub record Store (C : Client) : Type 1 where
  pub stored : C.World → Kind → String → String → Option (Object C.Body)
  pub get_stored :
      (k : Kind) (namespace name : String) (w : C.World) (o : Object C.Body)
      → (C.get_object k namespace name w).0 ≡ ok o
      → stored w k namespace name ≡ some o
  pub get_same :
      (k : Kind) (namespace name : String) (w : C.World)
      → stored (C.get_object k namespace name w).1 ≡ stored w
  pub create_keeps :
      (o : Object C.Body) (w : C.World) (k : Kind) (namespace name : String) (old : Object C.Body)
      → stored w k namespace name ≡ some old
      → stored (C.create o w).1 k namespace name ≡ some old
  pub update_others :
      (o : Object C.Body) (w : C.World) (k : Kind) (namespace name : String)
      → ¬ HasKey k namespace name o
      → stored (C.update o w).1 k namespace name ≡ stored w k namespace name
  pub now_same : (w : C.World) → stored (C.now w).1 ≡ stored w
  pub event_same :
      (c : RbdComponent) (reason text : String) (w : C.World)
      → stored (C.event c reason text w) ≡ stored w
  pub status_same :
      (c : RbdComponent) (w : C.World) → stored (C.update_component_status c w).1 ≡ stored w
  pub retry_same :
      (A : Type 0) (f : C.World → Response C.Err A × C.World) (w : C.World)
      → ((v : C.World) → stored (f v).1 ≡ stored v)
      → stored (C.retry_on_conflict A f w).1 ≡ stored w
