-- ===== src/Component/Objects.antt =====
-- controllers/component-mgr/component.go: which objects are updated, and what an update keeps of
-- the object that is there.
use rainbond_operator.Base.{
  String, Bool, true, false, ◌||◌, Option, none, some, List, [], ◌∷◌, ◌==◌, string_eq,
  if◌then◌else◌,
}
use rainbond_operator.Kube.{
  Object, Kind, service, service_monitor, persistent_volume_claim, persistent_volume, storage_class,
  job, other,
}

-- `obj.GetAnnotations()[key]`, where a missing key gives the empty text.
unfoldable pub annotation : String → List (String × String) → String
annotation k [] = ""
annotation k ((j, v) ∷ m) = if j == k then v else annotation k m

-- The four type assertions of `objectCanUpdate`.
abbrev pub is_kept : Kind → Bool
is_kept persistent_volume_claim = true
is_kept persistent_volume = true
is_kept storage_class = true
is_kept job = true
is_kept service = false
is_kept service_monitor = false
is_kept (other _) = false

unfoldable pub object_can_update : {B : Type 0} → Object B → Bool
unfolding annotation
object_can_update o =
    if annotation "ignore_controller_update" o.annotations == "true"
    then false
    else if is_kept o.kind
    then false
    else if o.name == "rbd-db" || o.name == "rbd-etcd"
    then false
    else true

-- `updateRuntimeObject`; `none` is the panic of the type assertion `old.(*corev1.Service)`. The
-- old object has the type of the new one: it is made by `reflect.New` from it.
unfoldable pub update_runtime_object : {B : Type 0} → Object B → Object B → Option (Object B)
update_runtime_object old new = elim new.kind [
  | service ↦
      some (record new { resource_version = old.resource_version; cluster_ip = old.cluster_ip })
  | service_monitor ↦ elim old.kind [
    | service ↦ some (record new { resource_version = old.resource_version })
    | _ ↦ none
  ]
  | _ ↦ some new
]
