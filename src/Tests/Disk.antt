-- ===== src/Tests/Disk.antt =====
-- A server that keeps one volume and one class, and that it is a server.
use rainbond_operator.Base.{
  ◌+◌, String, Bool, true, false, Option, none, some, [], ◌&&◌, ◌==◌, string_eq, nat_eq, ◌≡◌, ◌≢◌,
  refl, if◌then◌else◌, arith, ap, ◌∙◌,
}
use text.Mathlib.TextEquality.{eq_iff}
use rainbond_operator.Kube.{Response, ok, err}
use rainbond_operator.Volume.Types.{RainbondVolume, StorageClass}
use rainbond_operator.Volume.Env.{Env}
use rainbond_operator.Volume.Server.{Server}

-- The volume of the server and whether its class is there.
abbrev pub Disk : Type 0
Disk = RainbondVolume × Bool

-- A write with the version `v` of the stored volume `old`.
abbrev write : RainbondVolume → RainbondVolume → Disk → Response String RainbondVolume × Disk
write v new d =
    if v.resource_version == d.0.resource_version
    then (let n : RainbondVolume = record new { resource_version = d.0.resource_version + 1 } in
        (ok n, (n, d.1)))
    else (err "conflict", d)

abbrev pub lookup : Disk → String → String → Option RainbondVolume
lookup d namespace name = if d.0.namespace == namespace && d.0.name == name then some d.0 else none

abbrev class_of : String → StorageClass
class_of name = record {
  name = name;
  labels = [];
  mount_options = [];
  provisioner = "";
  parameters = [];
  reclaim_policy = "Retain";
}

abbrev answer : Option RainbondVolume → Disk → Response String RainbondVolume × Disk
answer none d = (err "not found", d)
answer (some v) d = (ok v, d)

abbrev pub class_answer : Bool → String → Response String StorageClass
class_answer true name = ok (class_of name)
class_answer false name = err "not found"

abbrev pub disk_env : Env
disk_env = record {
  World = Disk;
  Err = String;
  Obj = String;
  is_not_found = λ e. e == "not found";
  new_error = λ e. e;
  now = λ d. (7, d);
  get_volume = λ namespace name d. answer (lookup d namespace name) d;
  get_storage_class = λ name d. (class_answer d.1 name, d);
  get_stateful_set = λ namespace name d. (ok (record { replicas = 1; ready_replicas = 1 }), d);
  get_service = λ namespace name d. (none, d);
  get_object = λ o d. (none, d);
  create = λ o d. (none, d);
  create_storage_class = λ c d. (none, (d.0, true));
  update_volume = λ v d.
      write v (record v { namespace = d.0.namespace; name = d.0.name; status = d.0.status }) d;
  update_volume_status = λ v d. write v (let old = d.0 in record old { status = v.status }) d;
  retry_on_conflict = λ A f d. f d;
  set_controller_reference = λ v o. ok o;
}

pub lookup_found :
    (d : Disk) (namespace name : String) (v : RainbondVolume)
    → lookup d namespace name ≡ some v
    → (d.0 ≡ v) × (v.namespace ≡ namespace) × (v.name ≡ name)
lookup_found d namespace name v h =
    ground (arith, eq_iff d.0.namespace namespace, eq_iff d.0.name name)

write_current :
    (v new : RainbondVolume) (d : Disk)
    → v.resource_version ≡ d.0.resource_version
    → write v new d ≡ (
        let n : RainbondVolume = record new { resource_version = d.0.resource_version + 1 } in
        (ok n, (n, d.1)))
write_current v new d h = ground arith

pub write_stale :
    (v new : RainbondVolume) (d : Disk)
    → v.resource_version ≢ d.0.resource_version
    → write v new d ≡ (err "conflict", d)
write_stale v new d h = ground arith

pub found_name :
    (name : String) (found : Bool) (c : StorageClass)
    → class_answer found name ≡ ok c
    → c.name ≡ name
found_name name true c h = ground arith
found_name name false c h = ground arith

lookup_key :
    (d : Disk) (namespace name : String)
    → d.0.namespace ≡ namespace
    → d.0.name ≡ name
    → lookup d namespace name ≡ some d.0
lookup_key d namespace name a b =
    ground (arith, eq_iff d.0.namespace namespace, eq_iff d.0.name name)

pub updated :
    (d : Disk) (v old : RainbondVolume)
    → lookup d v.namespace v.name ≡ some old
    → v.resource_version ≡ old.resource_version
    → (v' : RainbondVolume) × (d' : Disk) × (disk_env.update_volume v d ≡ (ok v', d'))
      × (lookup d' v.namespace v.name ≡ some v')
      × (v'.spec ≡ v.spec)
      × (v'.status ≡ old.status)
      × (v'.resource_version ≢ old.resource_version)
updated d v old h k =
    let (same, a, b) = lookup_found d v.namespace v.name old h in
    let n : RainbondVolume = record v {
      namespace = d.0.namespace;
      name = d.0.name;
      status = d.0.status;
      resource_version = d.0.resource_version + 1;
    } in
    (
      n,
      (n, d.1),
      write_current v n d (cc),
      lookup_key (n, d.1) v.namespace v.name (ap (λ x. x.namespace) same ∙ a)
          (ap (λ x. x.name) same ∙ b),
      refl,
      ap (λ x. x.status) same,
      (λ e. absurd (omega (arith, e, ap (λ x. x.resource_version) same))),
    )

pub status_updated :
    (d : Disk) (v old : RainbondVolume)
    → lookup d v.namespace v.name ≡ some old
    → v.resource_version ≡ old.resource_version
    → (v' : RainbondVolume) × (d' : Disk) × (disk_env.update_volume_status v d ≡ (ok v', d'))
      × (lookup d' v.namespace v.name ≡ some v')
      × (v'.spec ≡ old.spec)
      × (v'.status ≡ v.status)
status_updated d v old h k =
    let (same, a, b) = lookup_found d v.namespace v.name old h in
    let u = d.0 in
    let n : RainbondVolume = record u {
      status = v.status;
      resource_version = d.0.resource_version + 1;
    } in
    (
      n,
      (n, d.1),
      write_current v n d (cc),
      lookup_key (n, d.1) v.namespace v.name (ap (λ x. x.namespace) same ∙ a)
          (ap (λ x. x.name) same ∙ b),
      ap (λ x. x.spec) same,
      refl,
    )

abbrev pub disk_server : Server disk_env
disk_server = record {
  stored = lookup;
  stored_key = λ d namespace name v h. let (_, a, b) = lookup_found d namespace name v h in (a, b);
  get_stored = λ d namespace name v h. ap (λ o. answer o d) h;
  now_stored = λ d. refl;
  get_stateful_set_stored = λ namespace name d. refl;
  get_service_stored = λ namespace name d. refl;
  get_storage_class_stored = λ name d. refl;
  create_storage_class_stored = λ c d. refl;
  get_storage_class_name = λ name d c h. found_name name d.1 c h;
  create_missing = λ c d e h k. refl;
  update_stored = λ d v old h k. updated d v old h k;
  update_status_stored = λ d v old h k. status_updated d v old h k;
  conflict = "conflict";
  conflict_ne_not_found = refl;
  update_status_conflict = λ d v old h k.
      let (same, _, _) = lookup_found d v.namespace v.name old h in
      write_stale v (let u = d.0 in record u { status = v.status }) d
        (λ e. k (e ∙ ap (λ x. x.resource_version) same));
  retry_done = λ f d d' a h. h;
  retry_conflict = λ f d h. h;
}
