-- ===== src/Tests/Store.antt =====
-- A server that keeps one service, which may be updated, and one job, which may not.
use rainbond_operator.Base.{
  String, Option, none, some, [], ◌∷◌, ◌&&◌, ◌==◌, string_eq, if◌then◌else◌, ◌≡◌, refl, arith, inl,
  inr,
}
use text.Mathlib.TextEquality.{eq_iff}
use rainbond_operator.Kube.{
  Client, Object, Kind, service, service_monitor, persistent_volume_claim, persistent_volume,
  storage_class, job, other, Response, ok, err,
}
use rainbond_operator.Component.Flow.{State}
use rainbond_operator.Component.Reconcile.{update_resources}
use rainbond_operator.Component.Store.{Store}
use rainbond_operator.Component.Protected.{update_resources-protected}
use rainbond_operator.Tests.Component.{component, cluster, object}

abbrev Item : Type 0
Item = Object (Unit {0})

-- What is stored under a key, where `w` is the service.
abbrev slot : Item → Kind → String → String → Option Item
slot w service namespace name =
    if namespace == "rbd-system" && name == "rbd-api" then some w else none
slot w job namespace name =
    if namespace == "rbd-system" && name == "migrate" then some (object job "migrate") else none
slot w _ namespace name = none

abbrev answer : Option Item → Response String Item
answer none = err "not found"
answer (some o) = ok o

abbrev write : Item → Item → Kind → Item
write w o service = if o.namespace == "rbd-system" && o.name == "rbd-api" then o else w
write w o _ = w

abbrev shop : Client
shop = record {
  World = Item;
  Err = String;
  Body = Unit {0};
  is_not_found = λ e. e == "not found";
  is_already_exists = λ e. e == "already exists";
  error = λ e. e;
  now = λ w. (7, w);
  get_component = λ namespace name w. (ok component, w);
  get_cluster = λ namespace name w. (ok cluster, w);
  get_package = λ namespace name w. (err "not found", w);
  get_object = λ kind namespace name w. (answer (slot w kind namespace name), w);
  create = λ o w. (some "already exists", w);
  update = λ o w. (none, write w o o.kind);
  delete = λ o w. (some "forbidden", w);
  update_component_status = λ c w. (ok c, w);
  event = λ c reason text w. w;
  set_controller_reference = λ c o. ok o;
  retry_on_conflict = λ A f w. f w;
}

answered : (o : Option Item) (x : Item) → answer o ≡ ok x → o ≡ some x
answered none x h = absurd (cc h)
answered (some o) x h = cc

others :
    (o w : Item) (j k : Kind) (namespace name : String)
    → ¬ ((j ≡ k) × (o.namespace ≡ namespace) × (o.name ≡ name))
    → slot (write w o j) k namespace name ≡ slot w k namespace name
others o w service service namespace name h = ground (
  arith,
  eq_iff o.namespace "rbd-system",
  eq_iff o.name "rbd-api",
  eq_iff namespace "rbd-system",
  eq_iff name "rbd-api",
)
others o w service service_monitor namespace name h = refl
others o w service persistent_volume_claim namespace name h = refl
others o w service persistent_volume namespace name h = refl
others o w service storage_class namespace name h = refl
others o w service job namespace name h = refl
others o w service (other s) namespace name h = refl
others o w service_monitor k namespace name h = refl
others o w persistent_volume_claim k namespace name h = refl
others o w persistent_volume k namespace name h = refl
others o w storage_class k namespace name h = refl
others o w job k namespace name h = refl
others o w (other s) k namespace name h = refl

abbrev shop_store : Store shop
shop_store = record {
  stored = slot;
  get_stored = λ k namespace name w o h. answered (slot w k namespace name) o h;
  get_same = λ k namespace name w. refl;
  create_keeps = λ o w k namespace name old h. h;
  update_others = λ o w k namespace name h. others o w o.kind k namespace name h;
  now_same = λ w. refl;
  event_same = λ c reason text w. refl;
  status_same = λ c w. refl;
  retry_same = λ A f w h. h w;
}

abbrev start : State shop
start = record { cpt = component; replicaser = none; world = object service "rbd-api" }

-- The service and the job are both among the resources.
update_resources-protected_example :
    slot
      (update_resources {C = shop}
        (some (object service "rbd-api") ∷ some (object job "migrate") ∷ [])
        start).1.world
      job
      "rbd-system"
      "migrate"
    ≡ some (object job "migrate")
update_resources-protected_example =
    update_resources-protected shop_store job "rbd-system" "migrate" (object job "migrate")
      (some (object service "rbd-api") ∷ some (object job "migrate") ∷ []) start
      (inr (inr (inr (inr (inl refl))))) refl
