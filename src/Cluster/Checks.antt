-- ===== src/Cluster/Checks.antt =====
-- controllers/cluster-mgr/precheck: what the checks decide, from what they are told. A check
-- answers the status, the reason and the message of its condition.
pub mod Versions
pub mod Memory
use Prim.Native.Nat.{Ordering}
use Prim.Native.String.{compare}
use rainbond_operator.Base.{
  ℕ, suc, ◌+◌, ◌%◌, String, Bool, true, false, not, ◌&&◌, ◌||◌, Option, none, some, List, [], ◌∷◌,
  ◌==◌, string_eq, ◌<>◌, text_contains, ltb, leb, if◌then◌else◌,
}
use rainbond_operator.Conditions.{ConditionStatus, condition_true, condition_false}
use rainbond_operator.Kube.{Response, ok, err}

pub record Verdict : Type 0 where
  pub status : ConditionStatus
  pub reason : String
  pub message : String

abbrev pub passed : Verdict
passed = record { status = condition_true; reason = ""; message = "" }

-- `failConditoin` of precheck/util.go and `FailCondition` of util/rbdutil/rbdutil.go.
unfoldable pub fail_condition : String → String → Verdict
fail_condition reason message = record {
  status = condition_false;
  reason = reason;
  message = message;
}

-- Go's `<` on texts.
abbrev pub str_ltb : String → String → Bool
str_ltb a b = elim (compare a b) [ Ordering.lt ↦ true | _ ↦ false ]

-- `getKubernetesVersion`: the first kubelet version of the nodes that is not empty.
unfoldable pub first_version : List String → String
first_version [] = ""
first_version (v ∷ vs) = if v == "" then first_version vs else v

-- `Check` of precheck/k8sversion.go; the errors are texts.
unfoldable pub check_k8s_version : Response String (List String) → Verdict
unfolding first_version fail_condition
check_k8s_version (err e) = fail_condition "KubernetesVersionFailed" ("list nodes: " <> e)
check_k8s_version (ok kubelets) =
    let version = first_version kubelets in
    if version == ""
    then fail_condition "KubernetesVersionFailed" "failed to get kubernetes version"
    else if str_ltb version "v1.13.0"
    then fail_condition "UnsupportedKubernetesVersion"
        ("expect the version of k8s to be greater than or equal to 1.13.0, but got " <> version)
    else passed

-- `Check` of precheck/storage.go: `rwx` is the storage class name of the specification, `pvc`
-- whether the claim is bound, `events` what `EventsForPersistentVolumeClaim` and
-- `eventListToString` give.
unfoldable pub check_storage :
    Option String → Response String Bool → Response String String → Verdict
unfolding fail_condition
check_storage none pvc events = fail_condition "InProgress" "precheck for Storage is in progress"
check_storage (some name) pvc events = if name == "" then passed else elim pvc [
  | err e ↦ fail_condition "StorageFailed" e
  | ok bound ↦ if bound then passed else elim events [
    | err e ↦ fail_condition "StorageFailed" e
    | ok text ↦ fail_condition "StorageFailed" text
  ]
]

-- `Check` of precheck/database.go: the error of opening or pinging the database.
unfoldable pub check_database : Option String → Verdict
unfolding fail_condition
check_database none = passed
check_database (some e) = fail_condition "DatabaseFailed" e

-- `Check` of precheck/dns.go: the domain of the image repository, and the error of looking one up.
unfoldable pub check_dns : Response String String → (String → Option String) → Verdict
unfolding fail_condition
check_dns (err e) look_up = fail_condition "DNSFailed" e
check_dns (ok domain) look_up = elim (look_up domain) [
  | none ↦ passed
  | some e ↦ fail_condition "DNSFailed" e
]

-- A taint of a node: its key and its effect.
pub record Taint : Type 0 where
  pub key : String
  pub effect : String

-- A node of precheck/memory.go; `label_keys` are the keys of its labels, in the order in which the
-- loop meets them, and `memory` is the allocatable memory.
pub record Node : Type 0 where
  pub unschedulable : Bool
  pub label_keys : List String
  pub taints : List Taint
  pub memory : ℕ

-- The inner loop of `masterNode`.
unfoldable pub master_taint : List Taint → Bool
unfolding text_contains
master_taint [] = false
master_taint (taint ∷ taints) =
    if text_contains taint.key "master" && taint.effect == "NoSchedule"
    then true
    else master_taint taints

-- `masterNode`, with the keys of the labels and the taints.
unfoldable pub master_node : List String → List Taint → Bool
unfolding master_taint text_contains
master_node [] taints = false
master_node (key ∷ keys) taints =
    let rest = master_node keys taints in
    if not (text_contains key "master") then rest else if master_taint taints then true else rest

-- `filterOut`.
unfoldable pub filter_out : List Node → List Node
unfolding master_node
filter_out [] = []
filter_out (n ∷ nodes) =
    let rest = filter_out nodes in
    if n.unschedulable then rest else if master_node n.label_keys n.taints then rest else n ∷ rest

-- `totalMemory`, an `int64` in two's complement.
unfoldable pub total_memory_from : ℕ → List Node → ℕ
total_memory_from total [] = total
total_memory_from total (n ∷ nodes) =
    total_memory_from ((total + n.memory) % 18446744073709551616) nodes

-- `total < memoryRequest` on `int64`.
unfoldable pub below_request : ℕ → Bool
below_request total = ltb total 2147483648 || leb 9223372036854775808 total

-- `Check` of precheck/memory.go; `print` writes the total in the message.
unfoldable pub check_memory : (ℕ → String) → Response String (List Node) → Verdict
unfolding fail_condition filter_out total_memory_from below_request
check_memory print (err e) = fail_condition "MemoryFailed" e
check_memory print (ok nodes) =
    let total = total_memory_from 0 (filter_out nodes) in
    if below_request total
    then fail_condition "MemoryFailed"
        ("expected at least 2147483648 memory, but got " <> print total)
    else passed
