-- ===== src/Cluster/Nodes/MasterRole.antt =====
-- Which label marks the master nodes, and which address the gateway gets.
use rainbond_operator.Base.{
  String, Bool, true, false, ◌||◌, List, [], ◌∷◌, ◌==◌, string_eq, if◌then◌else◌, ◌≡◌, refl, arith,
  Bool-cases, inl, inr,
}
use text.Mathlib.TextEquality.{eq_iff}
use rainbond_operator.Api.{ClusterSpec}
use rainbond_operator.Cluster.Nodes.{
  master_label, role_label, scan_keys, scan_nodes, get_master_role_label, gateway_ingress_ip,
  gateway_ingress_ips,
}

abbrev pub has_key : String → List String → Bool
has_key k [] = false
has_key k (j ∷ ks) = j == k || has_key k ks

abbrev pub some_node_has : String → List (List String) → Bool
some_node_has k [] = false
some_node_has k (n ∷ ns) = has_key k n || some_node_has k ns

scan_keys_lem :
    (keys : List String) (label : String)
    → scan_keys keys label ≡ (
        if has_key master_label keys || label == master_label
        then master_label
        else if has_key role_label keys
        then role_label
        else label)
unfolding scan_keys
scan_keys_lem [] label = ground (arith, eq_iff label master_label)
scan_keys_lem (key ∷ keys) label = ground (
  arith,
  eq_iff label master_label,
  eq_iff key master_label,
  eq_iff key role_label,
  eq_iff master_label role_label,
  scan_keys_lem keys (
      let found : String = if key == master_label then key else label in
      if key == role_label then (if found == master_label then found else key) else found),
)

abbrev pick : Bool → Bool → String → String
pick master role label =
    if master || label == master_label then master_label else if role then role_label else label

pick-pick :
    (a a' b b' : Bool) (label : String)
    → pick a' b' (pick a b label) ≡ pick (a || a') (b || b') label
pick-pick true true true true label = ground (arith, eq_iff label master_label)
pick-pick true true true false label = ground (arith, eq_iff label master_label)
pick-pick true true false true label = ground (arith, eq_iff label master_label)
pick-pick true true false false label = ground (arith, eq_iff label master_label)
pick-pick true false true true label = ground (arith, eq_iff label master_label)
pick-pick true false true false label = ground (arith, eq_iff label master_label)
pick-pick true false false true label = ground (arith, eq_iff label master_label)
pick-pick true false false false label = ground (arith, eq_iff label master_label)
pick-pick false true true true label = ground (arith, eq_iff label master_label)
pick-pick false true true false label = ground (arith, eq_iff label master_label)
pick-pick false true false true label = ground (arith, eq_iff label master_label)
pick-pick false true false false label = ground (arith, eq_iff label master_label)
pick-pick false false true true label = elim (Bool-cases (label == master_label)) [
  | inl p ↦ rw p refl
  | inr p ↦ rw p (ground (arith, p))
]
pick-pick false false true false label = elim (Bool-cases (label == master_label)) [
  | inl p ↦ rw p refl
  | inr p ↦ rw p (ground (arith, p))
]
pick-pick false false false true label = elim (Bool-cases (label == master_label)) [
  | inl p ↦ rw p refl
  | inr p ↦ rw p (ground (arith, p))
]
pick-pick false false false false label = elim (Bool-cases (label == master_label)) [
  | inl p ↦ rw p refl
  | inr p ↦ rw p (ground (arith, p))
]

scan_nodes_lem :
    (nodes : List (List String)) (label : String)
    → scan_nodes nodes label ≡ (
        if some_node_has master_label nodes || label == master_label
        then master_label
        else if some_node_has role_label nodes
        then role_label
        else label)
unfolding scan_nodes
scan_nodes_lem [] label = ground (arith, eq_iff label master_label)
scan_nodes_lem (n ∷ ns) label = rw (scan_nodes_lem ns (scan_keys n label)) (
    rw (scan_keys_lem n label) (
      pick-pick (has_key master_label n) (some_node_has master_label ns) (has_key role_label n)
        (some_node_has role_label ns) label))

-- `getMasterRoleLabel` is the master label if some node has it, else the role label if some node
-- has that, else the empty text: the order of the nodes and of their labels is no matter.
pub get_master_role_label_lem :
    (nodes : List (List String))
    → get_master_role_label nodes ≡ (
        if some_node_has master_label nodes
        then master_label
        else if some_node_has role_label nodes
        then role_label
        else "")
unfolding get_master_role_label
get_master_role_label_lem nodes =
    rw (scan_nodes_lem nodes "") (ground (arith, eq_iff "" master_label))

-- The gateway's address is the first of its addresses, and there is none, the empty text, exactly
-- if it has no addresses at all or an empty first one.
pub gateway_ingress_ip-head :
    (spec : ClusterSpec)
    → gateway_ingress_ip spec ≡ elim (gateway_ingress_ips spec) [ [] ↦ "" | ip ∷ _ ↦ ip ]
unfolding gateway_ingress_ip gateway_ingress_ips
gateway_ingress_ip-head spec = grind arith
