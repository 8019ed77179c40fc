-- ===== src/Cluster/Checks/Memory.antt =====
-- When the memory check of precheck/memory.go passes.
use rainbond_operator.Base.{
  ℕ, ◌+◌, ◌%◌, ◌≤◌, ◌<◌, String, List, [], ◌∷◌, ◌≡◌, refl, ◌↔◌, arith, if◌then◌else◌,
}
use rainbond_operator.Conditions.{condition_true}
use rainbond_operator.Kube.{ok}
use rainbond_operator.Cluster.Checks.{
  Node, master_node, filter_out, total_memory_from, below_request, check_memory,
}

-- The memory of the nodes that take pods and are no tainted masters, as it is.
abbrev pub worker_memory : List Node → ℕ
worker_memory [] = 0
worker_memory (n ∷ nodes) =
    let rest = worker_memory nodes in
    if n.unschedulable
    then rest
    else if master_node n.label_keys n.taints
    then rest
    else n.memory + rest

abbrev total : List Node → ℕ
total [] = 0
total (n ∷ nodes) = n.memory + total nodes

total-filter_out : (nodes : List Node) → total (filter_out nodes) ≡ worker_memory nodes
unfolding filter_out
total-filter_out [] = refl
total-filter_out (n ∷ nodes) = ground (arith, total-filter_out nodes)

total_memory_from-total :
    (nodes : List Node) (acc : ℕ)
    → acc + total nodes < 9223372036854775808
    → total_memory_from acc nodes ≡ acc + total nodes
unfolding total_memory_from
total_memory_from-total [] acc h = omega arith
total_memory_from-total (n ∷ nodes) acc h =
    let e : (acc + n.memory) % 18446744073709551616 ≡ acc + n.memory = omega arith in
    rw e (omega (arith, total_memory_from-total nodes (acc + n.memory) (omega arith)))

-- If the workers' memory fits an `int64`, the check passes exactly if it is at least 2 GiB.
pub check_memory-passes_iff :
    (print : ℕ → String) (nodes : List Node)
    → worker_memory nodes < 9223372036854775808
    → ((check_memory print (ok nodes)).status ≡ condition_true) ↔ (2147483648 ≤ worker_memory nodes)
unfolding check_memory below_request
check_memory-passes_iff print nodes h =
    let e = total_memory_from-total (filter_out nodes) 0 (rw total-filter_out (omega arith)) in
    let w : total_memory_from 0 (filter_out nodes) ≡ worker_memory nodes =
      omega (arith, e, total-filter_out nodes) in
    rw (w, check_memory) (ground arith)
