-- ===== src/Cluster/Sorted.antt =====
-- The nodes that are listed are sorted by name.
use rainbond_operator.Base.{
  String, true, false, List, [], ◌∷◌, map, ◌≡◌, refl, arith, Bool-cases, inl, inr,
}
use mathlib.Core.List.Permᴰ
use mathlib.Core.List.{Permᴰ}
use rainbond_operator.Base.Order.{compare-opposite}
use rainbond_operator.Api.{K8sNode}
use rainbond_operator.Kube.{Response, ok, err}
use rainbond_operator.Kube.Action.{◌>>=◌, pure}
use rainbond_operator.Package.Once.{answer_cases}
use rainbond_operator.Cluster.Checks.{str_ltb}
use rainbond_operator.Cluster.Nodes.{to_k8s_nodes}
use rainbond_operator.Cluster.Env.{Env, Node, Mgr, call}
use rainbond_operator.Cluster.Status.{insert_by_name, sort_by_name, list_nodes_by_labels}

-- No node is before the one that precedes it.
abbrev pub IsSorted : List K8sNode → Type 0
IsSorted [] = Unit
IsSorted (n ∷ []) = Unit
IsSorted (n ∷ m ∷ ms) = (str_ltb m.name n.name ≡ false) × IsSorted (m ∷ ms)

str_ltb_asym : (a b : String) → str_ltb a b ≡ true → str_ltb b a ≡ false
str_ltb_asym a b h = ground (arith, compare-opposite a b)

insert_by_name-IsSorted :
    (n : K8sNode) (ms : List K8sNode) → IsSorted ms → IsSorted (insert_by_name n ms)
unfolding insert_by_name
insert_by_name-IsSorted n [] h = tt
insert_by_name-IsSorted n (m ∷ []) h = elim (Bool-cases (str_ltb m.name n.name)) [
  | inl p ↦ rw p (str_ltb_asym m.name n.name p, tt)
  | inr p ↦ rw p (p, tt)
]
insert_by_name-IsSorted n (m ∷ k ∷ ks) h = elim (Bool-cases (str_ltb m.name n.name)) [
  | inr p ↦ rw p (p, h)
  | inl p ↦ rw p (elim (Bool-cases (str_ltb k.name n.name)) [
    | inl q ↦ rw q (h.0, rw q at (insert_by_name-IsSorted n (k ∷ ks) h.1))
    | inr q ↦ rw q (str_ltb_asym m.name n.name p, (q, h.1))
  ])
]

insert_by_name-Perm : (n : K8sNode) (ms : List K8sNode) → Permᴰ (insert_by_name n ms) (n ∷ ms)
unfolding insert_by_name
insert_by_name-Perm n [] = Permᴰ.refl (n ∷ [])
insert_by_name-Perm n (m ∷ ms) = elim (Bool-cases (str_ltb m.name n.name)) [
  | inl p ↦ rw p (Permᴰ.trans (Permᴰ.cons refl (insert_by_name-Perm n ms)) (Permᴰ.swap refl refl))
  | inr p ↦ rw p (Permᴰ.refl (n ∷ m ∷ ms))
]

sort_by_name-IsSorted :
    (ns : List K8sNode) → IsSorted (sort_by_name ns) × Permᴰ (sort_by_name ns) ns
unfolding sort_by_name
sort_by_name-IsSorted [] = (tt, Permᴰ.refl [])
sort_by_name-IsSorted (n ∷ ns) =
    let (s, p) = sort_by_name-IsSorted ns in
    (
      insert_by_name-IsSorted n (sort_by_name ns) s,
      Permᴰ.trans (insert_by_name-Perm n (sort_by_name ns)) (Permᴰ.cons refl p),
    )

-- The nodes that a listing of the API server stands for; none if it fails.
abbrev pub listed_nodes : {Err : Type 0} → Response Err (List Node) → List K8sNode
listed_nodes (ok nodes) = to_k8s_nodes (map (λ n. (n.name, n.addresses)) nodes)
listed_nodes (err e) = []

module _ {E : Env} where
  -- `listNodesByLabels` answers with the nodes that the API server lists, sorted by name, and with
  -- none if the listing fails.
  pub list_nodes_by_labels-IsSorted :
      (labels : List (String × String)) (s : Mgr E)
      → (nodes : List K8sNode) × ((list_nodes_by_labels labels s).0 ≡ ok nodes)
        × IsSorted nodes
        × Permᴰ nodes (listed_nodes (E.list_nodes labels s.world).0)
  unfolding list_nodes_by_labels ◌>>=◌ pure call sort_by_name
  list_nodes_by_labels-IsSorted labels s = elim (answer_cases (E.list_nodes labels s.world).0) [
    | inl (ns, p) ↦
        let xs = listed_nodes {Err = E.Err} (ok ns) in
        let (q, r) = sort_by_name-IsSorted xs in (sort_by_name xs, rw p refl, q, rw p r)
    | inr (e, p) ↦ ([], rw p refl, tt, rw p (Permᴰ.refl []))
  ]
