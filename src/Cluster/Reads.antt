-- ===== src/Cluster/Reads.antt =====
-- What `GenerateRainbondClusterStatus` asks leaves the cluster alone and always answers.
use rainbond_operator.Base.{
  String, true, false, List, [], map, ◌==◌, string_eq, ◌≡◌, refl, ◌∙◌, Bool-cases, inl, inr,
}
use rainbond_operator.Api.{ClusterStatus, ClusterCondition, K8sNode}
use rainbond_operator.Kube.{Response, ok, err}
use rainbond_operator.Kube.Action.{◌>>=◌, pure, get, bind_ok}
use rainbond_operator.Cluster.Generate.{generate_conditions}
use rainbond_operator.Cluster.Nodes.{get_master_role_label, to_k8s_nodes}
use rainbond_operator.Cluster.Env.{Env, Mgr, C, call}
use rainbond_operator.Cluster.Status.{
  to_storage_class, sort_by_name, rdb_hub_credentials_name, find_master_role_label,
  list_storage_classes, list_nodes_by_labels, list_master_nodes, without_conflicts,
  list_master_nodes_for_gateway, list_specified_gateway_nodes, list_specified_chaos_nodes,
  check_if_image_pull_secret_exists, generate_own_conditions, masters,
  generate_rainbond_cluster_status,
}

module _ {E : Env} where
  open E use {World, Err}

  -- A method that answers without an error and changes nothing but the world.
  pub record Reads {A : Type 0} (m : C E A) : Type 0 where
    pub reads : (s : Mgr E) → (a : A) × (w : World) × (m s ≡ (ok a, record s { world = w }))

  bind-Reads :
      {A B : Type 0} (m : C E A) (k : A → C E B)
      → Reads m
      → ((a : A) → Reads (k a))
      → Reads (m >>= k)
  bind-Reads m k h g = record {
    reads = λ s.
        let (a, w, e) = h.reads s in
        let (b, u, f) = (g a).reads (record s { world = w }) in
        (b, u, bind_ok m k s (record s { world = w }) a e ∙ f);
  }

  pure-Reads : {A : Type 0} (a : A) → Reads (pure a)
  unfolding pure
  pure-Reads a = record { reads = λ s. (a, s.world, refl) }

  call-Reads : {A : Type 0} (f : World → A × World) → Reads (call f)
  unfolding call
  call-Reads f = record { reads = λ s. ((f s.world).0, (f s.world).1, refl) }

  get-Reads : Reads get
  unfolding get
  get-Reads = record { reads = λ s. (s, s.world, refl) }

  answer-Reads :
      {A B : Type 0} (f : A → C E B) (g : Err → C E B)
      → ((a : A) → Reads (f a))
      → ((e : Err) → Reads (g e))
      → (r : Response Err A) → Reads (elim r [ ok a ↦ f a | err e ↦ g e ])
  answer-Reads f g h k (ok a) = h a
  answer-Reads f g h k (err e) = k e

  -- A listing whose error counts as an answer.
  list-Reads :
      {A B : Type 0} (f : World → Response Err A × World) (b : A → B) (none_listed : B)
      → Reads {A = B} (call f >>= λ r. elim r [ ok a ↦ pure (b a) | err e ↦ pure none_listed ])
  list-Reads f b z =
      bind-Reads (call f) _ (call-Reads f)
        (answer-Reads (λ a. pure (b a)) (λ e. pure z) (λ a. pure-Reads (b a)) (λ e. pure-Reads z))

  find_master_role_label-Reads : Reads find_master_role_label
  unfolding find_master_role_label
  find_master_role_label-Reads =
      list-Reads (E.list_nodes []) (λ nodes. get_master_role_label (map (λ n. n.label_keys) nodes))
        ""

  list_storage_classes-Reads : Reads list_storage_classes
  unfolding list_storage_classes
  list_storage_classes-Reads =
      list-Reads E.list_storage_classes (λ classes. map to_storage_class classes) []

  list_nodes_by_labels-Reads :
      (labels : List (String × String)) → Reads (list_nodes_by_labels labels)
  unfolding list_nodes_by_labels
  list_nodes_by_labels-Reads labels =
      list-Reads (E.list_nodes labels)
        (λ nodes. sort_by_name (to_k8s_nodes (map (λ n. (n.name, n.addresses)) nodes))) []

  without_conflicts-Reads : (m : C E (List K8sNode)) → Reads m → Reads (without_conflicts m)
  unfolding without_conflicts
  without_conflicts-Reads m h =
      bind-Reads _ _ h (λ nodes. bind-Reads _ _ get-Reads (λ s. pure-Reads _))

  check_if_image_pull_secret_exists-Reads : Reads check_if_image_pull_secret_exists
  unfolding check_if_image_pull_secret_exists
  check_if_image_pull_secret_exists-Reads = bind-Reads _ _ get-Reads (λ s.
      list-Reads (E.get_secret s.cluster.namespace rdb_hub_credentials_name) (λ secret. true) false)

  masters-Reads :
      (label : String) (m : String → C E (List K8sNode))
      → ((key : String) → Reads (m key))
      → Reads (masters label m)
  unfolding masters
  masters-Reads label m h = elim (Bool-cases (label == "")) [
    | inl p ↦ rw (p, masters) (pure-Reads [])
    | inr p ↦ rw (p, masters) (h label)
  ]

  -- The conditions that a cluster has once they are generated.
  abbrev pub with_conditions : List ClusterCondition → Mgr E → Mgr E
  with_conditions cs s =
      let cluster = s.cluster in
      let status = cluster.status in
      record s { cluster = record cluster { status = record status { conditions = cs } } }

  generate_own_conditions_lem :
      (s : Mgr E)
      → (cs : List ClusterCondition) × (w : World) × (generate_own_conditions s
          ≡ (ok cs, with_conditions cs (record s { world = w })))
  unfolding generate_own_conditions
  generate_own_conditions_lem s =
      let out =
        generate_conditions (E.prechecks s.cluster) s.cluster.spec
          (s.cluster.status.conditions, s.world) in
      (out.0, out.1, refl)

  -- A method that answers with a status, whose conditions it leaves in the cluster too, and changes
  -- nothing else but the world.
  record Generates (m : C E ClusterStatus) : Type 0 where
    generates :
        (s : Mgr E)
        → (status : ClusterStatus) × (w : World) × (m s
            ≡ (ok status, with_conditions status.conditions (record s { world = w })))

  bind-Generates :
      {A : Type 0} (m : C E A) (k : A → C E ClusterStatus)
      → Reads m
      → ((a : A) → Generates (k a))
      → Generates (m >>= k)
  bind-Generates m k h g = record {
    generates = λ s.
        let (a, w, e) = h.reads s in
        let (status, u, f) = (g a).generates (record s { world = w }) in
        (status, u, bind_ok m k s (record s { world = w }) a e ∙ f);
  }

  status-Generates :
      (f : List ClusterCondition → ClusterStatus)
      → ((cs : List ClusterCondition) → (f cs).conditions ≡ cs)
      → Generates (generate_own_conditions >>= λ cs. pure (f cs))
  unfolding pure
  status-Generates f h = record {
    generates = λ s.
        let (cs, w, e) = generate_own_conditions_lem s in
        let s' = with_conditions cs (record s { world = w }) in
        (f cs, w, bind_ok generate_own_conditions (λ ds. pure (f ds)) s s' cs e ∙ rw (h cs) refl);
  }

  -- `GenerateRainbondClusterStatus` always answers with a status. It leaves the status's conditions
  -- in the cluster that it works on, and changes nothing else of the cluster.
  pub generate_rainbond_cluster_status_lem :
      (s : Mgr E)
      → (status : ClusterStatus) × (w : World) × (generate_rainbond_cluster_status s
          ≡ (ok status, with_conditions status.conditions (record s { world = w })))
  unfolding generate_rainbond_cluster_status list_master_nodes_for_gateway list_master_nodes
      list_specified_gateway_nodes list_specified_chaos_nodes
  generate_rainbond_cluster_status_lem =
      (bind-Generates _ _ find_master_role_label-Reads λ label.
        bind-Generates _ _ list_storage_classes-Reads λ classes.
          bind-Generates _ _ check_if_image_pull_secret_exists-Reads λ has_secret.
            bind-Generates _ _
              (masters-Reads label list_master_nodes_for_gateway
                (λ key. without_conflicts-Reads _ (list_nodes_by_labels-Reads _)))
              λ for_gateway.
                bind-Generates _ _
                  (masters-Reads label list_master_nodes (λ key. list_nodes_by_labels-Reads _))
                  λ for_chaos.
                    bind-Generates _ _ (without_conflicts-Reads _ (list_nodes_by_labels-Reads _))
                      λ gateway.
                        bind-Generates _ _ (list_nodes_by_labels-Reads _)
                          λ chaos. status-Generates _ (λ cs. refl)).generates
