-- ===== src/NodeManager/Tokens.antt =====
-- Who holds a node id, for `NodeManager.join` (hermes_cluster/core/node_manager.py).
use hermes_agent_cluster.Prelude.{
  ℕ, ◌-◌, ◌<◌, ◌≡◌, refl, sym, ap, subst, ◌∙◌, String, true, false, Option, none, some, List, [],
  ◌∷◌, ◌++◌, arith, inl, inr, ◌==◌, eq_iff, leb, Bool-cases, Option-cases, if◌then◌else◌, is_empty,
}
use hermes_agent_cluster.Table.{get}
use hermes_agent_cluster.Table.Laws.{has-get}
use hermes_agent_cluster.Models.{Node, node_key}
use hermes_agent_cluster.Store.{ClusterStore, update_where}
use hermes_agent_cluster.Store.Nodes.{
  update_node, update_heartbeat, update_capabilities, update_max_concurrent, update_instance_token,
  register_node,
}
use hermes_agent_cluster.NodeManager.{
  NodeManager, Report, Join, send_heartbeat, declare_caps, declare_max, declare_token, rejoin,
  new_node, first_join, is_duplicate, join,
}

-- The instance token of a stored node.
unfoldable pub token_of : String → List Node → Option String
token_of k [] = none
token_of k (n ∷ nodes) = if n.id == k then some n.instance_token else token_of k nodes

token_of-get :
    (k : String) (nodes : List Node) (n : Node)
    → get node_key k nodes ≡ some n
    → token_of k nodes ≡ some n.instance_token
unfolding token_of get
token_of-get k [] n e = absurd (ground arith)
token_of-get k (x ∷ nodes) n e = elim (Bool-cases (x.id == k)) [
  | inl here ↦ let same : x ≡ n = ground arith in rw here (ap (λ y. some y.instance_token) same)
  | inr miss ↦ rw miss (token_of-get k nodes n (ground arith))
]

-- An update of one row leaves the tokens of the others.
token_of-other :
    (k j : String) (f : Node → Node) (nodes : List Node)
    → ((n : Node) → (f n).id ≡ n.id)
    → (j == k) ≡ false
    → token_of k (update_where (λ n. n.id == j) f nodes) ≡ token_of k nodes
unfolding token_of update_where
token_of-other k j f [] kept miss = refl
token_of-other k j f (n ∷ nodes) kept miss =
    let rest = token_of-other k j f nodes kept miss in
    elim (Bool-cases (n.id == j)) [
      | inr other ↦ rw (other, rest) refl
      | inl here ↦
          let gone : (n.id == k) ≡ false = rw ((eq_iff n.id j).0 here) miss in
          rw (here, kept n, gone, rest) refl
    ]

-- An update that keeps the token keeps all tokens.
token_of-kept :
    (k j : String) (f : Node → Node) (nodes : List Node)
    → ((n : Node) → (f n).id ≡ n.id)
    → ((n : Node) → (f n).instance_token ≡ n.instance_token)
    → token_of k (update_where (λ n. n.id == j) f nodes) ≡ token_of k nodes
unfolding token_of update_where
token_of-kept k j f [] kept same = refl
token_of-kept k j f (n ∷ nodes) kept same =
    let rest = token_of-kept k j f nodes kept same in
    elim (Bool-cases (n.id == j)) [
      | inr other ↦ rw (other, rest) refl
      | inl here ↦ rw (here, kept n, same n, rest) refl
    ]

-- Writing the token that is there changes none.
token_of-written :
    (k j token : String) (nodes : List Node)
    → token_of k nodes ≡ some token
    → token_of k (update_where (λ n. n.id == j) (λ n. record n { instance_token = token }) nodes)
      ≡ some token
unfolding token_of update_where
token_of-written k j token [] e = absurd (ground arith)
token_of-written k j token (n ∷ nodes) e = elim (Bool-cases (n.id == k)) [
  | inl here ↦ elim (Bool-cases (n.id == j)) [
    | inl hit ↦ rw (hit, here) refl
    | inr other ↦ rw (other, here) (rw (here) at e)
  ]
  | inr miss ↦
      let rest = token_of-written k j token nodes (ground arith) in
      elim (Bool-cases (n.id == j)) [
        | inl hit ↦ rw (hit, miss) rest
        | inr other ↦ rw (other, miss) rest
      ]
]

module _ (fixed : ℕ → ℕ → String) (decimal seconds : ℕ → String) where
  token_of-send_heartbeat :
      (m : NodeManager) (j k : String) (load : ℕ) (report : Report) (now : ℕ)
      → token_of k (send_heartbeat fixed decimal seconds m j load report now).store.nodes
        ≡ token_of k m.store.nodes
  unfolding send_heartbeat update_heartbeat update_node
  token_of-send_heartbeat m j k load report now =
      elim (Option-cases (get node_key j m.store.nodes)) [
        | inl e ↦ rw (e, send_heartbeat) refl
        | inr (n, e) ↦
            rw (e, send_heartbeat) (token_of-kept k j _ m.store.nodes (λ x. refl) (λ x. refl))
      ]

  token_of-declare_caps :
      (j k : String) (caps : List String) (d : ClusterStore)
      → token_of k (declare_caps fixed decimal seconds j caps d).nodes ≡ token_of k d.nodes
  unfolding update_capabilities update_node
  token_of-declare_caps j k [] d = refl
  token_of-declare_caps j k (cap ∷ caps) d = token_of-kept k j _ d.nodes (λ x. refl) (λ x. refl)

  token_of-declare_max :
      (j k : String) (n : ℕ) (d : ClusterStore)
      → token_of k (declare_max fixed decimal seconds j n d).nodes ≡ token_of k d.nodes
  unfolding update_max_concurrent update_node
  token_of-declare_max j k n d = elim (Bool-cases (leb n 0)) [
    | inl zero ↦ rw zero refl
    | inr some_slots ↦ rw some_slots (token_of-kept k j _ d.nodes (λ x. refl) (λ x. refl))
  ]

  -- A re-join on another id, or with no token or the token that is there, changes no holder.
  token_of-declare_token :
      (j k token text : String) (d : ClusterStore)
      → token_of k d.nodes ≡ some token
      → ((j == k) ≡ true → is_empty text ≡ false → text ≡ token)
      → token_of k (declare_token fixed decimal seconds j text d).nodes ≡ some token
  unfolding update_instance_token update_node
  token_of-declare_token j k token text d e own = elim (Bool-cases (is_empty text)) [
    | inl blank ↦ rw blank e
    | inr given ↦ elim (Bool-cases (j == k)) [
      | inr miss ↦ rw given (token_of-other k j _ d.nodes (λ x. refl) miss ∙ e)
      | inl hit ↦ rw (given, own hit given) (token_of-written k j token d.nodes e)
    ]
  ]

  token_of-rejoin :
      (m : NodeManager) (j : Join) (now : ℕ) (k token : String)
      → token_of k m.store.nodes ≡ some token
      → ((j.node_id == k) ≡ true → is_empty j.instance_token ≡ false → j.instance_token ≡ token)
      → token_of k (rejoin fixed decimal seconds m j now).store.nodes ≡ some token
  unfolding rejoin
  token_of-rejoin m j now k token e own =
      token_of-declare_token j.node_id k token j.instance_token _
        (token_of-declare_max j.node_id k j.max_concurrent _
          ∙ token_of-declare_caps j.node_id k j.capabilities _
          ∙ token_of-send_heartbeat m j.node_id k 0 j.report now
          ∙ e)
        own

  token_of-append :
      (k token : String) (x : Node) (nodes : List Node)
      → token_of k nodes ≡ some token
      → token_of k (nodes ++ x ∷ []) ≡ some token
  unfolding token_of
  token_of-append k token x [] e = absurd (ground arith)
  token_of-append k token x (n ∷ nodes) e = ground (arith, token_of-append k token x nodes)

  token_of-first_join :
      (m : NodeManager) (j : Join) (now : ℕ) (k token : String)
      → get node_key j.node_id m.store.nodes ≡ none
      → token_of k m.store.nodes ≡ some token
      → token_of k (first_join fixed decimal seconds m j now).store.nodes ≡ some token
  unfolding first_join register_node new_node
  token_of-first_join m j now k token absent e =
      rw (has-get node_key j.node_id m.store.nodes, absent)
        (token_of-append k token _ m.store.nodes e)

  -- A join that is let in on a held id has the holder's token.
  own_token :
      (m : NodeManager) (j : Join) (now : ℕ) (k : String) (holder existing : Node)
      → get node_key k m.store.nodes ≡ some holder
      → get node_key j.node_id m.store.nodes ≡ some existing
      → is_empty holder.instance_token ≡ false
      → (now - holder.last_heartbeat) < m.offline_after
      → is_duplicate fixed decimal seconds m j now existing ≡ false
      → (j.node_id == k) ≡ true
      → is_empty j.instance_token ≡ false
      → j.instance_token ≡ holder.instance_token
  unfolding is_duplicate
  own_token m j now k holder existing stored there held fresh let_in hit given =
      let named : j.node_id ≡ k = (eq_iff j.node_id k).0 hit in
      let same : ◌≡◌ {A = Option Node} (some existing) (some holder) =
        sym there ∙ ap (λ i. get node_key i m.store.nodes) named ∙ stored in
      let equal : existing ≡ holder = ground arith in
      let passed : is_duplicate fixed decimal seconds m j now holder ≡ false =
        subst (λ n. is_duplicate fixed decimal seconds m j now n ≡ false) equal let_in in
      let agree : (j.instance_token == holder.instance_token) ≡ true = ground arith in
      (eq_iff j.instance_token holder.instance_token).0 agree

  -- While the holder of a node id is heard of (its last heartbeat is younger than offline_after), no
  -- join, on whatever id and with whatever token, takes the id from it.
  pub join-keeps_holder :
      (m : NodeManager) (j : Join) (now : ℕ) (k : String) (holder : Node)
      → get node_key k m.store.nodes ≡ some holder
      → is_empty holder.instance_token ≡ false
      → (now - holder.last_heartbeat) < m.offline_after
      → token_of k (join fixed decimal seconds m j now).0.store.nodes ≡ some holder.instance_token
  unfolding join
  join-keeps_holder m j now k holder stored held fresh =
      let token : String = holder.instance_token in
      let e = token_of-get k m.store.nodes holder stored in
      elim (Bool-cases (is_empty j.node_id)) [
        | inl blank ↦ rw (blank, join) e
        | inr named ↦ elim (Option-cases (get node_key j.node_id m.store.nodes)) [
          | inl absent ↦ rw (named, absent, join) (token_of-first_join m j now k token absent e)
          | inr (existing, there) ↦
              elim (Bool-cases (is_duplicate fixed decimal seconds m j now existing)) [
                | inl refused ↦ rw (named, there, refused, join) e
                | inr let_in ↦
                    rw (named, there, let_in, join)
                      (token_of-rejoin m j now k token e (λ hit given.
                        own_token m j now k holder existing stored there held fresh let_in hit
                          given))
              ]
        ]
      ]
