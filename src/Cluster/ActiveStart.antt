-- ===== src/Cluster/ActiveStart.antt =====
-- activecluster/cluster.py: `initialize` on a new cluster.
use storage_appliance_archit.Base.{
  ℕ, ◌≡◌, refl, ◌∙◌, ap, sym, subst, some, List, [], ◌∷◌, true, String, string_key, arith,
  Option-cases, inl, inr,
}
use storage_appliance_archit.Base.Dict.{lookup, insert, lookup-insert}
use storage_appliance_archit.Cluster.Election.{lookup-map_nodes}
use storage_appliance_archit.Cluster.Mediator.{
  NodeInfo, primary, secondary, new_node, register_self, add_node, set_primary, set_roles, chosen,
  get_primary,
}
use storage_appliance_archit.Cluster.Settled.{IsSettled, add-IsSettled, set_primary-IsSettled}
use storage_appliance_archit.Cluster.Replication.{
  ReplicationMode, sync, async, start_async_replication, add_peer, new_peer,
}
use storage_appliance_archit.Cluster.Active.{
  ActiveCluster, healthy, new_cluster, join_peer, join_peers, lead_if_primary, start_services,
  initialize, is_primary, on_mediator,
}
use storage_appliance_archit.Cluster.ActiveSafe.{is_known}

-- The own node is a member, and would be settled as the primary.
record IsLed (c : ActiveCluster) : Type 0 where
  settled : IsSettled (record c.failover.mediator { current_primary = some c.node_id })
  member : is_known (lookup c.node_id c.failover.mediator.nodes) ≡ true

join_peer-IsLed :
    (k url : String) (now : ℕ) (c : ActiveCluster) → IsLed c → IsLed (join_peer k url now c)
unfolding join_peer add_node
join_peer-IsLed k url now c h = record {
  settled =
      add-IsSettled (record c.failover.mediator { current_primary = some c.node_id })
        (new_node k secondary url now) k refl (λ e. cc) h.settled;
  member =
      let m = h.member in
      ground
        (arith, lookup-insert k c.node_id (new_node k secondary url now) c.failover.mediator.nodes);
}

-- A node is known to the mediator and to the replication engine.
abbrev pub IsPeer : String → ActiveCluster → Type 0
IsPeer k c =
    (is_known (lookup k c.failover.mediator.nodes) ≡ true)
    × (is_known (lookup k c.replication.peers) ≡ true)

join_peer-IsPeer :
    (k url j : String) (now : ℕ) (c : ActiveCluster) → IsPeer j c → IsPeer j (join_peer k url now c)
unfolding join_peer add_node add_peer
join_peer-IsPeer k url j now c h =
    let a = h.0 in
    let b = h.1 in
    (
      ground (arith, lookup-insert k j (new_node k secondary url now) c.failover.mediator.nodes),
      ground (arith, lookup-insert k j (new_peer k url now) c.replication.peers),
    )

join_peer_self : (k url : String) (now : ℕ) (c : ActiveCluster) → IsPeer k (join_peer k url now c)
unfolding join_peer add_node add_peer
join_peer_self k url now c = (
  ground (arith, lookup-insert k k (new_node k secondary url now) c.failover.mediator.nodes),
  ground (arith, lookup-insert k k (new_peer k url now) c.replication.peers),
)

module _ (id_of : String → String) where
  -- Every node of the list is known.
  abbrev pub AllPeers : List String → ActiveCluster → Type 0
  AllPeers [] c = Unit
  AllPeers (u ∷ us) c = IsPeer (id_of u) c × AllPeers us c

  AllPeers-map :
      (urls : List String) (c d : ActiveCluster)
      → ((j : String) → IsPeer j c → IsPeer j d)
      → AllPeers urls c
      → AllPeers urls d
  AllPeers-map [] c d f h = tt
  AllPeers-map (u ∷ us) c d f h = (f (id_of u) h.0, AllPeers-map us c d f h.1)

module _ (id_of : String → String) (now : ℕ) where
  join_peers-IsLed :
      (urls : List String) (c : ActiveCluster) → IsLed c → IsLed (join_peers id_of now urls c)
  unfolding join_peers
  join_peers-IsLed [] c h = h
  join_peers-IsLed (u ∷ us) c h =
      join_peers-IsLed us (join_peer (id_of u) u now c) (join_peer-IsLed (id_of u) u now c h)

  join_peers-IsPeer :
      (urls : List String) (j : String) (c : ActiveCluster)
      → IsPeer j c
      → IsPeer j (join_peers id_of now urls c)
  unfolding join_peers
  join_peers-IsPeer [] j c h = h
  join_peers-IsPeer (u ∷ us) j c h =
      join_peers-IsPeer us j (join_peer (id_of u) u now c) (join_peer-IsPeer (id_of u) u j now c h)

  join_peers-AllPeers :
      (urls : List String) (c : ActiveCluster) → AllPeers id_of urls (join_peers id_of now urls c)
  unfolding join_peers
  join_peers-AllPeers [] c = tt
  join_peers-AllPeers (u ∷ us) c = (
    join_peers-IsPeer us (id_of u) (join_peer (id_of u) u now c) (join_peer_self (id_of u) u now c),
    join_peers-AllPeers us (join_peer (id_of u) u now c),
  )

-- The appointment of the own node.
module _ (c : ActiveCluster) (h : IsLed c) where
  lead-mediator :
      (n : NodeInfo String)
      → lookup c.node_id c.failover.mediator.nodes ≡ some n
      → (set_primary c.node_id c.failover.mediator).1
        ≡ (set_primary c.node_id
            (record c.failover.mediator { current_primary = some c.node_id })).1
  unfolding set_primary
  lead-mediator n e = ground arith

  lead-current :
      (n : NodeInfo String)
      → lookup c.node_id c.failover.mediator.nodes ≡ some n
      → (set_primary c.node_id c.failover.mediator).1.current_primary ≡ some c.node_id
  unfolding set_primary
  lead-current n e = ground arith

  lead-IsSettled :
      (n : NodeInfo String)
      → lookup c.node_id c.failover.mediator.nodes ≡ some n
      → IsSettled (lead_if_primary primary c).failover.mediator
  unfolding lead_if_primary
  lead-IsSettled n e =
      subst (λ m. IsSettled m) (sym (lead-mediator n e))
        (set_primary-IsSettled c.node_id
          (record c.failover.mediator { current_primary = some c.node_id }) h.settled)

  lead-is_primary :
      (n : NodeInfo String)
      → lookup c.node_id c.failover.mediator.nodes ≡ some n
      → is_primary (lead_if_primary primary c) ≡ true
  unfolding lead_if_primary is_primary get_primary
  lead-is_primary n e = let p = lead-current n e in ground arith

  lead-IsPeer : (j : String) → IsPeer j c → IsPeer j (lead_if_primary primary c)
  unfolding lead_if_primary set_primary set_roles
  lead-IsPeer j p =
      let known = p.0 in
      let l = lookup-map_nodes (chosen c.node_id) j c.failover.mediator.nodes in
      elim (Option-cases (lookup c.node_id c.failover.mediator.nodes)) [
        | inl e ↦ absurd (let m = h.member in ground arith)
        | inr (n, e) ↦ elim (Option-cases (lookup j c.failover.mediator.nodes)) [
          | inl f ↦ absurd (ground arith)
          | inr (v, f) ↦ (ground arith, p.1)
        ]
      ]

-- The own node is registered.
registered-IsLed :
    (node_id api_url : String) (peers : List String) (mode : ReplicationMode) (ms now : ℕ)
    → IsLed (
        on_mediator (register_self primary api_url now) (new_cluster node_id api_url peers mode ms))
unfolding new_cluster register_self lookup insert
registered-IsLed node_id api_url peers mode ms now = record {
  settled = record { is_dict = (refl, tt); keyed = (refl, tt); one = λ k n e r. ground arith };
  member = ground arith;
}

-- What `initialize` leaves behind.
pub record IsStarted (id_of : String → String) (urls : List String) (c : ActiveCluster)
    : Type 0 where
  pub settled : IsSettled c.failover.mediator
  pub leads : is_primary c ≡ true
  pub is_up : c.state ≡ healthy
  pub peers : AllPeers id_of urls c

same_peers : (c : ActiveCluster) → (start_services c).replication.peers ≡ c.replication.peers
unfolding start_services start_async_replication
same_peers c = by_mode c.replication.mode refl
  where
    by_mode :
        (m : ReplicationMode)
        → c.replication.mode ≡ m
        → (start_services c).replication.peers ≡ c.replication.peers
    by_mode sync e = ground arith
    by_mode async e = ground arith

start_services-IsPeer : (c : ActiveCluster) (j : String) → IsPeer j c → IsPeer j (start_services c)
start_services-IsPeer c j p =
    (unfold start_services in p.0, ap (λ d. is_known (lookup j d)) (same_peers c) ∙ p.1)

started :
    (id_of : String → String) (urls : List String) (c : ActiveCluster)
    → IsLed c
    → AllPeers id_of urls c
    → IsStarted id_of urls (start_services (lead_if_primary primary c))
started id_of urls c h p = elim (Option-cases (lookup c.node_id c.failover.mediator.nodes)) [
  | inl e ↦ absurd (let m = h.member in ground arith)
  | inr (n, e) ↦
      let led = lead_if_primary primary c in
      record {
        settled = unfold start_services in lead-IsSettled c h n e;
        leads = unfold start_services is_primary in lead-is_primary c h n e;
        is_up = unfold start_services in refl;
        peers =
            AllPeers-map id_of urls c (start_services led)
              (λ j q. start_services-IsPeer led j (lead-IsPeer c h j q)) p;
      }
]

-- After `initialize` as primary on a new cluster, whatever its list of peers, the mediator is
-- settled and knows this node as the primary, the cluster is HEALTHY, and every peer of the list is
-- known to the mediator and to the replication engine.
pub initialize-IsStarted :
    (id_of : String → String) (now : ℕ) (node_id api_url : String) (urls : List String)
    (mode : ReplicationMode) (ms : ℕ)
    → IsStarted id_of urls (initialize id_of primary now (new_cluster node_id api_url urls mode ms))
unfolding initialize new_cluster
initialize-IsStarted id_of now node_id api_url urls mode ms =
    let c =
      on_mediator (register_self primary api_url now) (new_cluster node_id api_url urls mode ms) in
    started id_of urls (join_peers id_of now urls c)
      (join_peers-IsLed id_of now urls c (registered-IsLed node_id api_url urls mode ms now))
      (join_peers-AllPeers id_of now urls c)
