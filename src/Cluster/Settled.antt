-- ===== src/Cluster/Settled.antt =====
-- activecluster/mediator.py: the calls keep the invariant that no node but the current primary has
-- that role.
use storage_appliance_archit.Base.{
  ℕ, ◌≡◌, ◌≢◌, refl, ◌∙◌, ap, sym, some, [], ◌∷◌, arith, Option-cases, inl, inr, Key,
}
use mathlib.Core.Option.{map as map_option}
use storage_appliance_archit.Base.Dict.{
  Dict, IsDict, lookup, insert, erase, insert-IsDict, erase-IsDict, lookup-insert, lookup-erase,
}
use storage_appliance_archit.Cluster.Mediator.{
  NodeInfo, Mediator, NodeRole, primary, secondary, witness, demoted, heard, checked, map_nodes,
  silenced, set_roles, chosen, remove_node, receive_heartbeat, check_node_health, set_primary,
}
use storage_appliance_archit.Cluster.Election.{IsKeyed, lookup-map_nodes}

pub demoted_ne : (r : NodeRole) → demoted r ≢ primary
demoted_ne primary e = cc
demoted_ne secondary e = cc
demoted_ne witness e = cc

module _ {K : Type 0} ⦃key : Key K⦄ where
  -- The dictionary has no key twice, files nodes under their ids, and no node but the current
  -- primary has that role.
  pub record IsSettled (m : Mediator K) : Type 0 where
    pub is_dict : IsDict m.nodes
    pub keyed : IsKeyed m.nodes
    pub one :
        (k : K) (n : NodeInfo K)
        → lookup k m.nodes ≡ some n
        → n.role ≡ primary
        → m.current_primary ≡ some k

  pub keyed_at :
      (k : K) (n : NodeInfo K) (d : Dict K (NodeInfo K))
      → IsKeyed d
      → lookup k d ≡ some n
      → n.node_id ≡ k
  unfolding lookup
  keyed_at k n [] h e = cc
  keyed_at k n ((j, v) ∷ d) h e = let id : v.node_id ≡ j = h.0 in ground (arith, keyed_at k n d h.1)

  insert-IsKeyed :
      (k : K) (n : NodeInfo K) (d : Dict K (NodeInfo K))
      → n.node_id ≡ k
      → IsKeyed d
      → IsKeyed (insert k n d)
  unfolding insert
  insert-IsKeyed k n [] e h = (e, tt)
  insert-IsKeyed k n ((j, v) ∷ d) e h = ground (arith, insert-IsKeyed k n d e h.1)

  erase-IsKeyed : (k : K) (d : Dict K (NodeInfo K)) → IsKeyed d → IsKeyed (erase k d)
  unfolding erase
  erase-IsKeyed k [] h = tt
  erase-IsKeyed k ((j, v) ∷ d) h = ground (arith, erase-IsKeyed k d h.1)

  module _ (f : K → NodeInfo K → NodeInfo K) where
    pub map_nodes-IsDict : (d : Dict K (NodeInfo K)) → IsDict d → IsDict (map_nodes f d)
    unfolding map_nodes
    map_nodes-IsDict [] h = tt
    map_nodes-IsDict ((j, v) ∷ d) h =
        (lookup-map_nodes f j d ∙ ap (map_option (f j)) h.0, map_nodes-IsDict d h.1)

    pub map_nodes-IsKeyed :
        (d : Dict K (NodeInfo K))
        → ((k : K) (n : NodeInfo K) → (f k n).node_id ≡ n.node_id)
        → IsKeyed d
        → IsKeyed (map_nodes f d)
    unfolding map_nodes
    map_nodes-IsKeyed [] e h = tt
    map_nodes-IsKeyed ((j, v) ∷ d) e h = (e j v ∙ h.0, map_nodes-IsKeyed d e h.1)

    pub map_nodes-found :
        (k : K) (n : NodeInfo K) (d : Dict K (NodeInfo K))
        → lookup k (map_nodes f d) ≡ some n
        → (v : NodeInfo K) × (lookup k d ≡ some v) × (f k v ≡ n)
    map_nodes-found k n d e = elim (Option-cases (lookup k d)) [
      | inl h ↦ absurd (ground (arith, lookup-map_nodes f k d))
      | inr (v, h) ↦ (v, h, ground (arith, lookup-map_nodes f k d))
    ]

  pub add-IsSettled :
      (m : Mediator K) (n : NodeInfo K) (k : K)
      → n.node_id ≡ k
      → n.role ≢ primary
      → IsSettled m
      → IsSettled (record m { nodes = insert k n m.nodes })
  add-IsSettled m n k e r h = record {
    is_dict = insert-IsDict k n m.nodes h.is_dict;
    keyed = insert-IsKeyed k n m.nodes e h.keyed;
    one = λ j v q p. ground (arith, lookup-insert k j n m.nodes, h.one j v);
  }

  pub remove_node-IsSettled : (k : K) (m : Mediator K) → IsSettled m → IsSettled (remove_node k m).1
  unfolding remove_node
  remove_node-IsSettled k m h = elim (Option-cases (lookup k m.nodes)) [
    | inl e ↦ rw (e, remove_node) h
    | inr (n, e) ↦
        rw (e, remove_node)
          (record {
            is_dict = erase-IsDict k m.nodes h.is_dict;
            keyed = erase-IsKeyed k m.nodes h.keyed;
            one = λ j v q p. ground (arith, lookup-erase k j m.nodes h.is_dict, h.one j v);
          })
  ]

  pub receive_heartbeat-IsSettled :
      (k : K) (now : ℕ) (m : Mediator K) → IsSettled m → IsSettled (receive_heartbeat k now m).1
  unfolding receive_heartbeat
  receive_heartbeat-IsSettled k now m h = elim (Option-cases (lookup k m.nodes)) [
    | inl e ↦ rw (e, receive_heartbeat) h
    | inr (n, e) ↦
        rw (e, receive_heartbeat)
          (record {
            is_dict = insert-IsDict k (heard now n) m.nodes h.is_dict;
            keyed = insert-IsKeyed k (heard now n) m.nodes (keyed_at k n m.nodes h.keyed e) h.keyed;
            one = λ j v q p.
                ground (arith, lookup-insert k j (heard now n) m.nodes, h.one j v, h.one k n);
          })
  ]

  checked_role :
      (m : Mediator K) (now : ℕ) (k : K) (n : NodeInfo K) → (checked m now k n).role ≡ n.role
  checked_role m now k n = ground arith

  checked_id :
      (m : Mediator K) (now : ℕ) (k : K) (n : NodeInfo K) → (checked m now k n).node_id ≡ n.node_id
  checked_id m now k n = ground arith

  pub check_node_health-IsSettled :
      (now : ℕ) (m : Mediator K) → IsSettled m → IsSettled (check_node_health now m).1
  unfolding check_node_health silenced
  check_node_health-IsSettled now m h = record {
    is_dict = map_nodes-IsDict (checked m now) m.nodes h.is_dict;
    keyed = map_nodes-IsKeyed (checked m now) m.nodes (checked_id m now) h.keyed;
    one = λ j v q p.
        let (u, e, c) = map_nodes-found (checked m now) j v m.nodes q in
        h.one j u e (sym (checked_role m now j u) ∙ ap (λ x. x.role) c ∙ p);
  }

  pub set_primary-IsSettled : (k : K) (m : Mediator K) → IsSettled m → IsSettled (set_primary k m).1
  unfolding set_primary set_roles
  set_primary-IsSettled k m h = elim (Option-cases (lookup k m.nodes)) [
    | inl e ↦ rw (e, set_primary) h
    | inr (n, e) ↦
        rw (e, set_primary)
          (record {
            is_dict = map_nodes-IsDict (chosen k) m.nodes h.is_dict;
            keyed = map_nodes-IsKeyed (chosen k) m.nodes (λ j v. refl) h.keyed;
            one = λ j v q p.
                let (u, e', c) = map_nodes-found (chosen k) j v m.nodes q in
                let r : (chosen k j u).role ≡ primary = ap (λ x. x.role) c ∙ p in
                ground (arith, demoted_ne u.role);
          })
  ]
