-- ===== src/Cluster/Calls.antt =====
-- activecluster/mediator.py: at most one node is primary, whatever calls follow each other. A run
-- is a sequence of calls and of started elections; an election goes from its quorum test to the
-- new roles with no other call in between.
use storage_appliance_archit.Base.{
  ℕ, ◌≡◌, ◌≢◌, refl, ◌∙◌, ap, some, List, [], ◌∷◌, Bool, arith, Bool-cases, inl, inr, String, Key,
  zero, suc,
}
use storage_appliance_archit.Base.Dict.{lookup}
use storage_appliance_archit.Cluster.Order.{Order}
use storage_appliance_archit.Cluster.Mediator.{
  NodeInfo, Mediator, NodeRole, primary, new_node, elected, elect_roles, register_self, add_node,
  remove_node, send_heartbeats, receive_heartbeat, check_node_health, set_primary, elect,
  sort_by_id, candidates_of, has_quorum, initiate_election, run_pending, count_election,
}
use storage_appliance_archit.Cluster.Settled.{
  IsSettled, add-IsSettled, remove_node-IsSettled, receive_heartbeat-IsSettled,
  check_node_health-IsSettled, set_primary-IsSettled, map_nodes-IsDict, map_nodes-IsKeyed,
  map_nodes-found, keyed_at, demoted_ne,
}

pub data Call (K : Type 0) : Type 0 where
  register : NodeRole → String → ℕ → Call K
  join : K → NodeRole → String → ℕ → Call K
  leave : K → Call K
  send : (K → Bool) → Call K
  receive : K → ℕ → Call K
  check : ℕ → Call K
  hold_election : Call K
  next_pending : Call K
  appoint : K → Call K

-- The call does not bring in a node that is primary already.
abbrev pub IsModest : {K : Type 0} → Call K → Type 0
IsModest (register r url now) = r ≢ primary
IsModest (join k r url now) = r ≢ primary
IsModest _ = Unit

abbrev pub AllModest : {K : Type 0} → List (Call K) → Type 0
AllModest [] = Unit
AllModest (c ∷ cs) = IsModest c × AllModest cs

module _ {K : Type 0} ⦃key : Key K⦄ ⦃order : Order K⦄ where
  unfoldable pub step : Mediator K → Call K → Mediator K
  step m (register r url now) = (register_self r url now m).1
  step m (join k r url now) = (add_node k r url now m).1
  step m (leave k) = (remove_node k m).1
  step m (send answers) = (send_heartbeats answers m).1
  step m (receive k now) = (receive_heartbeat k now m).1
  step m (check now) = (check_node_health now m).1
  step m hold_election = (initiate_election m).1
  step m next_pending = (run_pending m).1
  step m (appoint k) = (set_primary k m).1

  unfoldable pub run : Mediator K → List (Call K) → Mediator K
  unfolding step
  run m [] = m
  run m (c ∷ cs) = run (step m c) cs

  elect-IsSettled :
      (ns : List (NodeInfo K)) (m : Mediator K) → IsSettled m → IsSettled (elect ns m).1
  unfolding elect elect_roles
  elect-IsSettled [] m h = h
  elect-IsSettled (w ∷ ws) m h = record {
    is_dict = map_nodes-IsDict (λ k. elected w.node_id) m.nodes h.is_dict;
    keyed = map_nodes-IsKeyed (λ k. elected w.node_id) m.nodes (λ j v. refl) h.keyed;
    one = λ j v q p.
        let (u, e, c) = map_nodes-found (λ k. elected w.node_id) j v m.nodes q in
        let r : (elected w.node_id u).role ≡ primary = ap (λ x. x.role) c ∙ p in
        let id : u.node_id ≡ j = keyed_at j u m.nodes h.keyed e in
        ground (arith, demoted_ne u.role);
  }

  count-IsSettled : (m : Mediator K) → IsSettled m → IsSettled (count_election m)
  count-IsSettled m h = record { is_dict = h.is_dict; keyed = h.keyed; one = h.one }

  pub initiate_election-IsSettled :
      (m : Mediator K) → IsSettled m → IsSettled (initiate_election m).1
  unfolding initiate_election
  initiate_election-IsSettled m h = elim (Bool-cases (has_quorum m)) [
    | inl e ↦
        rw (e, initiate_election)
          (elect-IsSettled (sort_by_id (candidates_of m.nodes)) (count_election m)
            (count-IsSettled m h))
    | inr e ↦ rw (e, initiate_election) h
  ]

  run_pending-IsSettled :
      (n : ℕ) (m : Mediator K) → m.pending ≡ n → IsSettled m → IsSettled (run_pending m).1
  unfolding run_pending
  run_pending-IsSettled zero m e h = rw (e, run_pending) h
  run_pending-IsSettled (suc n) m e h =
      rw (e, run_pending)
        (initiate_election-IsSettled (record m { pending = n })
          (record { is_dict = h.is_dict; keyed = h.keyed; one = h.one }))

  pub step-IsSettled :
      (m : Mediator K) (c : Call K) → IsModest c → IsSettled m → IsSettled (step m c)
  unfolding step register_self add_node send_heartbeats
  step-IsSettled m (register r url now) k h =
      add-IsSettled m (new_node m.own_id r url now) m.own_id refl k h
  step-IsSettled m (join j r url now) k h = add-IsSettled m (new_node j r url now) j refl k h
  step-IsSettled m (leave j) k h = remove_node-IsSettled j m h
  step-IsSettled m (send answers) k h = record { is_dict = h.is_dict; keyed = h.keyed; one = h.one }
  step-IsSettled m (receive j now) k h = receive_heartbeat-IsSettled j now m h
  step-IsSettled m (check now) k h = check_node_health-IsSettled now m h
  step-IsSettled m hold_election k h = initiate_election-IsSettled m h
  step-IsSettled m next_pending k h = run_pending-IsSettled m.pending m refl h
  step-IsSettled m (appoint j) k h = set_primary-IsSettled j m h

  pub run-IsSettled :
      (m : Mediator K) (cs : List (Call K)) → AllModest cs → IsSettled m → IsSettled (run m cs)
  unfolding run
  run-IsSettled m [] k h = h
  run-IsSettled m (c ∷ cs) k h = run-IsSettled (step m c) cs k.1 (step-IsSettled m c k.0 h)

  -- At most one node is primary after every run of calls, elections and health checks from a
  -- settled state, if no call brings in a node that is primary already.
  pub run-one_primary :
      (m : Mediator K) (cs : List (Call K)) (j k : K) (u v : NodeInfo K)
      → IsSettled m
      → AllModest cs
      → lookup j (run m cs).nodes ≡ some u
      → lookup k (run m cs).nodes ≡ some v
      → u.role ≡ primary
      → v.role ≡ primary
      → j ≡ k
  run-one_primary m cs j k u v h modest e f p q =
      let s = run-IsSettled m cs modest h in let a = s.one j u e p in let b = s.one k v f q in cc
