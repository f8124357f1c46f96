-- ===== src/Cluster/Mediator.antt =====
-- activecluster/mediator.py. Node ids are of any type with equality and an order. A time is a
-- number of milliseconds that the caller reads off the clock; a heartbeat's answers are a function
-- of the node, the HTTP client's. The election that `_check_node_health` starts as a task of its
-- own is counted in `pending` until `run_pending` runs it.
use storage_appliance_archit.Base.{
  ℕ, ◌+◌, ◌-◌, ◌/◌, Option, none, some, List, [], ◌∷◌, Bool, true, false, ◌&&◌, ltb, leb,
  if◌then◌else◌, String, Exec, ok, modify, pure, ◌>>◌, length, ite, Key, zero, suc,
}
use storage_appliance_archit.Base.Dict.{Dict, lookup, insert, erase}
use storage_appliance_archit.Cluster.Order.{Order}

pub data NodeRole : Type 0 where
  primary secondary witness : NodeRole

pub data QuorumState : Type 0 where
  has_quorum_state no_quorum_state split_brain : QuorumState

pub record NodeInfo (K : Type 0) : Type 0 where
  pub node_id : K
  pub role : NodeRole
  pub url : String
  pub is_healthy : Bool
  pub last_heartbeat : ℕ
  pub vote : Option K

pub record MediatorStats : Type 0 where
  pub heartbeats_sent : ℕ
  pub heartbeats_received : ℕ
  pub elections_held : ℕ
  pub split_brains_prevented : ℕ

pub record Mediator (K : Type 0) : Type 0 where
  pub own_id : K
  pub failure_threshold_ms : ℕ
  pub nodes : Dict K (NodeInfo K)
  pub current_primary : Option K
  pub stats : MediatorStats
  pub pending : ℕ

-- `n.role in (NodeRole.PRIMARY, NodeRole.SECONDARY)`
abbrev pub can_lead : NodeRole → Bool
can_lead witness = false
can_lead _ = true

-- `elif node.role == NodeRole.PRIMARY: node.role = NodeRole.SECONDARY`
abbrev pub demoted : NodeRole → NodeRole
demoted primary = secondary
demoted r = r

module _ {K : Type 0} where
  abbrev pub new_node : K → NodeRole → String → ℕ → NodeInfo K
  new_node k r url now = record {
    node_id = k;
    role = r;
    url = url;
    is_healthy = true;
    last_heartbeat = now;
    vote = none;
  }

  -- `sum(1 for n in self._nodes.values() if n.is_healthy)`
  abbrev pub healthy_nodes : Dict K (NodeInfo K) → ℕ
  healthy_nodes [] = 0
  healthy_nodes ((_, n) ∷ d) = if n.is_healthy then healthy_nodes d + 1 else healthy_nodes d

  -- `healthy_nodes >= (total_nodes // 2) + 1`
  unfoldable pub get_quorum_state : Mediator K → QuorumState
  get_quorum_state m =
      if leb (length m.nodes / 2 + 1) (healthy_nodes m.nodes)
      then has_quorum_state
      else no_quorum_state

  -- A loop over `self._nodes.items()` that changes the nodes in place.
  unfoldable pub map_nodes :
      (K → NodeInfo K → NodeInfo K) → Dict K (NodeInfo K) → Dict K (NodeInfo K)
  map_nodes f [] = []
  map_nodes f ((k, n) ∷ d) = (k, f k n) ∷ map_nodes f d

  unfoldable pub has_quorum : Mediator K → Bool
  unfolding get_quorum_state
  has_quorum m = elim (get_quorum_state m) [ has_quorum_state ↦ true | _ ↦ false ]

  unfoldable pub get_primary : Mediator K → Option K
  get_primary m = m.current_primary

  abbrev pub is_candidate : NodeInfo K → Bool
  is_candidate n = n.is_healthy && can_lead n.role

  unfoldable pub candidates_of : Dict K (NodeInfo K) → List (NodeInfo K)
  candidates_of [] = []
  candidates_of ((_, n) ∷ d) = if is_candidate n then n ∷ candidates_of d else candidates_of d

module _ {K : Type 0} ⦃key : Key K⦄ where
  unfoldable pub register_self : NodeRole → String → ℕ → Exec (Mediator K) (Unit {0})
  register_self r url now =
      modify (λ m. record m { nodes = insert m.own_id (new_node m.own_id r url now) m.nodes })

  unfoldable pub add_node : K → NodeRole → String → ℕ → Exec (Mediator K) (NodeInfo K)
  add_node k r url now = do
    modify (λ m. record m { nodes = insert k (new_node k r url now) m.nodes })
    pure (new_node k r url now)

  unfoldable pub remove_node : K → Exec (Mediator K) Bool
  remove_node k m = elim (lookup k m.nodes) [
    | none ↦ (ok false, m)
    | some _ ↦ (ok true, record m { nodes = erase k m.nodes })
  ]

  -- The number of other nodes that answer a heartbeat with status 200.
  unfoldable pub answering : K → (K → Bool) → Dict K (NodeInfo K) → ℕ
  answering own answers [] = 0
  answering own answers ((k, n) ∷ d) =
      let rest = answering own answers d in
      ite (key.dec k own) rest (if answers k then rest + 1 else rest)

  unfoldable pub send_heartbeats : (K → Bool) → Exec (Mediator K) (Unit {0})
  unfolding answering
  send_heartbeats answers = modify (λ m. record m {
    stats = record m.stats {
      heartbeats_sent = m.stats.heartbeats_sent + answering m.own_id answers m.nodes;
    };
  })

  abbrev pub heard : ℕ → NodeInfo K → NodeInfo K
  heard now n = record n { last_heartbeat = now; is_healthy = true }

  unfoldable pub receive_heartbeat : K → ℕ → Exec (Mediator K) (Option K)
  receive_heartbeat source now m = elim (lookup source m.nodes) [
    | none ↦ (ok m.current_primary, m)
    | some n ↦ (
      ok m.current_primary,
      record m {
        nodes = insert source (heard now n) m.nodes;
        stats = record m.stats { heartbeats_received = m.stats.heartbeats_received + 1 };
      },
    )
  ]

  -- A healthy node, not this one, that was silent for longer than the threshold.
  abbrev pub falls_silent : Mediator K → ℕ → K → NodeInfo K → Bool
  falls_silent m now k n =
      ite (key.dec k m.own_id) false
        (ltb m.failure_threshold_ms (now - n.last_heartbeat) && n.is_healthy)

  abbrev pub checked : Mediator K → ℕ → K → NodeInfo K → NodeInfo K
  checked m now k n = if falls_silent m now k n then record n { is_healthy = false } else n

  unfoldable pub silenced : Mediator K → ℕ → Dict K (NodeInfo K) → Dict K (NodeInfo K)
  unfolding map_nodes
  silenced m now = map_nodes (checked m now)

  abbrev pub is_primary : Option K → K → Bool
  is_primary none k = false
  is_primary (some p) k = ite (key.dec k p) true false

  -- The elections that the loop of `_check_node_health` starts.
  unfoldable pub elections_due : Mediator K → ℕ → Dict K (NodeInfo K) → ℕ
  elections_due m now [] = 0
  elections_due m now ((k, n) ∷ d) =
      let rest = elections_due m now d in
      if falls_silent m now k n && is_primary m.current_primary k then rest + 1 else rest

  unfoldable pub check_node_health : ℕ → Exec (Mediator K) (Unit {0})
  unfolding silenced elections_due
  check_node_health now = modify (λ m. record m {
    nodes = silenced m now m.nodes;
    pending = m.pending + elections_due m now m.nodes;
  })

  abbrev pub elected : K → NodeInfo K → NodeInfo K
  elected w n = record n { role = ite (key.dec n.node_id w) primary (demoted n.role) }

  -- The roles after the election of the node whose `node_id` is `w`.
  unfoldable pub elect_roles : K → Dict K (NodeInfo K) → Dict K (NodeInfo K)
  unfolding map_nodes
  elect_roles w = map_nodes (λ k. elected w)

  abbrev pub chosen : K → K → NodeInfo K → NodeInfo K
  chosen w k n = record n { role = ite (key.dec k w) primary (demoted n.role) }

  -- The roles after `set_primary`, which goes by the key of the dictionary.
  unfoldable pub set_roles : K → Dict K (NodeInfo K) → Dict K (NodeInfo K)
  unfolding map_nodes
  set_roles w = map_nodes (chosen w)

  unfoldable pub set_primary : K → Exec (Mediator K) Bool
  unfolding set_roles
  set_primary k m = elim (lookup k m.nodes) [
    | none ↦ (ok false, m)
    | some _ ↦ (ok true, record m { current_primary = some k; nodes = set_roles k m.nodes })
  ]

module _ {K : Type 0} ⦃key : Key K⦄ ⦃order : Order K⦄ where
  -- A stable insertion sort by id.
  unfoldable pub place : NodeInfo K → List (NodeInfo K) → List (NodeInfo K)
  place n [] = n ∷ []
  place n (x ∷ xs) = if order.le n.node_id x.node_id then n ∷ x ∷ xs else x ∷ place n xs

  unfoldable pub sort_by_id : List (NodeInfo K) → List (NodeInfo K)
  unfolding place
  sort_by_id [] = []
  sort_by_id (x ∷ xs) = place x (sort_by_id xs)

  abbrev pub count_election : Mediator K → Mediator K
  count_election m = record m {
    stats = record m.stats { elections_held = m.stats.elections_held + 1 };
  }

  -- What `initiate_election` does with the sorted candidates.
  unfoldable pub elect : List (NodeInfo K) → Exec (Mediator K) (Option K)
  unfolding elect_roles
  elect [] m = (ok none, m)
  elect (w ∷ ws) m = (
    ok (some w.node_id),
    record m { current_primary = some w.node_id; nodes = elect_roles w.node_id m.nodes },
  )

  unfoldable pub initiate_election : Exec (Mediator K) (Option K)
  unfolding has_quorum candidates_of sort_by_id elect
  initiate_election m =
      if has_quorum m
      then elect (sort_by_id (candidates_of m.nodes)) (count_election m)
      else (ok none, m)

  -- One of the elections that were started runs.
  unfoldable pub run_pending : Exec (Mediator K) (Option K)
  unfolding initiate_election
  run_pending m = elim m.pending [
    | zero ↦ (ok m.current_primary, m)
    | suc n ↦ initiate_election (record m { pending = n })
  ]
