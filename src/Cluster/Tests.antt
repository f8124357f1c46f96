-- ===== src/Cluster/Tests.antt =====
-- activecluster: a cluster of three nodes, and the theorems at inputs that meet their hypotheses.
use storage_appliance_archit.Base.{
  ℕ, ◌≡◌, refl, ◌⊎◌, none, some, List, [], ◌∷◌, true, false, arith, ok, Bool, nat_key, ℕ_discrete,
}
use storage_appliance_archit.Base.Dict.{lookup, insert, erase}
use storage_appliance_archit.Cluster.Order.{nat_order}
use storage_appliance_archit.Cluster.Mediator.{
  NodeInfo, Mediator, primary, secondary, new_node, count_election, candidates_of,
  initiate_election, has_quorum, healthy_nodes, receive_heartbeat, add_node, register_self,
  check_node_health, elect, sort_by_id, elect_roles, map_nodes, set_roles, silenced, elections_due,
  set_primary, run_pending, place, get_quorum_state,
}
use storage_appliance_archit.Cluster.Quorum
use storage_appliance_archit.Cluster.Quorum.{Apart}
use storage_appliance_archit.Cluster.Election
use storage_appliance_archit.Cluster.Election.{Elected}
use storage_appliance_archit.Cluster.Settled.{IsSettled}
use storage_appliance_archit.Cluster.Calls
use storage_appliance_archit.Cluster.Calls.{
  Call, register, join, receive, check, next_pending, appoint, run, step,
}

-- What the tests compute with.
program : Unit {0}
unfolding initiate_election has_quorum check_node_health elect sort_by_id elect_roles map_nodes
    set_roles silenced elections_due set_primary run_pending place get_quorum_state candidates_of
    lookup insert erase ℕ_discrete run step receive_heartbeat add_node register_self
program = tt

-- A node that was last heard at `heard_at`.
abbrev node : ℕ → Bool → ℕ → NodeInfo ℕ
node k up heard_at = record (new_node k secondary "url" heard_at) { is_healthy = up }

abbrev cluster : Bool → Bool → Bool → Mediator ℕ
cluster a b c = record {
  own_id = 3;
  failure_threshold_ms = 5000;
  nodes = (2, node 2 a 0) ∷ (1, node 1 b 0) ∷ (3, node 3 c 0) ∷ [];
  current_primary = none;
  stats = record {
    heartbeats_sent = 0;
    heartbeats_received = 0;
    elections_held = 0;
    split_brains_prevented = 0;
  };
  pending = 0;
}

lowest_wins : (initiate_election (cluster true true true)).0 ≡ ok (some 1)
unfolding program
lowest_wins = refl

-- Three nodes, each of which registers itself first, are cut apart into {1, 2} and {3}: node 1 still
-- hears node 2, and node 3 hears no one.
abbrev alone : ℕ → Mediator ℕ
alone own = record (cluster true true true) { own_id = own; nodes = [] }

abbrev near : Mediator ℕ
near = run (alone 1) (
    register secondary "a" 0
    ∷ join 2 secondary "b" 0
    ∷ join 3 secondary "c" 0
    ∷ receive 2 8000
    ∷ check 9000
    ∷ [])

abbrev far : Mediator ℕ
far =
    run (alone 3)
      (register secondary "c" 0 ∷ join 1 secondary "a" 0 ∷ join 2 secondary "b" 0 ∷ check 9000 ∷ [])

-- Each sees itself healthy.
near_view : healthy_nodes near.nodes ≡ 2
unfolding program
near_view = refl

far_view : healthy_nodes far.nodes ≡ 1
unfolding program
far_view = refl

near_far-Apart : Apart near.nodes far.nodes
unfolding program
near_far-Apart = record {
  left = (refl, (refl, (refl, tt)));
  right = (refl, (refl, (refl, tt)));
  same = λ k. ground arith;
  once = λ k. ground arith;
}

initiate_election-one_side_example : initiate_election far ≡ (ok none, far)
unfolding program
initiate_election-one_side_example =
    Quorum.initiate_election-one_side near far 1 near_far-Apart refl

initiate_election-Elected_example :
    ((initiate_election (cluster true true true)
        ≡ (ok none, count_election (cluster true true true)))
      × (candidates_of (cluster true true true).nodes ≡ []))
    ⊎ ((w : ℕ) × (m' : Mediator ℕ) × (initiate_election (cluster true true true)
          ≡ (ok (some w), m'))
        × Elected (cluster true true true) w m')
unfolding program
initiate_election-Elected_example =
    Election.initiate_election-Elected (cluster true true true) (refl, (refl, (refl, tt)))
      (refl, (refl, (refl, tt))) refl

cluster-IsSettled : IsSettled (cluster true true true)
unfolding program
cluster-IsSettled = record {
  is_dict = (refl, (refl, (refl, tt)));
  keyed = (refl, (refl, (refl, tt)));
  one = λ k n e p. absurd (ground arith);
}

-- Node 1 becomes primary, falls silent, and the election that follows finds no quorum.
abbrev calls : List (Call ℕ)
calls = appoint 1 ∷ check 9000 ∷ next_pending ∷ []

-- Node 1 as it is then.
abbrev leader : NodeInfo ℕ
leader = record (node 1 false 0) { role = primary }

run-one_primary_example : leader.node_id ≡ leader.node_id
unfolding program
run-one_primary_example =
    Calls.run-one_primary (cluster true true true) calls 1 1 leader leader cluster-IsSettled
      (tt, (tt, (tt, tt))) refl refl refl refl
