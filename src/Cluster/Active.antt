-- ===== src/Cluster/Active.antt =====
-- activecluster/cluster.py. The mediator is the one that the failover controller steers. The id of
-- a peer, which Python's `hash` makes of its URL, is a function of the URL; a time is a number of
-- milliseconds; and the running tasks are flags, with the body of the monitor's loop as a function.
use storage_appliance_archit.Base.{
  ℕ, Option, none, some, List, [], ◌∷◌, Bool, true, false, ltb, ◌==◌, if◌then◌else◌, ite, String,
  string_discrete, string_key, length, Exec,
}
use storage_appliance_archit.Cluster.Order.{Order}
use storage_appliance_archit.Cluster.Mediator.{
  NodeRole, primary, secondary, witness, Mediator, register_self, add_node, set_primary,
  get_primary, has_quorum, healthy_nodes,
}
use storage_appliance_archit.Cluster.Failover.{
  normal, FailoverController, check_and_failover, check_and_failback, manual_failover,
  manual_failback,
}
use storage_appliance_archit.Cluster.Replication.{
  ReplicationMode, new_replication, ReplicationEngine, Answers, add_peer, start_async_replication,
  stop_async_replication, sync, async, replicate_write, replicate_delete,
}
use storage_appliance_archit.Purity.Wire.{Bytes}

pub data ClusterState : Type 0 where
  initializing healthy degraded failed maintenance : ClusterState

-- The replication lag, a float, is left out.
pub record ClusterHealth : Type 0 where
  pub state : ClusterState
  pub node_count : ℕ
  pub healthy_count : ℕ
  pub quorum : Bool
  pub primary_node : Option String

pub record ActiveCluster : Type 0 where
  pub node_id : String
  pub api_url : String
  pub peer_nodes : List String
  pub failover : FailoverController String
  pub replication : ReplicationEngine
  pub state : ClusterState
  pub initialized : Bool
  pub is_beating : Bool
  pub is_monitoring : Bool

-- `__init__`, for the settings' node id, API address, peers, replication mode and failover timeout
unfoldable pub new_cluster : String → String → List String → ReplicationMode → ℕ → ActiveCluster
unfolding new_replication
new_cluster node_id api_url peer_nodes mode failover_timeout_ms = record {
  node_id = node_id;
  api_url = api_url;
  peer_nodes = peer_nodes;
  failover = record {
    mediator = record {
      own_id = node_id;
      failure_threshold_ms = failover_timeout_ms;
      nodes = [];
      current_primary = none;
      stats = record {
        heartbeats_sent = 0;
        heartbeats_received = 0;
        elections_held = 0;
        split_brains_prevented = 0;
      };
      pending = 0;
    };
    auto_failback = true;
    state = normal;
    original_primary = none;
    history = [];
    stats = record {
      total_failovers = 0;
      successful_failovers = 0;
      failed_failovers = 0;
      total_failbacks = 0;
    };
  };
  replication = new_replication node_id mode;
  state = initializing;
  initialized = false;
  is_beating = false;
  is_monitoring = false;
}

abbrev pub on_mediator : {A : Type 0} → Exec (Mediator String) A → ActiveCluster → ActiveCluster
on_mediator call c = record c {
  failover = record c.failover { mediator = (call c.failover.mediator).1 };
}

-- `await self.mediator.add_node(...)` and `await self.replication.add_peer(...)`
unfoldable pub join_peer : String → String → ℕ → ActiveCluster → ActiveCluster
unfolding add_node add_peer
join_peer peer_id url now c =
    let joined = on_mediator (add_node peer_id secondary url now) c in
    record joined { replication = (add_peer peer_id url now joined.replication).1 }

-- The loop over the peers of the settings.
unfoldable pub join_peers : (String → String) → ℕ → List String → ActiveCluster → ActiveCluster
unfolding join_peer
join_peers id_of now [] c = c
join_peers id_of now (url ∷ urls) c = join_peers id_of now urls (join_peer (id_of url) url now c)

-- `if role == NodeRole.PRIMARY: await self.mediator.set_primary(self.node_id)`
unfoldable pub lead_if_primary : NodeRole → ActiveCluster → ActiveCluster
unfolding set_primary
lead_if_primary primary c = on_mediator (set_primary c.node_id) c
lead_if_primary secondary c = c
lead_if_primary witness c = c

-- The tasks that `initialize` starts, and the end of it.
unfoldable pub start_services : ActiveCluster → ActiveCluster
unfolding start_async_replication
start_services c = record c {
  is_beating = true;
  replication = elim c.replication.mode [
    | sync ↦ c.replication
    | async ↦ start_async_replication c.replication
  ];
  is_monitoring = true;
  initialized = true;
  state = healthy;
}

unfoldable pub initialize : (String → String) → NodeRole → ℕ → ActiveCluster → ActiveCluster
unfolding register_self join_peers lead_if_primary start_services
initialize id_of role now c =
    if c.initialized
    then c
    else (let registered = on_mediator (register_self role c.api_url now) c in
        start_services (lead_if_primary role (join_peers id_of now c.peer_nodes registered)))

unfoldable pub shutdown : ActiveCluster → ActiveCluster
unfolding stop_async_replication
shutdown c = record c {
  state = maintenance;
  is_monitoring = false;
  is_beating = false;
  replication = stop_async_replication c.replication;
  initialized = false;
}

-- The last branch of `_update_state`.
abbrev pub state_of_count : ℕ → ℕ → ClusterState
state_of_count up total = if up == total then healthy else if ltb 0 up then degraded else failed

-- The state that `_update_state` reads off the mediator.
unfoldable pub state_of : Mediator String → ClusterState
unfolding has_quorum
state_of m =
    if has_quorum m
    then elim m.current_primary [
      | none ↦ degraded
      | some _ ↦ state_of_count (healthy_nodes m.nodes) (length m.nodes)
    ]
    else failed

unfoldable pub update_state : ActiveCluster → ActiveCluster
unfolding state_of
update_state c = record c { state = state_of c.failover.mediator }

unfoldable pub is_primary : ActiveCluster → Bool
unfolding get_primary
is_primary c = elim (get_primary c.failover.mediator) [
  | none ↦ false
  | some k ↦ ite (string_discrete k c.node_id) true false
]

unfoldable pub get_health : ActiveCluster → ClusterHealth
unfolding has_quorum
get_health c = record {
  state = c.state;
  node_count = length c.failover.mediator.nodes;
  healthy_count = healthy_nodes c.failover.mediator.nodes;
  quorum = has_quorum c.failover.mediator;
  primary_node = c.failover.mediator.current_primary;
}

unfoldable pub replicate_write_to_peers :
    Answers → String → ℕ → String → String → Bytes → ℕ → ActiveCluster → Bool × ActiveCluster
unfolding replicate_write
replicate_write_to_peers answers volume_id offset block_id fingerprint content now c =
    let (done, r) =
      replicate_write answers volume_id offset block_id fingerprint content now c.replication in
    (done, record c { replication = r })

unfoldable pub replicate_delete_to_peers :
    Answers → String → String → ℕ → ActiveCluster → Bool × ActiveCluster
unfolding replicate_delete
replicate_delete_to_peers answers volume_id block_id now c =
    let (done, r) = replicate_delete answers volume_id block_id now c.replication in
    (done, record c { replication = r })

module _ ⦃order : Order String⦄ where
  -- One round of `_monitor_cluster`.
  unfoldable pub monitor_round : ActiveCluster → ActiveCluster
  unfolding check_and_failover check_and_failback update_state
  monitor_round c =
      let over = (check_and_failover c.failover).1 in
      let back = (check_and_failback over).1 in update_state (record c { failover = back })

  unfoldable pub fail_over_manually : Option String → ActiveCluster → ActiveCluster
  unfolding manual_failover
  fail_over_manually target c = record c { failover = (manual_failover target c.failover).1 }

  unfoldable pub fail_back_manually : ActiveCluster → ActiveCluster
  unfolding manual_failback
  fail_back_manually c = record c { failover = (manual_failback c.failover).1 }
