-- ===== src/Api/Cluster.antt =====
-- api/routes/replication.py. The cluster is missing where clustering is disabled; the settings' node
-- id is an argument. Latencies and durations, which are floats, are left out.
use storage_appliance_archit.Base.{
  ℕ, Option, none, some, List, [], ◌∷◌, String, string_key, Bool, true, Result, ok, Exec,
  if◌then◌else◌,
}
use storage_appliance_archit.Base.Int.{ℤ, pos}
use storage_appliance_archit.Base.Dict.{Dict}
use storage_appliance_archit.Cluster.Order.{Order}
use storage_appliance_archit.Cluster.Mediator
use storage_appliance_archit.Cluster.Failover.{
  FailoverEvent, FailoverState, FailoverReason, manual_failover, manual_failback,
}
use storage_appliance_archit.Cluster.Replication
use storage_appliance_archit.Cluster.Replication.{
  ReplicationMode, ReplicationState, ReplicationPeer, ReplicationOperation,
}
use storage_appliance_archit.Cluster.Active.{
  ActiveCluster, ClusterState, ClusterHealth, get_health, is_primary,
}
use storage_appliance_archit.Api.Reply.{Reply, reply, http_error, reply_found, answer}

-- `get_cluster`: the cluster, or None where clustering is disabled
abbrev pub Clustered : Type 0
Clustered = Option ActiveCluster

pub record PeerNode : Type 0 where
  pub node_id : String
  pub url : String
  pub state : ReplicationState
  pub last_heartbeat : ℕ
  pub lag_bytes : ℕ

-- A state of a cluster, or "standalone".
pub record ClusterStatusResponse : Type 0 where
  pub node_id : String
  pub state : Option ClusterState
  pub current_primary : Option String
  pub has_quorum : Bool
  pub node_count : ℕ
  pub healthy_nodes : ℕ

-- A mode of replication, or "disabled".
pub record ReplicationStatusResponse : Type 0 where
  pub mode : Option ReplicationMode
  pub node_id : String
  pub is_leading : Bool
  pub peers : List PeerNode
  pub operations_replicated : ℕ
  pub operations_pending : ℤ

pub record FailoverResponse : Type 0 where
  pub old_primary : Option String
  pub new_primary : Option String
  pub reason : FailoverReason
  pub state : FailoverState

pub record HeartbeatResponse : Type 0 where
  pub node_id : String
  pub current_primary : Option String

abbrev pub peer_node : ReplicationPeer → PeerNode
peer_node p = record {
  node_id = p.node_id;
  url = p.url;
  state = p.state;
  last_heartbeat = p.last_heartbeat;
  lag_bytes = p.lag_bytes;
}

-- The loop over the peers of the statistics.
abbrev pub peer_nodes : Dict String ReplicationPeer → List PeerNode
peer_nodes [] = []
peer_nodes ((_, p) ∷ d) = peer_node p ∷ peer_nodes d

abbrev pub failover_response : FailoverEvent String → FailoverResponse
failover_response e = record {
  old_primary = e.old_primary;
  new_primary = e.new_primary;
  reason = e.reason;
  state = e.state;
}

abbrev pub health_response : String → ClusterHealth → ClusterStatusResponse
health_response node_id h = record {
  node_id = node_id;
  state = some h.state;
  current_primary = h.primary_node;
  has_quorum = h.quorum;
  node_count = h.node_count;
  healthy_nodes = h.healthy_count;
}

unfoldable pub get_cluster_status : String → Clustered → ClusterStatusResponse
unfolding get_health
get_cluster_status own none = record {
  node_id = own;
  state = none;
  current_primary = some own;
  has_quorum = true;
  node_count = 1;
  healthy_nodes = 1;
}
get_cluster_status own (some c) = health_response c.node_id (get_health c)

unfoldable pub get_replication_status : String → Clustered → ReplicationStatusResponse
unfolding is_primary
get_replication_status own none = record {
  mode = none;
  node_id = own;
  is_leading = true;
  peers = [];
  operations_replicated = 0;
  operations_pending = pos 0;
}
get_replication_status own (some c) = record {
  mode = some c.replication.mode;
  node_id = c.node_id;
  is_leading = is_primary c;
  peers = peer_nodes c.replication.peers;
  operations_replicated = c.replication.stats.operations_replicated;
  operations_pending = c.replication.stats.operations_pending;
}

-- `if not cluster: raise HTTPException(400, ...)`, and the rest of the handler
abbrev pub with_cluster :
    {A : Type 0} → (ActiveCluster → Result (Reply A) × ActiveCluster) → Exec Clustered (Reply A)
with_cluster handler none = (ok (http_error 400), none)
with_cluster handler (some c) = let (r, d) = handler c in (r, some d)

unfoldable pub add_peer : String → String → ℕ → Exec Clustered (Reply PeerNode)
unfolding Replication.add_peer
add_peer node_id url now = with_cluster (λ c.
    (let (p, r) = Replication.add_peer node_id url now c.replication in
      (ok (reply 201 (peer_node p)), record c { replication = r })))

unfoldable pub remove_peer : String → Exec Clustered (Reply (Unit {0}))
unfolding Replication.remove_peer
remove_peer node_id = with_cluster (λ c.
    (let (done, r) = Replication.remove_peer node_id c.replication in
      (ok (if done then reply 204 tt else http_error 404), record c { replication = r })))

-- A call of the failover controller's.
abbrev pub on_failover :
    {A B : Type 0}
    → (A → Reply B)
    → (ActiveCluster → Result A × ActiveCluster)
    → Exec Clustered (Reply B)
on_failover f call = with_cluster (λ c. answer f (call c))

module _ ⦃order : Order String⦄ where
  unfoldable pub trigger_failover : Option String → Exec Clustered (Reply FailoverResponse)
  unfolding manual_failover
  trigger_failover target =
      on_failover (λ e. reply 200 (failover_response e))
        (λ c. (let (r, f) = manual_failover target c.failover in (r, record c { failover = f })))

unfoldable pub trigger_failback : Exec Clustered (Reply FailoverResponse)
unfolding manual_failback
trigger_failback =
    on_failover (reply_found 200 400 failover_response)
      (λ c. (let (r, f) = manual_failback c.failover in (r, record c { failover = f })))

-- The mediator answers with its node id and the primary that it knows.
unfoldable pub receive_heartbeat : String → String → ℕ → Exec Clustered (Reply HeartbeatResponse)
unfolding Mediator.receive_heartbeat
receive_heartbeat own source now none =
    (ok (reply 200 (record { node_id = own; current_primary = some own })), none)
receive_heartbeat own source now (some c) =
    let (r, m) = Mediator.receive_heartbeat source now c.failover.mediator in
    answer (λ p. reply 200 (record { node_id = c.failover.mediator.own_id; current_primary = p }))
      (r, some (record c { failover = record c.failover { mediator = m } }))

-- The operation is acknowledged, and not applied.
unfoldable pub apply_replication : ReplicationOperation → Exec Clustered (Reply ℕ)
apply_replication op c = (ok (reply 200 op.sequence_number), c)
