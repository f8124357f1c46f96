-- ===== src/Cluster/Replication.antt =====
-- activecluster/replication.py. A time is a number of milliseconds that the caller reads off the
-- clock, and the peers' HTTP answers are a function of the peer and the operation. Sends that run in
-- parallel touch different peers and add to one counter, and are made one after the other. The
-- average latency, a float, is left out.
use storage_appliance_archit.Base.{
  ℕ, ◌+◌, ◌/◌, ◌%◌, Option, none, some, List, [], ◌∷◌, ◌++◌, Bool, true, false, ◌&&◌, ◌||◌, ltb,
  ◌==◌, if◌then◌else◌, ite, String, string_discrete, string_key,
}
use storage_appliance_archit.Base.Int.{ℤ, pos, ◌+ℤ◌, ◌-ℤ◌}
use storage_appliance_archit.Base.Dict.{Dict, lookup, insert, erase}
use storage_appliance_archit.Purity.Wire.{Bytes, same_bytes}

pub data ReplicationMode : Type 0 where
  sync async : ReplicationMode

pub data ReplicationState : Type 0 where
  healthy degraded broken syncing : ReplicationState

pub record ReplicationPeer : Type 0 where
  pub node_id : String
  pub url : String
  pub state : ReplicationState
  pub last_heartbeat : ℕ
  pub lag_bytes : ℕ
  pub lag_operations : ℕ

pub data OperationType : Type 0 where
  write delete : OperationType

-- The `data` of an operation. The bytes of a write go as hexadecimal digits.
pub data OperationData : Type 0 where
  write_data : ℕ → String → String → List ℕ → OperationData
  delete_data : String → OperationData

pub record ReplicationOperation : Type 0 where
  pub sequence_number : ℕ
  pub operation_type : OperationType
  pub volume_id : String
  pub payload : OperationData
  pub timestamp : ℕ

pub record ReplicationStats : Type 0 where
  pub operations_replicated : ℕ
  pub bytes_replicated : ℕ
  pub operations_pending : ℤ
  pub replication_errors : ℕ

pub record ReplicationEngine : Type 0 where
  pub node_id : String
  pub mode : ReplicationMode
  pub peers : Dict String ReplicationPeer
  pub journal : List ReplicationOperation
  pub sequence_number : ℕ
  pub is_running : Bool
  pub stats : ReplicationStats

-- A peer answers with status 200, with another status, or the request fails.
pub data Answer : Type 0 where
  accepted refused unreachable : Answer

abbrev pub Answers : Type 0
Answers = String → ReplicationOperation → Answer

unfoldable pub new_replication : String → ReplicationMode → ReplicationEngine
new_replication node_id mode = record {
  node_id = node_id;
  mode = mode;
  peers = [];
  journal = [];
  sequence_number = 0;
  is_running = false;
  stats = record {
    operations_replicated = 0;
    bytes_replicated = 0;
    operations_pending = pos 0;
    replication_errors = 0;
  };
}

abbrev pub new_peer : String → String → ℕ → ReplicationPeer
new_peer node_id url now = record {
  node_id = node_id;
  url = url;
  state = syncing;
  last_heartbeat = now;
  lag_bytes = 0;
  lag_operations = 0;
}

unfoldable pub add_peer :
    String → String → ℕ → ReplicationEngine → ReplicationPeer × ReplicationEngine
unfolding insert
add_peer node_id url now e = (
  new_peer node_id url now,
  record e { peers = insert node_id (new_peer node_id url now) e.peers },
)

unfoldable pub remove_peer : String → ReplicationEngine → Bool × ReplicationEngine
unfolding lookup erase
remove_peer node_id e = elim (lookup node_id e.peers) [
  | none ↦ (false, e)
  | some _ ↦ (true, record e { peers = erase node_id e.peers })
]

-- `bytes.hex()`, as the list of its digits
unfoldable pub hex : Bytes → List ℕ
hex [] = []
hex (b ∷ bs) = (b / 16) ∷ (b % 16) ∷ hex bs

-- A send to one peer: whether it succeeds, the peer after it, and what it adds to the errors.
unfoldable pub send_to_peer : Answer → ℕ → ReplicationPeer → Bool × ReplicationPeer × ℕ
send_to_peer accepted now p = (true, record p { state = healthy; last_heartbeat = now }, 0)
send_to_peer refused now p = (false, p, 1)
send_to_peer unreachable now p = (false, record p { state = degraded }, 1)

abbrev pub is_broken : ReplicationState → Bool
is_broken broken = true
is_broken _ = false

-- The sends to all peers that are not broken: how many succeed, the peers, and the errors.
unfoldable pub send_all :
    Answers
    → ℕ
    → ReplicationOperation
    → Dict String ReplicationPeer
    → ℕ × Dict String ReplicationPeer × ℕ
unfolding send_to_peer
send_all answers now op [] = (0, [], 0)
send_all answers now op ((j, p) ∷ d) =
    let (count, d', errors) = send_all answers now op d in
    if is_broken p.state
    then (count, (j, p) ∷ d', errors)
    else (let (success, p', n) = send_to_peer (answers p.node_id op) now p in
        (if success then count + 1 else count, (j, p') ∷ d', n + errors))

-- The end of `_sync_replicate`: the counters, and whether a send succeeded.
abbrev pub count_sends :
    ℕ × Dict String ReplicationPeer × ℕ → ReplicationEngine → Bool × ReplicationEngine
count_sends (count, peers, errors) e = (
  ltb 0 count,
  record e {
    peers = peers;
    stats = record e.stats {
      operations_replicated = e.stats.operations_replicated + 1;
      replication_errors = e.stats.replication_errors + errors;
    };
  },
)

unfoldable pub sync_replicate :
    Answers → ℕ → ReplicationOperation → ReplicationEngine → Bool × ReplicationEngine
unfolding send_all
sync_replicate answers now op e = elim e.peers [
  | [] ↦ (true, e)
  | x ∷ d ↦ count_sends (send_all answers now op e.peers) e
]

unfoldable pub queue_for_async : ReplicationOperation → ReplicationEngine → ReplicationEngine
queue_for_async op e = record e {
  journal = e.journal ++ (op ∷ []);
  stats = record e.stats { operations_pending = e.stats.operations_pending +ℤ pos 1 };
}

-- `self._sequence_number += 1`, and the operation with that number
abbrev pub next_operation :
    OperationType → String → OperationData → ℕ → ReplicationEngine → ReplicationOperation
next_operation type volume_id payload now e = record {
  sequence_number = e.sequence_number + 1;
  operation_type = type;
  volume_id = volume_id;
  payload = payload;
  timestamp = now;
}

abbrev pub count_operation : ReplicationEngine → ReplicationEngine
count_operation e = record e { sequence_number = e.sequence_number + 1 }

-- The end of `replicate_write` and `replicate_delete`.
unfoldable pub replicate :
    Answers → ℕ → ReplicationOperation → ReplicationEngine → Bool × ReplicationEngine
unfolding sync_replicate queue_for_async
replicate answers now op e = elim e.mode [
  | sync ↦ sync_replicate answers now op e
  | async ↦ (true, queue_for_async op e)
]

unfoldable pub replicate_write :
    Answers
    → String
    → ℕ
    → String
    → String
    → Bytes
    → ℕ
    → ReplicationEngine
    → Bool × ReplicationEngine
unfolding replicate hex
replicate_write answers volume_id offset block_id fingerprint content now e =
    let payload = write_data offset block_id fingerprint (hex content) in
    replicate answers now (next_operation write volume_id payload now e) (count_operation e)

unfoldable pub replicate_delete :
    Answers → String → String → ℕ → ReplicationEngine → Bool × ReplicationEngine
unfolding replicate
replicate_delete answers volume_id block_id now e =
    replicate answers now (next_operation delete volume_id (delete_data block_id) now e)
      (count_operation e)

abbrev pub same_string : String → String → Bool
same_string a b = ite (string_discrete a b) true false

abbrev pub same_type : OperationType → OperationType → Bool
same_type write write = true
same_type delete delete = true
same_type _ _ = false

abbrev pub same_data : OperationData → OperationData → Bool
same_data (write_data o b f c) (write_data o' b' f' c') =
    (o == o') && (same_string b b' && (same_string f f' && same_bytes c c'))
same_data (delete_data b) (delete_data b') = same_string b b'
same_data _ _ = false

-- `==` of the data class: all fields are equal.
unfoldable pub same_operation : ReplicationOperation → ReplicationOperation → Bool
unfolding same_bytes
same_operation o p =
    (o.sequence_number == p.sequence_number)
    && (same_type o.operation_type p.operation_type
        && (same_string o.volume_id p.volume_id
            && (same_data o.payload p.payload && (o.timestamp == p.timestamp))))

-- `operation in self._journal`
unfoldable pub is_queued : ReplicationOperation → List ReplicationOperation → Bool
unfolding same_operation
is_queued o [] = false
is_queued o (p ∷ ps) = same_operation p o || is_queued o ps

-- `self._journal.remove(operation)`: the first equal one goes.
unfoldable pub dequeue :
    ReplicationOperation → List ReplicationOperation → List ReplicationOperation
unfolding same_operation
dequeue o [] = []
dequeue o (p ∷ ps) = let rest = dequeue o ps in if same_operation p o then ps else p ∷ rest

unfoldable pub retire : ReplicationOperation → ReplicationEngine → ReplicationEngine
unfolding is_queued dequeue
retire op e =
    if is_queued op e.journal
    then record e {
      journal = dequeue op e.journal;
      stats = record e.stats { operations_pending = e.stats.operations_pending -ℤ pos 1 };
    }
    else e

-- The loop of `_process_journal` over a copy of the journal.
unfoldable pub process_operations :
    Answers → ℕ → List ReplicationOperation → ReplicationEngine → ReplicationEngine
unfolding sync_replicate retire
process_operations answers now [] e = e
process_operations answers now (op ∷ ops) e =
    let (success, e') = sync_replicate answers now op e in
    process_operations answers now ops (if success then retire op e' else e')

unfoldable pub process_journal : Answers → ℕ → ReplicationEngine → ReplicationEngine
unfolding process_operations
process_journal answers now e = process_operations answers now e.journal e

unfoldable pub start_async_replication : ReplicationEngine → ReplicationEngine
start_async_replication e = record e { is_running = true }

unfoldable pub stop_async_replication : ReplicationEngine → ReplicationEngine
stop_async_replication e = record e { is_running = false }

unfoldable pub get_peer_status : String → ReplicationEngine → Option ReplicationPeer
unfolding lookup
get_peer_status node_id e = lookup node_id e.peers
