-- ===== src/Cluster/JournalRuns.antt =====
-- activecluster/replication.py: runs of calls of the replication engine and of passes over its
-- journal.
use storage_appliance_archit.Base.{
  ℕ, ◌+◌, ◌≤◌, ◌≡◌, refl, ◌∙◌, ap, sym, subst, List, [], ◌∷◌, ◌++◌, String, string_key, inl, inr,
  Option-cases, length, length-append, arith, map,
}
use storage_appliance_archit.Base.Int.{pos, ◌+ℤ◌, pos-add}
use storage_appliance_archit.Base.Dict.{lookup}
use storage_appliance_archit.Purity.Wire.{Bytes}
use storage_appliance_archit.Cluster.Replication.{
  ReplicationMode, ReplicationOperation, ReplicationEngine, Answers, replicate, replicate_write,
  replicate_delete, next_operation, count_operation, process_journal, queue_for_async,
  new_replication, add_peer, remove_peer, sync_replicate, sync, async,
}
use storage_appliance_archit.Cluster.Sends.{is_delivered, sync_replicate-Sent}
use storage_appliance_archit.Cluster.Journal.{
  IsSound, IsWithin, IsWithin-add, IsWithin-length, keep, Sent-IsSound, process_journal-keep,
}

pub data Call : Type 0 where
  write : Answers → String → ℕ → String → String → Bytes → ℕ → Call
  delete : Answers → String → String → ℕ → Call
  process : Answers → ℕ → Call
  join : String → String → ℕ → Call
  leave : String → Call

-- What a call does to the engine.
unfoldable pub step : ReplicationEngine → Call → ReplicationEngine
unfolding replicate_write replicate_delete process_journal add_peer remove_peer
step e (write answers v o b f c now) = (replicate_write answers v o b f c now e).1
step e (delete answers v b now) = (replicate_delete answers v b now e).1
step e (process answers now) = process_journal answers now e
step e (join node_id url now) = (add_peer node_id url now e).1
step e (leave node_id) = (remove_peer node_id e).1

-- The operations that a call takes off the journal: those that the peers accept in a pass.
abbrev pub delivered_by : ReplicationEngine → Call → List ReplicationOperation
delivered_by e (process answers now) = keep (λ op. is_delivered answers op e.peers) e.journal
delivered_by e _ = []

-- The engine after the calls, and all operations that were delivered from the journal.
unfoldable pub run :
    ReplicationEngine
    → List ReplicationOperation
    → List Call
    → ReplicationEngine × List ReplicationOperation
unfolding step
run e done [] = (e, done)
run e done (c ∷ cs) = run (step e c) (done ++ delivered_by e c) cs

abbrev pub numbers : List ReplicationOperation → List ℕ
numbers os = map (λ o. o.sequence_number) os

IsWithin-higher :
    (low high : ℕ) (os : List ReplicationOperation)
    → IsWithin low high os
    → IsWithin low (high + 1) os
IsWithin-higher low high [] h = omega arith
IsWithin-higher low high (o ∷ os) h = (h.0, IsWithin-higher o.sequence_number high os h.1)

-- Either mode: an operation is sent at once, or queued.
module _ (answers : Answers) (now : ℕ) (op : ReplicationOperation) (e : ReplicationEngine) where
  queue_for_async-IsSound :
      op.sequence_number ≡ e.sequence_number + 1
      → IsSound e
      → IsSound (queue_for_async op (count_operation e))
  unfolding queue_for_async
  queue_for_async-IsSound q h = record {
    within = IsWithin-add 0 e.sequence_number e.journal op h.within q;
    counted =
        ap (λ n. n +ℤ pos 1) h.counted
        ∙ pos-add (length e.journal) 1
        ∙ ap pos (sym (length-append e.journal (op ∷ [])));
  }

  sync_replicate-IsSound : IsSound e → IsSound (sync_replicate answers now op (count_operation e)).1
  sync_replicate-IsSound h =
      let s = sync_replicate-Sent answers now op (count_operation e) in
      subst (λ o. IsSound o.1) (sym s.ran)
        (Sent-IsSound answers now op (count_operation e) s (record {
          within = IsWithin-higher 0 e.sequence_number e.journal h.within;
          counted = h.counted;
        }))

  replicate-sends :
      e.mode ≡ sync
      → (replicate answers now op (count_operation e)).1
        ≡ (sync_replicate answers now op (count_operation e)).1
  unfolding replicate
  replicate-sends m = ground arith

  pub replicate-queues :
      e.mode ≡ async
      → (replicate answers now op (count_operation e)).1 ≡ queue_for_async op (count_operation e)
  unfolding replicate
  replicate-queues m = ground arith

  replicate-IsSound :
      op.sequence_number ≡ e.sequence_number + 1
      → IsSound e
      → IsSound (replicate answers now op (count_operation e)).1
  replicate-IsSound q h = by_mode e.mode refl
    where
      by_mode :
          (m : ReplicationMode)
          → e.mode ≡ m
          → IsSound (replicate answers now op (count_operation e)).1
      by_mode sync m = subst IsSound (sym (replicate-sends m)) (sync_replicate-IsSound h)
      by_mode async m = subst IsSound (sym (replicate-queues m)) (queue_for_async-IsSound q h)

pub remove_peer-same :
    (node_id : String) (e : ReplicationEngine)
    → ((remove_peer node_id e).1.journal ≡ e.journal)
      × ((remove_peer node_id e).1.sequence_number ≡ e.sequence_number)
      × ((remove_peer node_id e).1.stats ≡ e.stats)
      × ((remove_peer node_id e).1.mode ≡ e.mode)
unfolding remove_peer
remove_peer-same node_id e = elim (Option-cases (lookup node_id e.peers)) [
  | inl q ↦ (ground arith, ground arith, ground arith, ground arith)
  | inr (p, q) ↦ (ground arith, ground arith, ground arith, ground arith)
]

pub step-IsSound : (e : ReplicationEngine) (c : Call) → IsSound e → IsSound (step e c)
unfolding step replicate_write replicate_delete add_peer remove_peer
step-IsSound e (write answers v o b f c now) h =
    replicate-IsSound answers now (next_operation _ v _ now e) e refl h
step-IsSound e (delete answers v b now) h =
    replicate-IsSound answers now (next_operation _ v _ now e) e refl h
step-IsSound e (process answers now) h = (process_journal-keep answers now e h).1
step-IsSound e (join node_id url now) h = record { within = h.within; counted = h.counted }
step-IsSound e (leave node_id) h =
    let (j, n, t, m) = remove_peer-same node_id e in
    record {
      within =
          subst (IsWithin 0 (step e (leave node_id)).sequence_number) (sym j)
            (subst (λ k. IsWithin 0 k e.journal) (sym n) h.within);
      counted = ap (λ s. s.operations_pending) t ∙ h.counted ∙ ap (λ xs. pos (length xs)) (sym j);
    }

pub run-IsSound :
    (e : ReplicationEngine) (done : List ReplicationOperation) (cs : List Call)
    → IsSound e
    → IsSound (run e done cs).0
unfolding run
run-IsSound e done [] h = h
run-IsSound e done (c ∷ cs) h =
    run-IsSound (step e c) (done ++ delivered_by e c) cs (step-IsSound e c h)

pub new-IsSound :
    (node_id : String) (mode : ReplicationMode) → IsSound (new_replication node_id mode)
unfolding new_replication
new-IsSound node_id mode = record { within = omega arith; counted = refl }

-- After any calls of a new engine, in either mode, the journal is not longer than the count of
-- operations so far, and its length is the count of pending operations.
pub run-bounds :
    (node_id : String) (mode : ReplicationMode) (cs : List Call)
    → let e = (run (new_replication node_id mode) [] cs).0 in
      (length e.journal ≤ e.sequence_number) × (e.stats.operations_pending ≡ pos (length e.journal))
run-bounds node_id mode cs =
    let e = (run (new_replication node_id mode) [] cs).0 in
    let h = run-IsSound (new_replication node_id mode) [] cs (new-IsSound node_id mode) in
    let w = IsWithin-length 0 e.sequence_number e.journal h.within in (omega arith, h.counted)
