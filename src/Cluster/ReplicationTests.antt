-- ===== src/Cluster/ReplicationTests.antt =====
-- activecluster/replication.py: two peers, of which one answers, and a journal of two operations.
use storage_appliance_archit.Base.{
  ◌≤◌, ◌≡◌, refl, List, [], ◌∷◌, true, string_discrete, ite, length, ◌++◌, arith, ℕ_discrete,
}
use storage_appliance_archit.Base.Int.{pos}
use storage_appliance_archit.Base.Dict.{lookup, insert, erase}
use storage_appliance_archit.Cluster.Replication.{
  ReplicationEngine, ReplicationOperation, Answers, new_replication, sync, async, accepted,
  unreachable, add_peer, replicate_write, process_journal, hex, write, write_data, next_operation,
  sync_replicate,
}
use storage_appliance_archit.Cluster.Sends
use storage_appliance_archit.Cluster.Sends.{Sent}
use storage_appliance_archit.Cluster.Journal
use storage_appliance_archit.Cluster.Journal.{IsSound, keep, is_undelivered}
use storage_appliance_archit.Cluster.JournalRuns
use storage_appliance_archit.Cluster.JournalRuns.{Call, run}
use storage_appliance_archit.Cluster.JournalLog
use storage_appliance_archit.Cluster.JournalLog.{is_accounted}

-- What the tests compute with.
program : Unit {0}
unfolding ℕ_discrete lookup insert erase string_discrete new_replication add_peer replicate_write
    process_journal sync_replicate hex run
program = tt

-- The peer "b" answers the first operation only, the peer "c" none.
abbrev answers : Answers
answers j op =
    ite (string_discrete j "b") (ite (ℕ_discrete op.sequence_number 1) accepted unreachable)
      unreachable

abbrev calls : List Call
calls =
    Call.join "b" "http://b" 5
    ∷ Call.join "c" "http://c" 6
    ∷ Call.write answers "v" 0 "k" "f" (18 ∷ []) 7
    ∷ Call.write answers "v" 1 "l" "g" (255 ∷ []) 8
    ∷ []

abbrev queued : ReplicationEngine
queued = (run (new_replication "a" async) [] calls).0

queued-IsSound : IsSound queued
queued-IsSound =
    JournalRuns.run-IsSound (new_replication "a" async) [] calls (JournalRuns.new-IsSound "a" async)

process_journal-keep_example :
    ((process_journal answers 9 queued).journal
      ≡ keep (is_undelivered answers queued) queued.journal)
    × IsSound (process_journal answers 9 queued)
    × ((process_journal answers 9 queued).sequence_number ≡ queued.sequence_number)
process_journal-keep_example = Journal.process_journal-keep answers 9 queued queued-IsSound

-- One of the two operations stays.
one_left : length (process_journal answers 9 queued).journal ≡ 1
unfolding program
one_left = refl

run-bounds_example :
    (length queued.journal ≤ queued.sequence_number)
    × (queued.stats.operations_pending ≡ pos (length queued.journal))
run-bounds_example = JournalRuns.run-bounds "a" async calls

abbrev passed : List Call
passed = calls ++ (Call.process answers 9 ∷ [])

two : (run (new_replication "a" async) [] passed).0.sequence_number ≡ 2
unfolding program
two = refl

run-accounts_example :
    is_accounted 1
      (run (new_replication "a" async) [] passed).0
      (run (new_replication "a" async) [] passed).1
    ≡ true
unfolding program
run-accounts_example = JournalLog.run-accounts "a" passed 1 (omega arith) (omega (arith, two))

abbrev first_write : ReplicationOperation
first_write =
    next_operation write "v" (write_data 0 "k" "f" (hex (18 ∷ []))) 7 (new_replication "a" sync)

sync_replicate-Sent_example : Sent answers 9 first_write queued
sync_replicate-Sent_example = Sends.sync_replicate-Sent answers 9 first_write queued
