-- ===== src/Cluster/JournalLog.antt =====
-- activecluster/replication.py: an engine in asynchronous mode loses no operation.
use storage_appliance_archit.Base.{
  ℕ, ◌+◌, ◌≤◌, ◌≡◌, refl, ◌∙◌, ap, subst, List, [], ◌∷◌, ◌++◌, Bool, true, ◌||◌, not, String,
  string_key, arith, contains, ℕ_discrete,
}
use storage_appliance_archit.Cluster.Replication.{
  ReplicationOperation, ReplicationEngine, Answers, replicate, replicate_write, replicate_delete,
  process_journal, queue_for_async, new_replication, add_peer, async, count_operation,
  next_operation,
}
use storage_appliance_archit.Cluster.Sends.{is_delivered}
use storage_appliance_archit.Cluster.Journal.{
  IsSound, keep, process_journal-keep, process_journal-mode,
}
use storage_appliance_archit.Cluster.JournalRuns.{
  Call, write, delete, process, join, leave, step, run, delivered_by, numbers, replicate-queues,
  remove_peer-same, step-IsSound, new-IsSound,
}

contains-append :
    (n : ℕ) (xs ys : List ReplicationOperation)
    → contains n (numbers (xs ++ ys)) ≡ (contains n (numbers xs) || contains n (numbers ys))
contains-append n [] ys = refl
contains-append n (x ∷ xs) ys = let r = contains-append n xs ys in ground arith

contains-keep :
    (f : ReplicationOperation → Bool) (n : ℕ) (os : List ReplicationOperation)
    → contains n (numbers os)
      ≡ (contains n (numbers (keep (λ o. not (f o)) os)) || contains n (numbers (keep f os)))
contains-keep f n [] = refl
contains-keep f n (o ∷ os) = let r = contains-keep f n os in ground arith

-- Every number that was given out is of a queued operation or of a delivered one.
abbrev pub is_accounted : ℕ → ReplicationEngine → List ReplicationOperation → Bool
is_accounted n e done = contains n (numbers e.journal) || contains n (numbers done)

pub record IsAccounted (e : ReplicationEngine) (done : List ReplicationOperation) : Type 0 where
  pub sound : IsSound e
  pub in_async : e.mode ≡ async
  pub all : (n : ℕ) → 1 ≤ n → n ≤ e.sequence_number → is_accounted n e done ≡ true

module _ (e : ReplicationEngine) (done : List ReplicationOperation) (h : IsAccounted e done) where
  queued-IsAccounted :
      (op : ReplicationOperation) (n : ℕ)
      → op.sequence_number ≡ e.sequence_number + 1
      → 1 ≤ n
      → n ≤ e.sequence_number + 1
      → is_accounted n (queue_for_async op (count_operation e)) (done ++ []) ≡ true
  unfolding queue_for_async
  queued-IsAccounted op n q a b =
      let r = contains-append n e.journal (op ∷ []) in
      let s = contains-append n done [] in
      elim (ℕ_discrete n (e.sequence_number + 1)) [
        | yes p ↦ ground arith
        | no p ↦ let old = h.all n a (omega arith) in ground arith
      ]

  processed-IsAccounted :
      (answers : Answers) (now n : ℕ)
      → 1 ≤ n
      → n ≤ e.sequence_number
      → is_accounted n
          (process_journal answers now e)
          (done ++ keep (λ op. is_delivered answers op e.peers) e.journal)
        ≡ true
  processed-IsAccounted answers now n a b =
      let (j, s, k) = process_journal-keep answers now e h.sound in
      let r = contains-append n done (keep (λ op. is_delivered answers op e.peers) e.journal) in
      let t = contains-keep (λ op. is_delivered answers op e.peers) n e.journal in
      let l = ap (λ xs. contains n (numbers xs)) j in let old = h.all n a b in ground arith

-- A submitted operation is queued.
submitted-IsAccounted :
    (answers : Answers) (now : ℕ) (op : ReplicationOperation) (e : ReplicationEngine)
    (done : List ReplicationOperation)
    → op.sequence_number ≡ e.sequence_number + 1
    → IsAccounted e done
    → IsSound (replicate answers now op (count_operation e)).1
    → IsAccounted (replicate answers now op (count_operation e)).1 (done ++ [])
unfolding queue_for_async
submitted-IsAccounted answers now op e done q h sound =
    let queued = replicate-queues answers now op e h.in_async in
    record {
      sound = sound;
      in_async = ap (λ o. o.mode) queued ∙ h.in_async;
      all = λ n a b.
          ap (λ o. is_accounted n o (done ++ [])) queued
          ∙ queued-IsAccounted e done h op n q a
              (subst (λ k. n ≤ k) (ap (λ o. o.sequence_number) queued) b);
    }

step-IsAccounted :
    (e : ReplicationEngine) (done : List ReplicationOperation) (c : Call)
    → IsAccounted e done
    → IsAccounted (step e c) (done ++ delivered_by e c)
unfolding step replicate_write replicate_delete add_peer
step-IsAccounted e done (write answers v o b f c now) h =
    submitted-IsAccounted answers now (next_operation _ v _ now e) e done refl h
      (step-IsSound e (write answers v o b f c now) h.sound)
step-IsAccounted e done (delete answers v b now) h =
    submitted-IsAccounted answers now (next_operation _ v _ now e) e done refl h
      (step-IsSound e (delete answers v b now) h.sound)
step-IsAccounted e done (process answers now) h = record {
  sound = step-IsSound e (process answers now) h.sound;
  in_async = process_journal-mode answers now e h.sound ∙ h.in_async;
  all = λ n a b.
      processed-IsAccounted e done h answers now n a
        (subst (λ k. n ≤ k) (process_journal-keep answers now e h.sound).2 b);
}
step-IsAccounted e done (join node_id url now) h = record {
  sound = step-IsSound e (join node_id url now) h.sound;
  in_async = h.in_async;
  all = λ n a b. let s = contains-append n done [] in let old = h.all n a b in ground arith;
}
step-IsAccounted e done (leave node_id) h =
    let (j, k, t, m) = remove_peer-same node_id e in
    record {
      sound = step-IsSound e (leave node_id) h.sound;
      in_async = m ∙ h.in_async;
      all = λ n a b.
          let s = contains-append n done [] in
          let l = ap (λ xs. contains n (numbers xs)) j in
          let old = h.all n a (subst (λ i. n ≤ i) k b) in ground arith;
    }

run-IsAccounted :
    (e : ReplicationEngine) (done : List ReplicationOperation) (cs : List Call)
    → IsAccounted e done
    → IsAccounted (run e done cs).0 (run e done cs).1
unfolding run
run-IsAccounted e done [] h = h
run-IsAccounted e done (c ∷ cs) h =
    run-IsAccounted (step e c) (done ++ delivered_by e c) cs (step-IsAccounted e done c h)

-- After any calls of a new engine in asynchronous mode, each operation number that was given out is
-- that of an operation in the journal, or of one that a pass over the journal delivered: one that
-- some peer accepted, or that met no peer.
pub run-accounts :
    (node_id : String) (cs : List Call) (n : ℕ)
    → 1 ≤ n
    → n ≤ (run (new_replication node_id async) [] cs).0.sequence_number
    → is_accounted n
        (run (new_replication node_id async) [] cs).0
        (run (new_replication node_id async) [] cs).1
      ≡ true
unfolding new_replication
run-accounts node_id cs n a b =
    (run-IsAccounted (new_replication node_id async) [] cs (record {
      sound = new-IsSound node_id async;
      in_async = refl;
      all = λ k c d. absurd (omega arith);
    })).all
      n a b
