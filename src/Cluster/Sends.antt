-- ===== src/Cluster/Sends.antt =====
-- activecluster/replication.py: what a synchronous replication returns and does to the peers.
use storage_appliance_archit.Base.{
  ℕ, ◌+◌, ◌≤◌, ◌≡◌, refl, ◌∙◌, ap, sym, ◌⊎◌, Option, none, some, [], ◌∷◌, ◌++◌, Bool, true, false,
  ◌&&◌, ◌||◌, not, ltb, if◌then◌else◌, String, string_key, inl, inr, arith,
}
use storage_appliance_archit.Base.Dict.{Dict, lookup}
use storage_appliance_archit.Purity.Wire.{Bytes}
use storage_appliance_archit.Cluster.Replication.{
  ReplicationMode, sync, async, write, write_data, hex, next_operation, count_operation, replicate,
  replicate_write, queue_for_async, ReplicationPeer, ReplicationOperation, ReplicationEngine,
  Answer, Answers, accepted, is_broken, send_to_peer, send_all, sync_replicate, count_sends,
}

abbrev pub is_accepted : Answer → Bool
is_accepted accepted = true
is_accepted _ = false

-- A peer that is not broken and answers with status 200.
abbrev pub accepts : Answers → ReplicationOperation → ReplicationPeer → Bool
accepts answers op p = not (is_broken p.state) && is_accepted (answers p.node_id op)

abbrev pub any_accepts : Answers → ReplicationOperation → Dict String ReplicationPeer → Bool
any_accepts answers op [] = false
any_accepts answers op ((j, p) ∷ d) = accepts answers op p || any_accepts answers op d

-- An operation counts as replicated where some peer accepts it, or where there is no peer.
abbrev pub is_delivered : Answers → ReplicationOperation → Dict String ReplicationPeer → Bool
is_delivered answers op [] = true
is_delivered answers op (x ∷ d) = any_accepts answers op (x ∷ d)

-- The peers that a send goes to.
abbrev pub reached : Dict String ReplicationPeer → ℕ
reached [] = 0
reached ((j, p) ∷ d) = if is_broken p.state then reached d else reached d + 1

-- The peer after a send.
abbrev pub peer_after :
    Answers → ℕ → ReplicationOperation → Option ReplicationPeer → Option ReplicationPeer
peer_after answers now op none = none
peer_after answers now op (some p) =
    some (if is_broken p.state then p else (send_to_peer (answers p.node_id op) now p).1)

module _ (answers : Answers) (now : ℕ) (op : ReplicationOperation) where
  send_all-count :
      (d : Dict String ReplicationPeer)
      → ltb 0 (send_all answers now op d).0 ≡ any_accepts answers op d
  unfolding send_all send_to_peer
  send_all-count [] = refl
  send_all-count ((j, p) ∷ d) = let rest = send_all-count d in ground arith

  send_all-errors :
      (d : Dict String ReplicationPeer)
      → (send_all answers now op d).0 + (send_all answers now op d).2 ≡ reached d
  unfolding send_all send_to_peer
  send_all-errors [] = refl
  send_all-errors ((j, p) ∷ d) = let rest = send_all-errors d in ground arith

  send_all-lookup :
      (j : String) (d : Dict String ReplicationPeer)
      → lookup j (send_all answers now op d).1 ≡ peer_after answers now op (lookup j d)
  unfolding send_all send_to_peer lookup
  send_all-lookup j [] = refl
  send_all-lookup j ((i, p) ∷ d) = let rest = send_all-lookup j d in ground arith

  send_all-accepts :
      (q : ReplicationOperation) (d : Dict String ReplicationPeer)
      → any_accepts answers q (send_all answers now op d).1 ≡ any_accepts answers q d
  unfolding send_all send_to_peer
  send_all-accepts q [] = refl
  send_all-accepts q ((j, p) ∷ d) = let rest = send_all-accepts q d in ground arith

  send_all-delivered :
      (q : ReplicationOperation) (x : String × ReplicationPeer) (d : Dict String ReplicationPeer)
      → is_delivered answers q (send_all answers now op (x ∷ d)).1 ≡ any_accepts answers q (x ∷ d)
  unfolding send_all send_to_peer
  send_all-delivered q (j, p) d = let rest = send_all-accepts q d in ground arith

  -- What a synchronous replication does.
  pub record Sent (e : ReplicationEngine) : Type 0 where
    pub after : ReplicationEngine
    pub ran : sync_replicate answers now op e ≡ (is_delivered answers op e.peers, after)
    pub peers : (j : String) → lookup j after.peers ≡ peer_after answers now op (lookup j e.peers)
    pub delivers :
        (q : ReplicationOperation)
        → is_delivered answers q after.peers ≡ is_delivered answers q e.peers
    pub errors : e.stats.replication_errors ≤ after.stats.replication_errors
    pub few_errors : after.stats.replication_errors ≤ e.stats.replication_errors + reached e.peers
    pub same_journal : after.journal ≡ e.journal
    pub same_mode : after.mode ≡ e.mode
    pub same_number : after.sequence_number ≡ e.sequence_number
    pub same_pending : after.stats.operations_pending ≡ e.stats.operations_pending

  -- A synchronous replication returns whether some peer that is not broken accepts the operation, or
  -- there is no peer; the peers that are not broken take the state of their answer, no peer comes or
  -- goes, at most one error is counted for each peer reached, and the journal stays.
  pub sync_replicate-Sent : (e : ReplicationEngine) → Sent e
  unfolding sync_replicate lookup
  sync_replicate-Sent e = sent e.peers refl
    where
      sent : (d : Dict String ReplicationPeer) → e.peers ≡ d → Sent e
      sent [] q = record {
        after = e;
        ran = ground arith;
        peers = λ j. ground arith;
        delivers = λ r. refl;
        errors = omega arith;
        few_errors = omega arith;
        same_journal = refl;
        same_mode = refl;
        same_number = refl;
        same_pending = refl;
      }
      sent (x ∷ d) q =
          let n = send_all-count (x ∷ d) in
          let m = send_all-errors (x ∷ d) in
          record {
            after = (count_sends (send_all answers now op (x ∷ d)) e).1;
            ran = ground arith;
            peers = λ j.
                send_all-lookup j (x ∷ d)
                ∙ ap (λ t. peer_after answers now op (lookup j t)) (sym q);
            delivers = λ r. send_all-delivered r x d ∙ ap (is_delivered answers r) (sym q);
            errors = omega arith;
            few_errors = ground arith;
            same_journal = refl;
            same_mode = refl;
            same_number = refl;
            same_pending = refl;
          }

abbrev pub is_async : ReplicationMode → Bool
is_async async = true
is_async sync = false

mode_cases : (m : ReplicationMode) → (m ≡ sync) ⊎ (m ≡ async)
mode_cases sync = inl refl
mode_cases async = inr refl

-- A write is acknowledged in asynchronous mode, and the journal ends with it; in synchronous mode it
-- is acknowledged where a peer accepts it or there is no peer, and the journal stays in either case.
pub replicate_write-acks :
    (answers : Answers) (volume_id : String) (offset : ℕ) (block_id fingerprint : String)
    (content : Bytes) (now : ℕ) (e : ReplicationEngine)
    → let payload = write_data offset block_id fingerprint (hex content) in
      let op = next_operation write volume_id payload now e in
      let r = replicate_write answers volume_id offset block_id fingerprint content now e in
      (r.0 ≡ (is_async e.mode || is_delivered answers op e.peers))
      × (r.1.journal ≡ (if is_async e.mode then e.journal ++ (op ∷ []) else e.journal))
      × (r.1.sequence_number ≡ e.sequence_number + 1)
unfolding replicate_write replicate queue_for_async
replicate_write-acks answers volume_id offset block_id fingerprint content now e =
    let payload = write_data offset block_id fingerprint (hex content) in
    let op = next_operation write volume_id payload now e in
    let s = sync_replicate-Sent answers now op (count_operation e) in
    let ran = s.ran in
    let j = s.same_journal in
    let n = s.same_number in
    elim (mode_cases e.mode) [
      | inl m ↦ (ground arith, ground arith, ground arith)
      | inr m ↦ (ground arith, ground arith, ground arith)
    ]
