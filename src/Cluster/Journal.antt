-- ===== src/Cluster/Journal.antt =====
-- activecluster/replication.py: the journal of queued operations, and what a pass over it does.
use storage_appliance_archit.Base.{
  ℕ, ◌+◌, ◌≤◌, ◌<◌, ◌≡◌, refl, ◌∙◌, ap, sym, subst, List, [], ◌∷◌, ◌++◌, append_assoc, Bool, true,
  false, not, if◌then◌else◌, string_key, Bool-cases, inl, inr, length, length-append, arith,
}
use storage_appliance_archit.Base.Int.{pos, ◌-ℤ◌, pos-sub}
use storage_appliance_archit.Purity.Wire.{Bytes, same_bytes}
use storage_appliance_archit.Cluster.Replication.{
  ReplicationOperation, OperationType, OperationData, ReplicationEngine, Answers, same_operation,
  same_type, same_data, is_queued, dequeue, retire, process_operations, process_journal,
}
use storage_appliance_archit.Cluster.Sends.{is_delivered, sync_replicate-Sent, Sent}

-- The sequence numbers increase, and lie above `low` and at most at `high`.
abbrev pub IsWithin : ℕ → ℕ → List ReplicationOperation → Type 0
IsWithin low high [] = low ≤ high
IsWithin low high (o ∷ os) = (low < o.sequence_number) × IsWithin o.sequence_number high os

-- The queued operations carry increasing numbers that were given out, and are counted.
pub record IsSound (e : ReplicationEngine) : Type 0 where
  pub within : IsWithin 0 e.sequence_number e.journal
  pub counted : e.stats.operations_pending ≡ pos (length e.journal)

-- The operations that satisfy a test, in order.
abbrev pub keep :
    (ReplicationOperation → Bool) → List ReplicationOperation → List ReplicationOperation
keep f [] = []
keep f (o ∷ os) = let rest = keep f os in if f o then o ∷ rest else rest

IsWithin-le : (low high : ℕ) (os : List ReplicationOperation) → IsWithin low high os → low ≤ high
IsWithin-le low high [] h = h
IsWithin-le low high (o ∷ os) h =
    let r = IsWithin-le o.sequence_number high os h.1 in let l = h.0 in omega arith

pub IsWithin-length :
    (low high : ℕ) (os : List ReplicationOperation) → IsWithin low high os → length os + low ≤ high
IsWithin-length low high [] h = omega arith
IsWithin-length low high (o ∷ os) h =
    let r = IsWithin-length o.sequence_number high os h.1 in let l = h.0 in ground arith

IsWithin-lower :
    (low low' high : ℕ) (os : List ReplicationOperation)
    → low ≤ low'
    → IsWithin low' high os
    → IsWithin low high os
IsWithin-lower low low' high [] l h = omega arith
IsWithin-lower low low' high (o ∷ os) l h = (omega (arith, h.0), h.1)

pub IsWithin-add :
    (low high : ℕ) (os : List ReplicationOperation) (op : ReplicationOperation)
    → IsWithin low high os
    → op.sequence_number ≡ high + 1
    → IsWithin low (high + 1) (os ++ (op ∷ []))
IsWithin-add low high [] op h q = (omega arith, omega arith)
IsWithin-add low high (o ∷ os) op h q = (h.0, IsWithin-add o.sequence_number high os op h.1 q)

IsWithin-middle :
    (low high : ℕ) (ks os : List ReplicationOperation) (op : ReplicationOperation)
    → IsWithin low high (ks ++ (op ∷ os))
    → low < op.sequence_number
IsWithin-middle low high [] os op h = h.0
IsWithin-middle low high (k ∷ ks) os op h =
    let r = IsWithin-middle k.sequence_number high ks os op h.1 in let l = h.0 in omega arith

IsWithin-drop :
    (low high : ℕ) (ks os : List ReplicationOperation) (op : ReplicationOperation)
    → IsWithin low high (ks ++ (op ∷ os))
    → IsWithin low high (ks ++ os)
IsWithin-drop low high [] os op h =
    IsWithin-lower low op.sequence_number high os (omega (arith, h.0)) h.1
IsWithin-drop low high (k ∷ ks) os op h = (h.0, IsWithin-drop k.sequence_number high ks os op h.1)

same_bytes_self : (bs : Bytes) → same_bytes bs bs ≡ true
unfolding same_bytes
same_bytes_self [] = refl
same_bytes_self (b ∷ bs) = ground (arith, same_bytes_self bs)

same_data_self : (d : OperationData) → same_data d d ≡ true
same_data_self (OperationData.write_data o b f c) = ground (arith, same_bytes_self c)
same_data_self (OperationData.delete_data b) = ground arith

same_type_self : (t : OperationType) → same_type t t ≡ true
same_type_self OperationType.write = refl
same_type_self OperationType.delete = refl

same_operation_self : (o : ReplicationOperation) → same_operation o o ≡ true
unfolding same_operation
same_operation_self o = ground (arith, same_type_self o.operation_type, same_data_self o.payload)

same_operation-ne :
    (k o : ReplicationOperation)
    → k.sequence_number < o.sequence_number
    → same_operation k o ≡ false
unfolding same_operation
same_operation-ne k o l = ground arith

-- An operation that stands in the journal is found there and taken out.
is_queued_middle :
    (low high : ℕ) (ks os : List ReplicationOperation) (op : ReplicationOperation)
    → IsWithin low high (ks ++ (op ∷ os))
    → (is_queued op (ks ++ (op ∷ os)) ≡ true) × (dequeue op (ks ++ (op ∷ os)) ≡ ks ++ os)
unfolding is_queued dequeue
is_queued_middle low high [] os op h =
    let s = same_operation_self op in (ground arith, ground arith)
is_queued_middle low high (k ∷ ks) os op h =
    let (a, b) = is_queued_middle k.sequence_number high ks os op h.1 in
    let n = same_operation-ne k op (IsWithin-middle k.sequence_number high ks os op h.1) in
    (ground arith, ground arith)

-- The engine after a queued operation is taken out.
abbrev taken : List ReplicationOperation → ReplicationEngine → ReplicationEngine
taken journal e = record e {
  journal = journal;
  stats = record e.stats { operations_pending = e.stats.operations_pending -ℤ pos 1 };
}

retire_lem :
    (high : ℕ) (ks os : List ReplicationOperation) (op : ReplicationOperation)
    (e : ReplicationEngine)
    → e.journal ≡ ks ++ (op ∷ os)
    → IsWithin 0 high (ks ++ (op ∷ os))
    → retire op e ≡ taken (ks ++ os) e
unfolding retire
retire_lem high ks os op e q h =
    let (a, b) = is_queued_middle 0 high ks os op h in
    let found : is_queued op e.journal ≡ true = ap (is_queued op) q ∙ a in
    let gone : dequeue op e.journal ≡ ks ++ os = ap (dequeue op) q ∙ b in ground arith

keep-ext :
    (f g : ReplicationOperation → Bool) (os : List ReplicationOperation)
    → ((o : ReplicationOperation) → f o ≡ g o)
    → keep f os ≡ keep g os
keep-ext f g [] h = refl
keep-ext f g (o ∷ os) h = let rest = keep-ext f g os h in let one = h o in ground arith

abbrev pub is_undelivered : Answers → ReplicationEngine → ReplicationOperation → Bool
is_undelivered answers e op = not (is_delivered answers op e.peers)

module _ (answers : Answers) (now : ℕ) where
  -- A pass over `os` leaves the journal of the operations before it and of those that fail.
  pub record Passed (ks os : List ReplicationOperation) (e after : ReplicationEngine) : Type 0 where
    pub same_mode : after.mode ≡ e.mode
    pub same_number : after.sequence_number ≡ e.sequence_number
    pub journal : after.journal ≡ ks ++ keep (is_undelivered answers e) os
    pub sound : IsSound after

  next-Passed :
      (ks ks' os : List ReplicationOperation) (op : ReplicationOperation)
      (e f after : ReplicationEngine)
      → f.mode ≡ e.mode
      → f.sequence_number ≡ e.sequence_number
      → ((r : ReplicationOperation)
          → is_delivered answers r f.peers ≡ is_delivered answers r e.peers)
      → ks' ++ keep (is_undelivered answers e) os ≡ ks ++ keep (is_undelivered answers e) (op ∷ os)
      → Passed ks' os f after
      → Passed ks (op ∷ os) e after
  next-Passed ks ks' os op e f after m n d same p = record {
    same_mode = p.same_mode ∙ m;
    same_number = p.same_number ∙ n;
    journal =
        p.journal
        ∙ ap (λ xs. ks' ++ xs)
            (keep-ext (is_undelivered answers f) (is_undelivered answers e) os (λ r. ap not (d r)))
        ∙ same;
    sound = p.sound;
  }

  -- The journal after the send is `ks ++ os`, or `ks`, `op` and `os`.
  taken-IsSound :
      (ks os : List ReplicationOperation) (op : ReplicationOperation) (e f : ReplicationEngine)
      → f.journal ≡ ks ++ (op ∷ os)
      → IsSound f
      → IsSound (taken (ks ++ os) f)
  taken-IsSound ks os op e f q h = record {
    within =
        IsWithin-drop 0 f.sequence_number ks os op
          (subst (IsWithin 0 f.sequence_number) q h.within);
    counted =
        let n = length-append ks (op ∷ os) in
        let m = length-append ks os in
        let c = h.counted ∙ ap (λ xs. pos (length xs)) q in
        let less = pos-sub (length (ks ++ (op ∷ os))) 1 in ground arith;
  }

  pub Sent-IsSound :
      (op : ReplicationOperation) (e : ReplicationEngine) (s : Sent answers now op e)
      → IsSound e
      → IsSound s.after
  Sent-IsSound op e s h = record {
    within =
        subst (λ n. IsWithin 0 n s.after.journal) (sym s.same_number)
          (subst (IsWithin 0 e.sequence_number) (sym s.same_journal) h.within);
    counted = s.same_pending ∙ h.counted ∙ ap (λ xs. pos (length xs)) (sym s.same_journal);
  }

  pub pass-Passed :
      (ks os : List ReplicationOperation) (e : ReplicationEngine)
      → e.journal ≡ ks ++ os
      → IsSound e
      → Passed ks os e (process_operations answers now os e)
  unfolding process_operations
  pass-Passed ks [] e q h = record { same_mode = refl; same_number = refl; journal = q; sound = h }
  pass-Passed ks (op ∷ os) e q h =
      let s = sync_replicate-Sent answers now op e in
      let queued = s.same_journal ∙ q in
      let sound = Sent-IsSound op e s h in
      elim (Bool-cases (is_delivered answers op e.peers)) [
        | inl t ↦
            let r =
              retire_lem s.after.sequence_number ks os op s.after queued
                (subst (IsWithin 0 s.after.sequence_number) queued sound.within) in
            let f = taken (ks ++ os) s.after in
            subst (λ o. Passed ks (op ∷ os) e (process_operations answers now os o))
              (ground (arith, s.ran))
              (next-Passed ks ks os op e f (process_operations answers now os f) s.same_mode
                s.same_number s.delivers (ground arith)
                (pass-Passed ks os f refl (taken-IsSound ks os op e s.after queued sound)))
        | inr t ↦
            let before = ks ++ (op ∷ []) in
            subst (λ o. Passed ks (op ∷ os) e (process_operations answers now os o))
              (ground (arith, s.ran))
              (next-Passed ks before os op e s.after (process_operations answers now os s.after)
                s.same_mode s.same_number s.delivers
                (let a = append_assoc ks (op ∷ []) (keep (is_undelivered answers e) os) in
                  ground arith)
                (pass-Passed before os s.after (queued ∙ sym (append_assoc ks (op ∷ []) os)) sound))
      ]

  -- In a sound engine a pass over the journal keeps, in order, exactly the operations that no peer
  -- accepts; with no peer it keeps none. The engine stays sound and no number is given out.
  pub process_journal-keep :
      (e : ReplicationEngine)
      → IsSound e
      → ((process_journal answers now e).journal ≡ keep (is_undelivered answers e) e.journal)
        × IsSound (process_journal answers now e)
        × ((process_journal answers now e).sequence_number ≡ e.sequence_number)
  unfolding process_journal
  process_journal-keep e h =
      let p = pass-Passed [] e.journal e refl h in (p.journal, p.sound, p.same_number)

  pub process_journal-mode :
      (e : ReplicationEngine) → IsSound e → (process_journal answers now e).mode ≡ e.mode
  unfolding process_journal
  process_journal-mode e h = (pass-Passed [] e.journal e refl h).same_mode
