-- ===== src/Flash/Writes.antt =====
-- directflash/simulator.py: `write` refines a map from addresses to contents.
use storage_appliance_archit.Base.{
  nat_key, ℕ, ◌≡◌, ◌∙◌, refl, sym, subst, ite, Option, none, some, arith, Option-cases, Bool-cases,
  List-cases, inl, inr, ok, raise, value_error, Result, continue, ◌>>=◌, ltb, length,
}
use storage_appliance_archit.Base.Dict.{lookup}
use storage_appliance_archit.Flash.Block.{Bytes, BlockManager, write_block}
use storage_appliance_archit.Flash.Links.{status}
use storage_appliance_archit.Flash.Sound.{IsSound, SameTotals}
use storage_appliance_archit.Flash.View.{view, held}
use storage_appliance_archit.Flash.Write.{seen, write_block-stores}
use storage_appliance_archit.Flash.State.{Flash, on_manager}
use storage_appliance_archit.Flash.Collector.{run_gc_cycle}
use storage_appliance_archit.Flash.Steady.{Steady, Steady-refl, Steady-trans, run_gc_cycle-IsSteady}
use storage_appliance_archit.Flash.Simulator.{write_again, or_retry, write_attempts, or_io_error}

-- An address that reads nothing is not in the table.
pub seen-none :
    (la : ℕ) (m : BlockManager) → IsSound m → seen m la ≡ none → lookup la m.l2p_table ≡ none
unfolding view held status
seen-none la m h e = elim (Option-cases (lookup la m.l2p_table)) [
  | inl k ↦ k
  | inr (p, k) ↦ elim (Option-cases (lookup p m.blocks)) [
    | inl n ↦ absurd (ground (arith, h.linked.mapped la p (λ z. cc) k))
    | inr (b, n) ↦ absurd (ground (arith, h.linked.mapped la p (λ z. cc) k))
  ]
]

-- What an attempt to store content at an unused address comes to: the content is there, or nothing
-- that a reader sees has changed.
pub record Placed (la : ℕ) (content : Bytes) (s t : Flash) : Type 0 where
  pub sound : IsSound t.manager
  pub seen_after :
      (a : ℕ) → seen t.manager a ≡ ite (nat_key.dec la a) (some content) (seen s.manager a)
  pub same_totals : SameTotals s.manager t.manager
  pub same_next : t.next_logical_address ≡ s.next_logical_address

abbrev pub Tried : ℕ → Bytes → Flash → Result (Option ℕ) × Flash → Type 0
Tried la content s (ok none, t) = Steady s t
Tried la content s (ok (some p), t) = Placed la content s t
Tried la content s (raise e, t) = Steady s t

module _ (la : ℕ) (content : Bytes) where
  pub write_block-Tried :
      (s : Flash)
      → IsSound s.manager
      → seen s.manager la ≡ none
      → Tried la content s (on_manager (write_block la content) s)
  write_block-Tried s h e = elim (Bool-cases (ltb s.manager.block_size (length content))) [
    | inl t ↦
        let run : on_manager (write_block la content) s ≡ (raise value_error, s) =
          unfold write_block in ground arith in
        subst (Tried la content s) (sym run) (Steady-refl s h)
    | inr t ↦ elim (List-cases s.manager.free_pool) [
      | inl k ↦
          let run : on_manager (write_block la content) s ≡ (ok none, s) =
            unfold write_block in ground (arith, seen-none la s.manager h e) in
          subst (Tried la content s) (sym run) (Steady-refl s h)
      | inr (q, qs, k) ↦
          let (p, m', run, st) =
            write_block-stores la content s.manager h (ground arith) (λ z. cc) in
          let after : on_manager (write_block la content) s
              ≡ (ok (some p), record s { manager = m' }) =
            ground arith in
          subst (Tried la content s) (sym after) (record {
            sound = st.sound;
            seen_after = st.seen_after;
            same_totals = st.same_totals;
            same_next = refl;
          })
    ]
  ]

  -- The two attempts of `write` together.
  abbrev pub Attempted : Flash → Result (Unit {0}) × Flash → Type 0
  Attempted s (ok u, t) = Placed la content s t
  Attempted s (raise e, t) = Steady s t

  Placed-after : (s t u : Flash) → Steady s t → Placed la content t u → Placed la content s u
  Placed-after s t u h k = record {
    sound = k.sound;
    seen_after = λ a. ground (arith, k.seen_after a, h.seen_after a);
    same_totals = (k.same_totals.0 ∙ h.same_totals.0, k.same_totals.1 ∙ h.same_totals.1);
    same_next = k.same_next ∙ h.same_next;
  }

  or_io_error-Attempted :
      (s t : Flash) (o : Result (Option ℕ) × Flash)
      → Steady s t
      → Tried la content t o
      → Attempted s (continue o or_io_error)
  or_io_error-Attempted s t (ok none, u) h k = Steady-trans s t u h k
  or_io_error-Attempted s t (ok (some p), u) h k = Placed-after s t u h k
  or_io_error-Attempted s t (raise e, u) h k = Steady-trans s t u h k

  -- After a collection that returned or raised, the second attempt.
  after_gc-Attempted :
      (s : Flash) (o : Result ℕ × Flash)
      → Steady s o.1
      → seen s.manager la ≡ none
      → Attempted s (continue o (λ _. on_manager (write_block la content) >>= or_io_error))
  after_gc-Attempted s (raise e, t) h k = h
  after_gc-Attempted s (ok n, t) h k =
      or_io_error-Attempted s t (on_manager (write_block la content) t) h
        (write_block-Tried t h.sound (h.seen_after la ∙ k))

  write_again-Attempted :
      (s : Flash)
      → IsSound s.manager
      → seen s.manager la ≡ none
      → Attempted s (write_again la content s)
  unfolding write_again
  write_again-Attempted s h k = after_gc-Attempted s (run_gc_cycle s) (run_gc_cycle-IsSteady s h) k

  Attempted-after :
      (s t : Flash) (o : Result (Unit {0}) × Flash) → Steady s t → Attempted t o → Attempted s o
  Attempted-after s t (ok x, u) h k = Placed-after s t u h k
  Attempted-after s t (raise e, u) h k = Steady-trans s t u h k

  retry-Attempted :
      (s : Flash) (o : Result (Option ℕ) × Flash)
      → Tried la content s o
      → seen s.manager la ≡ none
      → Attempted s (continue o (or_retry la content))
  unfolding or_retry
  retry-Attempted s (raise e, t) h k = h
  retry-Attempted s (ok (some p), t) h k = h
  retry-Attempted s (ok none, t) h k =
      Attempted-after s t (write_again la content t) h
        (write_again-Attempted t h.sound (h.seen_after la ∙ k))

  -- Both attempts together either place the content or change nothing that a reader sees.
  pub write_attempts-Attempted :
      (s : Flash)
      → IsSound s.manager
      → seen s.manager la ≡ none
      → Attempted s (write_attempts la content s)
  unfolding write_attempts
  write_attempts-Attempted s h k =
      retry-Attempted s (on_manager (write_block la content) s) (write_block-Tried s h k) k
