-- ===== src/Flash/Ready.antt =====
-- directflash/simulator.py: the simulator refines a map from addresses to contents. Its methods
-- keep `IsReady`; a client sees of a state only `contents`.
use storage_appliance_archit.Base.{
  nat_key, ℕ, suc, ◌+◌, ◌≤◌, ◌≡◌, ◌≢◌, ◌∙◌, refl, ite, Option, none, some, Bool, true, false, arith,
  Option-cases, inl, inr, ok, raise, Result, continue, ltb,
}
use storage_appliance_archit.Base.Dict.{lookup, insert, total}
use storage_appliance_archit.Flash.Block.{bad, Bytes, PhysicalBlock, BlockManager}
use storage_appliance_archit.Flash.Sound.{IsSound, valid_wear}
use storage_appliance_archit.Flash.View.{view, held}
use storage_appliance_archit.Flash.Write.{seen}
use storage_appliance_archit.Flash.State.{Flash}
use storage_appliance_archit.Flash.Report.{get_stats-returns}
use storage_appliance_archit.Flash.Leveler.{
  record_write, write_count, should_level, run_leveling_pass,
}
use storage_appliance_archit.Flash.Steady.{Steady}
use storage_appliance_archit.Flash.Leveling.{leveling_loop-ends}
use storage_appliance_archit.Flash.Writes.{Attempted, write_attempts-Attempted}
use storage_appliance_archit.Flash.Simulator.{write_attempts, after_write, write}

-- What a client can read at each address.
abbrev pub contents : Flash → ℕ → Option Bytes
contents s = seen s.manager

-- The invariant of the simulator: a sound manager over at least one block, and no content from the
-- next address on.
pub record IsReady (s : Flash) : Type 0 where
  pub sound : IsSound s.manager
  pub unused : (a : ℕ) → s.next_logical_address ≤ a → contents s a ≡ none
  pub some_blocks : s.manager.total_blocks ≢ 0
  pub some_counted : s.manager.stats.total_blocks ≢ 0

-- An address with content leads to a valid block.
seen-some :
    (la : ℕ) (c : Bytes) (m : BlockManager)
    → seen m la ≡ some c
    → (p : ℕ) × (b : PhysicalBlock) × (lookup p m.blocks ≡ some b) × (b.state ≢ bad)
unfolding view held
seen-some la c m e = elim (Option-cases (lookup la m.l2p_table)) [
  | inl k ↦ absurd (ground arith)
  | inr (p, k) ↦ elim (Option-cases (lookup p m.blocks)) [
    | inl n ↦ absurd (ground arith)
    | inr (b, n) ↦ (p, b, n, λ z. ground arith)
  ]
]

should_level-returns :
    (s : Flash) (p : ℕ) (b : PhysicalBlock)
    → lookup p s.manager.blocks ≡ some b
    → b.state ≢ bad
    → s.manager.total_blocks ≢ 0
    → s.manager.stats.total_blocks ≢ 0
    → (needed : Bool) × (should_level s ≡ (ok needed, s))
unfolding should_level
should_level-returns s p b e h t t' =
    let (r, k) = get_stats-returns p b s.manager e h t t' in
    (ltb (r.min_erase_count + s.leveling.threshold) r.max_erase_count, ground arith)

-- The state after `record_write`.
abbrev counted : ℕ → Flash → Flash
counted la s = record s {
  leveling = record s.leveling {
    write_counts = insert la (write_count la s.leveling.write_counts + 1) s.leveling.write_counts;
  };
}

-- The end of `write`, by what `should_level` says.
after_write-by :
    (la : ℕ) (needed : Bool) (s : Flash)
    → should_level (counted la s) ≡ (ok needed, counted la s)
    → IsSound s.manager
    → (t : Flash) × (after_write la s ≡ (ok la, t)) × Steady s t
unfolding after_write record_write
after_write-by la false s e h = (
  counted la s,
  rw e refl,
  record { sound = h; seen_after = λ a. refl; same_totals = (refl, refl); same_next = refl },
)
after_write-by la true s e h =
    let (k, t, ends, st, _, _) =
      leveling_loop-ends (suc (total valid_wear s.manager.blocks)) 0 (counted la s) h
        (omega arith) in
    let pass : run_leveling_pass (counted la s) ≡ (ok (some k), t) =
      unfold run_leveling_pass in rw e ends in
    (
      t,
      rw e (rw pass refl),
      record {
        sound = st.sound;
        seen_after = st.seen_after;
        same_totals = st.same_totals;
        same_next = st.same_next;
      },
    )

-- After the content is stored, `write` returns the address whatever wear leveling does.
after_write-returns :
    (la : ℕ) (c : Bytes) (s : Flash)
    → IsSound s.manager
    → contents s la ≡ some c
    → s.manager.total_blocks ≢ 0
    → s.manager.stats.total_blocks ≢ 0
    → (t : Flash) × (after_write la s ≡ (ok la, t)) × Steady s t
after_write-returns la c s h e t t' =
    let (p, b, k, n) = seen-some la c s.manager e in
    let (needed, run) = should_level-returns (counted la s) p b k n t t' in
    after_write-by la needed s run h

-- What `write` may come to: the next address, which then reads the content; or an exception, and
-- every address reads what it read before.
abbrev pub Wrote : Bytes → Flash → Result ℕ × Flash → Type 0
Wrote content s (ok la, t) =
    (la ≡ s.next_logical_address)
    × ((a : ℕ) → contents t a ≡ ite (nat_key.dec la a) (some content) (contents s a))
Wrote content s (raise e, t) = (a : ℕ) → contents t a ≡ contents s a

-- The state after `next_address`.
abbrev advanced : Flash → Flash
advanced s = record s { next_logical_address = s.next_logical_address + 1 }

write_end :
    (content : Bytes) (s : Flash)
    → IsReady s
    → (o : Result (Unit {0}) × Flash) → Attempted s.next_logical_address content (advanced s) o
    → IsReady (continue o (λ _. after_write s.next_logical_address)).1
      × Wrote content s (continue o (λ _. after_write s.next_logical_address))
write_end content s h (raise x, t) k = (
  record {
    sound = k.sound;
    unused = λ a l. k.seen_after a ∙ h.unused a (omega (arith, k.same_next));
    some_blocks = ground (arith, k.same_totals, h.some_blocks);
    some_counted = ground (arith, k.same_totals, h.some_counted);
  },
  k.seen_after,
)
write_end content s h (ok v, t) k =
    let la = s.next_logical_address in
    let (u, run, st) =
      after_write-returns la content t k.sound (ground (arith, k.seen_after la))
        (ground (arith, k.same_totals, h.some_blocks))
        (ground (arith, k.same_totals, h.some_counted)) in
    rw run (
      record {
        sound = st.sound;
        unused = λ a l. ground (
          arith,
          st.seen_after a,
          k.seen_after a,
          h.unused a (omega (arith, st.same_next, k.same_next)),
          st.same_next,
          k.same_next,
        );
        some_blocks = ground (arith, st.same_totals, k.same_totals, h.some_blocks);
        some_counted = ground (arith, st.same_totals, k.same_totals, h.some_counted);
      },
      (refl, λ a. st.seen_after a ∙ k.seen_after a),
    )

-- From a ready state `write` refines an assignment to the next address: it returns that address
-- and the address then reads the content, or it raises; every other address reads what it read
-- before, and in both cases the invariant holds after. Garbage collection and wear leveling on
-- the way are invisible.
pub write-refines :
    (content : Bytes) (s : Flash)
    → IsReady s
    → IsReady (write content s).1 × Wrote content s (write content s)
unfolding write
write-refines content s h =
    let la = s.next_logical_address in
    write_end content s h (write_attempts la content (advanced s))
      (write_attempts-Attempted la content (advanced s) h.sound (h.unused la (omega arith)))
