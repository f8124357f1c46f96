-- ===== src/Flash/Leveling.antt =====
-- directflash/wear_leveling.py: `find_candidates`, `level_block` and the loop of
-- `run_leveling_pass` end, and nothing that a reader sees changes.
use storage_appliance_archit.Base.{
  nat_key, ℕ, zero, suc, ◌+◌, ◌<◌, ◌≤◌, ◌≡◌, ◌∙◌, refl, Option, none, some, Bool, true, false,
  arith, Option-cases, inl, inr, ok, raise, Result, ◌≢◌,
}
use storage_appliance_archit.Base.Dict.{lookup, total, AllIn-self}
use storage_appliance_archit.Flash.Block.{free, valid, PhysicalBlock, BlockManager, erase_block}
use storage_appliance_archit.Flash.Sound.{IsSound, valid_wear}
use storage_appliance_archit.Flash.Erase.{erase_block-Erased}
use storage_appliance_archit.Flash.State.{Flash, on_manager}
use storage_appliance_archit.Flash.Report.{get_stats}
use storage_appliance_archit.Flash.Leveler.{
  Candidate, scan, far_apart, find_candidates, level_block, level_and_go, leveling_loop,
  run_leveling_pass, should_level, moved, count_move,
}
use storage_appliance_archit.Flash.Moves.{
  IsSource, IsDest, scan-IsSource, moved-IsSound, moved-seen, moved-status, moved-valid_wear,
}
use storage_appliance_archit.Flash.Extremes.{scan-highest, scan-lowest, far_apart-none}
use storage_appliance_archit.Flash.Steady.{Steady, Steady-refl, Steady-trans}

-- What `find_candidates` promises of the two blocks that it returns.
pub record Pair (m : BlockManager) (threshold p q : ℕ) : Type 0 where
  pub source : PhysicalBlock
  pub dest : PhysicalBlock
  pub from : lookup p m.blocks ≡ some source
  pub to : lookup q m.blocks ≡ some dest
  pub is_valid : source.state ≡ valid
  pub is_free : dest.state ≡ free
  pub gap : dest.erase_count + threshold < source.erase_count

far_apart-Pair :
    (m : BlockManager) (threshold p q : ℕ) (c d : Candidate)
    → IsSource m.blocks c
    → IsDest m.blocks d
    → far_apart threshold c d ≡ some (p, q)
    → Pair m threshold p q
far_apart-Pair m threshold p q none d hs hd e = absurd (cc)
far_apart-Pair m threshold p q (some c) none hs hd e = absurd (cc)
far_apart-Pair m threshold p q (some (r, n)) (some (t, k)) (b, kb, sb, nb) (f, kf, sf, nf) e =
    record {
      source = b;
      dest = f;
      from = ground arith;
      to = ground arith;
      is_valid = sb;
      is_free = sf;
      gap = ground arith;
    }

-- The pair that a sound manager offers, if any.
abbrev offer : Flash → Option (ℕ × ℕ)
offer s =
    let found = scan s.manager.blocks none none in far_apart s.leveling.threshold found.0 found.1

offer-Pair :
    (s : Flash) (p q : ℕ)
    → IsSound s.manager
    → offer s ≡ some (p, q)
    → Pair s.manager s.leveling.threshold p q
offer-Pair s p q h e =
    let (hs, hd) =
      scan-IsSource s.manager.blocks s.manager.blocks none none
        (AllIn-self s.manager.blocks h.keyed) tt tt in
    let found = scan s.manager.blocks none none in
    far_apart-Pair s.manager s.leveling.threshold p q found.0 found.1 hs hd e

-- No valid block is more worn than a free block by more than the threshold.
pub record IsLevel (s : Flash) : Type 0 where
  pub within :
      (p q : ℕ) (b f : PhysicalBlock)
      → lookup p s.manager.blocks ≡ some b
      → b.state ≡ valid
      → lookup q s.manager.blocks ≡ some f
      → f.state ≡ free
      → b.erase_count ≤ f.erase_count + s.leveling.threshold

offer-IsLevel : (s : Flash) → offer s ≡ none → IsLevel s
offer-IsLevel s e = record {
  within = λ p q b f kb vb kf vf.
      let found = scan s.manager.blocks none none in
      far_apart-none s.leveling.threshold b.erase_count f.erase_count found.0 found.1 e
        (scan-highest s.manager.blocks p b none none kb vb)
        (scan-lowest s.manager.blocks q f none none kf vf);
}

-- What a round of the loop leaves behind: a move, and the erasure of the old block.
pub record Levelled (s t : Flash) : Type 0 where
  pub steady : Steady s t
  pub less_wear :
      total valid_wear t.manager.blocks + s.leveling.threshold < total valid_wear s.manager.blocks
  pub same_threshold : t.leveling.threshold ≡ s.leveling.threshold

module _ (s : Flash) (p q : ℕ) (h : IsSound s.manager)
    (c : Pair s.manager s.leveling.threshold p q) where
  abbrev after_move : Flash
  after_move = count_move (record s { manager = moved p c.source q c.dest s.manager })

  level_block_lem : level_block p q s ≡ (ok true, after_move)
  unfolding level_block
  level_block_lem = ground (arith, c.from, c.to, c.is_valid, c.is_free)

  round-Levelled :
      (done : Bool) × (t : Flash) × (on_manager (erase_block p) after_move ≡ (ok done, t))
      × Levelled s t
  round-Levelled =
      let sound = moved-IsSound s.manager p q c.source c.dest h c.from c.to c.is_valid c.is_free in
      let seen_same = moved-seen s.manager p q c.source c.dest h c.from c.to c.is_valid c.is_free in
      let was = moved-status s.manager p q c.source c.dest h c.from c.to c.is_valid c.is_free in
      let wear =
        moved-valid_wear s.manager p q c.source c.dest h c.from c.to c.is_valid c.is_free in
      let (done, m', run, er) = erase_block-Erased p none after_move.manager sound was in
      (
        done,
        record after_move { manager = m' },
        rw run,
        record {
          steady = record {
            sound = er.sound;
            seen_after = λ a. er.seen_after a ∙ seen_same a;
            same_totals = er.same_totals;
            same_next = refl;
          };
          less_wear = omega (arith, c.gap, wear, er.same_valid_wear);
          same_threshold = refl;
        },
      )

-- On sound tables the loop ends by its own test: with more fuel than the wear of the valid blocks
-- it returns. The invariant holds then, every address reads what it read before, the threshold is the
-- same, and no valid block is more worn than any free block by more than the threshold.
pub leveling_loop-ends :
    (fuel n : ℕ) (s : Flash)
    → IsSound s.manager
    → total valid_wear s.manager.blocks < fuel
    → (k : ℕ) × (t : Flash) × (leveling_loop fuel n s ≡ (ok (some k), t))
      × Steady s t
      × IsLevel t
      × (t.leveling.threshold ≡ s.leveling.threshold)
unfolding leveling_loop find_candidates level_and_go
leveling_loop-ends zero n s h lt = elim lt [ ]
leveling_loop-ends (suc fuel) n s h lt = elim (Option-cases (offer s)) [
  | inl e ↦ (n, s, rw e, Steady-refl s h, offer-IsLevel s e, refl)
  | inr ((p, q), e) ↦
      let c = offer-Pair s p q h e in
      let (done, t, run, lv) = round-Levelled s p q h c in
      let (k, u, rest, st, level, same) =
        leveling_loop-ends fuel (n + 1) t lv.steady.sound (omega (arith, lv.less_wear)) in
      (
        k,
        u,
        rw e (ground (arith, level_block_lem s p q h c, run, rest)),
        Steady-trans s t u lv.steady st,
        level,
        same ∙ lv.same_threshold,
      )
]

-- `should_level` changes nothing.
pub should_level-state : (s : Flash) → should_level s ≡ ((should_level s).0, s)
unfolding should_level get_stats
should_level-state s = ground arith

-- A pass, by what `should_level` says.
pass_of :
    (s : Flash) (r : Result Bool)
    → should_level s ≡ (r, s)
    → IsSound s.manager
    → Steady s (run_leveling_pass s).1 × ((run_leveling_pass s).0 ≢ ok none)
pass_of s (raise x) e h =
    let run : run_leveling_pass s ≡ (raise x, s) = unfold run_leveling_pass in rw e refl in
    rw run (Steady-refl s h, λ z. cc)
pass_of s (ok false) e h =
    let run : run_leveling_pass s ≡ (ok (some 0), s) = unfold run_leveling_pass in rw e refl in
    rw run (Steady-refl s h, λ z. cc)
pass_of s (ok true) e h =
    let (k, t, ends, st, _, _) =
      leveling_loop-ends (suc (total valid_wear s.manager.blocks)) 0 s h (omega arith) in
    let run : run_leveling_pass s ≡ (ok (some k), t) = unfold run_leveling_pass in rw e ends in
    rw run (st, λ z. cc)

-- A pass of wear leveling on sound tables keeps the invariant and what every address reads, also
-- where `get_stats` raises; and where it does not raise it returns, without running out of fuel.
pub run_leveling_pass-ends :
    (s : Flash)
    → IsSound s.manager
    → Steady s (run_leveling_pass s).1 × ((run_leveling_pass s).0 ≢ ok none)
run_leveling_pass-ends s h = pass_of s (should_level s).0 (should_level-state s) h
