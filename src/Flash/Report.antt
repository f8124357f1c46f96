-- ===== src/Flash/Report.antt =====
-- directflash/block_manager.py: `get_stats`. The averages are kept as exact quotients.
use storage_appliance_archit.Base.{
  Option-cases, inl, inr, ◌≡◌, ◌≢◌, refl, arith, nat_key, ℕ, Option, none, some, [], ◌∷◌, ltb,
  if◌then◌else◌, ◌==◌, ok, raise, value_error, zero_division_error, Exec, pure, raise_if, ◌>>=◌,
  ◌>>◌,
}
use storage_appliance_archit.Base.Int.{pos}
use storage_appliance_archit.Base.Dict.{Dict, lookup, total}
use storage_appliance_archit.Base.Ratio.{Ratio}
use storage_appliance_archit.Flash.Block.{
  BlockState, bad, PhysicalBlock, BlockManagerStats, BlockManager,
}

-- `max` of two values, the first of which may be missing.
abbrev pub max_of : Option ℕ → ℕ → ℕ
max_of none n = n
max_of (some k) n = if ltb n k then k else n

abbrev pub min_of : Option ℕ → ℕ → ℕ
min_of none n = n
min_of (some k) n = if ltb k n then k else n

-- `max(b.erase_count for b in self._blocks.values())`, `none` on an empty dictionary.
unfoldable pub max_erase_of : Dict ℕ PhysicalBlock → Option ℕ
max_erase_of [] = none
max_erase_of ((_, b) ∷ d) = some (max_of (max_erase_of d) b.erase_count)

-- `min(b.erase_count for b in ... if b.state != BAD)`
unfoldable pub min_erase_of : Dict ℕ PhysicalBlock → Option ℕ
min_erase_of [] = none
min_erase_of ((_, b) ∷ d) = elim b.state [
  | bad ↦ min_erase_of d
  | _ ↦ some (min_of (min_erase_of d) b.erase_count)
]

-- `max()` and `min()` of no values raise ValueError.
abbrev pub or_value_error : {S : Type 0} → Option ℕ → Exec S ℕ
or_value_error none s = (raise value_error, s)
or_value_error (some n) s = (ok n, s)

pub record BlockReport : Type 0 where
  pub stats : BlockManagerStats
  pub avg_erase_count : Ratio
  pub max_erase_count : ℕ
  pub min_erase_count : ℕ
  pub utilization : Ratio

abbrev pub report_of : BlockManager → ℕ → ℕ → BlockReport
report_of m highest lowest = record {
  stats = m.stats;
  avg_erase_count = record {
    num = pos (total (λ b. b.erase_count) m.blocks);
    den = m.total_blocks;
  };
  max_erase_count = highest;
  min_erase_count = lowest;
  utilization = record { num = m.stats.valid_blocks; den = m.stats.total_blocks };
}

unfoldable pub get_stats : Exec BlockManager BlockReport
unfolding max_erase_of min_erase_of
get_stats m =
    (do
      raise_if (m.total_blocks == 0) zero_division_error
      highest ← or_value_error (max_erase_of m.blocks)
      lowest ← or_value_error (min_erase_of m.blocks)
      raise_if (m.stats.total_blocks == 0) zero_division_error
      pure (report_of m highest lowest))
      m

-- With a block that is not bad, `max` and `min` have a value.
pub max_erase_of-some :
    (p : ℕ) (b : PhysicalBlock) (d : Dict ℕ PhysicalBlock)
    → lookup p d ≡ some b
    → (n : ℕ) × (max_erase_of d ≡ some n)
unfolding lookup max_erase_of
max_erase_of-some p b [] e = absurd (cc)
max_erase_of-some p b ((q, c) ∷ d) e = (max_of (max_erase_of d) c.erase_count, refl)

-- The minimum of a dictionary, from that of its rest.
abbrev kept_min : BlockState → ℕ → ℕ → ℕ
kept_min bad rest n = rest
kept_min _ rest n = min_of (some rest) n

pub min_erase_of-some :
    (p : ℕ) (b : PhysicalBlock) (d : Dict ℕ PhysicalBlock)
    → lookup p d ≡ some b
    → b.state ≢ bad
    → (n : ℕ) × (min_erase_of d ≡ some n)
unfolding lookup min_erase_of
min_erase_of-some p b [] e h = absurd (cc)
min_erase_of-some p b ((q, c) ∷ d) e h = elim (nat_key.dec q p) [
  | yes here ↦ (min_of (min_erase_of d) c.erase_count, ground arith)
  | no there ↦ elim (Option-cases (min_erase_of d)) [
    | inl k ↦ absurd (let (n, f) = min_erase_of-some p b d (ground arith) h in cc)
    | inr (n, k) ↦ (kept_min c.state n c.erase_count, ground arith)
  ]
]

-- `get_stats` returns where a block is left that is not bad.
pub get_stats-returns :
    (p : ℕ) (b : PhysicalBlock) (m : BlockManager)
    → lookup p m.blocks ≡ some b
    → b.state ≢ bad
    → m.total_blocks ≢ 0
    → m.stats.total_blocks ≢ 0
    → (r : BlockReport) × (get_stats m ≡ (ok r, m))
unfolding get_stats
get_stats-returns p b m e h t t' =
    let (high, k) = max_erase_of-some p b m.blocks e in
    let (low, n) = min_erase_of-some p b m.blocks e h in (report_of m high low, ground arith)
