-- ===== src/Flash/Extremes.antt =====
-- directflash/wear_leveling.py: the loop of `find_candidates` finds the most worn valid block and
-- the least worn free block.
use storage_appliance_archit.Base.{
  nat_key, ℕ, ◌+◌, ◌≤◌, ◌≡◌, none, some, [], ◌∷◌, true, false, arith, ℕ_discrete,
}
use storage_appliance_archit.Base.Dict.{lookup}
use storage_appliance_archit.Flash.Block.{BlockState, free, valid, PhysicalBlock}
use storage_appliance_archit.Flash.Links.{Blocks}
use storage_appliance_archit.Flash.Leveler.{Candidate, more_worn, less_worn, scan, far_apart}
use storage_appliance_archit.Flash.Moves.{new_source, new_dest}

-- There is a candidate, with at least this erase count.
abbrev pub IsHigh : ℕ → Candidate → Type 0
IsHigh n none = true ≡ false
IsHigh n (some (_, high)) = n ≤ high

-- There is a candidate, with at most this erase count.
abbrev pub IsLow : ℕ → Candidate → Type 0
IsLow n none = true ≡ false
IsLow n (some (_, low)) = low ≤ n

more_worn_self :
    (p : ℕ) (b : PhysicalBlock) (c : Candidate) → IsHigh b.erase_count (more_worn p b c)
more_worn_self p b none = omega arith
more_worn_self p b (some (q, n)) = ground arith

more_worn-IsHigh :
    (p n : ℕ) (b : PhysicalBlock) (c : Candidate) → IsHigh n c → IsHigh n (more_worn p b c)
more_worn-IsHigh p n b none h = cc
more_worn-IsHigh p n b (some (q, k)) h = ground arith

less_worn_self : (p : ℕ) (b : PhysicalBlock) (c : Candidate) → IsLow b.erase_count (less_worn p b c)
less_worn_self p b none = omega arith
less_worn_self p b (some (q, n)) = ground arith

less_worn-IsLow :
    (p n : ℕ) (b : PhysicalBlock) (c : Candidate) → IsLow n c → IsLow n (less_worn p b c)
less_worn-IsLow p n b none h = cc
less_worn-IsLow p n b (some (q, k)) h = ground arith

new_source-IsHigh :
    (s : BlockState) (p n : ℕ) (b : PhysicalBlock) (c : Candidate)
    → IsHigh n c
    → IsHigh n (new_source s p b c)
new_source-IsHigh valid p n b c h = more_worn-IsHigh p n b c h
new_source-IsHigh _ p n b c h = h

new_dest-IsLow :
    (s : BlockState) (p n : ℕ) (b : PhysicalBlock) (c : Candidate)
    → IsLow n c
    → IsLow n (new_dest s p b c)
new_dest-IsLow free p n b c h = less_worn-IsLow p n b c h
new_dest-IsLow _ p n b c h = h

scan-IsHigh :
    (d : Blocks) (n : ℕ) (source dest : Candidate)
    → IsHigh n source
    → IsHigh n (scan d source dest).0
unfolding scan
scan-IsHigh [] n source dest h = h
scan-IsHigh ((p, b) ∷ d) n source dest h =
    scan-IsHigh d n (new_source b.state p b source) (new_dest b.state p b dest)
      (new_source-IsHigh b.state p n b source h)

scan-IsLow :
    (d : Blocks) (n : ℕ) (source dest : Candidate) → IsLow n dest → IsLow n (scan d source dest).1
unfolding scan
scan-IsLow [] n source dest h = h
scan-IsLow ((p, b) ∷ d) n source dest h =
    scan-IsLow d n (new_source b.state p b source) (new_dest b.state p b dest)
      (new_dest-IsLow b.state p n b dest h)

-- No valid block is more worn than the source that the loop ends with.
pub scan-highest :
    (d : Blocks) (p : ℕ) (b : PhysicalBlock) (source dest : Candidate)
    → lookup p d ≡ some b
    → b.state ≡ valid
    → IsHigh b.erase_count (scan d source dest).0
unfolding scan lookup
scan-highest [] p b source dest k v = absurd (cc)
scan-highest ((j, a) ∷ d) p b source dest k v = elim (ℕ_discrete j p) [
  | yes e ↦
      let same : a ≡ b = ground arith in
      scan-IsHigh d b.erase_count (new_source a.state j a source) (new_dest a.state j a dest)
        (rw (same, v) (more_worn_self j b source))
  | no e ↦
      scan-highest d p b (new_source a.state j a source) (new_dest a.state j a dest) (ground arith)
        v
]

-- No free block is less worn than the destination that the loop ends with.
pub scan-lowest :
    (d : Blocks) (q : ℕ) (b : PhysicalBlock) (source dest : Candidate)
    → lookup q d ≡ some b
    → b.state ≡ free
    → IsLow b.erase_count (scan d source dest).1
unfolding scan lookup
scan-lowest [] q b source dest k v = absurd (cc)
scan-lowest ((j, a) ∷ d) q b source dest k v = elim (ℕ_discrete j q) [
  | yes e ↦
      let same : a ≡ b = ground arith in
      scan-IsLow d b.erase_count (new_source a.state j a source) (new_dest a.state j a dest)
        (rw (same, v) (less_worn_self j b dest))
  | no e ↦
      scan-lowest d q b (new_source a.state j a source) (new_dest a.state j a dest) (ground arith) v
]

-- Where no pair is far enough apart, the bound holds for what the candidates bound.
pub far_apart-none :
    (threshold high low : ℕ) (c d : Candidate)
    → far_apart threshold c d ≡ none
    → IsHigh high c
    → IsLow low d
    → high ≤ low + threshold
far_apart-none threshold high low none d e h l = absurd (cc)
far_apart-none threshold high low (some _) none e h l = absurd (cc)
far_apart-none threshold high low (some (p, m)) (some (q, n)) e h l = ground arith
