-- ===== src/Purity/Pattern.antt =====
-- purity/pattern_removal.py: `analyze`, `encode` and `decode`. `unique_bytes_ratio` is a float that
-- nothing reads back; the model keeps its numerator, the number of distinct bytes over 256.
use storage_appliance_archit.Base.{
  ℕ, ◌+◌, ◌-◌, Option, none, some, List, [], ◌∷◌, ◌++◌, Bool, true, false, ◌||◌, ◌==◌,
  if◌then◌else◌, length, ltb, replicate, add, Result, ok, raise, index_error, Exec, pure, lift,
  modify, ◌>>=◌, ◌>>◌,
}
use storage_appliance_archit.Base.Int.{ℤ, pos, ◌+ℤ◌, ◌-ℤ◌}
use storage_appliance_archit.Purity.Wire.{
  Bytes, to_bytes, from_bytes, starts_with, same_bytes, last_four, byte_at, all_equal,
  from_bytes_onto,
}

pub record PatternResult : Type 0 where
  pub is_zero_block : Bool
  pub is_repeated_pattern : Bool
  pub pattern_byte : Option ℕ
  pub unique_bytes : ℕ

pub record PatternStats : Type 0 where
  pub blocks_analyzed : ℕ
  pub zero_blocks_found : ℕ
  pub pattern_blocks_found : ℕ
  pub bytes_saved : ℤ

pub record PatternRemoval : Type 0 where
  pub min_block_size : ℕ
  pub stats : PatternStats

-- b"__ZERO_BLOCK__"
abbrev pub zero_block_marker : Bytes
zero_block_marker = 95 ∷ 95 ∷ 90 ∷ 69 ∷ 82 ∷ 79 ∷ 95 ∷ 66 ∷ 76 ∷ 79 ∷ 67 ∷ 75 ∷ 95 ∷ 95 ∷ []

-- b"__PATTERN:"
abbrev pub pattern_block_prefix : Bytes
pattern_block_prefix = 95 ∷ 95 ∷ 80 ∷ 65 ∷ 84 ∷ 84 ∷ 69 ∷ 82 ∷ 78 ∷ 58 ∷ []

abbrev pub zero_result : PatternResult
zero_result = record {
  is_zero_block = true;
  is_repeated_pattern = true;
  pattern_byte = some 0;
  unique_bytes = 0;
}

abbrev pub pattern_result : ℕ → PatternResult
pattern_result c = record {
  is_zero_block = false;
  is_repeated_pattern = true;
  pattern_byte = some c;
  unique_bytes = 0;
}

-- `set(data)`
unfoldable pub distinct_bytes : Bytes → List ℕ
distinct_bytes [] = []
distinct_bytes (b ∷ bs) = add b (distinct_bytes bs)

abbrev pub plain_result : Bytes → PatternResult
plain_result content = record {
  is_zero_block = false;
  is_repeated_pattern = false;
  pattern_byte = none;
  unique_bytes = length (distinct_bytes content);
}

abbrev pub count_analyzed : PatternRemoval → PatternRemoval
count_analyzed r = record r {
  stats = record r.stats { blocks_analyzed = r.stats.blocks_analyzed + 1 };
}

abbrev pub count_zero : PatternRemoval → PatternRemoval
count_zero r = record r {
  stats = record r.stats { zero_blocks_found = r.stats.zero_blocks_found + 1 };
}

abbrev pub count_pattern : PatternRemoval → PatternRemoval
count_pattern r = record r {
  stats = record r.stats { pattern_blocks_found = r.stats.pattern_blocks_found + 1 };
}

unfoldable pub analyze : Bytes → PatternRemoval → PatternResult × PatternRemoval
unfolding distinct_bytes all_equal
analyze [] r = (zero_result, r)
analyze (b ∷ bs) r =
    if all_equal 0 (b ∷ bs)
    then (zero_result, count_zero (count_analyzed r))
    else if all_equal b (b ∷ bs)
    then (pattern_result b, count_pattern (count_analyzed r))
    else (plain_result (b ∷ bs), count_analyzed r)

-- `self._stats["bytes_saved"] += before - after`
abbrev pub save_bytes : ℕ → ℕ → PatternRemoval → PatternRemoval
save_bytes before after r = record r {
  stats = record r.stats { bytes_saved = r.stats.bytes_saved +ℤ (pos before -ℤ pos after) };
}

-- The branch of `encode` for a repeated byte.
unfoldable pub encode_pattern : Bytes → ℕ → Exec PatternRemoval (Bytes × Bool)
unfolding to_bytes
encode_pattern content c = do
  size ← lift (to_bytes (length content))
  modify (save_bytes (length content) (length (pattern_block_prefix ++ (c ∷ size))))
  pure (pattern_block_prefix ++ (c ∷ size), true)

-- What `encode` does with the result of `analyze`.
unfoldable pub encode_as : Bytes → PatternResult → Exec PatternRemoval (Bytes × Bool)
unfolding encode_pattern
encode_as content result r =
    if result.is_zero_block
    then (ok (zero_block_marker, true), save_bytes (length content) 14 r)
    else elim result.pattern_byte [
      | none ↦ (ok (content, false), r)
      | some c ↦
          (if result.is_repeated_pattern then encode_pattern content c else pure (content, false)) r
    ]

unfoldable pub encode : Bytes → Exec PatternRemoval (Bytes × Bool)
unfolding analyze encode_as
encode content r = let (result, r') = analyze content r in encode_as content result r'

-- `original_size or self.min_block_size`: a missing size and a size of 0 read as the block size.
abbrev pub size_or : Option ℕ → ℕ → ℕ
size_or none default_size = default_size
size_or (some n) default_size = if n == 0 then default_size else n

-- `data[len(prefix)]` and the expansion of a pattern marker.
abbrev pub expand : Option ℕ → Bytes → Result Bytes
expand none content = raise index_error
expand (some c) content = ok (replicate (from_bytes (last_four content)) c)

unfoldable pub decode : PatternRemoval → Bytes → Option ℕ → Result Bytes
unfolding starts_with same_bytes last_four byte_at from_bytes_onto
decode r content original_size =
    if same_bytes content zero_block_marker
    then ok (replicate (size_or original_size r.min_block_size) 0)
    else if starts_with pattern_block_prefix content
    then expand (byte_at 10 content) content
    else ok content

unfoldable pub is_encoded : Bytes → Bool
unfolding starts_with same_bytes
is_encoded content =
    same_bytes content zero_block_marker || starts_with pattern_block_prefix content

-- The scan of `find_zero_regions`: the offset of the next byte and where the zeros that end there
-- began. The regions come in order.
unfoldable pub zero_regions_from : ℕ → ℕ → Option ℕ → Bytes → List (ℕ × ℕ)
zero_regions_from least i none [] = []
zero_regions_from least i (some start) [] =
    if ltb (i - start) least then [] else (start, i - start) ∷ []
zero_regions_from least i none (b ∷ bs) =
    zero_regions_from least (i + 1) (if b == 0 then some i else none) bs
zero_regions_from least i (some start) (b ∷ bs) =
    let rest = zero_regions_from least (i + 1) (if b == 0 then some start else none) bs in
    if b == 0 then rest else if ltb (i - start) least then rest else (start, i - start) ∷ rest

unfoldable pub find_zero_regions : Bytes → ℕ → List (ℕ × ℕ)
unfolding zero_regions_from
find_zero_regions content least = zero_regions_from least 0 none content
