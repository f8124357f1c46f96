-- ===== src/Purity/DedupSound.antt =====
-- purity/deduplication.py: reference counts, counters and chunks.
use storage_appliance_archit.Base.{
  ℕ, zero, suc, ◌+◌, ◌≤◌, ◌<◌, ◌≡◌, refl, ◌∙◌, ap, sym, subst, some, List, [], ◌∷◌, ◌++◌, String,
  string_key, arith, length, take, drop, min, leb, Bool-cases, Option-cases, inl, inr,
}
use storage_appliance_archit.Base.Int.{pos, ◌-ℤ◌, pos-add, pos-sub}
use storage_appliance_archit.Base.Dict.{
  IsDict, lookup, insert, total, weight, insert-IsDict, erase-IsDict, lookup-insert, lookup-erase,
  total-insert, total-erase,
}
use storage_appliance_archit.Purity.Wire.{Bytes}
use storage_appliance_archit.Purity.Tools.{Tools}
use storage_appliance_archit.Purity.Dedup.{
  DedupEntry, DedupEngine, new_entry, one_more, one_less, register_block, dereference_block,
  chunk_data, chunks_from,
}

abbrev entry_size : DedupEntry → ℕ
entry_size e = e.size

-- Every entry is referenced and filed under its fingerprint, every registered block was unique or a
-- duplicate, and the bytes that are left are those of the entries.
pub record IsSound (m : DedupEngine) : Type 0 where
  pub is_dict : IsDict m.dedupe_table
  pub all :
      (fp : String) (e : DedupEntry)
      → lookup fp m.dedupe_table ≡ some e
      → (e.fingerprint ≡ fp) × (1 ≤ e.reference_count)
  pub counted : m.stats.total_blocks ≡ m.stats.unique_blocks + m.stats.duplicate_blocks
  pub stored : m.stats.bytes_after_dedupe ≡ pos (total entry_size m.dedupe_table)

-- Registering a block keeps the counters of the table.
pub register_block-IsSound :
    (tools : Tools) (content : Bytes) (id : String) (m : DedupEngine)
    → IsSound m
    → IsSound (register_block tools content id m).1
unfolding register_block
register_block-IsSound tools content id m h =
    let fp = tools.sha256 content in
    let n = length content in
    elim (Option-cases (lookup fp m.dedupe_table)) [
      | inl q ↦
          let e = new_entry fp id n in
          rw (q, register_block)
            (record {
              is_dict = insert-IsDict fp e m.dedupe_table h.is_dict;
              all = λ j v l. ground (arith, lookup-insert fp j e m.dedupe_table, h.all j v);
              counted = omega (arith, h.counted);
              stored = ground (
                arith,
                h.stored,
                pos-add (total entry_size m.dedupe_table) n,
                total-insert entry_size fp e m.dedupe_table,
              );
            })
      | inr (e, q) ↦
          let old = h.all fp e q in
          rw (q, register_block)
            (record {
              is_dict = insert-IsDict fp (one_more e) m.dedupe_table h.is_dict;
              all = λ j v l.
                  ground (arith, old, lookup-insert fp j (one_more e) m.dedupe_table, h.all j v);
              counted = omega (arith, h.counted);
              stored =
                  ground (arith, h.stored, total-insert entry_size fp (one_more e) m.dedupe_table);
            })
    ]

pub dereference_block-IsSound :
    (fp : String) (m : DedupEngine) → IsSound m → IsSound (dereference_block fp m).1
unfolding dereference_block
dereference_block-IsSound fp m h = elim (Option-cases (lookup fp m.dedupe_table)) [
  | inl q ↦ rw (q, dereference_block) h
  | inr (e, q) ↦
      let old = h.all fp e q in
      elim (Bool-cases (leb e.reference_count 1)) [
        | inl t ↦
            let s = total-erase entry_size fp m.dedupe_table in
            let w : weight entry_size (lookup fp m.dedupe_table) ≡ e.size = rw q refl in
            rw (q, t, dereference_block)
              (record {
                is_dict = erase-IsDict fp m.dedupe_table h.is_dict;
                all =
                    λ j v l. h.all j v (ground (arith, lookup-erase fp j m.dedupe_table h.is_dict));
                counted = h.counted;
                stored =
                    ap (λ u. u -ℤ pos e.size) h.stored
                    ∙ pos-sub (total entry_size m.dedupe_table) e.size (omega (arith, s, w))
                    ∙ ap pos (omega (arith, s, w));
              })
        | inr t ↦
            rw (q, t, dereference_block)
              (record {
                is_dict = insert-IsDict fp (one_less e) m.dedupe_table h.is_dict;
                all = λ j v l.
                    ground (arith, old, lookup-insert fp j (one_less e) m.dedupe_table, h.all j v);
                counted = h.counted;
                stored =
                    ground
                      (arith, h.stored, total-insert entry_size fp (one_less e) m.dedupe_table);
              })
      ]
]

-- From a sound table a block that is registered and dereferenced leaves every entry of the table
-- as it was, whether the block was new or a duplicate, and the counters of the table sound.
pub register_then_dereference :
    (tools : Tools) (content : Bytes) (id : String) (m : DedupEngine)
    → IsSound m
    → let t = (dereference_block (tools.sha256 content) (register_block tools content id m).1).1 in
      IsSound t × ((fp : String) → lookup fp t.dedupe_table ≡ lookup fp m.dedupe_table)
unfolding register_block dereference_block
register_then_dereference tools content id m h =
    let fp = tools.sha256 content in
    (
      dereference_block-IsSound fp (register_block tools content id m).1
          (register_block-IsSound tools content id m h),
      λ j. elim (Option-cases (lookup fp m.dedupe_table)) [
        | inl q ↦
            let e = new_entry fp id (length content) in
            ground (
              arith,
              lookup-insert fp fp e m.dedupe_table,
              lookup-insert fp j e m.dedupe_table,
              lookup-erase fp j (insert fp e m.dedupe_table)
                  (insert-IsDict fp e m.dedupe_table h.is_dict),
            )
        | inr (e, q) ↦
            let old = h.all fp e q in
            let d = insert fp (one_more e) m.dedupe_table in
            ground (
              arith,
              old,
              lookup-insert fp fp (one_more e) m.dedupe_table,
              lookup-insert fp j (one_more e) m.dedupe_table,
              lookup-insert fp j (one_less (one_more e)) d,
            )
      ],
    )

-- The chunks stand one behind the other from the offset on, none empty or longer than asked for.
abbrev pub AllChunks : ℕ → ℕ → List (ℕ × Bytes) → Type 0
AllChunks least offset [] = Unit
AllChunks least offset ((o, c) ∷ cs) =
    (o ≡ offset) × (1 ≤ length c) × (length c ≤ least) × AllChunks least (offset + length c) cs

abbrev pub join : List (ℕ × Bytes) → Bytes
join [] = []
join ((_, c) ∷ cs) = c ++ join cs

take-drop : (n : ℕ) (bs : Bytes) → take n bs ++ drop n bs ≡ bs
take-drop zero bs = refl
take-drop (suc n) [] = refl
take-drop (suc n) (b ∷ bs) = ap (λ r. b ∷ r) (take-drop n bs)

length-take_le : (n : ℕ) (bs : Bytes) → n ≤ length bs → length (take n bs) ≡ n
length-take_le zero bs h = refl
length-take_le (suc n) [] h = omega arith
length-take_le (suc n) (b ∷ bs) h = omega (arith, length-take_le n bs (omega arith))

length-drop_le : (n : ℕ) (bs : Bytes) → n ≤ length bs → length (drop n bs) + n ≡ length bs
length-drop_le zero bs h = omega arith
length-drop_le (suc n) [] h = omega arith
length-drop_le (suc n) (b ∷ bs) h = omega (arith, length-drop_le n bs (omega arith))

chunks_from-AllChunks :
    (fuel least offset : ℕ) (rest : Bytes)
    → 1 ≤ least
    → length rest < fuel
    → (cs : List (ℕ × Bytes)) × (chunks_from fuel least offset rest ≡ some cs)
      × AllChunks least offset cs
      × (join cs ≡ rest)
unfolding chunks_from
chunks_from-AllChunks zero least offset rest h lt = absurd (omega arith)
chunks_from-AllChunks (suc fuel) least offset [] h lt = ([], refl, tt, refl)
chunks_from-AllChunks (suc fuel) least offset (b ∷ bs) h lt =
    let n = min least (length (b ∷ bs)) in
    let small : n ≤ length (b ∷ bs) = ground arith in
    let few : n ≤ least = ground arith in
    let more : 1 ≤ n = ground arith in
    let taken = length-take_le n (b ∷ bs) small in
    let left = length-drop_le n (b ∷ bs) small in
    let (cs, run, all, joined) =
      chunks_from-AllChunks fuel least (offset + n) (drop n (b ∷ bs)) h (omega (arith, left)) in
    (
      (offset, take n (b ∷ bs)) ∷ cs,
      ground (arith, run),
      (
        refl,
        omega (arith, taken),
        omega (arith, taken),
        subst (λ k. AllChunks least (offset + k) cs) (sym taken) all,
      ),
      ap (λ r. take n (b ∷ bs) ++ r) joined ∙ take-drop n (b ∷ bs),
    )

-- For a block size that is not zero the loop ends: the chunks lie one behind the other from offset
-- zero on, none is empty or longer than the block size, and together they are the data.
pub chunk_data-AllChunks :
    (m : DedupEngine) (content : Bytes)
    → 1 ≤ m.min_block_size
    → (cs : List (ℕ × Bytes)) × (chunk_data m content ≡ some cs)
      × AllChunks m.min_block_size 0 cs
      × (join cs ≡ content)
unfolding chunk_data
chunk_data-AllChunks m content h =
    chunks_from-AllChunks (length content + 1) m.min_block_size 0 content h (omega arith)
