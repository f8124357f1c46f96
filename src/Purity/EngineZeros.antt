-- ===== src/Purity/EngineZeros.antt =====
-- purity/engine.py: a block of zeros comes back with the wrong length.
use storage_appliance_archit.Base.{
  ℕ, ◌≡◌, refl, ◌∙◌, ap, subst, none, [], ◌∷◌, true, false, String, string_key, arith, length,
  replicate, Option-cases, inl, inr, ok, Result,
}
use storage_appliance_archit.Base.Dict.{lookup}
use storage_appliance_archit.Purity.Wire.{Bytes, all_equal}
use storage_appliance_archit.Purity.Tools.{Tools, IsLossless}
use storage_appliance_archit.Purity.Pattern.{
  PatternRemoval, PatternResult, zero_block_marker, zero_result, analyze, encode, encode_as, decode,
  is_encoded,
}
use storage_appliance_archit.Purity.Dedup.{
  DedupResult, dedup_result, check_duplicate, register_block,
}
use storage_appliance_archit.Purity.Engine.{
  PurityEngine, ReductionResult, count_in, count_pattern, count_stored, decoded, was_compressed_of,
  remove_pattern, store_block, reduce_from, duplicate_of, reduce_and_store, retrieve,
}
use storage_appliance_archit.Purity.EngineStages.{
  compress_block-Stowed, analyze-min_block_size, encode-min_block_size,
}
use storage_appliance_archit.Purity.EngineTrip.{
  IsSound, IsCollisionFree, reads, moved-IsSound, add-Added, reads-same, retrieve-reads,
}
use storage_appliance_archit.Purity.EngineKeeps.{
  register_block-returns, stored_reads, duplicate_reads,
}
use storage_appliance_archit.Storage.BackendSound
use storage_appliance_archit.Storage.BackendSound.{view}

analyze-zeros :
    (content : Bytes) (r : PatternRemoval)
    → all_equal 0 content ≡ true
    → (analyze content r).0 ≡ zero_result
unfolding analyze
analyze-zeros [] r h = refl
analyze-zeros (b ∷ bs) r h = ground arith

encode-zeros :
    (content : Bytes) (r : PatternRemoval)
    → all_equal 0 content ≡ true
    → encode content r ≡ (ok (zero_block_marker, true), (encode content r).1)
unfolding encode encode_as
encode-zeros content r h = let z = analyze-zeros content r h in ground arith

marker-encoded : is_encoded zero_block_marker ≡ true
unfolding is_encoded
marker-encoded = refl

-- The first stage puts the marker for a block of zeros.
abbrev marked_engine : Bytes → PurityEngine → PurityEngine
marked_engine content e =
    count_pattern (length content) (length zero_block_marker)
      (record e { pattern_removal = (encode content e.pattern_removal).1 })

remove_pattern-zeros :
    (content : Bytes) (e : PurityEngine)
    → all_equal 0 content ≡ true
    → e.pattern_removal_enabled ≡ true
    → remove_pattern content zero_result e ≡ (ok (zero_block_marker, true), marked_engine content e)
unfolding remove_pattern
remove_pattern-zeros content e h on = ground (arith, encode-zeros content e.pattern_removal h)

-- What is left of the data: a block under the id that reads as many zeros as a block has.
record Misread (tools : Tools) (id : String) (n : ℕ) (o : Result ReductionResult × PurityEngine)
    : Type 0 where
  result : ReductionResult
  after : PurityEngine
  ran : o ≡ (ok result, after)
  stored_there : result.block_id ≡ id
  backend : BackendSound.IsSound tools after.backend
  back : reads tools after id ≡ ok (replicate n 0)

module _ (tools : Tools) (l : IsLossless tools) (free : IsCollisionFree tools) where
  store_block-Misread :
      (content : Bytes) (pattern : PatternResult) (dedup : DedupResult) (id : String)
      (e : PurityEngine)
      → view e.backend id ≡ none
      → IsSound tools e
      → Misread tools id e.pattern_removal.min_block_size
          (store_block tools content zero_block_marker pattern dedup true id e)
  unfolding store_block
  store_block-Misread content pattern dedup id e fresh h =
      let s =
        compress_block-Stowed tools zero_block_marker true e l h.compressing h.codec marker-encoded
          (λ w. cc) in
      let sound =
        moved-IsSound tools l free e s.after
          (ap (λ (r : PatternRemoval). r.min_block_size) s.same_pattern) s.same_backend s.same_dedup
          s.same_algorithm s.same_flags.1 h in
      let a =
        add-Added tools l free s.packed id s.after (ap (λ b. view b id) s.same_backend ∙ fresh)
          sound in
      let zeros : decoded e.pattern_removal zero_block_marker
          ≡ ok (replicate e.pattern_removal.min_block_size 0) =
        (unfold decode is_encoded in refl) in
      let stored = record s.after { backend = a.backend } in
      let (x, run) = register_block-returns tools content id s.after.deduplication in
      let g = count_stored (length s.packed) (record stored {
        deduplication = (register_block tools content id s.after.deduplication).1;
      }) in
      record {
        result = record {
          block_id = id;
          original_size = length content;
          stored_size = length s.packed;
          pattern_result = pattern;
          dedupe_result = dedup;
          compression_result = s.result;
          was_pattern_reduced = true;
          was_deduplicated = false;
          was_compressed = was_compressed_of s.result;
        };
        after = g;
        ran = ground (arith, s.ran, a.wrote, run);
        stored_there = refl;
        backend = a.sound.backend;
        back =
            reads-same tools g stored refl id refl
            ∙ stored_reads tools l free (replicate e.pattern_removal.min_block_size 0)
                zero_block_marker pattern dedup true id e s a zeros;
      }

  -- No entry of the table is for the marker.
  reduce_from-Misread :
      (content : Bytes) (id : String) (e : PurityEngine)
      → view e.backend id ≡ none
      → IsSound tools e
      → Misread tools id e.pattern_removal.min_block_size (
          reduce_from tools content zero_result id
            (zero_block_marker, true)
            (dedup_result
              (tools.sha256 zero_block_marker)
              (lookup (tools.sha256 zero_block_marker) e.deduplication.dedupe_table))
            e)
  unfolding reduce_from
  reduce_from-Misread content id e fresh h =
      let dedup =
        dedup_result (tools.sha256 zero_block_marker)
          (lookup (tools.sha256 zero_block_marker) e.deduplication.dedupe_table) in
      elim (Option-cases (duplicate_of e.dedupe_enabled dedup)) [
        | inl q ↦
            subst (λ o. Misread tools id e.pattern_removal.min_block_size o) (ground arith)
              (store_block-Misread content zero_result dedup id e fresh h)
        | inr (existing, q) ↦ absurd (
            let (plain, r) = duplicate_reads tools l free zero_block_marker e existing h q in
            let mark = marker-encoded in ground arith)
      ]

  -- In a sound engine with pattern removal, with lossless codecs and a digest without collisions,
  -- `reduce_and_store` of a block of zeros under a new id succeeds, and `retrieve` of the id that it
  -- returns then gives `min_block_size` zeros, whatever the length of the block was.
  pub reduce_and_store-misreads :
      (content : Bytes) (id : String) (e : PurityEngine)
      → all_equal 0 content ≡ true
      → e.pattern_removal_enabled ≡ true
      → view e.backend id ≡ none
      → IsSound tools e
      → (result : ReductionResult) × (after : PurityEngine) × (reduce_and_store tools content id e
          ≡ (ok result, after))
        × ((retrieve tools result.block_id after).0
            ≡ ok (replicate e.pattern_removal.min_block_size 0))
  unfolding reduce_and_store check_duplicate
  reduce_and_store-misreads content id e z on fresh h =
      let start = record (count_in (length content) e) {
        pattern_removal = (analyze content e.pattern_removal).1;
      } in
      let e2 = marked_engine content start in
      let size : e2.pattern_removal.min_block_size ≡ e.pattern_removal.min_block_size =
        encode-min_block_size content start.pattern_removal
        ∙ analyze-min_block_size content e.pattern_removal in
      let m =
        reduce_from-Misread content id e2 fresh
          (moved-IsSound tools l free e e2 size refl refl refl refl h) in
      (
        m.result,
        m.after,
        ground (
          arith,
          analyze-zeros content e.pattern_removal z,
          remove_pattern-zeros content start z on,
          m.ran,
        ),
        ap (λ j. (retrieve tools j m.after).0) m.stored_there
            ∙ (retrieve-reads tools id m.after m.backend).0
            ∙ m.back
            ∙ ap (λ n. ok (replicate n 0)) size,
      )
