-- ===== src/Purity/EngineKeeps.antt =====
-- purity/engine.py: `reduce_and_store` keeps what was stored and stores what it is given.
use storage_appliance_archit.Base.{
  ◌<◌, ◌≡◌, ◌≢◌, refl, ◌∙◌, ap, sym, subst, none, some, Bool, true, false, String, string_key,
  arith, length, Option-cases, inl, inr, Result, ok,
}
use storage_appliance_archit.Base.Dict.{lookup}
use storage_appliance_archit.Purity.Wire.{Bytes}
use storage_appliance_archit.Purity.Tools.{Tools, IsLossless}
use storage_appliance_archit.Purity.Pattern.{PatternRemoval, PatternResult, is_encoded}
use storage_appliance_archit.Purity.Dedup.{DedupEngine, DedupResult, dedup_result, register_block}
use storage_appliance_archit.Purity.Engine.{
  was_compressed_of, PurityEngine, ReductionResult, count_stored, count_deduped, decoded,
  reference_block, store_block, reduce_from, duplicate_of,
}
use storage_appliance_archit.Purity.EngineStages.{Stowed, compress_block-Stowed}
use storage_appliance_archit.Purity.EngineTrip.{
  then_decoded, IsSound, IsCollisionFree, reads, restored, moved-IsSound, register-IsSound,
  add-Added, Added, reads-same,
}
use storage_appliance_archit.Storage.BackendSound.{view}

-- What the stages after the first one do with the data: the call ends, the result's block reads
-- `content`, and what other blocks read stays.
pub record Reduced (tools : Tools) (content : Bytes) (id : String) (e : PurityEngine)
    (o : Result ReductionResult × PurityEngine) : Type 0 where
  pub result : ReductionResult
  pub after : PurityEngine
  pub ran : o ≡ (ok result, after)
  pub sound : IsSound tools after
  pub back : reads tools after result.block_id ≡ ok content
  pub others : (j : String) (c : Bytes) → reads tools e j ≡ ok c → reads tools after j ≡ ok c
  pub untouched : (j : String) → id ≢ j → view after.backend j ≡ view e.backend j
  pub same_size : after.pattern_removal.min_block_size ≡ e.pattern_removal.min_block_size

-- A registration does not fail.
pub register_block-returns :
    (tools : Tools) (content : Bytes) (id : String) (m : DedupEngine)
    → (x : String × Bool) × (register_block tools content id m
        ≡ (ok x, (register_block tools content id m).1))
unfolding register_block
register_block-returns tools content id m =
    elim (Option-cases (lookup (tools.sha256 content) m.dedupe_table)) [
      | inl q ↦ ((tools.sha256 content, true), ground arith)
      | inr (w, q) ↦ ((tools.sha256 content, false), ground arith)
    ]

module _ (tools : Tools) (l : IsLossless tools) (free : IsCollisionFree tools) where
  -- A duplicate of data that is no marker gains a reference.
  reference_block-Reduced :
      (content : Bytes) (pattern : PatternResult) (dedup : DedupResult) (existing id : String)
      (e : PurityEngine)
      → is_encoded content ≡ false
      → reads tools e existing ≡ ok content
      → IsSound tools e
      → Reduced tools content id e
          (reference_block tools content content pattern dedup false existing e)
  unfolding reference_block
  reference_block-Reduced content pattern dedup existing id e n r h =
      let m = (register_block tools content existing e.deduplication).1 in
      let f = record e { deduplication = m } in
      let g = count_stored 0 (count_deduped (length content) f) in
      let (x, run) = register_block-returns tools content existing e.deduplication in
      record {
        result = record {
          block_id = existing;
          original_size = length content;
          stored_size = 0;
          pattern_result = pattern;
          dedupe_result = dedup;
          compression_result = none;
          was_pattern_reduced = false;
          was_deduplicated = true;
          was_compressed = false;
        };
        after = g;
        ran = ground (arith, run);
        sound =
            moved-IsSound tools l free f g refl refl refl refl refl
              (register-IsSound tools l free content existing e n r h);
        back = reads-same tools g e refl existing refl ∙ r;
        others = λ j c q. reads-same tools g e refl j refl ∙ q;
        untouched = λ j n. refl;
        same_size = refl;
      }

  -- New data is stored, and registered under what it was before the stages.
  module _ (content code : Bytes) (pattern : PatternResult) (dedup : DedupResult)
      (was_pattern : Bool) (id : String) (e : PurityEngine) where
    pub stored_reads :
        (s : Stowed tools e code was_pattern)
        → (a : Added tools l free s.packed id s.after) → decoded e.pattern_removal code ≡ ok content
        → reads tools (record s.after { backend = a.backend }) id ≡ ok content
    unfolding reads
    stored_reads s a back =
        ap (restored tools s.after.pattern_removal) a.new
        ∙ ap (then_decoded s.after.pattern_removal) s.unpacks
        ∙ ap (λ r. decoded r code) s.same_pattern
        ∙ back

    store_from :
        is_encoded content ≡ false
        → decoded e.pattern_removal code ≡ ok content
        → (s : Stowed tools e code was_pattern) → Added tools l free s.packed id s.after
        → Reduced tools content id e (store_block tools content code pattern dedup was_pattern id e)
    unfolding store_block
    store_from n back s a =
        let stored = record s.after { backend = a.backend } in
        let read = stored_reads s a back in
        let f = record stored {
          deduplication = (register_block tools content id s.after.deduplication).1;
        } in
        let g = count_stored (length s.packed) f in
        let (x, run) = register_block-returns tools content id s.after.deduplication in
        record {
          result = record {
            block_id = id;
            original_size = length content;
            stored_size = length s.packed;
            pattern_result = pattern;
            dedupe_result = dedup;
            compression_result = s.result;
            was_pattern_reduced = was_pattern;
            was_deduplicated = false;
            was_compressed = was_compressed_of s.result;
          };
          after = g;
          ran = ground (arith, s.ran, a.wrote, run);
          sound =
              moved-IsSound tools l free f g refl refl refl refl refl
                (register-IsSound tools l free content id stored n read a.sound);
          back = reads-same tools g stored refl id refl ∙ read;
          others = λ j c q.
              reads-same tools g stored refl j refl
              ∙ a.others j c (
                  reads-same tools s.after e
                    (ap (λ (r : PatternRemoval). r.min_block_size) s.same_pattern) j
                    (ap (λ b. view b j) s.same_backend)
                  ∙ q);
          untouched = λ j n. a.untouched j n ∙ ap (λ b. view b j) s.same_backend;
          same_size = ap (λ (r : PatternRemoval). r.min_block_size) s.same_pattern;
        }

  store_block-Reduced :
      (content code : Bytes) (pattern : PatternResult) (dedup : DedupResult) (was_pattern : Bool)
      (id : String) (e : PurityEngine)
      → is_encoded content ≡ false
      → is_encoded code ≡ was_pattern
      → (was_pattern ≡ false → length code < 4294967296)
      → decoded e.pattern_removal code ≡ ok content
      → view e.backend id ≡ none
      → IsSound tools e
      → Reduced tools content id e (store_block tools content code pattern dedup was_pattern id e)
  store_block-Reduced content code pattern dedup was_pattern id e n marked small back fresh h =
      let s = compress_block-Stowed tools code was_pattern e l h.compressing h.codec marked small in
      let h1 =
        moved-IsSound tools l free e s.after
          (ap (λ (r : PatternRemoval). r.min_block_size) s.same_pattern) s.same_backend s.same_dedup
          s.same_algorithm s.same_flags.1 h in
      store_from content code pattern dedup was_pattern id e n back s
        (add-Added tools l free s.packed id s.after (ap (λ b. view b id) s.same_backend ∙ fresh) h1)

  -- A duplicate names a block that reads the data, which was no marker.
  pub duplicate_reads :
      (code : Bytes) (e : PurityEngine) (id : String)
      → IsSound tools e
      → duplicate_of e.dedupe_enabled (
          dedup_result
            (tools.sha256 code)
            (lookup (tools.sha256 code) e.deduplication.dedupe_table))
        ≡ some id
      → (is_encoded code ≡ false) × (reads tools e id ≡ ok code)
  duplicate_reads code e id h q =
      elim (Option-cases (lookup (tools.sha256 code) e.deduplication.dedupe_table)) [
        | inl p ↦ absurd (ground arith)
        | inr (v, p) ↦
            let (content, same, n, r) = h.entries (tools.sha256 code) v p in
            let found : v.block_id ≡ id = ground arith in
            let equal = free content code same in
            (
              ap is_encoded (sym equal) ∙ n,
              ap (reads tools e) (sym found) ∙ r ∙ ap (λ c. ok c) equal,
            )
      ]

  plain_code :
      (r : PatternRemoval) (code content : Bytes)
      → is_encoded code ≡ false
      → decoded r code ≡ ok content
      → code ≡ content
  plain_code r code content n d = ground arith

  pub reduce_from-Reduced :
      (content code : Bytes) (pattern : PatternResult) (was_pattern : Bool) (id : String)
      (e : PurityEngine)
      → is_encoded content ≡ false
      → length content < 4294967296
      → is_encoded code ≡ was_pattern
      → decoded e.pattern_removal code ≡ ok content
      → view e.backend id ≡ none
      → IsSound tools e
      → Reduced tools content id e (
          reduce_from tools content pattern id
            (code, was_pattern)
            (dedup_result
              (tools.sha256 code)
              (lookup (tools.sha256 code) e.deduplication.dedupe_table))
            e)
  unfolding reduce_from
  reduce_from-Reduced content code pattern was_pattern id e n small marked back fresh h =
      let dedup =
        dedup_result (tools.sha256 code)
          (lookup (tools.sha256 code) e.deduplication.dedupe_table) in
      elim (Option-cases (duplicate_of e.dedupe_enabled dedup)) [
        | inl q ↦
            subst (λ o. Reduced tools content id e o) (ground arith)
              (store_block-Reduced content code pattern dedup was_pattern id e n marked
                (λ w.
                  subst (λ c. length c < 4294967296)
                    (sym (plain_code e.pattern_removal code content (marked ∙ w) back)) small)
                back fresh h)
        | inr (existing, q) ↦
            let (plain, r) = duplicate_reads code e existing h q in
            let same = plain_code e.pattern_removal code content plain back in
            subst (λ o. Reduced tools content id e o) (ground arith)
              (reference_block-Reduced content pattern dedup existing id e n
                (r ∙ ap (λ c. ok c) same) h)
      ]
