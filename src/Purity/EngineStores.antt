-- ===== src/Purity/EngineStores.antt =====
-- purity/engine.py: `reduce_and_store` as a whole, and a sequence of calls of it.
use storage_appliance_archit.Base.{
  ◌<◌, ◌≡◌, ◌≢◌, refl, ◌∙◌, ap, none, false, List, [], ◌∷◌, map, pure, ◌>>=◌, String, string_key,
  arith, length, ok, Exec,
}
use storage_appliance_archit.Purity.Wire.{Bytes}
use storage_appliance_archit.Purity.Tools.{Tools, IsLossless}
use storage_appliance_archit.Purity.Pattern.{analyze, is_encoded}
use storage_appliance_archit.Purity.Dedup.{check_duplicate}
use storage_appliance_archit.Purity.Engine.{
  PurityEngine, count_in, decoded, reduce_and_store, retrieve,
}
use storage_appliance_archit.Purity.EngineStages.{
  IsPlain, Handed, remove_pattern-Handed, analyze-min_block_size,
}
use storage_appliance_archit.Purity.EngineTrip.{
  IsSound, IsCollisionFree, reads, moved-IsSound, reads-same, retrieve-reads,
}
use storage_appliance_archit.Purity.EngineKeeps.{Reduced, reduce_from-Reduced}
use storage_appliance_archit.Storage.BackendSound.{view}

module _ (tools : Tools) (l : IsLossless tools) (free : IsCollisionFree tools) where
  -- The data has been analyzed and handed on by the first stage.
  after_pattern :
      (content : Bytes) (id : String) (e : PurityEngine)
      → (s : Handed
          (record (count_in (length content) e) {
            pattern_removal = (analyze content e.pattern_removal).1;
          })
          content
          (analyze content e.pattern_removal).0)
      → is_encoded content ≡ false
      → length content < 4294967296
      → view e.backend id ≡ none
      → IsSound tools e
      → Reduced tools content id e (reduce_and_store tools content id e)
  unfolding reduce_and_store check_duplicate
  after_pattern content id e s n small fresh h =
      let size = s.same_size ∙ analyze-min_block_size content e.pattern_removal in
      let sound =
        moved-IsSound tools l free e s.after size s.same_backend s.same_dedup
          (ap (λ c. c.algorithm) s.same_compression) s.same_flags.1 h in
      let r =
        reduce_from-Reduced tools l free content s.code (analyze content e.pattern_removal).0
          s.was_pattern id s.after n small s.marked
          (ap (λ p. decoded p s.code) s.same_removal ∙ s.decodes)
          (ap (λ b. view b id) s.same_backend ∙ fresh) sound in
      record {
        result = r.result;
        after = r.after;
        ran = ground (arith, s.ran, r.ran);
        sound = r.sound;
        back = r.back;
        others = λ j c q.
            r.others j c
              (reads-same tools s.after e size j (ap (λ b. view b j) s.same_backend) ∙ q);
        untouched = λ j k. r.untouched j k ∙ ap (λ b. view b j) s.same_backend;
        same_size = r.same_size ∙ size;
      }

  -- With lossless codecs and a digest without collisions, `reduce_and_store` of plain data under a
  -- new id in a sound engine succeeds and keeps the engine sound, the block it returns reads the
  -- data, all data that could be read still can, and no block but the new one changes.
  pub reduce_and_store-Reduced :
      (content : Bytes) (id : String) (e : PurityEngine)
      → IsPlain e.pattern_removal content
      → view e.backend id ≡ none
      → IsSound tools e
      → Reduced tools content id e (reduce_and_store tools content id e)
  reduce_and_store-Reduced content id e plain fresh h =
      let start = record (count_in (length content) e) {
        pattern_removal = (analyze content e.pattern_removal).1;
      } in
      after_pattern content id e
        (remove_pattern-Handed content (analyze content e.pattern_removal).0 start (record {
          not_encoded = plain.not_encoded;
          small = plain.small;
          zeros = λ z. analyze-min_block_size content e.pattern_removal ∙ plain.zeros z;
        }))
        plain.not_encoded plain.small fresh h

-- Data and the id that a call of `reduce_and_store` would store it under.
abbrev pub Batch : Type 0
Batch = List (Bytes × String)

-- The calls one after the other, with the ids of the blocks that hold the data.
unfoldable pub store_all : Tools → Batch → Exec PurityEngine (List String)
unfolding reduce_and_store
store_all tools [] = pure []
store_all tools ((content, id) ∷ rest) = do
  result ← reduce_and_store tools content id
  ids ← store_all tools rest
  pure (result.block_id ∷ ids)

abbrev pub IsApart : String → Batch → Type 0
IsApart id [] = Unit
IsApart id ((content, j) ∷ rest) = (id ≢ j) × IsApart id rest

-- The ids are all different and not in use, and all the data is plain.
abbrev pub IsReady : PurityEngine → Batch → Type 0
IsReady e [] = Unit
IsReady e ((content, id) ∷ rest) =
    IsPlain e.pattern_removal content
    × (view e.backend id ≡ none)
    × IsApart id rest
    × IsReady e rest

pub record AllStored (tools : Tools) (batch : Batch) (e : PurityEngine) : Type 0 where
  pub ids : List String
  pub after : PurityEngine
  pub ran : store_all tools batch e ≡ (ok ids, after)
  pub sound : IsSound tools after
  pub back : map (reads tools after) ids ≡ map (λ b. ok b.0) batch
  pub others : (j : String) (c : Bytes) → reads tools e j ≡ ok c → reads tools after j ≡ ok c

module _ (tools : Tools) (l : IsLossless tools) (free : IsCollisionFree tools) where
  IsReady-after :
      (content : Bytes) (id : String) (e : PurityEngine)
      (r : Reduced tools content id e (reduce_and_store tools content id e)) (rest : Batch)
      → IsApart id rest
      → IsReady e rest
      → IsReady r.after rest
  IsReady-after content id e r [] a h = tt
  IsReady-after content id e r ((c, j) ∷ rest) (n, a) (plain, fresh, apart, h) = (
    record {
      not_encoded = plain.not_encoded;
      small = plain.small;
      zeros = λ z. r.same_size ∙ plain.zeros z;
    },
    r.untouched j n ∙ fresh,
    apart,
    IsReady-after content id e r rest a h,
  )

  pub store_all-AllStored :
      (batch : Batch) (e : PurityEngine)
      → IsReady e batch
      → IsSound tools e
      → AllStored tools batch e
  unfolding store_all
  store_all-AllStored [] e ready h = record {
    ids = [];
    after = e;
    ran = refl;
    sound = h;
    back = refl;
    others = λ j c q. q;
  }
  store_all-AllStored ((content, id) ∷ rest) e (plain, fresh, apart, ready) h =
      let r = reduce_and_store-Reduced tools l free content id e plain fresh h in
      let s =
        store_all-AllStored rest r.after (IsReady-after content id e r rest apart ready) r.sound in
      record {
        ids = r.result.block_id ∷ s.ids;
        after = s.after;
        ran = ground (arith, r.ran, s.ran);
        sound = s.sound;
        back =
            ap (λ x. x ∷ map (reads tools s.after) s.ids)
              (s.others r.result.block_id content r.back)
            ∙ ap (λ xs. ok content ∷ xs) s.back;
        others = λ j c q. s.others j c (r.others j c q);
      }

  retrieved_all :
      (e : PurityEngine) (ids : List String)
      → IsSound tools e
      → map (λ id. (retrieve tools id e).0) ids ≡ map (reads tools e) ids
  retrieved_all e [] h = refl
  retrieved_all e (id ∷ ids) h =
      ap (λ x. x ∷ map (λ j. (retrieve tools j e).0) ids) (retrieve-reads tools id e h.backend).0
      ∙ ap (λ xs. reads tools e id ∷ xs) (retrieved_all e ids h)

  -- A sequence of calls of `reduce_and_store` under new, different ids, with lossless codecs and a
  -- digest without collisions, for data that is plain, in a sound engine, succeeds, and `retrieve`
  -- of each id that the calls return then gives the data of its call.
  pub store_all-retrieve :
      (batch : Batch) (e : PurityEngine)
      → IsReady e batch
      → IsSound tools e
      → (ids : List String) × (after : PurityEngine) × (store_all tools batch e ≡ (ok ids, after))
        × (map (λ id. (retrieve tools id after).0) ids ≡ map (λ b. ok b.0) batch)
  store_all-retrieve batch e ready h =
      let s = store_all-AllStored batch e ready h in
      (s.ids, s.after, s.ran, retrieved_all s.after s.ids s.sound ∙ s.back)
