-- ===== src/Core/ControllerTrip.antt =====
-- core/controller.py: what is written to a volume is what is read from it.
use storage_appliance_archit.Base.{
  ℕ, ◌+◌, ◌%◌, ◌≤◌, ◌≡◌, ◌≢◌, refl, ◌∙◌, ap, sym, Option, none, some, String, string_key,
  string_discrete, length, ite, Result, ok, raise, nat_key, Option-cases, inl, inr, arith,
}
use storage_appliance_archit.Base.Dict.{lookup}
use storage_appliance_archit.Purity.Wire.{Bytes}
use storage_appliance_archit.Purity.Tools.{Tools, IsLossless}
use storage_appliance_archit.Purity.Engine.{PurityEngine, retrieve, reduce_and_store}
use storage_appliance_archit.Purity.EngineStages.{IsPlain}
use storage_appliance_archit.Purity.EngineTrip.{IsSound, IsCollisionFree, reads, retrieve-reads}
use storage_appliance_archit.Purity.EngineKeeps.{Reduced}
use storage_appliance_archit.Purity.EngineStores.{reduce_and_store-Reduced}
use storage_appliance_archit.Storage.BackendSound
use storage_appliance_archit.Storage.BackendSound.{view}
use storage_appliance_archit.Core.Volume.{Volume, VolumeBlock, VolumeManager, get_volume, get_block}
use storage_appliance_archit.Core.VolumeBlocks.{write_block-reads}
use storage_appliance_archit.Core.Controller.{
  StorageController, ReadResult, WriteResult, read, read_found, write, write_found,
}

abbrev pub content_of : Result (Option ReadResult) → Result (Option Bytes)
content_of (raise x) = raise x
content_of (ok none) = ok none
content_of (ok (some r)) = ok (some r.content)

-- The data that `read` returns.
unfoldable pub seen : Tools → StorageController → String → ℕ → Result (Option Bytes)
seen tools c id offset = content_of (read tools id offset c).0

abbrev pub as_some : Result Bytes → Result (Option Bytes)
as_some (raise x) = raise x
as_some (ok content) = ok (some content)

-- The data of a block that the volume manager found.
abbrev pub through : Tools → PurityEngine → Result (Option VolumeBlock) → Result (Option Bytes)
through tools e (raise x) = raise x
through tools e (ok none) = ok none
through tools e (ok (some b)) = as_some (reads tools e b.block_id)

found_content :
    (tools : Tools) (id : String) (offset : ℕ) (b : VolumeBlock) (c : StorageController)
    → content_of (read_found tools id offset (some b) c).0
      ≡ as_some (retrieve tools b.block_id c.purity).0
unfolding read_found
found_content tools id offset b c = by_result (retrieve tools b.block_id c.purity) refl
  where
    by_result :
        (o : Result Bytes × PurityEngine)
        → retrieve tools b.block_id c.purity ≡ o
        → content_of (read_found tools id offset (some b) c).0
          ≡ as_some (retrieve tools b.block_id c.purity).0
    by_result (ok x, e) q = ground arith
    by_result (raise x, e) q = ground arith

pub seen-through :
    (tools : Tools) (c : StorageController) (id : String) (offset : ℕ)
    → BackendSound.IsSound tools c.purity.backend
    → seen tools c id offset ≡ through tools c.purity (get_block id offset c.volume_manager).0
unfolding seen read read_found get_volume get_block
seen-through tools c id offset h = elim (Option-cases (lookup id c.volume_manager.volumes)) [
  | inl e ↦ ground arith
  | inr (v, e) ↦ elim (Option-cases (lookup offset v.blocks)) [
    | inl f ↦ ground arith
    | inr (b, f) ↦
        let found = found_content tools id offset b c in
        let r = (retrieve-reads tools b.block_id c.purity h).0 in ground arith
  ]
]

-- The data is stored and read back, and all other data that could be read still can.
pub record Written (tools : Tools) (id : String) (offset : ℕ) (content : Bytes)
    (c after : StorageController) : Type 0 where
  pub sound : IsSound tools after.purity
  pub back : seen tools after id offset ≡ ok (some content)
  pub others :
      (j : String) (o : ℕ) (d : Bytes)
      → (id ≡ j → offset ≢ o)
      → seen tools c j o ≡ ok (some d)
      → seen tools after j o ≡ ok (some d)
  pub kept :
      (k : String) (d : Bytes) → reads tools c.purity k ≡ ok d → reads tools after.purity k ≡ ok d
  pub same_snapshots : after.snapshot_manager ≡ c.snapshot_manager

pub through-some :
    (tools : Tools) (e : PurityEngine) (x : Result (Option VolumeBlock)) (d : Bytes)
    → through tools e x ≡ ok (some d)
    → (b : VolumeBlock) × (x ≡ ok (some b)) × (reads tools e b.block_id ≡ ok d)
through-some tools e (raise x) d q = absurd (ground arith)
through-some tools e (ok none) d q = absurd (ground arith)
through-some tools e (ok (some b)) d q = (b, refl, by_result (reads tools e b.block_id) q)
  where
    by_result : (o : Result Bytes) → as_some o ≡ ok (some d) → o ≡ ok d
    by_result (ok y) p = ground arith
    by_result (raise y) p = absurd (ground arith)

module _ (tools : Tools) (id : String) (offset : ℕ) (content : Bytes) (c : StorageController) where
  -- The engine has stored the data, and the volume manager has recorded its block.
  recorded :
      (block_id : String)
      (r : Reduced tools content block_id c.purity
        (reduce_and_store tools content block_id c.purity))
      (m : VolumeManager String) (b : VolumeBlock)
      → b.block_id ≡ r.result.block_id
      → IsSound tools c.purity
      → ((j : String) (o : ℕ)
          → (get_block j o m).0
            ≡ ite
                (string_discrete id j)
                (ite (nat_key.dec offset o) (ok (some b)) (get_block j o c.volume_manager).0)
                (get_block j o c.volume_manager).0)
      → Written tools id offset content c (record c { purity = r.after; volume_manager = m })
  recorded block_id r m b same h rd =
      let after = record c { purity = r.after; volume_manager = m } in
      record {
        sound = r.sound;
        back =
            let here : (get_block id offset m).0 ≡ ok (some b) =
              (let q = rd id offset in ground arith) in
            seen-through tools after id offset r.sound.backend
            ∙ ap (through tools r.after) here
            ∙ ap (λ k. as_some (reads tools r.after k)) same
            ∙ ap as_some r.back;
        others = λ j o d n q.
            let (k, found, old) =
              through-some tools c.purity (get_block j o c.volume_manager).0 d
                (sym (seen-through tools c j o h.backend) ∙ q) in
            let there : (get_block j o m).0 ≡ ok (some k) = (let e = rd j o in ground arith) in
            seen-through tools after j o r.sound.backend
            ∙ ap (through tools r.after) there
            ∙ ap as_some (r.others k.block_id d old);
        kept = r.others;
        same_snapshots = refl;
      }

  -- In a controller whose engine is sound and whose block size is not zero, with lossless codecs
  -- and a digest without collisions, a write of plain data at an aligned offset within a volume
  -- that is there, under a block id that is not in use, succeeds; the data is then read at that
  -- offset, and all data that was read at another offset or from another volume is still read.
  pub write-Written :
      (l : IsLossless tools) (free : IsCollisionFree tools) (block_id : String) (now : ℕ)
      (v : Volume String)
      → IsSound tools c.purity
      → IsPlain c.purity.pattern_removal content
      → view c.purity.backend block_id ≡ none
      → lookup id c.volume_manager.volumes ≡ some v
      → c.default_block_size ≢ 0
      → offset % c.default_block_size ≡ 0
      → offset + length content ≤ v.size_bytes
      → (w : WriteResult) × (after : StorageController) × (write tools id offset content block_id
            now c
          ≡ (ok (some w), after))
        × Written tools id offset content c after
  unfolding write write_found get_volume
  write-Written l free block_id now v h plain fresh e size aligned fits =
      let r = reduce_and_store-Reduced tools l free content block_id c.purity plain fresh h in
      let b : VolumeBlock = record {
        offset = offset;
        block_id = r.result.block_id;
        fingerprint = r.result.dedupe_result.fingerprint;
        size = length content;
      } in
      let (m, run, rd) =
        write_block-reads id v b r.result.stored_size now c.volume_manager e fits in
      let ran = r.ran in
      (
        record { volume_id = id; offset = offset; size = length content; reduction = r.result },
        record c { purity = r.after; volume_manager = m },
        ground arith,
        recorded block_id r m b refl h rd,
      )
