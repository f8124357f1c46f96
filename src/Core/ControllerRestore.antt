-- ===== src/Core/ControllerRestore.antt =====
-- core/controller.py: writes that fail, and what a restore of a snapshot brings back.
use storage_appliance_archit.Base.{
  ℕ, ◌+◌, ◌%◌, ◌≤◌, ◌<◌, ◌≡◌, ◌≢◌, refl, ◌∙◌, ap, sym, subst, Option, none, some, String,
  string_key, length, ok, raise, value_error, nat_key, Option-cases, inl, inr, arith,
}
use storage_appliance_archit.Base.Dict.{Dict, IsDict, lookup, insert, lookup-insert_self}
use storage_appliance_archit.Purity.Wire.{Bytes}
use storage_appliance_archit.Purity.Tools.{Tools, IsLossless}
use storage_appliance_archit.Purity.EngineStages.{IsPlain}
use storage_appliance_archit.Purity.EngineTrip.{IsSound, IsCollisionFree, reads}
use storage_appliance_archit.Purity.EngineStores.{reduce_and_store-Reduced}
use storage_appliance_archit.Storage.BackendSound
use storage_appliance_archit.Storage.BackendSound.{view}
use storage_appliance_archit.Core.Volume.{Volume, VolumeBlock, get_volume, get_block, write_block}
use storage_appliance_archit.Core.VolumeBlocks.{copy_blocks_self}
use storage_appliance_archit.Core.Snapshot
use storage_appliance_archit.Core.Snapshot.{Snapshot, snapshot_of, get_snapshot}
use storage_appliance_archit.Core.Controller.{
  StorageController, write, write_found, create_snapshot, restore_snapshot, restore_found, restored,
}
use storage_appliance_archit.Core.ControllerTrip.{
  seen, through, seen-through, through-some, as_some, Written, write-Written,
}

-- In a controller whose engine is sound and whose block size is not zero, with lossless codecs
-- and a digest without collisions, a write of plain data at an aligned offset, under a block id
-- that is not in use, that does not fit the volume raises ValueError and leaves the volumes as
-- they are, while the engine then has a block that reads the data.
pub write-beyond_leaks :
    (tools : Tools) (id : String) (offset : ℕ) (content : Bytes) (c : StorageController)
    (l : IsLossless tools) (free : IsCollisionFree tools) (block_id : String) (now : ℕ)
    (v : Volume String)
    → IsSound tools c.purity
    → IsPlain c.purity.pattern_removal content
    → view c.purity.backend block_id ≡ none
    → lookup id c.volume_manager.volumes ≡ some v
    → c.default_block_size ≢ 0
    → offset % c.default_block_size ≡ 0
    → v.size_bytes < offset + length content
    → (after : StorageController) × (stored : String) × (write tools id offset content block_id now
          c
        ≡ (raise value_error, after))
      × (after.volume_manager ≡ c.volume_manager)
      × (reads tools after.purity stored ≡ ok content)
unfolding write write_found get_volume write_block
write-beyond_leaks tools id offset content c l free block_id now v h plain fresh e size aligned
      beyond =
    let r = reduce_and_store-Reduced tools l free content block_id c.purity plain fresh h in
    let ran = r.ran in
    (record c { purity = r.after }, r.result.block_id, ground arith, refl, r.back)

-- The controller after a restore to the volume `id`.
abbrev put_back : String → Snapshot String → Volume String → StorageController → StorageController
put_back id s w c = record c {
  volume_manager = record c.volume_manager {
    volumes = insert id (restored s w) c.volume_manager.volumes;
  };
}

restore_found-blocks :
    (id : String) (s : Snapshot String) (c : StorageController) (new_id : String) (now : ℕ)
    (w : Volume String)
    → id ≢ ""
    → lookup id c.volume_manager.volumes ≡ some w
    → restore_found (some id) new_id now s c ≡ (ok (some (restored s w)), put_back id s w c)
unfolding restore_found get_volume
restore_found-blocks String.[] s c new_id now w n f = absurd (n refl)
restore_found-blocks (String.◌∷◌ x id) s c new_id now w n f = ground arith

module _ (tools : Tools) (id snapshot_id : String) (s : Snapshot String)
    (c : StorageController) where
  restored-seen :
      (new_id : String) (now : ℕ) (w : Volume String)
      → id ≢ ""
      → BackendSound.IsSound tools c.purity.backend
      → lookup snapshot_id c.snapshot_manager.snapshots ≡ some s
      → lookup id c.volume_manager.volumes ≡ some w
      → IsDict s.blocks
      → (restore_snapshot snapshot_id (some id) new_id now c
          ≡ (ok (some (restored s w)), put_back id s w c))
        × ((o : ℕ)
            → seen tools (put_back id s w c) id o ≡ through tools c.purity (ok (lookup o s.blocks)))
  unfolding restore_snapshot get_snapshot get_block
  restored-seen new_id now w n h e f d =
      let run = restore_found-blocks id s c new_id now w n f in
      let same = copy_blocks_self s.blocks d in
      let found = lookup-insert_self id (restored s w) c.volume_manager.volumes in
      (
        ground arith,
        λ o.
            seen-through tools (put_back id s w c) id o h
            ∙ ap (through tools c.purity) {y = ok (lookup o s.blocks)} (ground arith),
      )

-- A snapshot of the volume `v` was made, data was written, and now the snapshot is restored.
restored-again :
    (tools : Tools) (id : String) (offset : ℕ) (content : Bytes) (c1 c2 : StorageController)
    (wr : Written tools id offset content c1 c2) (snapshot_id new_id : String) (now : ℕ)
    (s : Snapshot String) (o : ℕ) (k : VolumeBlock) (d : Bytes)
    → id ≢ ""
    → lookup snapshot_id c1.snapshot_manager.snapshots ≡ some s
    → IsDict s.blocks
    → lookup o s.blocks ≡ some k
    → reads tools c1.purity k.block_id ≡ ok d
    → seen tools (restore_snapshot snapshot_id (some id) new_id now c2).1 id o ≡ ok (some d)
unfolding get_block
restored-again tools id offset content c1 c2 wr snapshot_id new_id now s o k d n e dict at r =
    let back = sym (seen-through tools c2 id offset wr.sound.backend) ∙ wr.back in
    let (b, found, q) =
      through-some tools c2.purity (get_block id offset c2.volume_manager).0 content back in
    elim (Option-cases (lookup id c2.volume_manager.volumes)) [
      | inl f ↦ absurd (ground arith)
      | inr (w, f) ↦
          let there = ap (λ m. lookup snapshot_id m.snapshots) wr.same_snapshots ∙ e in
          let (run, sees) =
            restored-seen tools id snapshot_id s c2 new_id now w n wr.sound.backend there f dict in
          ap (λ t. seen tools t.1 id o) run
          ∙ sees o
          ∙ ap (λ x. through tools c2.purity (ok x)) at
          ∙ ap as_some (wr.kept k.block_id d r)
    ]

-- Under the conditions of a write that succeeds, for a volume whose id is not the empty text and
-- whose blocks are filed once each: when a snapshot of it is made, the write is done, and the
-- snapshot is restored to it, it reads all the data that it read before the snapshot, at the
-- same offsets.
pub snapshot_write_restore :
    (tools : Tools) (l : IsLossless tools) (free : IsCollisionFree tools)
    (id snapshot_id block_id new_id timestamp description : String) (name : Option String)
    (tags : Dict String String) (offset now : ℕ) (content : Bytes) (v : Volume String)
    (c : StorageController)
    → id ≢ ""
    → IsSound tools c.purity
    → IsPlain c.purity.pattern_removal content
    → view c.purity.backend block_id ≡ none
    → lookup id c.volume_manager.volumes ≡ some v
    → IsDict v.blocks
    → c.default_block_size ≢ 0
    → offset % c.default_block_size ≡ 0
    → offset + length content ≤ v.size_bytes
    → (o : ℕ) (d : Bytes) → seen tools c id o ≡ ok (some d)
    → let c1 = (create_snapshot id snapshot_id now timestamp name description tags c).1 in
      let c2 = (write tools id offset content block_id now c1).1 in
      seen tools (restore_snapshot snapshot_id (some id) new_id now c2).1 id o ≡ ok (some d)
unfolding create_snapshot get_volume Snapshot.create_snapshot snapshot_of get_block
snapshot_write_restore tools l free id snapshot_id block_id new_id timestamp description name tags
      offset now content v c n h plain fresh e dict size aligned fits o d q =
    let s = snapshot_of snapshot_id now timestamp v name description tags in
    let c1 = record c {
      snapshot_manager =
          (Snapshot.create_snapshot snapshot_id now timestamp v name description tags
            c.snapshot_manager).1;
    } in
    let made : (create_snapshot id snapshot_id now timestamp name description tags c).1 ≡ c1 =
      ground arith in
    let (w, c2, run, wr) =
      write-Written tools id offset content c1 l free block_id now v h plain fresh e size aligned
        fits in
    let same = copy_blocks_self v.blocks dict in
    let (k, found, r) =
      through-some tools c.purity (get_block id o c.volume_manager).0 d
        (sym (seen-through tools c id o h.backend) ∙ q) in
    let at : lookup o v.blocks ≡ some k = ground arith in
    ap
      (λ t.
        seen tools
          (restore_snapshot snapshot_id (some id) new_id now
            (write tools id offset content block_id now t).1).1
          id o)
      made
    ∙ ap (λ t. seen tools (restore_snapshot snapshot_id (some id) new_id now t.1).1 id o) run
    ∙ restored-again tools id offset content c1 c2 wr snapshot_id new_id now s o k d n
        (lookup-insert_self snapshot_id s c.snapshot_manager.snapshots)
        (subst (λ b. IsDict b) (sym same) dict) (ap (lookup o) same ∙ at) r
