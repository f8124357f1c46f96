-- ===== src/Core/ControllerClone.antt =====
-- core/controller.py: a clone shares the blocks of its source without a reference to them.
use storage_appliance_archit.Base.{
  ℕ, ◌≡◌, ◌≢◌, ◌∙◌, ap, sym, some, [], ◌∷◌, true, String, string_key, ok, raise, key_error, nat_key,
  Option-cases, inl, inr, arith,
}
use storage_appliance_archit.Base.Dict.{
  lookup, insert, lookup-insert, lookup-insert_self, lookup-erase_ne,
}
use storage_appliance_archit.Purity.Wire.{Bytes}
use storage_appliance_archit.Purity.Tools.{Tools}
use storage_appliance_archit.Purity.Dedup.{DedupEntry}
use storage_appliance_archit.Purity.Engine.{PurityEngine}
use storage_appliance_archit.Purity.Engine
use storage_appliance_archit.Purity.EngineTrip.{IsSound, IsCollisionFree, reads}
use storage_appliance_archit.Purity.EngineDelete.{delete-last_gone}
use storage_appliance_archit.Storage.BackendSound.{view}
use storage_appliance_archit.Core.Volume
use storage_appliance_archit.Core.Volume.{
  VolumeBlock, VolumeManager, get_volume, get_block, copy_blocks, clone_volume, clone_of,
  new_volume, filled, or_text, clone_label,
}
use storage_appliance_archit.Core.Controller.{
  StorageController, clone, delete_volume, delete_blocks,
}
use storage_appliance_archit.Core.ControllerTrip.{seen, through, seen-through, as_some}

-- The volumes after the clone.
module _ (source id : String) (v : Volume.Volume String) (now : ℕ) (name description : String)
    (m : VolumeManager String) where
  copy : Volume.Volume String
  copy = filled v (new_volume id now name v.size_bytes (or_text description (clone_label v)) v.tags)

  cloned : VolumeManager String
  cloned = (clone_volume source id now name description m).1

  cloned-copy : lookup source m.volumes ≡ some v → lookup id cloned.volumes ≡ some copy
  unfolding cloned copy clone_volume clone_of Volume.create_volume
  cloned-copy e =
      let empty =
        new_volume id now name v.size_bytes (or_text description (clone_label v)) v.tags in
      let found = lookup-insert_self id (filled v empty) (insert id empty m.volumes) in ground arith

  cloned-source :
      lookup source m.volumes ≡ some v → source ≢ id → lookup source cloned.volumes ≡ some v
  unfolding cloned copy clone_volume clone_of Volume.create_volume
  cloned-source e n =
      let empty =
        new_volume id now name v.size_bytes (or_text description (clone_label v)) v.tags in
      ground (
        arith,
        lookup-insert id source (filled v empty) (insert id empty m.volumes),
        lookup-insert id source empty m.volumes,
      )

  left-source :
      (k : VolumeManager String)
      → lookup source k.volumes ≡ some v
      → source ≢ id
      → lookup source (Volume.delete_volume id k).1.volumes ≡ some v
  unfolding Volume.delete_volume
  left-source k e n = elim (Option-cases (lookup id k.volumes)) [
    | inl f ↦ ground arith
    | inr (w, f) ↦ let l = lookup-erase_ne id source k.volumes (λ p. n (sym p)) in ground arith
  ]

  copy-blocks : (o : ℕ) (b : VolumeBlock) → v.blocks ≡ (o, b) ∷ [] → copy.blocks ≡ (o, b) ∷ []
  unfolding copy copy_blocks insert
  copy-blocks o b e = ap (λ d. copy_blocks d []) e

delete_one :
    (tools : Tools) (b : VolumeBlock) (o : ℕ) (p : PurityEngine) (c : StorageController)
    → Engine.delete b.block_id b.fingerprint c.purity ≡ (ok true, p)
    → delete_blocks ((o, b) ∷ []) c ≡ (ok tt, record c { purity = p })
unfolding delete_blocks
delete_one tools b o p c run = ground arith

-- From a sound engine, with a digest without collisions, where a volume has one block, and the
-- block one reference in the deduplication table and one in the backend, as after a single
-- write, a clone of the volume that is deleted takes the block with it: a read of the source
-- raises KeyError.
pub clone_then_delete-loses :
    (tools : Tools) (free : IsCollisionFree tools) (source id name description : String) (now o : ℕ)
    (v : Volume.Volume String) (b : VolumeBlock) (entry : DedupEntry) (stored : Bytes)
    (c : StorageController)
    → IsSound tools c.purity
    → source ≢ id
    → lookup source c.volume_manager.volumes ≡ some v
    → v.blocks ≡ (o, b) ∷ []
    → lookup b.fingerprint c.purity.deduplication.dedupe_table ≡ some entry
    → entry.block_id ≡ b.block_id
    → entry.reference_count ≡ 1
    → view c.purity.backend entry.block_id ≡ some (stored, 1)
    → seen tools (delete_volume id (clone source id now name description c).1).1 source o
      ≡ raise key_error
unfolding clone delete_volume get_volume get_block lookup cloned Volume.delete_volume
clone_then_delete-loses tools free source id name description now o v b entry stored c h n e one f
      same count last =
    let m = cloned source id v now name description c.volume_manager in
    let c1 = record c { volume_manager = m } in
    let (p, run, sound, gone) =
      delete-last_gone tools free b.fingerprint c.purity entry h f stored count last in
    let c2 = record c1 { purity = p; volume_manager = (Volume.delete_volume id m).1 } in
    let found = cloned-copy source id v now name description c.volume_manager e in
    let kept =
      left-source source id v now name description c.volume_manager m
        (cloned-source source id v now name description c.volume_manager e n) n in
    let blocks : (copy source id v now name description c.volume_manager).blocks ≡ (o, b) ∷ [] =
      copy-blocks source id v now name description c.volume_manager o b one in
    let run1 : delete_blocks (copy source id v now name description c.volume_manager).blocks c1
        ≡ (ok tt, record c1 { purity = p }) =
      ap (λ d. delete_blocks d c1) blocks
      ∙ delete_one tools b o p c1
          (ap (λ k. Engine.delete k b.fingerprint c.purity) (sym same) ∙ run) in
    let deleted : (delete_volume id c1).1 ≡ c2 = ground arith in
    let at : (get_block source o (Volume.delete_volume id m).1).0 ≡ ok (some b) = ground arith in
    ap (λ t. seen tools t source o) deleted
    ∙ seen-through tools c2 source o sound.backend
    ∙ ap (through tools p) at
    ∙ ap as_some (ap (reads tools p) (sym same) ∙ gone)
