-- ===== src/Core/VolumeBlocks.antt =====
-- core/volume_manager.py: the blocks of volumes under writes and clones.
use storage_appliance_archit.Base.{
  ℕ, ◌+◌, ◌≤◌, ◌≡◌, ◌≢◌, refl, ◌∙◌, ap, none, some, [], ◌∷◌, ◌++◌, append_assoc, le→ltb, String,
  true, arith, ok, Key, nat_key, ite,
}
use storage_appliance_archit.Base.Int.{pos, ◌+ℤ◌, ◌-ℤ◌}
use storage_appliance_archit.Base.Dict.{
  Dict, IsDict, lookup, insert, lookup-insert, lookup-insert_self,
}
use storage_appliance_archit.Core.Volume.{
  VolumeBlock, Volume, VolumeManager, new_volume, written, filled, copy_blocks, create_volume,
  delete_volume, write_block, get_block, clone_volume, clone_of, clone_label, or_text,
}
use storage_appliance_archit.Core.VolumeSound.{IsSound, create_volume-IsSound, replaced-IsSound}

insert_new :
    (o : ℕ) (b : VolumeBlock) (d : Dict ℕ VolumeBlock)
    → lookup o d ≡ none
    → insert o b d ≡ d ++ ((o, b) ∷ [])
unfolding lookup insert
insert_new o b [] h = refl
insert_new o b ((i, c) ∷ d) h = ground (arith, insert_new o b d)

lookup_append :
    (o i : ℕ) (b : VolumeBlock) (d : Dict ℕ VolumeBlock)
    → o ≢ i
    → lookup i d ≡ none
    → lookup i (d ++ ((o, b) ∷ [])) ≡ none
unfolding lookup
lookup_append o i b [] n h = ground arith
lookup_append o i b ((j, c) ∷ d) n h = ground (arith, lookup_append o i b d n)

there : (o : ℕ) (b : VolumeBlock) (d : Dict ℕ VolumeBlock) → lookup o ((o, b) ∷ d) ≢ none
unfolding lookup
there o b d e = ground arith

later :
    (o i : ℕ) (b : VolumeBlock) (d : Dict ℕ VolumeBlock)
    → lookup i d ≢ none
    → lookup i ((o, b) ∷ d) ≢ none
unfolding lookup
later o i b d n e = ground arith

append_nil : (d : Dict ℕ VolumeBlock) → d ≡ d ++ []
append_nil [] = refl
append_nil (x ∷ d) = ap (λ r. x ∷ r) (append_nil d)

copy_blocks-append :
    (d acc : Dict ℕ VolumeBlock)
    → IsDict d
    → ((o : ℕ) → lookup o d ≢ none → lookup o acc ≡ none)
    → copy_blocks d acc ≡ acc ++ d
unfolding copy_blocks
copy_blocks-append [] acc h n = (append_nil acc)
copy_blocks-append ((o, b) ∷ d) acc h n =
    ap (copy_blocks d) (insert_new o b acc (n o (there o b d)))
    ∙ copy_blocks-append d (acc ++ ((o, b) ∷ [])) h.1
        (λ i k. lookup_append o i b acc (λ p. ground (arith, h.0)) (n i (later o i b d k)))
    ∙ append_assoc acc ((o, b) ∷ []) d

-- A copy of a dictionary is the dictionary.
pub copy_blocks_self : (d : Dict ℕ VolumeBlock) → IsDict d → copy_blocks d [] ≡ d
unfolding lookup
copy_blocks_self d h = copy_blocks-append d [] h (λ o n. refl)

module _ {K : Type 0} ⦃key : Key K⦄ where
  -- A write within the volume succeeds: the volume reads the block at its offset, and every other
  -- offset of every volume reads what it read before.
  pub write_block-reads :
      (id : K) (v : Volume K) (b : VolumeBlock) (physical now : ℕ) (m : VolumeManager K)
      → lookup id m.volumes ≡ some v
      → b.offset + b.size ≤ v.size_bytes
      → (m' : VolumeManager K) × (write_block id b physical now m ≡ (ok true, m'))
        × ((j : K) (o : ℕ)
            → (get_block j o m').0
              ≡ ite
                  (key.dec id j)
                  (ite (nat_key.dec b.offset o) (ok (some b)) (get_block j o m).0)
                  (get_block j o m).0)
  unfolding write_block get_block
  write_block-reads id v b physical now m e fits = (
    (write_block id b physical now m).1,
    ground (arith, le→ltb v.size_bytes (b.offset + b.size) fits),
    λ j o. ground (
      arith,
      le→ltb v.size_bytes (b.offset + b.size) fits,
      lookup-insert id j (written b physical now v) m.volumes,
      lookup-insert b.offset o b v.blocks,
    ),
  )

  -- From a sound state a clone under a new id reads at every offset what the source reads, and
  -- every other volume stays as it is.
  pub clone_volume-shares :
      (source id : K) (v : Volume K) (now : ℕ) (name d : String) (m : VolumeManager K)
      → IsSound m
      → lookup source m.volumes ≡ some v
      → lookup id m.volumes ≡ none
      → (c : Volume K) × (m' : VolumeManager K) × (clone_volume source id now name d m
          ≡ (ok (some c), m'))
        × ((o : ℕ) → (get_block id o m').0 ≡ (get_block source o m).0)
        × ((j : K) → lookup j m'.volumes ≡ ite (key.dec id j) (some c) (lookup j m.volumes))
        × IsSound m'
  unfolding clone_volume clone_of create_volume get_block
  clone_volume-shares source id v now name d m h e fresh =
      let k = (h.all source v e).1 in
      let text = or_text d (clone_label v) in
      let empty : Volume K = new_volume id now name v.size_bytes text v.tags in
      let m₁ : VolumeManager K = (create_volume id now name v.size_bytes text v.tags m).1 in
      let same = copy_blocks_self v.blocks k.is_dict in
      (
        filled v empty,
        record m₁ { volumes = insert id (filled v empty) m₁.volumes },
        ground arith,
        λ o. ground (arith, same, lookup-insert_self id (filled v empty) m₁.volumes),
        λ j. ground (
          arith,
          lookup-insert id j (filled v empty) m₁.volumes,
          lookup-insert id j empty m.volumes,
        ),
        replaced-IsSound id empty (filled v empty) m₁ (lookup-insert_self id empty m.volumes) refl
            refl
            (record {
              is_dict = rw same k.is_dict;
              used = rw same k.used;
              logical = k.logical;
              within = rw same k.within;
            })
            (create_volume-IsSound id now name v.size_bytes text v.tags m fresh h),
      )

  -- Overwriting a block adds the new size to the manager's total of used bytes, while the volume's
  -- own counter takes the old size off.
  pub write_block-drifts :
      (id : K) (v : Volume K) (b old : VolumeBlock) (physical now : ℕ) (m : VolumeManager K)
      → lookup id m.volumes ≡ some v
      → lookup b.offset v.blocks ≡ some old
      → b.offset + b.size ≤ v.size_bytes
      → (w : Volume K) × (lookup id (write_block id b physical now m).1.volumes ≡ some w)
        × (w.used_bytes ≡ (v.used_bytes -ℤ pos old.size) +ℤ pos b.size)
        × ((write_block id b physical now m).1.stats.total_used_bytes
            ≡ m.stats.total_used_bytes +ℤ pos b.size)
  unfolding write_block
  write_block-drifts id v b old physical now m e l fits =
      let inside = le→ltb v.size_bytes (b.offset + b.size) fits in
      (
        written b physical now v,
        ground (arith, inside, lookup-insert_self id (written b physical now v) m.volumes),
        ground arith,
        ground (arith, inside),
      )

  -- Cloning a volume and deleting the clone takes the used bytes of the source off the manager's
  -- total, although the source is still there.
  pub clone_then_delete-drifts :
      (source id : K) (v : Volume K) (now : ℕ) (name d : String) (m : VolumeManager K)
      → lookup source m.volumes ≡ some v
      → (delete_volume id (clone_volume source id now name d m).1).1.stats.total_used_bytes
        ≡ m.stats.total_used_bytes -ℤ v.used_bytes
  unfolding clone_volume clone_of create_volume delete_volume
  clone_then_delete-drifts source id v now name d m e =
      let empty : Volume K =
        new_volume id now name v.size_bytes (or_text d (clone_label v)) v.tags in
      let found = lookup-insert_self id (filled v empty) (insert id empty m.volumes) in ground arith
