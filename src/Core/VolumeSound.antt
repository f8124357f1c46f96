-- ===== src/Core/VolumeSound.antt =====
-- core/volume_manager.py: the counters of the manager and of its volumes, and the calls one by one.
use storage_appliance_archit.Base.{
  ℕ, ◌+◌, ◌-◌, ◌≤◌, ◌≡◌, refl, ◌∙◌, ap, sym, subst, Option, none, some, ltb, ltb→le, String, arith,
  Bool-cases, Option-cases, inl, inr, Key, nat_key,
}
use storage_appliance_archit.Base.Int.{pos, ◌+ℤ◌, ◌-ℤ◌, pos-add, pos-sub}
use storage_appliance_archit.Base.Dict.{
  Dict, IsDict, lookup, insert, total, weight, insert-IsDict, erase-IsDict, lookup-insert,
  lookup-erase, total-insert, total-erase, weight-le-total,
}
use storage_appliance_archit.Core.Volume.{
  VolumeBlock, Volume, VolumeManager, new_volume, old_size, written, renamed, resized,
  create_volume, update_volume, delete_volume, resize_volume, write_block,
}

abbrev pub block_bytes : VolumeBlock → ℕ
block_bytes b = b.size

-- The counters of a volume are the sizes of its blocks, which stand at their offsets and within
-- the volume.
pub record IsVolume {K : Type 0} (v : Volume K) : Type 0 where
  pub is_dict : IsDict v.blocks
  pub used : v.used_bytes ≡ pos (total block_bytes v.blocks)
  pub logical : v.logical_bytes ≡ v.used_bytes
  pub within :
      (o : ℕ) (b : VolumeBlock)
      → lookup o v.blocks ≡ some b
      → (b.offset ≡ o) × (o + b.size ≤ v.size_bytes)

abbrev pub one : {K : Type 0} → Volume K → ℕ
one v = 1

abbrev pub provisioned : {K : Type 0} → Volume K → ℕ
provisioned v = v.size_bytes

module _ {K : Type 0} ⦃key : Key K⦄ where
  -- Every volume is filed under its id and sound, and the totals of volumes and of provisioned
  -- bytes are those of the volumes that there are.
  pub record IsSound (m : VolumeManager K) : Type 0 where
    pub is_dict : IsDict m.volumes
    pub all : (k : K) (v : Volume K) → lookup k m.volumes ≡ some v → (v.id ≡ k) × IsVolume v
    pub counted : m.stats.total_volumes ≡ pos (total one m.volumes)
    pub sized : m.stats.total_provisioned_bytes ≡ pos (total provisioned m.volumes)

  old_size_lem : (o : ℕ) (v : Volume K) → old_size o v ≡ weight block_bytes (lookup o v.blocks)
  old_size_lem o v = ground arith

  written-IsVolume :
      (b : VolumeBlock) (physical now : ℕ) (v : Volume K)
      → b.offset + b.size ≤ v.size_bytes
      → IsVolume v
      → IsVolume (written b physical now v)
  written-IsVolume b physical now v fits h =
      let sums = total-insert block_bytes b.offset b v.blocks in
      let least = weight-le-total block_bytes b.offset v.blocks in
      let old = old_size_lem b.offset v in
      let t = total block_bytes v.blocks in
      let o = old_size b.offset v in
      record {
        is_dict = insert-IsDict b.offset b v.blocks h.is_dict;
        used =
            ap (λ u. (u -ℤ pos o) +ℤ pos b.size) h.used
            ∙ ap (λ u. u +ℤ pos b.size) (pos-sub t o (omega (arith, least, old)))
            ∙ pos-add (t - o) b.size
            ∙ ap pos (omega (arith, sums, least, old));
        logical = ap (λ u. (u -ℤ pos o) +ℤ pos b.size) h.logical;
        within = λ i c e. ground (arith, lookup-insert b.offset i b v.blocks, h.within i c);
      }

  new_volume-IsVolume :
      (id : K) (now : ℕ) (name : String) (size : ℕ) (d : String) (tags : Dict String String)
      → IsVolume (new_volume id now name size d tags)
  unfolding lookup
  new_volume-IsVolume id now name size d tags = record {
    is_dict = tt;
    used = refl;
    logical = refl;
    within = λ o b e. cc;
  }

  -- A volume in place of one with the same id.
  replaced-all :
      (m : VolumeManager K) (id : K) (w : Volume K)
      → ((k : K) (v : Volume K) → lookup k m.volumes ≡ some v → (v.id ≡ k) × IsVolume v)
      → w.id ≡ id
      → IsVolume w
      → (k : K) (v : Volume K) → lookup k (insert id w m.volumes) ≡ some v
      → (v.id ≡ k) × IsVolume v
  replaced-all m id w all same good k v e = elim (key.dec id k) [
    | yes p ↦
        let q : w ≡ v = ground (arith, lookup-insert id k w m.volumes) in
        (ap (λ x. x.id) (sym q) ∙ same ∙ p, subst IsVolume q good)
    | no p ↦ all k v (ground (arith, lookup-insert id k w m.volumes))
  ]

  -- `create_volume` under a new id.
  pub create_volume-IsSound :
      (id : K) (now : ℕ) (name : String) (size : ℕ) (d : String) (tags : Dict String String)
      (m : VolumeManager K)
      → lookup id m.volumes ≡ none
      → IsSound m
      → IsSound (create_volume id now name size d tags m).1
  unfolding create_volume
  create_volume-IsSound id now name size d tags m fresh h =
      let v : Volume K = new_volume id now name size d tags in
      record {
        is_dict = insert-IsDict id v m.volumes h.is_dict;
        all = replaced-all m id v h.all refl (new_volume-IsVolume id now name size d tags);
        counted =
            ground
              (arith, h.counted, pos-add (total one m.volumes) 1, total-insert one id v m.volumes);
        sized = ground (
          arith,
          h.sized,
          pos-add (total provisioned m.volumes) size,
          total-insert provisioned id v m.volumes,
        );
      }

  -- A change of a volume that keeps its id and its size.
  pub replaced-IsSound :
      (id : K) (v w : Volume K) (m : VolumeManager K)
      → lookup id m.volumes ≡ some v
      → w.id ≡ v.id
      → w.size_bytes ≡ v.size_bytes
      → IsVolume w
      → IsSound m
      → IsSound (record m { volumes = insert id w m.volumes })
  replaced-IsSound id v w m e same size good h = record {
    is_dict = insert-IsDict id w m.volumes h.is_dict;
    all = replaced-all m id w h.all (same ∙ (h.all id v e).0) good;
    counted = ground (arith, h.counted, total-insert one id w m.volumes);
    sized = ground (arith, h.sized, total-insert provisioned id w m.volumes);
  }

  pub update_volume-IsSound :
      (id : K) (name d : Option String) (tags : Option (Dict String String)) (now : ℕ)
      (m : VolumeManager K)
      → IsSound m
      → IsSound (update_volume id name d tags now m).1
  unfolding update_volume
  update_volume-IsSound id name d tags now m h = elim (Option-cases (lookup id m.volumes)) [
    | inl e ↦ rw (e, update_volume) h
    | inr (v, e) ↦
        let k = (h.all id v e).1 in
        rw (e, update_volume)
          (replaced-IsSound id v (renamed name d tags now v) m e refl refl
            (record { is_dict = k.is_dict; used = k.used; logical = k.logical; within = k.within })
            h)
  ]

  pub delete_volume-IsSound :
      (id : K) (m : VolumeManager K) → IsSound m → IsSound (delete_volume id m).1
  unfolding delete_volume
  delete_volume-IsSound id m h = elim (Option-cases (lookup id m.volumes)) [
    | inl e ↦ rw (e, delete_volume) h
    | inr (v, e) ↦
        let c = total-erase one id m.volumes in
        let s = total-erase provisioned id m.volumes in
        let cw : weight one (lookup id m.volumes) ≡ 1 = rw e refl in
        let sw : weight provisioned (lookup id m.volumes) ≡ v.size_bytes = rw e refl in
        rw (e, delete_volume)
          (record {
            is_dict = erase-IsDict id m.volumes h.is_dict;
            all = λ k w l. h.all k w (ground (arith, lookup-erase id k m.volumes h.is_dict));
            counted =
                ap (λ u. u -ℤ pos 1) h.counted
                ∙ pos-sub (total one m.volumes) 1 (omega (arith, c, cw))
                ∙ ap pos (omega (arith, c, cw));
            sized =
                ap (λ u. u -ℤ pos v.size_bytes) h.sized
                ∙ pos-sub (total provisioned m.volumes) v.size_bytes (omega (arith, s, sw))
                ∙ ap pos (omega (arith, s, sw));
          })
  ]

  pub resize_volume-IsSound :
      (id : K) (size now : ℕ) (m : VolumeManager K)
      → IsSound m
      → IsSound (resize_volume id size now m).1
  unfolding resize_volume
  resize_volume-IsSound id size now m h = elim (Option-cases (lookup id m.volumes)) [
    | inl e ↦ rw (e, resize_volume) h
    | inr (v, e) ↦ elim (Bool-cases (ltb size v.size_bytes)) [
      | inl t ↦ rw (e, t, resize_volume) h
      | inr t ↦
          let k = (h.all id v e).1 in
          let grows = ltb→le size v.size_bytes t in
          let w : Volume K = resized size now v in
          let s = total-insert provisioned id w m.volumes in
          let sw : weight provisioned (lookup id m.volumes) ≡ v.size_bytes = rw e refl in
          rw (e, t, resize_volume)
            (record {
              is_dict = insert-IsDict id w m.volumes h.is_dict;
              all = replaced-all m id w h.all (h.all id v e).0 (record {
                is_dict = k.is_dict;
                used = k.used;
                logical = k.logical;
                within = λ o b l. ((k.within o b l).0, omega (arith, (k.within o b l).1, grows));
              });
              counted = ground (arith, h.counted, total-insert one id w m.volumes);
              sized =
                  ap (λ u. u +ℤ (pos size -ℤ pos v.size_bytes)) h.sized
                  ∙ ap (λ u. pos (total provisioned m.volumes) +ℤ u)
                      (pos-sub size v.size_bytes grows)
                  ∙ pos-add (total provisioned m.volumes) (size - v.size_bytes)
                  ∙ ap pos (omega (arith, s, sw, grows));
            })
    ]
  ]

  pub write_block-IsSound :
      (id : K) (b : VolumeBlock) (physical now : ℕ) (m : VolumeManager K)
      → IsSound m
      → IsSound (write_block id b physical now m).1
  unfolding write_block
  write_block-IsSound id b physical now m h = elim (Option-cases (lookup id m.volumes)) [
    | inl e ↦ rw (e, write_block) h
    | inr (v, e) ↦ elim (Bool-cases (ltb v.size_bytes (b.offset + b.size))) [
      | inl t ↦ rw (e, t, write_block) h
      | inr t ↦
          let w : Volume K = written b physical now v in
          let good = written-IsVolume b physical now v (ltb→le _ _ t) (h.all id v e).1 in
          let after = replaced-IsSound id v w m e refl refl good h in
          rw (e, t, write_block)
            (record {
              is_dict = after.is_dict;
              all = after.all;
              counted = after.counted;
              sized = after.sized;
            })
    ]
  ]
