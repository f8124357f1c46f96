-- ===== src/Core/SnapshotSound.antt =====
-- core/snapshot_manager.py: snapshots are listed under their volumes, keep their blocks, and can be
-- deleted.
use storage_appliance_archit.Base.{
  ℕ, ◌≡◌, ◌≢◌, refl, ◌∙◌, ap, Option, none, some, List, [], ◌∷◌, String, Bool, true, false, arith,
  ok, Option-cases, inl, inr, Key, nat_key, ite,
}
use storage_appliance_archit.Base.Int.{pos, ◌-ℤ◌, pos-add, pos-sub}
use storage_appliance_archit.Base.Dict.{
  Dict, IsDict, lookup, total, weight, insert-IsDict, erase-IsDict, lookup-insert, lookup-erase,
  total-insert, total-erase,
}
use storage_appliance_archit.Core.Volume.{Volume}
use storage_appliance_archit.Core.VolumeBlocks.{copy_blocks_self}
use storage_appliance_archit.Core.Snapshot.{
  Snapshot, SnapshotManager, snapshot_of, appended, or_empty, remove_first, untracked, relisted,
  create_snapshot, delete_snapshot, get_snapshot_blocks,
}

module _ {K : Type 0} ⦃key : Key K⦄ where
  -- The id occurs in the list.
  abbrev pub has : K → List K → Bool
  has id [] = false
  has id (j ∷ js) = ite (key.dec j id) true (has id js)

  abbrev listed : K → Option (List K) → Bool
  listed id none = false
  listed id (some ids) = has id ids

  abbrev one : Snapshot K → ℕ
  one s = 1

  -- Every snapshot is filed under its id and listed under its volume, and the total is the number
  -- of snapshots.
  pub record IsSound (m : SnapshotManager K) : Type 0 where
    pub is_dict : IsDict m.snapshots
    pub all :
        (k : K) (s : Snapshot K)
        → lookup k m.snapshots ≡ some s
        → (s.id ≡ k) × (listed k (lookup s.volume_id m.volume_snapshots) ≡ true)
    pub counted : m.stats.total_snapshots ≡ pos (total one m.snapshots)

  has-appended_self : (k : K) (ids : List K) → has k (appended k ids) ≡ true
  has-appended_self k [] = ground arith
  has-appended_self k (i ∷ ids) = ground (arith, has-appended_self k ids)

  has-appended : (k j : K) (ids : List K) → has k ids ≡ true → has k (appended j ids) ≡ true
  has-appended k j [] h = absurd (ground arith)
  has-appended k j (i ∷ ids) h = ground (arith, has-appended k j ids)

  remove_first-found :
      (k : K) (ids : List K)
      → has k ids ≡ true
      → (rest : List K) × (remove_first k ids ≡ some rest)
        × ((j : K) → j ≢ k → has j rest ≡ has j ids)
  remove_first-found k [] h = absurd (ground arith)
  remove_first-found k (i ∷ ids) h = elim (key.dec i k) [
    | yes p ↦ (ids, ground arith, λ j n. ground arith)
    | no p ↦
        let (rest, e, same) = remove_first-found k ids (ground arith) in
        (i ∷ rest, ground arith, λ j n. ground (arith, same j n))
  ]

  pub create_snapshot-IsSound :
      (id : K) (now : ℕ) (stamp : String) (v : Volume K) (name : Option String) (d : String)
      (tags : Dict String String) (m : SnapshotManager K)
      → lookup id m.snapshots ≡ none
      → IsSound m
      → IsSound (create_snapshot id now stamp v name d tags m).1
  unfolding create_snapshot snapshot_of
  create_snapshot-IsSound id now stamp v name d tags m fresh h =
      let s = snapshot_of id now stamp v name d tags in
      let ids = or_empty (lookup v.id m.volume_snapshots) in
      record {
        is_dict = insert-IsDict id s m.snapshots h.is_dict;
        all = λ k t l. ground (
          arith,
          h.all k t,
          lookup-insert id k s m.snapshots,
          lookup-insert v.id t.volume_id (appended id ids) m.volume_snapshots,
          has-appended_self id ids,
          has-appended k id ids,
        );
        counted = ground (
          arith,
          h.counted,
          pos-add (total one m.snapshots) 1,
          total-insert one id s m.snapshots,
        );
      }

  -- From a sound state a snapshot that is there is deleted: the call does not raise, the snapshot
  -- is gone, every other one stays as it is, and every remaining one is listed under its volume.
  pub delete_snapshot-deletes :
      (id : K) (s : Snapshot K) (m : SnapshotManager K)
      → IsSound m
      → lookup id m.snapshots ≡ some s
      → (m' : SnapshotManager K) × (delete_snapshot id m ≡ (ok true, m'))
        × ((k : K) → lookup k m'.snapshots ≡ ite (key.dec id k) none (lookup k m.snapshots))
        × IsSound m'
  unfolding delete_snapshot
  delete_snapshot-deletes id s m h e = elim (Option-cases (lookup s.volume_id m.volume_snapshots)) [
    | inl q ↦ absurd (let l = (h.all id s e).1 in ground arith)
    | inr (ids, q) ↦
        let there : has id ids ≡ true = (let l = (h.all id s e).1 in ground arith) in
        let (rest, r, same) = remove_first-found id ids there in
        let c = total-erase one id m.snapshots in
        let w : weight one (lookup id m.snapshots) ≡ 1 = rw e refl in
        (
          untracked id (relisted s.volume_id rest m),
          ground arith,
          λ k. lookup-erase id k m.snapshots h.is_dict,
          record {
            is_dict = erase-IsDict id m.snapshots h.is_dict;
            all = λ k t l. ground (
              arith,
              h.all k t,
              same k,
              lookup-erase id k m.snapshots h.is_dict,
              lookup-insert s.volume_id t.volume_id rest m.volume_snapshots,
            );
            counted =
                ap (λ u. u -ℤ pos 1) h.counted
                ∙ pos-sub (total one m.snapshots) 1 (omega (arith, c, w))
                ∙ ap pos (omega (arith, c, w));
          },
        )
  ]

  -- A new snapshot of a volume with no offset twice holds the blocks of the volume, and every
  -- other snapshot stays as it is.
  pub create_snapshot-captures :
      (id : K) (now : ℕ) (stamp : String) (v : Volume K) (name : Option String) (d : String)
      (tags : Dict String String) (m : SnapshotManager K) (j : K)
      → IsDict v.blocks
      → (get_snapshot_blocks j (create_snapshot id now stamp v name d tags m).1).0
        ≡ ite (key.dec id j) (ok (some v.blocks)) (get_snapshot_blocks j m).0
  unfolding create_snapshot snapshot_of get_snapshot_blocks
  create_snapshot-captures id now stamp v name d tags m j h =
      let s = snapshot_of id now stamp v name d tags in
      ground (arith, copy_blocks_self v.blocks h, lookup-insert id j s m.snapshots)
