-- ===== src/Core/Snapshot.antt =====
-- core/snapshot_manager.py. The ids that uuid4 makes, the times and the formatted timestamp are
-- arguments.
use storage_appliance_archit.Base.{
  ℕ, Option, none, some, List, [], ◌∷◌, String, Bool, true, false, Exec, ok, raise, value_error,
  gets, Key, ite, length,
}
use Prim.Native.String.{◌++◌}
use storage_appliance_archit.Base.Int.{ℤ, pos, ◌+ℤ◌, ◌-ℤ◌}
use storage_appliance_archit.Base.Dict.{Dict, lookup, insert, erase}
use storage_appliance_archit.Core.Volume.{VolumeBlock, Volume, or_text, copy_blocks}

pub data SnapshotState : Type 0 where
  creating available deleting error : SnapshotState

pub record Snapshot (K : Type 0) : Type 0 where
  pub id : K
  pub name : String
  pub volume_id : K
  pub volume_name : String
  pub created_at : ℕ
  pub state : SnapshotState
  pub description : String
  pub blocks : Dict ℕ VolumeBlock
  pub size_bytes : ℕ
  pub used_bytes : ℤ
  pub tags : Dict String String

pub record SnapshotStats (K : Type 0) : Type 0 where
  pub total_snapshots : ℤ
  pub snapshots_by_volume : Dict K ℕ

pub record SnapshotManager (K : Type 0) : Type 0 where
  pub snapshots : Dict K (Snapshot K)
  pub volume_snapshots : Dict K (List K)
  pub stats : SnapshotStats K

-- `if not name: name = ...`
abbrev pub name_or : Option String → String → String
name_or none other = other
name_or (some name) other = or_text name other

module _ {K : Type 0} where
  unfoldable pub new_manager : SnapshotManager K
  new_manager = record {
    snapshots = [];
    volume_snapshots = [];
    stats = record { total_snapshots = pos 0; snapshots_by_volume = [] };
  }

  unfoldable pub snapshot_of :
      K → ℕ → String → Volume K → Option String → String → Dict String String → Snapshot K
  unfolding copy_blocks
  snapshot_of id now timestamp v name description tags = record {
    id = id;
    name = name_or name (v.name ++ ("-snap-" ++ timestamp));
    volume_id = v.id;
    volume_name = v.name;
    created_at = now;
    state = available;
    description = description;
    blocks = copy_blocks v.blocks [];
    size_bytes = v.size_bytes;
    used_bytes = v.used_bytes;
    tags = tags;
  }

  -- `ids.append(id)`, on a new list where there is none.
  abbrev pub appended : K → List K → List K
  appended id [] = id ∷ []
  appended id (j ∷ js) = j ∷ appended id js

  abbrev pub or_empty : Option (List K) → List K
  or_empty none = []
  or_empty (some ids) = ids

module _ {K : Type 0} ⦃key : Key K⦄ where
  abbrev pub track : Snapshot K → List K → SnapshotManager K → SnapshotManager K
  track s ids m = record {
    snapshots = insert s.id s m.snapshots;
    volume_snapshots = insert s.volume_id ids m.volume_snapshots;
    stats = record {
      total_snapshots = m.stats.total_snapshots +ℤ pos 1;
      snapshots_by_volume = insert s.volume_id (length ids) m.stats.snapshots_by_volume;
    };
  }

  unfoldable pub create_snapshot :
      K
      → ℕ
      → String
      → Volume K
      → Option String
      → String
      → Dict String String
      → Exec (SnapshotManager K) (Snapshot K)
  unfolding snapshot_of
  create_snapshot id now timestamp v name description tags m =
      let s = snapshot_of id now timestamp v name description tags in
      (ok s, track s (appended id (or_empty (lookup v.id m.volume_snapshots))) m)

  unfoldable pub get_snapshot : K → Exec (SnapshotManager K) (Option (Snapshot K))
  get_snapshot id = gets (λ m. lookup id m.snapshots)

  unfoldable pub get_snapshot_blocks : K → Exec (SnapshotManager K) (Option (Dict ℕ VolumeBlock))
  get_snapshot_blocks id =
      gets (λ m. elim (lookup id m.snapshots) [ none ↦ none | some s ↦ some s.blocks ])

  -- `ids.remove(id)`; none stands for ValueError.
  abbrev pub remove_first : K → List K → Option (List K)
  remove_first id [] = none
  remove_first id (j ∷ js) =
      ite (key.dec j id) (some js)
        (elim (remove_first id js) [ none ↦ none | some rest ↦ some (j ∷ rest) ])

  abbrev pub untracked : K → SnapshotManager K → SnapshotManager K
  untracked id m = record m {
    snapshots = erase id m.snapshots;
    stats = record m.stats { total_snapshots = m.stats.total_snapshots -ℤ pos 1 };
  }

  abbrev pub relisted : K → List K → SnapshotManager K → SnapshotManager K
  relisted volume ids m = record m {
    volume_snapshots = insert volume ids m.volume_snapshots;
    stats = record m.stats {
      snapshots_by_volume = insert volume (length ids) m.stats.snapshots_by_volume;
    };
  }

  unfoldable pub delete_snapshot : K → Exec (SnapshotManager K) Bool
  delete_snapshot id m = elim (lookup id m.snapshots) [
    | none ↦ (ok false, m)
    | some s ↦ elim (lookup s.volume_id m.volume_snapshots) [
      | none ↦ (ok true, untracked id m)
      | some ids ↦ elim (remove_first id ids) [
        | none ↦ (
          raise value_error,
          record m { snapshots = insert id (record s { state = deleting }) m.snapshots },
        )
        | some rest ↦ (ok true, untracked id (relisted s.volume_id rest m))
      ]
    ]
  ]
