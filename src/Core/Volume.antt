-- ===== src/Core/Volume.antt =====
-- core/volume_manager.py. The ids that uuid4 makes and the times are arguments, and sizes are not
-- negative. No other call comes between the two parts of `clone_volume`, which lets go of the
-- lock. The counters are signed, as the code subtracts from them without a test.
use storage_appliance_archit.Base.{
  ℕ, ◌+◌, Option, none, some, [], ◌∷◌, ltb, if◌then◌else◌, String, Bool, true, false, Exec, ok,
  raise, value_error, modify, pure, gets, ◌>>=◌, ◌>>◌, Key, nat_key, string_discrete, ite,
}
use Prim.Native.String.{◌++◌}
use storage_appliance_archit.Base.Int.{ℤ, pos, ◌+ℤ◌, ◌-ℤ◌}
use storage_appliance_archit.Base.Dict.{Dict, lookup, insert, erase}

pub data VolumeState : Type 0 where
  creating available in_use deleting error : VolumeState

pub record VolumeBlock : Type 0 where
  pub offset : ℕ
  pub block_id : String
  pub fingerprint : String
  pub size : ℕ

pub record Volume (K : Type 0) : Type 0 where
  pub id : K
  pub name : String
  pub size_bytes : ℕ
  pub created_at : ℕ
  pub updated_at : ℕ
  pub state : VolumeState
  pub description : String
  pub blocks : Dict ℕ VolumeBlock
  pub used_bytes : ℤ
  pub logical_bytes : ℤ
  pub physical_bytes : ℤ
  pub tags : Dict String String

pub record VolumeStats : Type 0 where
  pub total_volumes : ℤ
  pub total_provisioned_bytes : ℤ
  pub total_used_bytes : ℤ
  pub total_logical_bytes : ℤ
  pub total_physical_bytes : ℤ

pub record VolumeManager (K : Type 0) : Type 0 where
  pub block_size : ℕ
  pub volumes : Dict K (Volume K)
  pub stats : VolumeStats

-- `or` on texts: an empty text gives way.
abbrev pub or_text : String → String → String
or_text String.[] other = other
or_text (String.◌∷◌ c s) other = String.◌∷◌ c s

abbrev pub or_old {ℓ} : {A : Type ℓ} → Option A → A → A
or_old none old = old
or_old (some new) old = new

-- The loop of `clone_volume` over the blocks of the source.
unfoldable pub copy_blocks : Dict ℕ VolumeBlock → Dict ℕ VolumeBlock → Dict ℕ VolumeBlock
copy_blocks [] blocks = blocks
copy_blocks ((offset, b) ∷ d) blocks = copy_blocks d (insert offset b blocks)

module _ {K : Type 0} where
  -- `f"Clone of {source_name}"`
  abbrev pub clone_label : Volume K → String
  clone_label source = "Clone of " ++ source.name

  unfoldable pub new_manager : ℕ → VolumeManager K
  new_manager size = record {
    block_size = size;
    volumes = [];
    stats = record {
      total_volumes = pos 0;
      total_provisioned_bytes = pos 0;
      total_used_bytes = pos 0;
      total_logical_bytes = pos 0;
      total_physical_bytes = pos 0;
    };
  }

  abbrev pub new_volume : K → ℕ → String → ℕ → String → Dict String String → Volume K
  new_volume id now name size description tags = record {
    id = id;
    name = name;
    size_bytes = size;
    created_at = now;
    updated_at = now;
    state = available;
    description = description;
    blocks = [];
    used_bytes = pos 0;
    logical_bytes = pos 0;
    physical_bytes = pos 0;
    tags = tags;
  }

  -- The first volume with the name.
  unfoldable pub named : String → Dict K (Volume K) → Option (Volume K)
  named name [] = none
  named name ((_, v) ∷ d) = ite (string_discrete v.name name) (some v) (named name d)

  unfoldable pub get_volume_by_name : String → Exec (VolumeManager K) (Option (Volume K))
  unfolding named
  get_volume_by_name name = gets (λ m. named name m.volumes)

  abbrev pub renamed :
      Option String → Option String → Option (Dict String String) → ℕ → Volume K → Volume K
  renamed name description tags now v = record v {
    name = or_old name v.name;
    description = or_old description v.description;
    tags = or_old tags v.tags;
    updated_at = now;
  }

  abbrev pub forget : Volume K → VolumeStats → VolumeStats
  forget v s = record s {
    total_volumes = s.total_volumes -ℤ pos 1;
    total_provisioned_bytes = s.total_provisioned_bytes -ℤ pos v.size_bytes;
    total_used_bytes = s.total_used_bytes -ℤ v.used_bytes;
    total_logical_bytes = s.total_logical_bytes -ℤ v.logical_bytes;
    total_physical_bytes = s.total_physical_bytes -ℤ v.physical_bytes;
  }

  -- The size of the block that a write replaces.
  abbrev pub old_size : ℕ → Volume K → ℕ
  old_size offset v = elim (lookup offset v.blocks) [ none ↦ 0 | some b ↦ b.size ]

  -- A volume after a write to it.
  abbrev pub written : VolumeBlock → ℕ → ℕ → Volume K → Volume K
  written b physical now v = record v {
    blocks = insert b.offset b v.blocks;
    used_bytes = (v.used_bytes -ℤ pos (old_size b.offset v)) +ℤ pos b.size;
    logical_bytes = (v.logical_bytes -ℤ pos (old_size b.offset v)) +ℤ pos b.size;
    physical_bytes = pos physical;
    updated_at = now;
  }

  -- The clone once the blocks of the source are copied.
  abbrev pub filled : Volume K → Volume K → Volume K
  filled source clone = record clone {
    blocks = copy_blocks source.blocks clone.blocks;
    used_bytes = source.used_bytes;
    logical_bytes = source.logical_bytes;
    physical_bytes = pos 0;
  }

module _ {K : Type 0} ⦃key : Key K⦄ where
  unfoldable pub create_volume :
      K → ℕ → String → ℕ → String → Dict String String → Exec (VolumeManager K) (Volume K)
  create_volume id now name size description tags m = (
    ok (new_volume id now name size description tags),
    record m {
      volumes = insert id (new_volume id now name size description tags) m.volumes;
      stats = record m.stats {
        total_volumes = m.stats.total_volumes +ℤ pos 1;
        total_provisioned_bytes = m.stats.total_provisioned_bytes +ℤ pos size;
      };
    },
  )

  unfoldable pub get_volume : K → Exec (VolumeManager K) (Option (Volume K))
  get_volume id = gets (λ m. lookup id m.volumes)

  unfoldable pub update_volume :
      K
      → Option String
      → Option String
      → Option (Dict String String)
      → ℕ
      → Exec (VolumeManager K) (Option (Volume K))
  update_volume id name description tags now m = elim (lookup id m.volumes) [
    | none ↦ (ok none, m)
    | some v ↦ (
      ok (some (renamed name description tags now v)),
      record m { volumes = insert id (renamed name description tags now v) m.volumes },
    )
  ]

  unfoldable pub delete_volume : K → Exec (VolumeManager K) Bool
  delete_volume id m = elim (lookup id m.volumes) [
    | none ↦ (ok false, m)
    | some v ↦ (ok true, record m { stats = forget v m.stats; volumes = erase id m.volumes })
  ]

  abbrev pub resized : ℕ → ℕ → Volume K → Volume K
  resized size now v = record v { size_bytes = size; updated_at = now }

  unfoldable pub resize_volume : K → ℕ → ℕ → Exec (VolumeManager K) (Option (Volume K))
  resize_volume id size now m = elim (lookup id m.volumes) [
    | none ↦ (ok none, m)
    | some v ↦ if ltb size v.size_bytes then (raise value_error, m) else (
      ok (some (resized size now v)),
      record m {
        volumes = insert id (resized size now v) m.volumes;
        stats = record m.stats {
          total_provisioned_bytes =
              m.stats.total_provisioned_bytes +ℤ (pos size -ℤ pos v.size_bytes);
        };
      },
    )
  ]

  unfoldable pub write_block : K → VolumeBlock → ℕ → ℕ → Exec (VolumeManager K) Bool
  write_block id b physical now m = elim (lookup id m.volumes) [
    | none ↦ (ok false, m)
    | some v ↦ if ltb v.size_bytes (b.offset + b.size) then (raise value_error, m) else (
      ok true,
      record m {
        volumes = insert id (written b physical now v) m.volumes;
        stats = record m.stats {
          total_used_bytes = m.stats.total_used_bytes +ℤ pos b.size;
          total_logical_bytes = m.stats.total_logical_bytes +ℤ pos b.size;
        };
      },
    )
  ]

  unfoldable pub get_block : K → ℕ → Exec (VolumeManager K) (Option VolumeBlock)
  get_block id offset m = elim (lookup id m.volumes) [
    | none ↦ (ok none, m)
    | some v ↦ (ok (lookup offset v.blocks), m)
  ]

  -- The clone of the volume `source`, under the id `id`.
  unfoldable pub clone_of :
      Volume K → K → ℕ → String → String → Exec (VolumeManager K) (Option (Volume K))
  unfolding create_volume copy_blocks
  clone_of source id now name description = do
    clone ←
        create_volume id now name source.size_bytes (or_text description (clone_label source))
          source.tags
    modify (λ m. record m { volumes = insert id (filled source clone) m.volumes })
    pure (some (filled source clone))

  unfoldable pub clone_volume :
      K → K → ℕ → String → String → Exec (VolumeManager K) (Option (Volume K))
  unfolding clone_of
  clone_volume source_id id now name description m = elim (lookup source_id m.volumes) [
    | none ↦ (ok none, m)
    | some source ↦ clone_of source id now name description m
  ]
