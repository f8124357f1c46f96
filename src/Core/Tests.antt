-- ===== src/Core/Tests.antt =====
-- core: a volume, its clone, and the theorems at inputs that meet their hypotheses.
use storage_appliance_archit.Base.{ℕ, ◌≡◌, refl, some, List, [], ◌∷◌, ok, nat_key, ℕ_discrete, ite}
use storage_appliance_archit.Base.Int.{pos, ◌+ℤ◌, ◌-ℤ◌}
use storage_appliance_archit.Base.Dict.{lookup, insert, erase}
use storage_appliance_archit.Core.Volume.{
  available, VolumeBlock, Volume, VolumeManager, new_manager, create_volume, update_volume,
  delete_volume, resize_volume, write_block, get_block, clone_volume, clone_of, copy_blocks,
}
use storage_appliance_archit.Core.VolumeSound.{IsSound}
use storage_appliance_archit.Core.VolumeBlocks
use storage_appliance_archit.Core.VolumeRuns
use storage_appliance_archit.Core.VolumeRuns.{Call, create, put, clone, remove, step, run}

-- What the tests compute with.
program : Unit {0}
unfolding new_manager create_volume update_volume delete_volume resize_volume write_block get_block
    clone_volume clone_of copy_blocks lookup insert erase ℕ_discrete ◌+ℤ◌ ◌-ℤ◌ step run
program = tt

abbrev block : VolumeBlock
block = record { offset = 0; block_id = "b"; fingerprint = "f"; size = 4 }

abbrev block_two : VolumeBlock
block_two = record { offset = 0; block_id = "c"; fingerprint = "g"; size = 3 }

abbrev calls : List (Call ℕ)
calls = create 1 0 "data" 16 "" [] ∷ put 1 block 4 0 ∷ []

-- Volume 1 with one block.
abbrev manager : VolumeManager ℕ
manager = run (new_manager 4) calls

abbrev volume : Volume ℕ
volume = record {
  id = 1;
  name = "data";
  size_bytes = 16;
  created_at = 0;
  updated_at = 0;
  state = available;
  description = "";
  blocks = (0, block) ∷ [];
  used_bytes = pos 4;
  logical_bytes = pos 4;
  physical_bytes = pos 4;
  tags = [];
}

run-IsSound_example : IsSound manager
unfolding program
run-IsSound_example = VolumeRuns.run-IsSound 4 calls (refl, (tt, tt))

clone_volume-shares_example :
    (c : Volume ℕ) × (m' : VolumeManager ℕ) × (clone_volume 1 2 0 "copy" "" manager
      ≡ (ok (some c), m'))
    × ((o : ℕ) → (get_block 2 o m').0 ≡ (get_block 1 o manager).0)
    × ((j : ℕ) → lookup j m'.volumes ≡ ite (nat_key.dec 2 j) (some c) (lookup j manager.volumes))
    × IsSound m'
unfolding program
clone_volume-shares_example =
    VolumeBlocks.clone_volume-shares 1 2 volume 0 "copy" "" manager run-IsSound_example refl refl
