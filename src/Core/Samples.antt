-- ===== src/Core/Samples.antt =====
-- core/controller.py: a new controller with one volume, for tests.
use storage_appliance_archit.Base.{[], true, String, string_key, nat_key}
use storage_appliance_archit.Purity.Samples.{empty}
use storage_appliance_archit.Flash.Simulator.{new_flash}
use storage_appliance_archit.Base.Ratio.{Ratio}
use storage_appliance_archit.Core.Volume
use storage_appliance_archit.Core.Volume.{VolumeBlock}
use storage_appliance_archit.Core.Snapshot
use storage_appliance_archit.Core.Controller.{StorageController, create_volume}
use storage_appliance_archit.Base.Int.{pos}

abbrev quarter : Ratio
quarter = record { num = pos 1; den = 4 }

abbrev fresh : StorageController
fresh = record {
  default_block_size = 4;
  purity = empty;
  directflash = new_flash 8 4 4 10 quarter quarter;
  volume_manager = Volume.new_manager 4;
  snapshot_manager = Snapshot.new_manager;
  initialized = true;
}

abbrev pub one_volume : StorageController
one_volume = (create_volume "v" 5 "data" 16 "" [] fresh).1

abbrev pub volume : Volume.Volume String
volume = Volume.new_volume "v" 5 "data" 16 "" []
