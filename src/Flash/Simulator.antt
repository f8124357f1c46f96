-- ===== src/Flash/Simulator.antt =====
-- directflash/simulator.py.
use storage_appliance_archit.Base.{
  nat_key, ℕ, ◌+◌, Option, none, some, [], Bool, true, false, if◌then◌else◌, ok, io_error, Exec,
  pure, throw, modify, ◌>>=◌, ◌>>◌,
}
use storage_appliance_archit.Base.Ratio.{Ratio}
use storage_appliance_archit.Flash.Block.{Bytes, new_manager, write_block, read_block, delete_block}
use storage_appliance_archit.Flash.State.{idle, dynamic, Flash, on_manager}
use storage_appliance_archit.Flash.Collector.{trigger_gc, start_background_gc, stop_background_gc}
use storage_appliance_archit.Flash.Leveler.{record_write, should_level, run_leveling_pass}

-- `__init__`, with the settings that it reads. The endurance is the default of `BlockManager`.
unfoldable pub new_flash : ℕ → ℕ → ℕ → ℕ → Ratio → Ratio → Flash
unfolding new_manager
new_flash total_blocks block_size page_size threshold gc_threshold gc_target = record {
  manager = new_manager total_blocks block_size page_size 100000;
  leveling = record {
    strategy = dynamic;
    threshold = threshold;
    stats = record { blocks_moved = 0; hot_to_cold_moves = 0; cold_to_hot_moves = 0 };
    write_counts = [];
  };
  collector = record {
    gc_threshold = gc_threshold;
    gc_target = gc_target;
    state = idle;
    stats = record { gc_runs = 0; blocks_reclaimed = 0; pages_migrated = 0; bytes_reclaimed = 0 };
    has_task = false;
  };
  initialized = false;
  next_logical_address = 0;
}

unfoldable pub initialize : Exec Flash (Unit {0})
unfolding start_background_gc
initialize s =
    if s.initialized
    then (ok tt, s)
    else (start_background_gc >> modify (λ t. record t { initialized = true })) s

unfoldable pub shutdown : Exec Flash (Unit {0})
unfolding stop_background_gc
shutdown = stop_background_gc >> modify (λ t. record t { initialized = false })

-- The next logical address.
abbrev pub next_address : Exec Flash ℕ
next_address s =
    (ok s.next_logical_address, record s { next_logical_address = s.next_logical_address + 1 })

-- `if not success: raise IOError`
abbrev pub or_io_error : Option ℕ → Exec Flash (Unit {0})
or_io_error none = throw io_error
or_io_error (some p) = pure tt

-- The second attempt of `write`, after a garbage collection.
unfoldable pub write_again : ℕ → Bytes → Exec Flash (Unit {0})
write_again la content = do
  trigger_gc
  stored ← on_manager (write_block la content)
  or_io_error stored

-- `if not success:` around the second attempt.
unfoldable pub or_retry : ℕ → Bytes → Option ℕ → Exec Flash (Unit {0})
unfolding write_again
or_retry la content none = write_again la content
or_retry la content (some p) = pure tt

-- The attempts of `write` to store the content.
unfoldable pub write_attempts : ℕ → Bytes → Exec Flash (Unit {0})
unfolding or_retry
write_attempts la content = do
  stored ← on_manager (write_block la content)
  or_retry la content stored

-- What `write` does once the content is stored.
unfoldable pub after_write : ℕ → Exec Flash ℕ
unfolding record_write should_level
after_write la = do
  record_write la
  needed ← should_level
  (if needed then (run_leveling_pass >> pure la) else pure la)

unfoldable pub write : Bytes → Exec Flash ℕ
unfolding write_attempts after_write
write content = do la ← next_address; write_attempts la content; after_write la

unfoldable pub read : ℕ → Exec Flash (Option Bytes)
read la = on_manager (read_block la)

unfoldable pub delete : ℕ → Exec Flash Bool
delete la = on_manager (delete_block la)

-- `trim`
abbrev pub trim : ℕ → Exec Flash Bool
trim = delete

-- `force_gc`
abbrev pub force_gc : Exec Flash ℕ
force_gc = trigger_gc

-- `force_wear_leveling`
abbrev pub force_wear_leveling : Exec Flash (Option ℕ)
force_wear_leveling = run_leveling_pass
