-- ===== src/Flash/Tests.antt =====
-- directflash: the methods on small inputs, and the theorems at inputs that meet their hypotheses.
use storage_appliance_archit.Base.{
  sym, subst, nat_key, ℕ, ◌≡◌, refl, ite, none, some, List, [], ◌∷◌, Bool, arith, ok, ℕ_discrete,
}
use storage_appliance_archit.Base.Int.{pos, ◌+ℤ◌, ◌-ℤ◌}
use storage_appliance_archit.Base.Ratio.{Ratio}
use storage_appliance_archit.Base.Dict.{lookup, insert, erase}
use storage_appliance_archit.Flash.Block.{
  Bytes, BlockManager, new_manager, write_block, read_block, delete_block, erase_block,
}
use storage_appliance_archit.Flash.Links.{status}
use storage_appliance_archit.Flash.View.{view, held}
use storage_appliance_archit.Flash.Sound.{IsSound}
use storage_appliance_archit.Flash.Write
use storage_appliance_archit.Flash.Write.{seen, Stored, Cleared}
use storage_appliance_archit.Flash.Erase
use storage_appliance_archit.Flash.Erase.{Erased, Deleted, is_some}
use storage_appliance_archit.Flash.State.{Flash}
use storage_appliance_archit.Flash.Collector.{run_gc_cycle}
use storage_appliance_archit.Flash.Leveler.{leveling_loop, run_leveling_pass}
use storage_appliance_archit.Flash.Simulator.{new_flash, write, read, delete}
use storage_appliance_archit.Flash.Steady.{Steady}
use storage_appliance_archit.Flash.Leveling
use storage_appliance_archit.Flash.Leveling.{IsLevel}
use storage_appliance_archit.Flash.Ready
use storage_appliance_archit.Flash.Ready.{IsReady, Wrote, contents}
use storage_appliance_archit.Flash.Init.{new_manager-IsSound, new_flash-IsReady}
use storage_appliance_archit.Flash.Runs
use storage_appliance_archit.Flash.Runs.{Call, put, get, remove, collect, level, run}

-- What the tests compute with.
program : Unit {0}
unfolding new_flash write read delete run view held status write_block read_block delete_block
    erase_block run_leveling_pass lookup insert erase run_gc_cycle leveling_loop ℕ_discrete ◌+ℤ◌
    ◌-ℤ◌
program = tt

abbrev share : ℕ → ℕ → Ratio
share a b = record { num = pos a; den = b }

-- Two blocks of eight bytes.
abbrev tiny : Flash
tiny = new_flash 2 8 4 0 (share 3 4) (share 1 2)

abbrev page : Bytes
page = 7 ∷ 9 ∷ []

tiny-IsReady : IsReady tiny
tiny-IsReady = new_flash-IsReady 2 8 4 0 (share 3 4) (share 1 2) (λ e. cc)

write_then_read : (read 0 (write page tiny).1).0 ≡ ok (some page)
unfolding program
write_then_read = refl

-- The third write finds no free block; the collection reclaims the deleted one.
write_after_collection : (write page (run tiny (put page ∷ put page ∷ remove 0 ∷ []))).0 ≡ ok 2
unfolding program
write_after_collection = refl

write-refines_example : IsReady (write page tiny).1 × Wrote page tiny (write page tiny)
write-refines_example = Ready.write-refines page tiny tiny-IsReady

abbrev calls : List Call
calls = put page ∷ collect ∷ level ∷ remove 1 ∷ []

run-IsReady_example : IsReady (run tiny calls)
run-IsReady_example = Runs.run-IsReady tiny calls tiny-IsReady

abbrev one_page : Flash
one_page = (write page tiny).1

run-keeps_example : contents (run one_page calls) 0 ≡ some page
unfolding program
run-keeps_example =
    Runs.run-keeps 0 page one_page calls (Ready.write-refines page tiny tiny-IsReady).0 refl
      (tt, (tt, (tt, ((λ e. cc), tt))))

read-refines_example :
    (t : Flash) × (read 0 one_page ≡ (ok (contents one_page 0), t))
    × IsReady t
    × ((a : ℕ) → contents t a ≡ contents one_page a)
read-refines_example = Runs.read-refines 0 one_page (Ready.write-refines page tiny tiny-IsReady).0

delete-refines_example :
    (t : Flash) × (delete 0 one_page ≡ (ok (is_some (contents one_page 0)), t))
    × IsReady t
    × ((a : ℕ) → contents t a ≡ ite (ℕ_discrete 0 a) none (contents one_page a))
delete-refines_example =
    Runs.delete-refines 0 one_page (Ready.write-refines page tiny tiny-IsReady).0

-- One block of four bytes.
abbrev single : BlockManager
single = new_manager 1 4 4 10

single-IsSound : IsSound single
single-IsSound = new_manager-IsSound 1 4 4 10

write_block-stores_example :
    (p : ℕ) × (m' : BlockManager) × (write_block 5 page single ≡ (ok (some p), m'))
    × Stored 5 page single p m'
unfolding program
write_block-stores_example =
    Write.write_block-stores 5 page single single-IsSound (omega arith) (λ e. cc)

-- The single block, holding content for address 5.
abbrev full_single : BlockManager
full_single = (write_block 5 page single).1

full_single-IsSound : IsSound full_single
unfolding new_manager
full_single-IsSound =
    let (p, m', run, st) =
      Write.write_block-stores 5 page single single-IsSound (omega arith) (λ e. cc) in
    subst (λ o. IsSound o.1) (sym run) st.sound

write_block-full_example :
    (m' : BlockManager) × (write_block 5 (1 ∷ []) full_single ≡ (ok none, m'))
    × Cleared 5 full_single m'
unfolding program
write_block-full_example =
    Write.write_block-full 5 (1 ∷ []) full_single full_single-IsSound (omega arith) refl

-- The single block, invalid.
abbrev stale_single : BlockManager
stale_single = (delete_block 5 full_single).1

stale_single-IsSound : IsSound stale_single
stale_single-IsSound =
    let (m', run, d) = Erase.delete_block-Deleted 5 full_single full_single-IsSound in
    subst (λ o. IsSound o.1) (sym run) d.sound

erase_block-Erased_example :
    (done : Bool) × (m' : BlockManager) × (erase_block 0 stale_single ≡ (ok done, m'))
    × Erased 0 done stale_single m'
unfolding program
erase_block-Erased_example = Erase.erase_block-Erased 0 none stale_single stale_single-IsSound refl

-- One block worn by two erasures and valid, the other worn by one and free, and no gap allowed.
abbrev uneven_calls : List Call
uneven_calls =
    put page
    ∷ put page
    ∷ remove 0
    ∷ collect
    ∷ put page
    ∷ remove 2
    ∷ collect
    ∷ put page
    ∷ remove 1
    ∷ collect
    ∷ []

abbrev uneven : Flash
uneven =
    let s = run (new_flash 2 8 4 9 (share 3 4) (share 1 2)) uneven_calls in
    record s { leveling = record s.leveling { threshold = 0 } }

uneven-IsSound : IsSound uneven.manager
uneven-IsSound =
    (Runs.run-IsReady (new_flash 2 8 4 9 (share 3 4) (share 1 2)) uneven_calls
      (new_flash-IsReady 2 8 4 9 (share 3 4) (share 1 2) (λ e. cc))).sound

-- The pass moves one block and stops.
one_move_levels : (leveling_loop 3 0 uneven).0 ≡ ok (some 1)
unfolding program
one_move_levels = refl

leveling_loop-ends_example :
    (k : ℕ) × (t : Flash) × (leveling_loop 3 0 uneven ≡ (ok (some k), t))
    × Steady uneven t
    × IsLevel t
    × (t.leveling.threshold ≡ 0)
unfolding program
leveling_loop-ends_example = Leveling.leveling_loop-ends 3 0 uneven uneven-IsSound (omega arith)
