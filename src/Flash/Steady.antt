-- ===== src/Flash/Steady.antt =====
-- directflash: garbage collection and reading change nothing that a reader of the flash sees.
use storage_appliance_archit.Base.{
  nat_key, ℕ, ◌+◌, ◌≡◌, ◌∙◌, refl, sym, Option, none, some, List, [], ◌∷◌, Bool, true, false, arith,
  inl, inr, ok, raise, Result, Exec, continue, ◌>>=◌, ◌>>◌, if◌then◌else◌, subst, ap, ◌⊎◌, ◌≢◌,
  pure, modify,
}
use storage_appliance_archit.Base.Dict.{lookup}
use storage_appliance_archit.Base.Ratio.{Ratio, leb_Ratio}
use storage_appliance_archit.Flash.Block.{
  BlockState, free, valid, invalid, bad, PhysicalBlock, BlockManager, erase_block,
  get_invalid_blocks, get_block_info,
}
use storage_appliance_archit.Flash.Links.{status}
use storage_appliance_archit.Flash.Sound.{SameTotals, IsSound}
use storage_appliance_archit.Flash.Write.{seen}
use storage_appliance_archit.Flash.Erase.{erase_block-Erased}
use storage_appliance_archit.Flash.Report.{get_stats}
use storage_appliance_archit.Flash.State.{GcState, idle, running, stopped, Flash, on_manager}
use storage_appliance_archit.Flash.Collector.{
  get_utilization, erase_if_invalid, reclaim, sweep, run_gc_cycle, count_reclaimed, finish_cycle,
  set_state, should_run, background_round,
}

-- From a sound state `s` the state `t` is sound, and every address reads the same.
pub record Steady (s t : Flash) : Type 0 where
  pub sound : IsSound t.manager
  pub seen_after : (a : ℕ) → seen t.manager a ≡ seen s.manager a
  pub same_totals : SameTotals s.manager t.manager
  pub same_next : t.next_logical_address ≡ s.next_logical_address

pub Steady-refl : (s : Flash) → IsSound s.manager → Steady s s
Steady-refl s h = record {
  sound = h;
  seen_after = λ a. refl;
  same_totals = (refl, refl);
  same_next = refl;
}

pub Steady-trans : (s t u : Flash) → Steady s t → Steady t u → Steady s u
Steady-trans s t u h k = record {
  sound = k.sound;
  seen_after = λ a. k.seen_after a ∙ h.seen_after a;
  same_totals = (k.same_totals.0 ∙ h.same_totals.0, k.same_totals.1 ∙ h.same_totals.1);
  same_next = k.same_next ∙ h.same_next;
}

-- A method that is steady from every sound state, whether it returns or raises.
abbrev pub IsSteady : {A : Type 0} → Exec Flash A → Type 0
IsSteady f = (s : Flash) → IsSound s.manager → Steady s (f s).1

-- `get_stats` changes nothing, also where it raises.
pub get_stats-state : (m : BlockManager) → (get_stats m).1 ≡ m
unfolding get_stats
get_stats-state m = ground arith

pub get_utilization-state : (s : Flash) → (get_utilization s).1 ≡ s
unfolding get_utilization get_stats
get_utilization-state s = ground arith

-- The rest of a `do` block, after a step that was steady.
pub continue-Steady :
    {A B : Type 0} (s : Flash) (o : Result A × Flash) (f : A → Exec Flash B)
    → Steady s o.1
    → ((a : A) → IsSteady (f a))
    → Steady s (continue o f).1
continue-Steady s (ok a, t) f k hf = Steady-trans s t (f a t).1 k (hf a t k.sound)
continue-Steady s (raise e, t) f k hf = k

module _ {A B : Type 0} where
  pub IsSteady-bind :
      (m : Exec Flash A) (f : A → Exec Flash B)
      → IsSteady m
      → ((a : A) → IsSteady (f a))
      → IsSteady (m >>= f)
  IsSteady-bind m f hm hf s h = continue-Steady s (m s) f (hm s h) hf

  pub IsSteady-then :
      (m : Exec Flash A) (n : Exec Flash B) → IsSteady m → IsSteady n → IsSteady (m >> n)
  IsSteady-then m n hm hn = IsSteady-bind m (λ _. n) hm (λ _. hn)

pub IsSteady-if :
    {A : Type 0} (b : Bool) (m n : Exec Flash A)
    → IsSteady m
    → IsSteady n
    → IsSteady (if b then m else n)
IsSteady-if true m n hm hn = hm
IsSteady-if false m n hm hn = hn

-- A step that leaves the manager and the next address alone.
pub IsSteady-gets :
    {A : Type 0} (f : Exec Flash A)
    → ((s : Flash)
        → ((f s).1.manager ≡ s.manager) × ((f s).1.next_logical_address ≡ s.next_logical_address))
    → IsSteady f
IsSteady-gets f e s h = record {
  sound = subst IsSound (sym (e s).0) h;
  seen_after = λ a. ap (λ m. seen m a) (e s).0;
  same_totals = (ap (λ m. m.total_blocks) (e s).0, ap (λ m. m.stats.total_blocks) (e s).0);
  same_next = (e s).1;
}

get_utilization-IsSteady : IsSteady get_utilization
get_utilization-IsSteady =
    IsSteady-gets get_utilization (λ s. ground (arith, get_utilization-state s))

-- Erasing an invalid block is steady.
erase-Steady :
    (p : ℕ) (o : Option ℕ) (s : Flash)
    → IsSound s.manager
    → status s.manager.blocks p ≡ some (invalid, o)
    → Steady s (on_manager (erase_block p) s).1
erase-Steady p o s h e =
    let (done, m', run, er) = erase_block-Erased p o s.manager h e in
    rw run (record {
      sound = er.sound;
      seen_after = er.seen_after;
      same_totals = er.same_totals;
      same_next = refl;
    })

BlockState-invalid : (b : BlockState) → (b ≡ invalid) ⊎ (b ≢ invalid)
BlockState-invalid invalid = inl refl
BlockState-invalid free = inr (λ e. cc)
BlockState-invalid valid = inr (λ e. cc)
BlockState-invalid bad = inr (λ e. cc)

-- What follows the erasure in the loop.
abbrev count_if : ℕ → Bool → Exec Flash ℕ
count_if n done = if done then (modify count_reclaimed >> pure (n + 1)) else pure n

count_if-IsSteady : (n : ℕ) (done : Bool) → IsSteady (count_if n done)
count_if-IsSteady n true = IsSteady-gets (count_if n true) (λ s. (refl, refl))
count_if-IsSteady n false = IsSteady-gets (count_if n false) (λ s. (refl, refl))

erase_if_invalid-Steady :
    (p n : ℕ) (o : Option PhysicalBlock) (s : Flash)
    → IsSound s.manager
    → lookup p s.manager.blocks ≡ o
    → Steady s (erase_if_invalid p n o s).1
unfolding erase_if_invalid
erase_if_invalid-Steady p n none s h e = Steady-refl s h
erase_if_invalid-Steady p n (some b) s h e = elim (BlockState-invalid b.state) [
  | inl i ↦
      let run : erase_if_invalid p n (some b) s
          ≡ continue (on_manager (erase_block p) s) (count_if n) =
        ground arith in
      rw run (
        continue-Steady s (on_manager (erase_block p) s) (count_if n)
          (erase-Steady p b.logical_address s h (unfold status in ground arith))
          (count_if-IsSteady n))
  | inr i ↦
      let run : erase_if_invalid p n (some b) s ≡ (ok n, s) = ground arith in
      rw run (Steady-refl s h)
]

reclaim-IsSteady : (p n : ℕ) → IsSteady (reclaim p n)
unfolding reclaim get_block_info
reclaim-IsSteady p n s h = erase_if_invalid-Steady p n (lookup p s.manager.blocks) s h refl

GcState-cases : (g : GcState) → (g ≡ stopped) ⊎ (g ≢ stopped)
GcState-cases stopped = inl refl
GcState-cases idle = inr (λ e. cc)
GcState-cases running = inr (λ e. cc)

-- A block of the loop, and the loop over the rest.
abbrev sweep_step : ℕ → ℕ → (ℕ → Exec Flash ℕ) → Ratio → Exec Flash ℕ
sweep_step p n rest target = do
  n' ← reclaim p n
  utilization ← get_utilization
  if leb_Ratio utilization target then pure n' else rest n'

sweep_step-IsSteady :
    (p n : ℕ) (rest : ℕ → Exec Flash ℕ) (target : Ratio)
    → ((k : ℕ) → IsSteady (rest k))
    → IsSteady (sweep_step p n rest target)
sweep_step-IsSteady p n rest target h = IsSteady-bind (reclaim p n) _ (reclaim-IsSteady p n) λ k.
    IsSteady-bind get_utilization _ get_utilization-IsSteady
      λ u. IsSteady-if (leb_Ratio u target) (pure k) (rest k) Steady-refl (h k)

sweep-IsSteady : (ps : List ℕ) (n : ℕ) → IsSteady (sweep ps n)
unfolding sweep
sweep-IsSteady [] n s h = Steady-refl s h
sweep-IsSteady (p ∷ ps) n s h = elim (GcState-cases s.collector.state) [
  | inl e ↦ let run : sweep (p ∷ ps) n s ≡ (ok n, s) = ground arith in rw run (Steady-refl s h)
  | inr e ↦
      let run : sweep (p ∷ ps) n s ≡ sweep_step p n (sweep ps) s.collector.gc_target s =
        ground arith in
      rw run (sweep_step-IsSteady p n (sweep ps) s.collector.gc_target (sweep-IsSteady ps) s h)
]

-- A cycle of a collector that is not stopped.
abbrev gc_end : ℕ → Exec Flash ℕ
gc_end n = modify finish_cycle >> pure n

abbrev gc_sweep : List ℕ → Exec Flash ℕ
gc_sweep ids = sweep ids 0 >>= gc_end

abbrev gc_scan : Exec Flash ℕ
gc_scan = on_manager get_invalid_blocks >>= gc_sweep

abbrev gc_body : Exec Flash ℕ
gc_body = modify (set_state running) >> gc_scan

gc_end-IsSteady : (n : ℕ) → IsSteady (gc_end n)
gc_end-IsSteady n = IsSteady-gets (gc_end n) (λ s. (refl, refl))

gc_sweep-IsSteady : (ids : List ℕ) → IsSteady (gc_sweep ids)
gc_sweep-IsSteady ids =
    IsSteady-bind {A = ℕ} {B = ℕ} (sweep ids 0) gc_end (sweep-IsSteady ids 0) gc_end-IsSteady

get_invalid_blocks-IsSteady : IsSteady (on_manager get_invalid_blocks)
unfolding get_invalid_blocks
get_invalid_blocks-IsSteady = IsSteady-gets (on_manager get_invalid_blocks) (λ s. (refl, refl))

gc_body-IsSteady : IsSteady gc_body
gc_body-IsSteady =
    IsSteady-then {A = Unit {0}} {B = ℕ} (modify (set_state running)) gc_scan
      (IsSteady-gets (modify (set_state running)) (λ s. (refl, refl)))
      (IsSteady-bind {A = List ℕ} {B = ℕ} (on_manager get_invalid_blocks) gc_sweep
        get_invalid_blocks-IsSteady gc_sweep-IsSteady)

-- A garbage collection on sound tables, finished or stopped by an exception, keeps the invariant
-- and what every address reads.
pub run_gc_cycle-IsSteady : (s : Flash) → IsSound s.manager → Steady s (run_gc_cycle s).1
unfolding run_gc_cycle
run_gc_cycle-IsSteady s h = elim (GcState-cases s.collector.state) [
  | inl e ↦ let run : run_gc_cycle s ≡ (ok 0, s) = ground arith in rw run (Steady-refl s h)
  | inr e ↦ let run : run_gc_cycle s ≡ gc_body s = ground arith in rw run (gc_body-IsSteady s h)
]

should_run-IsSteady : IsSteady should_run
unfolding should_run
should_run-IsSteady = IsSteady-gets should_run (λ s. ground (arith, get_utilization-state s))

-- A round of the background task that is not stopped.
abbrev round_if : Bool → Exec Flash (Unit {0})
round_if needed = if needed then (run_gc_cycle >> pure tt) else pure tt

round_if-IsSteady : (needed : Bool) → IsSteady (round_if needed)
round_if-IsSteady needed =
    IsSteady-if needed (run_gc_cycle >> pure tt) (pure tt)
      (IsSteady-then {A = ℕ} {B = Unit {0}} run_gc_cycle (pure tt) run_gc_cycle-IsSteady
        Steady-refl)
      Steady-refl

-- A round of the background task keeps the invariant and what every address reads.
pub background_round-IsSteady : (s : Flash) → IsSound s.manager → Steady s (background_round s).1
unfolding background_round
background_round-IsSteady s h = elim (GcState-cases s.collector.state) [
  | inl e ↦ let run : background_round s ≡ (ok tt, s) = ground arith in rw run (Steady-refl s h)
  | inr e ↦
      let run : background_round s ≡ (should_run >>= round_if) s = ground arith in
      rw run (
        IsSteady-bind {A = Bool} {B = Unit {0}} should_run round_if should_run-IsSteady
          round_if-IsSteady s h)
]
