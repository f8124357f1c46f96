-- ===== src/Flash/Init.antt =====
-- directflash: the state that the constructors build satisfies the invariants.
use storage_appliance_archit.Base.{
  nat_key, ℕ, ◌≡◌, ◌≢◌, refl, ap, sym, none, some, List, [], ◌∷◌, arith, contains, range,
  range_from-IsSimple, length-range_from, IsSimple, if◌then◌else◌,
}
use storage_appliance_archit.Base.Int.{pos}
use storage_appliance_archit.Base.Dict.{lookup, total, IsDict}
use storage_appliance_archit.Base.Ratio.{Ratio}
use storage_appliance_archit.Flash.Block.{PhysicalBlock, fresh_block, fresh_blocks, new_manager}
use storage_appliance_archit.Flash.Links.{status}
use storage_appliance_archit.Flash.Sound.{IsSound, one_valid, one_bad, one_invalid}
use storage_appliance_archit.Flash.View.{view}
use storage_appliance_archit.Flash.Ready.{IsReady}
use storage_appliance_archit.Flash.Simulator.{new_flash}

lookup-fresh :
    (p : ℕ) (ids : List ℕ)
    → lookup p (fresh_blocks ids) ≡ (if contains p ids then some (fresh_block p) else none)
unfolding lookup
lookup-fresh p [] = refl
lookup-fresh p (i ∷ ids) = ground (arith, lookup-fresh p ids)

fresh-IsDict : (ids : List ℕ) → IsSimple ids → IsDict (fresh_blocks ids)
fresh-IsDict [] h = tt
fresh-IsDict (i ∷ ids) h = (ground (arith, lookup-fresh i ids), fresh-IsDict ids h.1)

-- No fresh block weighs anything in a sum over blocks that are not free.
total-fresh :
    (w : PhysicalBlock → ℕ) (ids : List ℕ)
    → ((i : ℕ) → w (fresh_block i) ≡ 0)
    → total w (fresh_blocks ids) ≡ 0
total-fresh w [] h = refl
total-fresh w (i ∷ ids) h = omega (arith, h i, total-fresh w ids h)

-- A new block manager satisfies the invariant, whatever its sizes.
pub new_manager-IsSound : (n size page endurance : ℕ) → IsSound (new_manager n size page endurance)
unfolding new_manager status lookup
new_manager-IsSound n size page endurance = record {
  linked = record {
    mapped = λ la p x e. absurd (cc);
    owned = λ p la e. absurd (ground (arith, lookup-fresh p (range n)));
    tagged = λ p e. ground (arith, lookup-fresh p (range n));
  };
  pool = record { pooled = λ p c. ground (arith, lookup-fresh p (range n)) };
  keyed = fresh-IsDict (range n) (range_from-IsSimple 0 n);
  tabled = tt;
  simple = range_from-IsSimple 0 n;
  unreserved = λ p o e. ground (arith, lookup-fresh p (range n));
  free_counted = ap pos (sym (length-range_from 0 n));
  valid_counted = ap pos (sym (total-fresh one_valid (range n) (λ i. refl)));
  bad_counted = sym (total-fresh one_bad (range n) (λ i. refl));
  invalid_bounded = omega (arith, total-fresh one_invalid (range n) (λ i. refl));
}

-- A new simulator over at least one block is ready.
pub new_flash-IsReady :
    (n size page threshold : ℕ) (start target : Ratio)
    → n ≢ 0
    → IsReady (new_flash n size page threshold start target)
unfolding new_flash new_manager view lookup
new_flash-IsReady n size page threshold start target h = record {
  sound = new_manager-IsSound n size page 100000;
  unused = λ a l. refl;
  some_blocks = h;
  some_counted = h;
}
