-- ===== src/Flash/Erase.antt =====
-- directflash/block_manager.py: `read_block`, `delete_block`, `erase_block` and `allocate_block`.
use storage_appliance_archit.Base.{
  ℕ, ◌+◌, ◌<◌, ◌≤◌, ◌≡◌, ◌≢◌, refl, Option, none, some, [], ◌∷◌, true, false, Bool, arith, contains,
  add, nat_key, length, ite, inl, inr, Option-cases, Bool-cases, leb, ok,
}
use storage_appliance_archit.Base.Int.{pos, ◌+ℤ◌, pos-add}
use storage_appliance_archit.Base.Dict.{
  lookup, insert, erase, total, total-insert, insert-IsDict, erase-IsDict, lookup-insert_ne,
  lookup-insert_self,
}
use storage_appliance_archit.Flash.Block.{
  free, valid, invalid, bad, PhysicalBlock, BlockManager, stale, worn_out, wiped, one_stale,
  read_block, delete_block, erase_block, count_read,
}
use storage_appliance_archit.Flash.Links.{status, status-insert, IsLinked-erase, IsLinked-other}
use storage_appliance_archit.Flash.Sound.{
  SameTotals, valid_wear, one_valid, one_bad, one_invalid, IsSound,
}
use storage_appliance_archit.Flash.View.{view, held, view-stale, view-erase, view-other}
use storage_appliance_archit.Flash.Write.{seen, staled-IsSoundBut}

-- `read_block` returns what the table and the blocks show, and changes only its counter.
pub read_block-seen :
    (la : ℕ) (m : BlockManager)
    → IsSound m
    → (m' : BlockManager) × (read_block la m ≡ (ok (seen m la), m'))
      × IsSound m'
      × (m'.blocks ≡ m.blocks)
      × (m'.l2p_table ≡ m.l2p_table)
      × (m'.free_pool ≡ m.free_pool)
      × SameTotals m m'
unfolding read_block view held status
read_block-seen la m h = elim (Option-cases (lookup la m.l2p_table)) [
  | inl e ↦ (m, ground arith, h, refl, refl, refl, (refl, refl))
  | inr (p, e) ↦ elim (Option-cases (lookup p m.blocks)) [
    | inl k ↦ absurd (ground (arith, h.linked.mapped la p (λ z. cc) e))
    | inr (b, k) ↦ (
      count_read m,
      ground (arith, h.linked.mapped la p (λ z. cc) e),
      record {
        linked = h.linked;
        pool = h.pool;
        keyed = h.keyed;
        tabled = h.tabled;
        simple = h.simple;
        unreserved = h.unreserved;
        free_counted = h.free_counted;
        valid_counted = h.valid_counted;
        bad_counted = h.bad_counted;
        invalid_bounded = h.invalid_bounded;
      },
      refl,
      refl,
      refl,
      (refl, refl),
    )
  ]
]

-- A block that no address holds changes into another such block: what readers see stays.
module _ (p : ℕ) (b b' : PhysicalBlock) (m : BlockManager) (h : IsSound m) where
  erased_view :
      (a : ℕ)
      → lookup p m.blocks ≡ some b
      → b.state ≢ valid
      → b'.state ≢ valid
      → view (insert p b' m.blocks) m.l2p_table a ≡ seen m a
  unfolding status
  erased_view a k n n' =
      view-other m.blocks m.l2p_table p a b' (b.state, b.logical_address) (ground arith) n n'

-- What `delete_block` leaves behind.
pub record Deleted (la : ℕ) (m m' : BlockManager) : Type 0 where
  pub sound : IsSound m'
  pub seen_after : (a : ℕ) → seen m' a ≡ ite (nat_key.dec la a) none (seen m a)
  pub same_pool : m'.free_pool ≡ m.free_pool
  pub same_totals : SameTotals m m'

abbrev pub is_some {ℓ} : {A : Type ℓ} → Option A → Bool
is_some none = false
is_some (some _) = true

abbrev unmapped : ℕ → ℕ → PhysicalBlock → BlockManager → BlockManager
unmapped la p b m = record m {
  blocks = insert p (stale b) m.blocks;
  l2p_table = erase la m.l2p_table;
  stats = one_stale m.stats;
}

-- On sound tables `delete_block` reports whether the address had content, and removes that
-- content alone.
pub delete_block-Deleted :
    (la : ℕ) (m : BlockManager)
    → IsSound m
    → (m' : BlockManager) × (delete_block la m ≡ (ok (is_some (seen m la)), m')) × Deleted la m m'
unfolding delete_block view held status
delete_block-Deleted la m h = elim (Option-cases (lookup la m.l2p_table)) [
  | inl e ↦ (
    m,
    ground arith,
    record {
      sound = h;
      seen_after = λ a. ground arith;
      same_pool = refl;
      same_totals = (refl, refl);
    },
  )
  | inr (p, e) ↦ elim (Option-cases (lookup p m.blocks)) [
    | inl k ↦ absurd (ground (arith, h.linked.mapped la p (λ z. cc) e))
    | inr (b, k) ↦
        let half = staled-IsSoundBut la p b m h e k in
        (
          unmapped la p b m,
          ground (arith, h.linked.mapped la p (λ z. cc) e),
          record {
            sound = record {
              linked =
                  IsLinked-erase (insert p (stale b) m.blocks) m.l2p_table la h.tabled half.linked;
              pool = half.pool;
              keyed = half.keyed;
              tabled = erase-IsDict la m.l2p_table h.tabled;
              simple = half.simple;
              unreserved = half.unreserved;
              free_counted = half.free_counted;
              valid_counted = half.valid_counted;
              bad_counted = half.bad_counted;
              invalid_bounded = half.invalid_bounded;
            };
            seen_after = λ a. ground (
              arith,
              view-erase (insert p (stale b) m.blocks) m.l2p_table la a h.tabled,
              view-stale m.blocks m.l2p_table la p a b e h.linked,
            );
            same_pool = refl;
            same_totals = (refl, refl);
          },
        )
  ]
]

-- What erasing an invalid block leaves behind: the block, with one erase more, is free, empty and in
-- the pool, or it is bad.
pub record Erased (p : ℕ) (done : Bool) (m m' : BlockManager) : Type 0 where
  pub old : PhysicalBlock
  pub new : PhysicalBlock
  pub was : lookup p m.blocks ≡ some old
  pub becomes : lookup p m'.blocks ≡ some new
  pub counted : new.erase_count ≡ old.erase_count + 1
  pub endures : done ≡ true → new.erase_count < m.max_erase_count
  pub ends : done ≡ false → m.max_erase_count ≤ new.erase_count
  pub sound : IsSound m'
  pub seen_after : (a : ℕ) → seen m' a ≡ seen m a
  pub reclaimed :
      done ≡ true
      → (m'.free_pool ≡ p ∷ m.free_pool)
        × (status m'.blocks p ≡ some (free, none))
        × (new.content ≡ [])
  pub retired :
      done ≡ false
      → (m'.free_pool ≡ m.free_pool)
        × (m'.stats.bad_blocks ≡ m.stats.bad_blocks + 1)
        × (new.state ≡ bad)
  pub others : (q : ℕ) → p ≢ q → lookup q m'.blocks ≡ lookup q m.blocks
  pub fewer_invalid : total one_invalid m'.blocks + 1 ≡ total one_invalid m.blocks
  pub same_valid_wear : total valid_wear m'.blocks ≡ total valid_wear m.blocks
  pub same_totals : SameTotals m m'
  pub same_counter : m'.stats.invalid_blocks ≡ m.stats.invalid_blocks

module _ (p : ℕ) (b : PhysicalBlock) (m : BlockManager) (h : IsSound m)
    (k : lookup p m.blocks ≡ some b) (was : b.state ≡ invalid) where
  abbrev retired_state : BlockManager
  retired_state = record m {
    blocks = insert p (worn_out b) m.blocks;
    stats = record m.stats { bad_blocks = m.stats.bad_blocks + 1 };
  }

  abbrev wiped_state : BlockManager
  wiped_state = record m {
    blocks = insert p (wiped b) m.blocks;
    free_pool = add p m.free_pool;
    stats = record m.stats {
      free_blocks = m.stats.free_blocks +ℤ pos 1;
      total_erases = m.stats.total_erases + 1;
    };
  }

  found_status : status m.blocks p ≡ some (invalid, b.logical_address)
  unfolding status
  found_status = ground arith

  not_pooled : contains p m.free_pool ≡ false
  not_pooled = elim (Bool-cases (contains p m.free_pool)) [
    | inl c ↦ absurd (ground (arith, h.pool.pooled p c, found_status))
    | inr c ↦ c
  ]

  retired-Erased : m.max_erase_count ≤ b.erase_count + 1 → Erased p false m retired_state
  retired-Erased worn = record {
    old = b;
    new = worn_out b;
    was = k;
    becomes = lookup-insert_self p (worn_out b) m.blocks;
    counted = refl;
    endures = λ e. cc;
    ends = λ e. worn;
    sound = record {
      linked =
          IsLinked-other m.blocks m.l2p_table none p (worn_out b) (invalid, b.logical_address)
            found_status (λ e. cc) (λ e. cc) h.linked;
      pool = record {
        pooled = λ q c.
            ground
              (arith, status-insert p q (worn_out b) m.blocks, h.pool.pooled q c, found_status);
      };
      keyed = insert-IsDict p (worn_out b) m.blocks h.keyed;
      tabled = h.tabled;
      simple = h.simple;
      unreserved =
          λ q o s. ground (arith, status-insert p q (worn_out b) m.blocks, h.unreserved q o);
      free_counted = h.free_counted;
      valid_counted = ground (arith, total-insert one_valid p (worn_out b) m.blocks);
      bad_counted = ground (arith, total-insert one_bad p (worn_out b) m.blocks);
      invalid_bounded =
          ground (arith, total-insert one_invalid p (worn_out b) m.blocks, h.invalid_bounded);
    };
    seen_after = λ a. erased_view p b (worn_out b) m h a k (λ e. cc) (λ e. cc);
    reclaimed = λ e. cc;
    retired = λ e. (refl, refl, refl);
    others = λ q n. lookup-insert_ne p q (worn_out b) m.blocks n;
    fewer_invalid = ground (arith, total-insert one_invalid p (worn_out b) m.blocks);
    same_valid_wear = ground (arith, total-insert valid_wear p (worn_out b) m.blocks);
    same_totals = (refl, refl);
    same_counter = refl;
  }

  wiped-Erased : b.erase_count + 1 < m.max_erase_count → Erased p true m wiped_state
  wiped-Erased fresh = record {
    old = b;
    new = wiped b;
    was = k;
    becomes = lookup-insert_self p (wiped b) m.blocks;
    counted = refl;
    endures = λ e. fresh;
    ends = λ e. cc;
    sound = record {
      linked =
          IsLinked-other m.blocks m.l2p_table none p (wiped b) (invalid, b.logical_address)
            found_status (λ e. cc) (λ e. cc) h.linked;
      pool = record {
        pooled = λ q c.
            ground (arith, status-insert p q (wiped b) m.blocks, h.pool.pooled q, not_pooled);
      };
      keyed = insert-IsDict p (wiped b) m.blocks h.keyed;
      tabled = h.tabled;
      simple = ground (arith, not_pooled, h.simple);
      unreserved = λ q o s.
          ground (arith, status-insert p q (wiped b) m.blocks, h.unreserved q o, not_pooled);
      free_counted = ground (arith, not_pooled, pos-add (length m.free_pool) 1);
      valid_counted = ground (arith, total-insert one_valid p (wiped b) m.blocks);
      bad_counted = ground (arith, total-insert one_bad p (wiped b) m.blocks);
      invalid_bounded =
          ground (arith, total-insert one_invalid p (wiped b) m.blocks, h.invalid_bounded);
    };
    seen_after = λ a. erased_view p b (wiped b) m h a k (λ e. cc) (λ e. cc);
    reclaimed = λ e.
        (ground (arith, not_pooled), ground (arith, status-insert p p (wiped b) m.blocks), refl);
    retired = λ e. cc;
    others = λ q n. lookup-insert_ne p q (wiped b) m.blocks n;
    fewer_invalid = ground (arith, total-insert one_invalid p (wiped b) m.blocks);
    same_valid_wear = ground (arith, total-insert valid_wear p (wiped b) m.blocks);
    same_totals = (refl, refl);
    same_counter = refl;
  }

-- On sound tables erasing an invalid block keeps the invariant and what every address reads, counts
-- one erase more on the block, and leaves the other blocks as they are. As long as the count stays
-- below `max_erase_count` the answer is True and the block is free and empty in the pool; otherwise
-- the answer is False and the block is bad and outside the pool.
pub erase_block-Erased :
    (p : ℕ) (o : Option ℕ) (m : BlockManager)
    → IsSound m
    → status m.blocks p ≡ some (invalid, o)
    → (done : Bool) × (m' : BlockManager) × (erase_block p m ≡ (ok done, m')) × Erased p done m m'
unfolding erase_block status
erase_block-Erased p o m h e = elim (Option-cases (lookup p m.blocks)) [
  | inl k ↦ absurd (ground arith)
  | inr (b, k) ↦
      let was : b.state ≡ invalid = ground arith in
      elim (Bool-cases (leb m.max_erase_count (b.erase_count + 1))) [
        | inl worn ↦ (
          false,
          retired_state p b m h k was,
          ground arith,
          retired-Erased p b m h k was (ground arith),
        )
        | inr fresh ↦ (
          true,
          wiped_state p b m h k was,
          ground arith,
          wiped-Erased p b m h k was (ground arith),
        )
      ]
]
