-- ===== src/Flash/Write.antt =====
-- directflash/block_manager.py: `write_block`, on all its branches.
use storage_appliance_archit.Base.{
  sym, subst, ℕ, ◌+◌, ◌≤◌, ◌<◌, ◌≡◌, ◌≢◌, refl, Option, none, some, List, [], ◌∷◌, true, arith,
  contains, discard, nat_key, length, ite, inl, inr, Option-cases, List-cases, ok, raise,
  value_error, contains-discard_ne, contains-discard_self, contains-discard, discard-IsSimple,
  length-discard,
}
use storage_appliance_archit.Base.Int.{pos, +ℤ_parts, pos-add, pos-sub}
use storage_appliance_archit.Base.Dict.{lookup, insert, total, total-insert, insert-IsDict}
use storage_appliance_archit.Flash.Block.{
  free, valid, Bytes, PhysicalBlock, BlockManager, stale, programmed, store, one_stale,
  invalidate_old, program_block, write_block,
}
use storage_appliance_archit.Flash.Links.{
  status, status-insert, IsLinked-unmapped, IsLinked-stale, IsLinked-programmed,
}
use storage_appliance_archit.Flash.Pool.{Chosen, Chosen-insert, least_worn-Chosen, IsPool-Present}
use storage_appliance_archit.Flash.Sound.{
  SameTotals, one_valid, one_bad, one_invalid, IsSoundBut, IsSound,
}
use storage_appliance_archit.Flash.View.{view, view-stale, view-programmed}

-- The block of an address, invalidated.
abbrev pub staled : ℕ → PhysicalBlock → BlockManager → BlockManager
staled old b m = record m { blocks = insert old (stale b) m.blocks; stats = one_stale m.stats }

module _ (la p : ℕ) (b : PhysicalBlock) (m : BlockManager) (h : IsSound m) where
  pub staled-IsSoundBut :
      lookup la m.l2p_table ≡ some p
      → lookup p m.blocks ≡ some b
      → IsSoundBut (some la) (staled p b m)
  unfolding status
  staled-IsSoundBut e k =
      let was : b.state ≡ valid = ground (arith, h.linked.mapped la p (λ z. cc) e) in
      record {
        linked = IsLinked-stale m.blocks m.l2p_table la p b e h.linked;
        pool = record {
          pooled = λ q c. ground (
            arith,
            status-insert p q (stale b) m.blocks,
            h.pool.pooled q c,
            h.linked.mapped la p (λ z. cc) e,
          );
        };
        keyed = insert-IsDict p (stale b) m.blocks h.keyed;
        tabled = h.tabled;
        simple = h.simple;
        unreserved =
            λ q o s. ground (arith, status-insert p q (stale b) m.blocks, h.unreserved q o);
        free_counted = h.free_counted;
        valid_counted = ground (
          arith,
          pos-sub (total one_valid m.blocks) 1,
          total-insert one_valid p (stale b) m.blocks,
        );
        bad_counted = ground (arith, total-insert one_bad p (stale b) m.blocks);
        invalid_bounded = ground (
          arith,
          +ℤ_parts m.stats.invalid_blocks (pos 1),
          total-insert one_invalid p (stale b) m.blocks,
        );
      }

module _ (la p : ℕ) (content : Bytes) (b : PhysicalBlock) (m : BlockManager) where
  pub store-IsSound :
      IsSoundBut (some la) m
      → contains p m.free_pool ≡ true
      → lookup p m.blocks ≡ some b
      → IsSound (store la content p b m)
  unfolding status
  store-IsSound h c k =
      let was : b.state ≡ free = ground (arith, h.pool.pooled p c) in
      let block : PhysicalBlock = programmed la content b in
      record {
        linked =
            IsLinked-programmed m.blocks m.l2p_table la p content b none (h.pool.pooled p c)
              h.linked;
        pool = record {
          pooled = λ q d. ground (
            arith,
            status-insert p q block m.blocks,
            h.pool.pooled q,
            contains-discard p q m.free_pool d,
            contains-discard_self p m.free_pool h.simple,
          );
        };
        keyed = insert-IsDict p block m.blocks h.keyed;
        tabled = insert-IsDict la p m.l2p_table h.tabled;
        simple = discard-IsSimple p m.free_pool h.simple;
        unreserved = λ q o s. ground (
          arith,
          status-insert p q block m.blocks,
          h.unreserved q o,
          contains-discard_ne p q m.free_pool,
        );
        free_counted =
            ground (arith, pos-sub (length m.free_pool) 1, length-discard p m.free_pool c);
        valid_counted =
            ground (
              arith,
              pos-add (total one_valid m.blocks) 1,
              total-insert one_valid p block m.blocks,
            );
        bad_counted = ground (arith, total-insert one_bad p block m.blocks);
        invalid_bounded =
            ground (arith, total-insert one_invalid p block m.blocks, h.invalid_bounded);
      }

-- An address that is not mapped can be left out.
pub IsSoundBut-unmapped :
    (la : ℕ) (m : BlockManager) → lookup la m.l2p_table ≡ none → IsSound m → IsSoundBut (some la) m
IsSoundBut-unmapped la m e h = record {
  linked = IsLinked-unmapped m.blocks m.l2p_table la e h.linked;
  pool = h.pool;
  keyed = h.keyed;
  tabled = h.tabled;
  simple = h.simple;
  unreserved = h.unreserved;
  free_counted = h.free_counted;
  valid_counted = h.valid_counted;
  bad_counted = h.bad_counted;
  invalid_bounded = h.invalid_bounded;
}

-- What a reader of the manager sees at an address.
abbrev pub seen : BlockManager → ℕ → Option Bytes
seen m = view m.blocks m.l2p_table

-- What the first part of `write_block` leaves behind.
pub record Cleared (la : ℕ) (m m' : BlockManager) : Type 0 where
  pub sound : IsSoundBut (some la) m'
  pub same_pool : m'.free_pool ≡ m.free_pool
  pub chosen : (ps : List ℕ) (p : ℕ) → Chosen m'.blocks ps p → Chosen m.blocks ps p
  pub seen_after : (a : ℕ) → seen m' a ≡ ite (nat_key.dec la a) none (seen m a)
  pub same_totals : SameTotals m m'
  pub same_writes : m'.stats.total_writes ≡ m.stats.total_writes

module _ (la : ℕ) (m : BlockManager) (h : IsSound m) where
  pub invalidate_old-Cleared :
      (m' : BlockManager) × (invalidate_old la m ≡ (ok tt, m')) × Cleared la m m'
  unfolding invalidate_old view status
  invalidate_old-Cleared = elim (Option-cases (lookup la m.l2p_table)) [
    | inl e ↦ (
      m,
      ground arith,
      record {
        sound = IsSoundBut-unmapped la m e h;
        same_pool = refl;
        chosen = λ ps p c. c;
        seen_after = λ a. ground arith;
        same_totals = (refl, refl);
        same_writes = refl;
      },
    )
    | inr (p, e) ↦ elim (Option-cases (lookup p m.blocks)) [
      | inl k ↦ absurd (ground (arith, h.linked.mapped la p (λ z. cc) e))
      | inr (b, k) ↦ (
        staled p b m,
        ground arith,
        record {
          sound = staled-IsSoundBut la p b m h e k;
          same_pool = refl;
          chosen = λ ps q. Chosen-insert m.blocks p q ps b (stale b) k refl;
          seen_after = λ a. view-stale m.blocks m.l2p_table la p a b e h.linked;
          same_totals = (refl, refl);
          same_writes = refl;
        },
      )
    ]
  ]

-- A successful write, as a client sees it.
pub record Stored (la : ℕ) (content : Bytes) (m : BlockManager) (p : ℕ) (m' : BlockManager)
    : Type 0 where
  pub sound : IsSound m'
  pub chosen : Chosen m.blocks m.free_pool p
  pub pool_after : m'.free_pool ≡ discard p m.free_pool
  pub seen_after : (a : ℕ) → seen m' a ≡ ite (nat_key.dec la a) (some content) (seen m a)
  pub same_totals : SameTotals m m'
  pub writes_after : m'.stats.total_writes ≡ m.stats.total_writes + 1

module _ (la : ℕ) (content : Bytes) (m : BlockManager) where
  program-Stored :
      (q : ℕ) (qs : List ℕ) (m' : BlockManager)
      → m.free_pool ≡ q ∷ qs
      → Cleared la m m'
      → (p : ℕ) × (m'' : BlockManager) × (program_block la content m' ≡ (ok (some p), m''))
        × Stored la content m p m''
  unfolding program_block
  program-Stored q qs m' e c =
      let e' : m'.free_pool ≡ q ∷ qs = ground (arith, c.same_pool) in
      let (p, run, least) =
        least_worn-Chosen m'.blocks q qs
          (λ r i. IsPool-Present m'.blocks m'.free_pool r c.sound.pool (rw e' i)) in
      let i : contains p m'.free_pool ≡ true =
        subst (λ l. contains p l ≡ true) (sym e') least.member in
      let (b, k) = IsPool-Present m'.blocks m'.free_pool p c.sound.pool i in
      (
        p,
        store la content p b m',
        ground arith,
        record {
          sound = store-IsSound la p content b m' c.sound i k;
          chosen = c.chosen m.free_pool p (rw e least);
          pool_after = ground (arith, c.same_pool);
          seen_after = λ a. ground (
            arith,
            view-programmed m'.blocks m'.l2p_table la p a content b none (c.sound.pool.pooled p i)
                c.sound.linked,
            c.seen_after a,
          );
          same_totals = c.same_totals;
          writes_after = ground (arith, c.same_writes);
        },
      )

  -- On sound tables a write that fits succeeds while a free block is left: it takes a least worn
  -- one, the address reads the new content, every other address reads what it read before, and
  -- the invariant holds.
  pub write_block-stores :
      IsSound m
      → length content ≤ m.block_size
      → m.free_pool ≢ []
      → (p : ℕ) × (m' : BlockManager) × (write_block la content m ≡ (ok (some p), m'))
        × Stored la content m p m'
  unfolding write_block
  write_block-stores h fits some_free = elim (List-cases m.free_pool) [
    | inl e ↦ absurd (some_free e)
    | inr (q, qs, e) ↦
        let (m', cleared, c) = invalidate_old-Cleared la m h in
        let (p, m'', run, st) = program-Stored q qs m' e c in (p, m'', ground arith, st)
  ]

  -- On sound tables with no free block a write that fits reports failure, and the content that
  -- the address had is lost; every other address reads what it read before.
  pub write_block-full :
      IsSound m
      → length content ≤ m.block_size
      → m.free_pool ≡ []
      → (m' : BlockManager) × (write_block la content m ≡ (ok none, m')) × Cleared la m m'
  unfolding write_block program_block
  write_block-full h fits e =
      let (m', run, c) = invalidate_old-Cleared la m h in (m', ground (arith, c.same_pool), c)

  -- A write that does not fit raises ValueError and changes nothing.
  pub write_block-too_large :
      m.block_size < length content → write_block la content m ≡ (raise value_error, m)
  unfolding write_block
  write_block-too_large h = ground arith
