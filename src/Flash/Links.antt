-- ===== src/Flash/Links.antt =====
-- directflash/block_manager.py: the table and the blocks name each other. The facts are about
-- lookups in the two dictionaries, so that every method's update is one of a few lemmas.
use storage_appliance_archit.Base.{
  ℕ, ◌≡◌, ◌≢◌, ite, true, Option, none, some, List, arith, contains, nat_key,
}
use storage_appliance_archit.Base.Dict.{
  Dict, lookup, insert, erase, lookup-insert, lookup-erase, IsDict,
}
use storage_appliance_archit.Flash.Block.{BlockState, free, valid, PhysicalBlock, stale, programmed}

abbrev pub Blocks : Type 0
Blocks = Dict ℕ PhysicalBlock

abbrev pub Tag : Type 0
Tag = BlockState × Option ℕ

abbrev pub tag : PhysicalBlock → Tag
tag b = (b.state, b.logical_address)

-- The state and the address of a block, where it is there.
unfoldable pub status : Blocks → ℕ → Option Tag
status blocks p = elim (lookup p blocks) [ none ↦ none | some b ↦ some (tag b) ]

pub status-insert :
    (p q : ℕ) (b : PhysicalBlock) (blocks : Blocks)
    → status (insert p b blocks) q ≡ ite (nat_key.dec p q) (some (tag b)) (status blocks q)
unfolding status
status-insert p q b blocks = ground (arith, lookup-insert p q b blocks)

-- The table and the blocks agree at every address but `x`, at which no block is valid.
pub record IsLinked (x : Option ℕ) (blocks : Blocks) (l2p : Dict ℕ ℕ) : Type 0 where
  pub mapped :
      (la p : ℕ) → some la ≢ x → lookup la l2p ≡ some p → status blocks p ≡ some (valid, some la)
  pub owned :
      (p la : ℕ)
      → status blocks p ≡ some (valid, some la)
      → (some la ≢ x) × (lookup la l2p ≡ some p)
  pub tagged : (p : ℕ) → status blocks p ≢ some (valid, none)

-- The pool holds free blocks alone.
pub record IsPool (blocks : Blocks) (pool : List ℕ) : Type 0 where
  pub pooled : (p : ℕ) → contains p pool ≡ true → status blocks p ≡ some (free, none)

module _ (blocks : Blocks) (l2p : Dict ℕ ℕ) where
  -- An address that is not mapped can be left out.
  pub IsLinked-unmapped :
      (la : ℕ) → lookup la l2p ≡ none → IsLinked none blocks l2p → IsLinked (some la) blocks l2p
  IsLinked-unmapped la e h = record {
    mapped = λ a p n k. h.mapped a p (λ q. cc) k;
    owned = λ p a k. ground (arith, h.owned p a k);
    tagged = h.tagged;
  }

  -- The block of an address is invalidated.
  pub IsLinked-stale :
      (la p : ℕ) (b : PhysicalBlock)
      → lookup la l2p ≡ some p
      → IsLinked none blocks l2p
      → IsLinked (some la) (insert p (stale b) blocks) l2p
  IsLinked-stale la p b e h = record {
    mapped = λ a q n k. ground (
      arith,
      status-insert p q (stale b) blocks,
      h.mapped a q (λ z. cc) k,
      h.mapped la p (λ z. cc) e,
    );
    owned = λ q a k. ground (arith, status-insert p q (stale b) blocks, h.owned q a);
    tagged = λ q k. ground (arith, status-insert p q (stale b) blocks, h.tagged q);
  }

  -- An address leaves the table.
  pub IsLinked-erase :
      (la : ℕ) → IsDict l2p → IsLinked (some la) blocks l2p → IsLinked none blocks (erase la l2p)
  IsLinked-erase la d h = record {
    mapped = λ a p n k. ground (arith, lookup-erase la a l2p d, h.mapped a p);
    owned = λ p a k. ground (arith, lookup-erase la a l2p d, h.owned p a);
    tagged = h.tagged;
  }

  -- A block that was not valid is programmed for an address.
  pub IsLinked-programmed :
      (la p : ℕ) (content : List ℕ) (b : PhysicalBlock) (o : Option ℕ)
      → status blocks p ≡ some (free, o)
      → IsLinked (some la) blocks l2p
      → IsLinked none (insert p (programmed la content b) blocks) (insert la p l2p)
  IsLinked-programmed la p content b o e h = record {
    mapped = λ a q n k. ground (
      arith,
      status-insert p q (programmed la content b) blocks,
      lookup-insert la a p l2p,
      h.mapped a q,
    );
    owned = λ q a k. ground (
      arith,
      status-insert p q (programmed la content b) blocks,
      lookup-insert la a p l2p,
      h.owned q a,
    );
    tagged = λ q k. ground (arith, status-insert p q (programmed la content b) blocks, h.tagged q);
  }

  -- A block that is not valid changes into one that is not valid.
  pub IsLinked-other :
      (x : Option ℕ) (p : ℕ) (b : PhysicalBlock) (t : Tag)
      → status blocks p ≡ some t
      → t.0 ≢ valid
      → b.state ≢ valid
      → IsLinked x blocks l2p
      → IsLinked x (insert p b blocks) l2p
  IsLinked-other x p b t e n n' h = record {
    mapped = λ a q u k. ground (arith, status-insert p q b blocks, h.mapped a q u k);
    owned = λ q a k. ground (arith, status-insert p q b blocks, h.owned q a);
    tagged = λ q k. ground (arith, status-insert p q b blocks, h.tagged q);
  }
