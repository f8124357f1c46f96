-- ===== src/Cluster/Order.antt =====
-- The order of node ids that `candidates.sort(key=lambda n: n.node_id)` uses.
use storage_appliance_archit.Base.{ℕ, ◌≡◌, Bool, true, ◌⊎◌, leb, arith}

pub record Order (K : Type 0) : Type 0 where
  pub le : K → K → Bool
  pub le_total : (a b : K) → (le a b ≡ true) ⊎ (le b a ≡ true)
  pub le_trans : (a b c : K) → le a b ≡ true → le b c ≡ true → le a c ≡ true

pub leb_trans : (a b c : ℕ) → leb a b ≡ true → leb b c ≡ true → leb a c ≡ true
leb_trans a b c h k = ground arith

pub leb_total : (a b : ℕ) → (leb a b ≡ true) ⊎ (leb b a ≡ true)
leb_total a b = ground arith

instance abbrev pub nat_order : Order ℕ
nat_order = record { le = leb; le_total = leb_total; le_trans = leb_trans }
