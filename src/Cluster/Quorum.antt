-- ===== src/Cluster/Quorum.antt =====
-- activecluster/mediator.py: quorum prevents a split brain.
use storage_appliance_archit.Base.{
  ◌+◌, ◌≤◌, ◌≡◌, refl, none, some, [], ◌∷◌, true, false, ◌&&◌, arith, length, Bool-cases, inl, inr,
  ok, Key, Option, Bool, Option-cases, if◌then◌else◌,
}
use storage_appliance_archit.Base.Dict.{Dict, lookup, erase, IsDict, erase-IsDict, lookup-erase}
use storage_appliance_archit.Cluster.Order.{Order}
use storage_appliance_archit.Cluster.Mediator.{
  NodeInfo, Mediator, healthy_nodes, has_quorum, initiate_election,
}

abbrev pub is_member : {K : Type 0} → Option (NodeInfo K) → Bool
is_member none = false
is_member (some _) = true

abbrev pub is_up : {K : Type 0} → Option (NodeInfo K) → Bool
is_up none = false
is_up (some n) = n.is_healthy

-- Two views of the same members, in any order, in which no node is healthy twice, as on the two
-- sides of a network partition.
pub record Apart {K : Type 0} ⦃key : Key K⦄ (d e : Dict K (NodeInfo K)) : Type 0 where
  pub left : IsDict d
  pub right : IsDict e
  pub same : (k : K) → is_member (lookup k d) ≡ is_member (lookup k e)
  pub once : (k : K) → is_up (lookup k d) && is_up (lookup k e) ≡ false

module _ {K : Type 0} ⦃key : Key K⦄ where
  -- The counts without one key.
  length-erase :
      (k : K) (n : NodeInfo K) (d : Dict K (NodeInfo K))
      → lookup k d ≡ some n
      → length (erase k d) + 1 ≡ length d
  unfolding lookup erase
  length-erase k n [] e = absurd (cc)
  length-erase k n ((j, m) ∷ d) e = ground (arith, length-erase k n d)

  healthy_nodes-erase :
      (k : K) (n : NodeInfo K) (d : Dict K (NodeInfo K))
      → lookup k d ≡ some n
      → (if n.is_healthy then healthy_nodes (erase k d) + 1 else healthy_nodes (erase k d))
        ≡ healthy_nodes d
  unfolding lookup erase
  healthy_nodes-erase k n [] e = absurd (cc)
  healthy_nodes-erase k n ((j, m) ∷ d) e = ground (arith, healthy_nodes-erase k n d)

  Apart-erase :
      (j : K) (m : NodeInfo K) (d e : Dict K (NodeInfo K))
      → Apart ((j, m) ∷ d) e
      → Apart d (erase j e)
  unfolding lookup
  Apart-erase j m d e h = record {
    left = h.left.1;
    right = erase-IsDict j e h.right;
    same = λ k. ground (arith, h.same k, lookup-erase j k e h.right, h.left.0);
    once = λ k. ground (arith, h.once k, lookup-erase j k e h.right, h.left.0);
  }

  Apart-counts :
      (d e : Dict K (NodeInfo K))
      → Apart d e
      → (length d ≡ length e) × (healthy_nodes d + healthy_nodes e ≤ length d)
  unfolding lookup
  Apart-counts [] [] h = (refl, omega arith)
  Apart-counts [] ((j, n) ∷ e) h = absurd (ground (arith, h.same j))
  Apart-counts ((j, m) ∷ d) e h = elim (Option-cases (lookup j e)) [
    | inl k ↦ absurd (ground (arith, h.same j))
    | inr (n, k) ↦
        let shared : m.is_healthy && n.is_healthy ≡ false = ground (arith, h.once j) in
        let (size, few) = Apart-counts d (erase j e) (Apart-erase j m d e h) in
        ground (arith, length-erase j n e k, healthy_nodes-erase j n e k)
  ]

  pub has_quorum-one_side :
      (a b : Mediator K) → Apart a.nodes b.nodes → has_quorum a ≡ true → has_quorum b ≡ false
  unfolding has_quorum
  has_quorum-one_side a b h q = let (size, few) = Apart-counts a.nodes b.nodes h in ground arith

module _ {K : Type 0} ⦃key : Key K⦄ ⦃order : Order K⦄ where
  pub initiate_election-quorum :
      (m : Mediator K) (w : K) → (initiate_election m).0 ≡ ok (some w) → has_quorum m ≡ true
  unfolding initiate_election
  initiate_election-quorum m w e = elim (Bool-cases (has_quorum m)) [
    | inl q ↦ q
    | inr q ↦ ground arith
  ]

  -- Of two mediators with the same members, each in its own order, where no node is healthy in both
  -- views, at most one elects a primary: if the first does, the election of the second returns None
  -- and changes nothing.
  pub initiate_election-one_side :
      (a b : Mediator K) (w : K)
      → Apart a.nodes b.nodes
      → (initiate_election a).0 ≡ ok (some w)
      → initiate_election b ≡ (ok none, b)
  unfolding initiate_election
  initiate_election-one_side a b w h e =
      let q = has_quorum-one_side a b h (initiate_election-quorum a w e) in ground arith
