-- ===== src/Cluster/Election.antt =====
-- activecluster/mediator.py: whom `initiate_election` elects.
use storage_appliance_archit.Base.{
  ◌≡◌, ◌≢◌, refl, sym, subst, none, some, List, [], ◌∷◌, true, false, arith, Bool-cases, List-cases,
  inl, inr, ◌⊎◌, ok, Key,
}
use storage_appliance_archit.Base.Dict.{Dict, IsDict, lookup}
use mathlib.Core.Option.{map as map_option}
use storage_appliance_archit.Cluster.Order.{Order}
use storage_appliance_archit.Cluster.Mediator.{
  NodeInfo, Mediator, is_candidate, candidates_of, place, sort_by_id, elect, elect_roles, map_nodes,
  elected, count_election, has_quorum, initiate_election,
}

-- The dictionary files every node under its own id.
abbrev pub IsKeyed : {K : Type 0} → Dict K (NodeInfo K) → Type 0
IsKeyed [] = Unit
IsKeyed ((k, n) ∷ d) = (n.node_id ≡ k) × IsKeyed d

-- Every node of the list is a candidate that the dictionary holds under its id.
abbrev AllCandidates : {K : Type 0} ⦃key : Key K⦄ → Dict K (NodeInfo K) → List (NodeInfo K) → Type 0
AllCandidates d [] = Unit
AllCandidates d (n ∷ ns) =
    ((lookup n.node_id d ≡ some n) × (is_candidate n ≡ true)) × AllCandidates d ns

module _ {K : Type 0} ⦃order : Order K⦄ where
  -- `w` comes before the nodes of the list.
  abbrev AllFrom : K → List (NodeInfo K) → Type 0
  AllFrom w [] = Unit
  AllFrom w (n ∷ ns) = (order.le w n.node_id ≡ true) × AllFrom w ns

  -- Each node of the list comes before those behind it.
  abbrev IsSorted : List (NodeInfo K) → Type 0
  IsSorted [] = Unit
  IsSorted (n ∷ ns) = AllFrom n.node_id ns × IsSorted ns

  -- `w` comes before the candidates of the dictionary.
  abbrev pub AllAfter : K → Dict K (NodeInfo K) → Type 0
  AllAfter w [] = Unit
  AllAfter w ((_, n) ∷ d) =
      ((is_candidate n ≡ false) ⊎ (order.le w n.node_id ≡ true)) × AllAfter w d

module _ {K : Type 0} ⦃key : Key K⦄ where
  pub lookup-map_nodes :
      (f : K → NodeInfo K → NodeInfo K) (k : K) (d : Dict K (NodeInfo K))
      → lookup k (map_nodes f d) ≡ map_option (f k) (lookup k d)
  unfolding lookup map_nodes
  lookup-map_nodes f k [] = refl
  lookup-map_nodes f k ((j, n) ∷ d) = ground (arith, lookup-map_nodes f k d)

  AllCandidates-cons :
      (k : K) (v : NodeInfo K) (d : Dict K (NodeInfo K)) (ns : List (NodeInfo K))
      → lookup k d ≡ none
      → AllCandidates d ns
      → AllCandidates ((k, v) ∷ d) ns
  unfolding lookup
  AllCandidates-cons k v d [] h c = tt
  AllCandidates-cons k v d (n ∷ ns) h c = ((ground arith, c.0.1), AllCandidates-cons k v d ns h c.1)

  candidates_of-AllCandidates :
      (d : Dict K (NodeInfo K)) → IsDict d → IsKeyed d → AllCandidates d (candidates_of d)
  unfolding candidates_of lookup
  candidates_of-AllCandidates [] h k = tt
  candidates_of-AllCandidates ((j, n) ∷ d) h k =
      let rest =
        AllCandidates-cons j n d (candidates_of d) h.0 (candidates_of-AllCandidates d h.1 k.1) in
      let id : n.node_id ≡ j = k.0 in
      elim (Bool-cases (is_candidate n)) [
        | inl e ↦ rw (e, candidates_of) ((ground arith, e), rest)
        | inr e ↦ rw (e, candidates_of) rest
      ]

module _ {K : Type 0} ⦃key : Key K⦄ ⦃order : Order K⦄ where
  place-AllCandidates :
      (d : Dict K (NodeInfo K)) (n : NodeInfo K) (ns : List (NodeInfo K))
      → (lookup n.node_id d ≡ some n) × (is_candidate n ≡ true)
      → AllCandidates d ns
      → AllCandidates d (place n ns)
  unfolding place
  place-AllCandidates d n [] h c = (h, tt)
  place-AllCandidates d n (x ∷ xs) h c = elim (Bool-cases (order.le n.node_id x.node_id)) [
    | inl e ↦ rw (e, place) (h, c)
    | inr e ↦ rw (e, place) (c.0, place-AllCandidates d n xs h c.1)
  ]

  sort_by_id-AllCandidates :
      (d : Dict K (NodeInfo K)) (ns : List (NodeInfo K))
      → AllCandidates d ns
      → AllCandidates d (sort_by_id ns)
  unfolding sort_by_id
  sort_by_id-AllCandidates d [] c = tt
  sort_by_id-AllCandidates d (n ∷ ns) c =
      place-AllCandidates d n (sort_by_id ns) c.0 (sort_by_id-AllCandidates d ns c.1)

  AllFrom-trans :
      (a b : K) (ns : List (NodeInfo K)) → order.le a b ≡ true → AllFrom b ns → AllFrom a ns
  AllFrom-trans a b [] h f = tt
  AllFrom-trans a b (n ∷ ns) h f = (order.le_trans a b n.node_id h f.0, AllFrom-trans a b ns h f.1)

  order_refl : (a : K) → order.le a a ≡ true
  order_refl a = elim (order.le_total a a) [ inl e ↦ e | inr e ↦ e ]

  place-AllFrom :
      (a : K) (n : NodeInfo K) (ns : List (NodeInfo K))
      → order.le a n.node_id ≡ true
      → AllFrom a ns
      → AllFrom a (place n ns)
  unfolding place
  place-AllFrom a n [] h f = (h, tt)
  place-AllFrom a n (x ∷ xs) h f = elim (Bool-cases (order.le n.node_id x.node_id)) [
    | inl e ↦ rw (e, place) (h, f)
    | inr e ↦ rw (e, place) (f.0, place-AllFrom a n xs h f.1)
  ]

  AllFrom-place :
      (a : K) (n : NodeInfo K) (ns : List (NodeInfo K))
      → AllFrom a (place n ns)
      → AllFrom a (n ∷ ns)
  unfolding place
  AllFrom-place a n [] f = f
  AllFrom-place a n (x ∷ xs) f = elim (Bool-cases (order.le n.node_id x.node_id)) [
    | inl e ↦ let g : AllFrom a (n ∷ x ∷ xs) = rw (e, place) at f in g
    | inr e ↦
        let g : AllFrom a (x ∷ place n xs) = rw (e, place) at f in
        let r = AllFrom-place a n xs g.1 in (r.0, (g.0, r.1))
  ]

  place-IsSorted : (n : NodeInfo K) (ns : List (NodeInfo K)) → IsSorted ns → IsSorted (place n ns)
  unfolding place
  place-IsSorted n [] s = (tt, tt)
  place-IsSorted n (x ∷ xs) s = elim (Bool-cases (order.le n.node_id x.node_id)) [
    | inl e ↦ rw (e, place) ((e, AllFrom-trans n.node_id x.node_id xs e s.0), s)
    | inr e ↦
        let back : order.le x.node_id n.node_id ≡ true = elim (order.le_total n.node_id x.node_id) [
          | inl k ↦ cc
          | inr k ↦ k
        ] in
        rw (e, place) (place-AllFrom x.node_id n xs back s.0, place-IsSorted n xs s.1)
  ]

  sort_by_id-IsSorted : (ns : List (NodeInfo K)) → IsSorted (sort_by_id ns)
  unfolding sort_by_id
  sort_by_id-IsSorted [] = tt
  sort_by_id-IsSorted (n ∷ ns) = place-IsSorted n (sort_by_id ns) (sort_by_id-IsSorted ns)

  AllFrom-sort_by_id : (a : K) (ns : List (NodeInfo K)) → AllFrom a (sort_by_id ns) → AllFrom a ns
  unfolding sort_by_id
  AllFrom-sort_by_id a [] f = tt
  AllFrom-sort_by_id a (n ∷ ns) f =
      let g = AllFrom-place a n (sort_by_id ns) f in (g.0, AllFrom-sort_by_id a ns g.1)

  -- The first of the sorted list comes before all of them.
  sort_by_id-first :
      (ns : List (NodeInfo K)) (w : NodeInfo K) (ws : List (NodeInfo K))
      → sort_by_id ns ≡ w ∷ ws
      → AllFrom w.node_id ns
  sort_by_id-first ns w ws e =
      let s : IsSorted (w ∷ ws) = subst (λ t. IsSorted t) e (sort_by_id-IsSorted ns) in
      AllFrom-sort_by_id w.node_id ns
        (subst (λ t. AllFrom w.node_id t) (sym e) (order_refl w.node_id, s.0))

  candidates_of-AllAfter :
      (w : K) (d : Dict K (NodeInfo K)) → AllFrom w (candidates_of d) → AllAfter w d
  unfolding candidates_of
  candidates_of-AllAfter w [] h = tt
  candidates_of-AllAfter w ((k, n) ∷ d) h = elim (Bool-cases (is_candidate n)) [
    | inl e ↦
        let g : AllFrom w (n ∷ candidates_of d) = rw (e, candidates_of) at h in
        (inr g.0, candidates_of-AllAfter w d g.1)
    | inr e ↦ (inl e, candidates_of-AllAfter w d (rw (e, candidates_of) at h))
  ]

module _ {K : Type 0} ⦃key : Key K⦄ ⦃order : Order K⦄ where
  -- The node `w` is elected: it is a healthy node that may lead, no other such node has a lower
  -- id, it alone is primary afterwards, and nothing but roles changes.
  pub record Elected (m : Mediator K) (w : K) (m' : Mediator K) : Type 0 where
    pub leader : NodeInfo K
    pub is_member : lookup w m.nodes ≡ some leader
    pub may_lead : is_candidate leader ≡ true
    pub least : AllAfter w m.nodes
    pub leads : m'.current_primary ≡ some w
    pub roles : (k : K) → lookup k m'.nodes ≡ map_option (elected w) (lookup k m.nodes)
    pub counted : m'.stats ≡ (count_election m).stats

  place_some : (n : NodeInfo K) (ns : List (NodeInfo K)) → place n ns ≢ []
  unfolding place
  place_some n [] e = cc
  place_some n (x ∷ xs) e = ground arith

  sort_by_id_empty : (ns : List (NodeInfo K)) → sort_by_id ns ≡ [] → ns ≡ []
  unfolding sort_by_id
  sort_by_id_empty [] e = refl
  sort_by_id_empty (n ∷ ns) e = absurd (place_some n (sort_by_id ns) e)

  -- With a quorum, and each node filed once and under its id, an election elects the healthy node
  -- with the lowest id among those that may lead; it returns None only where no node may.
  pub initiate_election-Elected :
      (m : Mediator K)
      → IsDict m.nodes
      → IsKeyed m.nodes
      → has_quorum m ≡ true
      → ((initiate_election m ≡ (ok none, count_election m)) × (candidates_of m.nodes ≡ []))
        ⊎ ((w : K) × (m' : Mediator K) × (initiate_election m ≡ (ok (some w), m')) × Elected m w m')
  unfolding initiate_election elect elect_roles
  initiate_election-Elected m h k q = elim (List-cases (sort_by_id (candidates_of m.nodes))) [
    | inl e ↦ inl (ground arith, sort_by_id_empty (candidates_of m.nodes) e)
    | inr (n, ns, e) ↦
        let c : AllCandidates m.nodes (n ∷ ns) =
          subst (λ t. AllCandidates m.nodes t) e
            (sort_by_id-AllCandidates m.nodes (candidates_of m.nodes)
              (candidates_of-AllCandidates m.nodes h k)) in
        inr (
          n.node_id,
          (initiate_election m).1,
          ground arith,
          record {
            leader = n;
            is_member = c.0.0;
            may_lead = c.0.1;
            least =
                candidates_of-AllAfter n.node_id m.nodes
                  (sort_by_id-first (candidates_of m.nodes) n ns e);
            leads = ground arith;
            roles = λ j. ground (arith, lookup-map_nodes (λ i. elected n.node_id) j m.nodes);
            counted = ground arith;
          },
        )
  ]
