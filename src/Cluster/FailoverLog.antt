-- ===== src/Cluster/FailoverLog.antt =====
-- activecluster/failover.py: what failovers and failbacks do, and what the controller's log and
-- counters say of them.
use storage_appliance_archit.Base.{
  ◌+◌, ◌≡◌, refl, sym, subst, Option, none, some, [], ◌∷◌, Bool, true, false, arith, Bool-cases,
  Option-cases, List-cases, inl, inr, ◌⊎◌, Exec, ok, raise, continue, pure, Result, Key, length,
  length-append,
}
use storage_appliance_archit.Base.Dict.{lookup}
use storage_appliance_archit.Cluster.Order.{Order}
use storage_appliance_archit.Cluster.Mediator.{
  Mediator, set_primary, initiate_election, has_quorum, elect, sort_by_id, candidates_of,
}
use storage_appliance_archit.Cluster.Settled.{IsSettled, set_primary-IsSettled}
use storage_appliance_archit.Cluster.Calls.{initiate_election-IsSettled}
use storage_appliance_archit.Cluster.Failover.{
  FailoverController, FailoverEvent, FailoverState, FailoverReason, normal, failed_over,
  failing_over, failing_back, node_failure, manual, begin_failover, settle, event_of,
  finish_failover, execute_failback, count_failback, failback_to, check_and_failback,
  manual_failback, execute_failover, failover_from, some_event, check_and_failover, choose_primary,
  manual_failover,
}

module _ {K : Type 0} ⦃key : Key K⦄ where
  -- The counters agree: every failover is counted once as successful or failed, and the history has
  -- an event for each failover and failback; and the mediator is settled.
  pub record IsCounted (f : FailoverController K) : Type 0 where
    pub counted : f.stats.total_failovers ≡ f.stats.successful_failovers + f.stats.failed_failovers
    pub logged : length f.history ≡ f.stats.total_failovers + f.stats.total_failbacks
    pub settled : IsSettled f.mediator

  -- Between two calls the controller is moreover in one of two states.
  pub record IsSafe (f : FailoverController K) : Type 0 where
    pub at_rest : (f.state ≡ normal) ⊎ (f.state ≡ failed_over)
    pub sums : IsCounted f

  finish_failover-IsSafe :
      (old : Option K) (why : FailoverReason) (new : Option K) (f : FailoverController K)
      → IsCounted f
      → IsSafe (finish_failover old why new f).1
  unfolding finish_failover
  finish_failover-IsSafe old why none f h = record {
    at_rest = inl refl;
    sums = record {
      counted = omega (arith, h.counted);
      logged =
          omega
            (arith, h.logged, length-append f.history (event_of old none why (settle none f) ∷ []));
      settled = h.settled;
    };
  }
  finish_failover-IsSafe old why (some k) f h = record {
    at_rest = inr refl;
    sums = record {
      counted = omega (arith, h.counted);
      logged = omega (
        arith,
        h.logged,
        length-append f.history (event_of old (some k) why (settle (some k) f) ∷ []),
      );
      settled = h.settled;
    };
  }

  -- `set_primary` returns, and leaves the mediator settled.
  set_primary-returns :
      (k : K) (m : Mediator K)
      → IsSettled m
      → (b : Bool) × (m' : Mediator K) × (set_primary k m ≡ (ok b, m')) × IsSettled m'
  unfolding set_primary
  set_primary-returns k m h = elim (Option-cases (lookup k m.nodes)) [
    | inl e ↦ (false, m, ground arith, h)
    | inr (n, e) ↦ (true, (set_primary k m).1, ground arith, set_primary-IsSettled k m h)
  ]

  execute_failback-IsSafe :
      (k : K) (f : FailoverController K) → IsCounted f → IsSafe (execute_failback k f).1
  unfolding execute_failback
  execute_failback-IsSafe k f h =
      let (b, m', run, settled) = set_primary-returns k f.mediator h.settled in
      rw run (record {
        at_rest = inl refl;
        sums = record {
          counted = h.counted;
          logged = omega (
            arith,
            h.logged,
            length-append f.history
                (event_of f.mediator.current_primary (some k) manual (count_failback f) ∷ []),
          );
          settled = settled;
        };
      })

some_event-state : {S A : Type 0} (o : Result A × S) → (continue o (λ a. pure (some a))).1 ≡ o.1
some_event-state (ok a, s) = refl
some_event-state (raise e, s) = refl

module _ {K : Type 0} ⦃key : Key K⦄ ⦃order : Order K⦄ where
  -- So does an election.
  initiate_election-returns :
      (m : Mediator K)
      → IsSettled m
      → (o : Option K) × (m' : Mediator K) × (initiate_election m ≡ (ok o, m')) × IsSettled m'
  unfolding initiate_election elect
  initiate_election-returns m h = elim (Bool-cases (has_quorum m)) [
    | inl e ↦ elim (List-cases (sort_by_id (candidates_of m.nodes))) [
      | inl k ↦ (none, (initiate_election m).1, ground arith, initiate_election-IsSettled m h)
      | inr (n, ns, k) ↦
          (some n.node_id, (initiate_election m).1, ground arith, initiate_election-IsSettled m h)
    ]
    | inr e ↦ (none, m, ground arith, h)
  ]

  execute_failover-IsSafe :
      (old : Option K) (why : FailoverReason) (new : Option K) (f : FailoverController K)
      → IsCounted f
      → IsSafe (execute_failover old why new f).1
  unfolding execute_failover
  execute_failover-IsSafe old why none f h =
      let (o, m', run, settled) = initiate_election-returns f.mediator h.settled in
      rw run (
        finish_failover-IsSafe old why o (record (begin_failover old f) { mediator = m' })
          (record { counted = h.counted; logged = h.logged; settled = settled }))
  execute_failover-IsSafe old why (some k) f h =
      finish_failover-IsSafe old why (some k) (begin_failover old f)
        (record { counted = h.counted; logged = h.logged; settled = h.settled })

  some_event-IsSafe :
      (f : FailoverController K) (call : Exec (FailoverController K) (FailoverEvent K))
      → IsSafe (call f).1
      → IsSafe (some_event call f).1
  some_event-IsSafe f call h = subst IsSafe (sym (some_event-state (call f))) h

  choose_primary-IsCounted :
      (target : Option K) (f : FailoverController K)
      → IsCounted f
      → (o : Option K) × (g : FailoverController K) × (choose_primary target f ≡ (ok o, g))
        × IsCounted g
  unfolding choose_primary
  choose_primary-IsCounted none f h =
      let (o, m', run, settled) = initiate_election-returns f.mediator h.settled in
      (
        o,
        record f { mediator = m' },
        rw run refl,
        record { counted = h.counted; logged = h.logged; settled = settled },
      )
  choose_primary-IsCounted (some k) f h =
      let (b, m', run, settled) = set_primary-returns k f.mediator h.settled in
      (
        some k,
        record f { mediator = m' },
        rw run refl,
        record { counted = h.counted; logged = h.logged; settled = settled },
      )

  pub manual_failover-IsSafe :
      (target : Option K) (f : FailoverController K)
      → IsCounted f
      → IsSafe (manual_failover target f).1
  unfolding manual_failover
  manual_failover-IsSafe target f h =
      let (o, g, run, sums) = choose_primary-IsCounted target f h in
      rw run (execute_failover-IsSafe f.mediator.current_primary manual o g sums)

  failback_to-IsSafe : (k : K) (f : FailoverController K) → IsSafe f → IsSafe (failback_to k f).1
  unfolding failback_to
  failback_to-IsSafe k f h = elim (Option-cases (lookup k f.mediator.nodes)) [
    | inl e ↦ rw (e, failback_to) h
    | inr (n, e) ↦ elim (Bool-cases n.is_healthy) [
      | inl u ↦ rw (e, u, failback_to) (execute_failback-IsSafe k f h.sums)
      | inr u ↦ rw (e, u, failback_to) h
    ]
  ]

  failover_from-IsSafe :
      (k : K) (f : FailoverController K) → IsSafe f → IsSafe (failover_from k f).1
  unfolding failover_from
  failover_from-IsSafe k f h = elim (Option-cases (lookup k f.mediator.nodes)) [
    | inl e ↦ rw (e, failover_from) h
    | inr (n, e) ↦ elim (Bool-cases n.is_healthy) [
      | inl u ↦ rw (e, u, failover_from) h
      | inr u ↦
          rw (e, u, failover_from)
            (some_event-IsSafe f (execute_failover (some k) node_failure none)
              (execute_failover-IsSafe (some k) node_failure none f h.sums))
    ]
  ]

  pub check_and_failover-IsSafe :
      (s : FailoverState) (f : FailoverController K)
      → f.state ≡ s
      → IsSafe f
      → IsSafe (check_and_failover f).1
  unfolding check_and_failover
  check_and_failover-IsSafe normal f e h = elim (Option-cases f.mediator.current_primary) [
    | inl q ↦ rw (e, q, check_and_failover) h
    | inr (k, q) ↦ rw (e, q, check_and_failover) (failover_from-IsSafe k f h)
  ]
  check_and_failover-IsSafe failing_over f e h = rw (e, check_and_failover) h
  check_and_failover-IsSafe failed_over f e h = rw (e, check_and_failover) h
  check_and_failover-IsSafe failing_back f e h = rw (e, check_and_failover) h

  pub manual_failback-IsSafe :
      (s : FailoverState) (f : FailoverController K)
      → f.state ≡ s
      → IsSafe f
      → IsSafe (manual_failback f).1
  unfolding manual_failback
  manual_failback-IsSafe failed_over f e h = elim (Option-cases f.original_primary) [
    | inl q ↦ rw (e, q, manual_failback) h
    | inr (k, q) ↦ rw (e, q, manual_failback) (execute_failback-IsSafe k f h.sums)
  ]
  manual_failback-IsSafe failing_over f e h = rw (e, manual_failback) h
  manual_failback-IsSafe normal f e h = rw (e, manual_failback) h
  manual_failback-IsSafe failing_back f e h = rw (e, manual_failback) h

  pub check_and_failback-IsSafe :
      (s : FailoverState) (f : FailoverController K)
      → f.state ≡ s
      → IsSafe f
      → IsSafe (check_and_failback f).1
  unfolding check_and_failback
  check_and_failback-IsSafe s f e h = elim (Bool-cases f.auto_failback) [
    | inl a ↦ by_state s e a
    | inr a ↦ let run : check_and_failback f ≡ (ok none, f) = ground arith in rw run h
  ]
    where
      by_state :
          (t : FailoverState)
          → f.state ≡ t
          → f.auto_failback ≡ true
          → IsSafe (check_and_failback f).1
      by_state failed_over q a = elim (Option-cases f.original_primary) [
        | inl o ↦ let run : check_and_failback f ≡ (ok none, f) = ground arith in rw run h
        | inr (k, o) ↦
            let run : check_and_failback f ≡ failback_to k f = ground arith in
            rw run (failback_to-IsSafe k f h)
      ]
      by_state failing_over q a =
          let run : check_and_failback f ≡ (ok none, f) = ground arith in rw run h
      by_state normal q a = let run : check_and_failback f ≡ (ok none, f) = ground arith in rw run h
      by_state failing_back q a =
          let run : check_and_failback f ≡ (ok none, f) = ground arith in rw run h
