-- ===== src/Cluster/FailoverRuns.antt =====
-- activecluster/failover.py over activecluster/mediator.py: runs of both, and what one failover
-- does.
use storage_appliance_archit.Base.{
  ℕ, ◌+◌, ◌≡◌, ◌≢◌, refl, ◌∙◌, sym, ap, subst, Option, none, some, List, [], ◌∷◌, true, false,
  arith, inl, inr, ok, Key,
}
use storage_appliance_archit.Base.Dict.{lookup, lookup-insert_self}
use storage_appliance_archit.Cluster.Order.{Order}
use storage_appliance_archit.Cluster.Mediator.{
  NodeInfo, has_quorum, candidates_of, set_primary, heard, elected, receive_heartbeat,
}
use storage_appliance_archit.Cluster.Election.{Elected, initiate_election-Elected}
use storage_appliance_archit.Cluster.Settled.{IsSettled}
use storage_appliance_archit.Cluster.Calls.{Call, receive, IsModest, step, step-IsSettled}
use storage_appliance_archit.Cluster.Failover.{
  FailoverController, FailoverEvent, normal, failed_over, node_failure, manual, execute_failback,
  failback_to, check_and_failback, manual_failback, execute_failover, failover_from,
  check_and_failover, choose_primary, manual_failover, finish_failover, log_failover, settle,
  begin_failover,
}
use storage_appliance_archit.Cluster.FailoverLog.{
  IsSafe, check_and_failover-IsSafe, check_and_failback-IsSafe, manual_failover-IsSafe,
  manual_failback-IsSafe,
}

pub data Act (K : Type 0) : Type 0 where
  check_over check_back switch_back : Act K
  switch_over : Option K → Act K
  mediate : Call K → Act K

abbrev pub AllModestActs : {K : Type 0} → List (Act K) → Type 0
AllModestActs [] = Unit
AllModestActs (mediate c ∷ as') = IsModest c × AllModestActs as'
AllModestActs (_ ∷ as') = AllModestActs as'

module _ {K : Type 0} ⦃key : Key K⦄ ⦃order : Order K⦄ where
  unfoldable pub act : FailoverController K → Act K → FailoverController K
  act f check_over = (check_and_failover f).1
  act f check_back = (check_and_failback f).1
  act f switch_back = (manual_failback f).1
  act f (switch_over target) = (manual_failover target f).1
  act f (mediate c) = record f { mediator = step f.mediator c }

  unfoldable pub run_acts : FailoverController K → List (Act K) → FailoverController K
  unfolding act
  run_acts f [] = f
  run_acts f (a ∷ as') = run_acts (act f a) as'

  -- From a safe state, whatever failovers, failbacks and calls of the mediator follow each other,
  -- the controller comes back to a state of rest, its counters and its history agree, and at most
  -- one node is primary, if no call brings in a node that is primary already.
  pub run_acts-IsSafe :
      (f : FailoverController K) (as' : List (Act K))
      → AllModestActs as'
      → IsSafe f
      → IsSafe (run_acts f as')
  unfolding run_acts act
  run_acts-IsSafe f [] m h = h
  run_acts-IsSafe f (check_over ∷ as') m h =
      run_acts-IsSafe (act f check_over) as' m (check_and_failover-IsSafe f.state f refl h)
  run_acts-IsSafe f (check_back ∷ as') m h =
      run_acts-IsSafe (act f check_back) as' m (check_and_failback-IsSafe f.state f refl h)
  run_acts-IsSafe f (switch_back ∷ as') m h =
      run_acts-IsSafe (act f switch_back) as' m (manual_failback-IsSafe f.state f refl h)
  run_acts-IsSafe f (switch_over t ∷ as') m h =
      run_acts-IsSafe (act f (switch_over t)) as' m (manual_failover-IsSafe t f h.sums)
  run_acts-IsSafe f (mediate c ∷ as') m h = run_acts-IsSafe (act f (mediate c)) as' m.1 (record {
    at_rest = h.at_rest;
    sums = record {
      counted = h.sums.counted;
      logged = h.sums.logged;
      settled = step-IsSettled f.mediator c m.0 h.sums.settled;
    };
  })

  -- What `check_and_failover` does for a failed primary `p`: the node `w` leads.
  pub record FailedOver (f : FailoverController K) (p w : K) (g : FailoverController K)
      : Type 0 where
    pub elected : Elected f.mediator w g.mediator
    pub another : w ≢ p
    pub original : g.original_primary ≡ some p
    pub now : g.state ≡ failed_over
    pub same_setting : g.auto_failback ≡ f.auto_failback

  -- When the mediator is settled, the controller in its normal state, the primary unhealthy, the
  -- cluster has a quorum and some node may lead, the controller fails over to another node, the
  -- healthy one with the lowest id, and remembers the old primary.
  pub check_and_failover-FailedOver :
      (f : FailoverController K) (p : K) (n : NodeInfo K)
      → IsSettled f.mediator
      → f.state ≡ normal
      → f.mediator.current_primary ≡ some p
      → lookup p f.mediator.nodes ≡ some n
      → n.is_healthy ≡ false
      → has_quorum f.mediator ≡ true
      → candidates_of f.mediator.nodes ≢ []
      → (event : FailoverEvent K) × (w : K) × (g : FailoverController K) × (check_and_failover f
          ≡ (ok (some event), g))
        × FailedOver f p w g
  unfolding check_and_failover failover_from execute_failover finish_failover
  check_and_failover-FailedOver f p n s e c l u q cs =
      elim (initiate_election-Elected f.mediator s.is_dict s.keyed q) [
        | inl z ↦ absurd (cs z.1)
        | inr (w, m', run, el) ↦
            let event : FailoverEvent K = record {
              old_primary = some p;
              new_primary = some w;
              reason = node_failure;
              state = failed_over;
            } in
            let g =
              log_failover event
                (settle (some w) (record (begin_failover (some p) f) { mediator = m' })) in
            let run_g : check_and_failover f ≡ (ok (some event), g) = ground arith in
            (
              event,
              w,
              g,
              run_g,
              record {
                elected = el;
                another = λ z. (let led = el.is_member in let may = el.may_lead in ground arith);
                original = refl;
                now = refl;
                same_setting = refl;
              },
            )
      ]

  -- A manual failover to a node that the mediator does not know reports success and leaves the
  -- mediator as it is.
  pub manual_failover-unknown :
      (f : FailoverController K) (k : K)
      → lookup k f.mediator.nodes ≡ none
      → (event : FailoverEvent K) × (g : FailoverController K) × (manual_failover (some k) f
          ≡ (ok event, g))
        × (event.new_primary ≡ some k)
        × (g.state ≡ failed_over)
        × (g.mediator ≡ f.mediator)
        × (g.stats.successful_failovers ≡ f.stats.successful_failovers + 1)
  unfolding manual_failover choose_primary set_primary execute_failover finish_failover
  manual_failover-unknown f k e = (
    record {
      old_primary = f.mediator.current_primary;
      new_primary = some k;
      reason = manual;
      state = failed_over;
    },
    (manual_failover (some k) f).1,
    ground arith,
    refl,
    ground arith,
    ground arith,
    ground arith,
  )

  back_to :
      (g : FailoverController K) (p : K) (n : NodeInfo K) (now : ℕ)
      → g.auto_failback ≡ true
      → g.state ≡ failed_over
      → g.original_primary ≡ some p
      → lookup p g.mediator.nodes ≡ some n
      → let h = run_acts g (mediate (receive p now) ∷ check_back ∷ []) in
        (h.mediator.current_primary ≡ some p) × (h.state ≡ normal) × (h.original_primary ≡ none)
  unfolding run_acts act step receive_heartbeat check_and_failback failback_to execute_failback
      set_primary
  back_to g p n now a e o l =
      let seen = lookup-insert_self p (heard now n) g.mediator.nodes in
      (ground arith, ground arith, ground arith)

  -- When the mediator is settled, the controller in its normal state, the primary unhealthy, the
  -- cluster has a quorum and some node may lead, a check moves the role to another node; where
  -- the controller fails back by itself, the old primary is primary again after it is heard and
  -- the next check, and the controller is in its normal state.
  pub failover_and_back :
      (f : FailoverController K) (p : K) (n : NodeInfo K) (now : ℕ)
      → IsSettled f.mediator
      → f.auto_failback ≡ true
      → f.state ≡ normal
      → f.mediator.current_primary ≡ some p
      → lookup p f.mediator.nodes ≡ some n
      → n.is_healthy ≡ false
      → has_quorum f.mediator ≡ true
      → candidates_of f.mediator.nodes ≢ []
      → ((run_acts f (check_over ∷ [])).mediator.current_primary ≢ some p)
        × (let h = run_acts f (check_over ∷ mediate (receive p now) ∷ check_back ∷ []) in
            (h.mediator.current_primary ≡ some p)
            × (h.state ≡ normal)
            × (h.original_primary ≡ none))
  unfolding run_acts act
  failover_and_back f p n now s a e c l u q cs =
      let (event, w, g, run, fo) = check_and_failover-FailedOver f p n s e c l u q cs in
      let led = fo.elected.leads in
      let role = fo.elected.roles p in
      let after : act f check_over ≡ g = ap (λ o. o.1) run in
      (
        subst (λ x. x.mediator.current_primary ≢ some p) (sym after)
            (λ z. fo.another (let x : some w ≡ some p = sym led ∙ z in cc)),
        subst
            (λ x.
              (let h = run_acts x (mediate (receive p now) ∷ check_back ∷ []) in
                (h.mediator.current_primary ≡ some p)
                × (h.state ≡ normal)
                × (h.original_primary ≡ none)))
            (sym after)
            (back_to g p (elected w n) now (fo.same_setting ∙ a) fo.now fo.original
              (role ∙ rw l refl)),
      )
