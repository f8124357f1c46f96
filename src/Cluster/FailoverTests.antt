-- ===== src/Cluster/FailoverTests.antt =====
-- activecluster/failover.py: a cluster whose primary has failed, and the theorems at inputs that
-- meet their hypotheses.
use storage_appliance_archit.Base.{
  ℕ, ◌+◌, ◌≡◌, ◌≢◌, refl, none, some, List, [], ◌∷◌, true, false, arith, ok, inl, Bool, nat_key,
  ℕ_discrete,
}
use storage_appliance_archit.Base.Dict.{lookup, insert}
use storage_appliance_archit.Cluster.Order.{nat_order}
use storage_appliance_archit.Cluster.Mediator.{
  NodeInfo, NodeRole, Mediator, primary, secondary, new_node, candidates_of, has_quorum,
  get_quorum_state,
}
use storage_appliance_archit.Cluster.Settled.{IsSettled}
use storage_appliance_archit.Cluster.Calls.{receive}
use storage_appliance_archit.Cluster.Failover.{
  FailoverController, FailoverEvent, normal, failed_over, manual_failover,
}
use storage_appliance_archit.Cluster.FailoverLog.{IsSafe}
use storage_appliance_archit.Cluster.FailoverRuns
use storage_appliance_archit.Cluster.FailoverRuns.{
  Act, check_over, check_back, switch_over, mediate, run_acts, FailedOver,
}

-- What the tests compute with.
program : Unit {0}
unfolding has_quorum get_quorum_state candidates_of lookup insert ℕ_discrete
program = tt

abbrev node : ℕ → NodeRole → Bool → NodeInfo ℕ
node k r up = record (new_node k r "url" 0) { is_healthy = up }

-- Node 1 is primary and down.
abbrev headless : Mediator ℕ
headless = record {
  own_id = 3;
  failure_threshold_ms = 5000;
  nodes = (2, node 2 secondary true) ∷ (1, node 1 primary false) ∷ (3, node 3 secondary true) ∷ [];
  current_primary = some 1;
  stats = record {
    heartbeats_sent = 0;
    heartbeats_received = 0;
    elections_held = 0;
    split_brains_prevented = 0;
  };
  pending = 0;
}

abbrev controller : FailoverController ℕ
controller = record {
  mediator = headless;
  auto_failback = true;
  state = normal;
  original_primary = none;
  history = [];
  stats = record {
    total_failovers = 0;
    successful_failovers = 0;
    failed_failovers = 0;
    total_failbacks = 0;
  };
}

headless-IsSettled : IsSettled headless
unfolding program
headless-IsSettled = record {
  is_dict = (refl, (refl, (refl, tt)));
  keyed = (refl, (refl, (refl, tt)));
  one = λ k n e p. ground arith;
}

abbrev acts : List (Act ℕ)
acts = check_over ∷ mediate (receive 1 70) ∷ check_back ∷ switch_over none ∷ []

run_acts-IsSafe_example : IsSafe (run_acts controller acts)
run_acts-IsSafe_example =
    FailoverRuns.run_acts-IsSafe controller acts (tt, tt)
      (record {
        at_rest = inl refl;
        sums = record { counted = refl; logged = refl; settled = headless-IsSettled };
      })

failover_and_back_example :
    ((run_acts controller (check_over ∷ [])).mediator.current_primary ≢ some 1)
    × (let h = run_acts controller (check_over ∷ mediate (receive 1 70) ∷ check_back ∷ []) in
        (h.mediator.current_primary ≡ some 1) × (h.state ≡ normal) × (h.original_primary ≡ none))
unfolding program
failover_and_back_example =
    FailoverRuns.failover_and_back controller 1 (node 1 primary false) 70 headless-IsSettled refl
      refl refl refl refl refl (λ e. cc)

manual_failover-unknown_example :
    (event : FailoverEvent ℕ) × (g : FailoverController ℕ) × (manual_failover (some 9) controller
      ≡ (ok event, g))
    × (event.new_primary ≡ some 9)
    × (g.state ≡ failed_over)
    × (g.mediator ≡ headless)
    × (g.stats.successful_failovers ≡ 0 + 1)
unfolding program
manual_failover-unknown_example = FailoverRuns.manual_failover-unknown controller 9 refl
