-- ===== src/Cluster/ActiveSafe.antt =====
-- activecluster/cluster.py: what the cluster reports of its mediator, and what a round of its
-- monitor does.
use storage_appliance_archit.Base.{
  ◌≤◌, ◌<◌, ◌≡◌, ◌≢◌, refl, ◌∙◌, ap, sym, subst, Option, none, some, [], ◌∷◌, Bool, true, false,
  not, ◌&&◌, ◌==◌, String, string_discrete, string_key, length, arith, Bool-cases, Option-cases,
  inl, inr,
}
use storage_appliance_archit.Base.Dict.{Dict, lookup}
use storage_appliance_archit.Cluster.Order.{Order}
use storage_appliance_archit.Cluster.Mediator.{
  Mediator, NodeInfo, has_quorum, get_quorum_state, healthy_nodes, candidates_of, elected,
}
use storage_appliance_archit.Cluster.Election.{Elected}
use storage_appliance_archit.Cluster.Settled.{IsSettled}
use storage_appliance_archit.Cluster.Failover.{
  FailoverController, normal, failed_over, check_and_failback, failback_to,
}
use storage_appliance_archit.Cluster.FailoverLog.{
  IsSafe, check_and_failover-IsSafe, check_and_failback-IsSafe,
}
use storage_appliance_archit.Cluster.FailoverRuns.{check_and_failover-FailedOver}
use storage_appliance_archit.Cluster.Active.{
  ActiveCluster, ClusterState, healthy, failed, state_of, update_state, monitor_round,
}

abbrev pub is_failed : ClusterState → Bool
is_failed failed = true
is_failed _ = false

abbrev pub is_healthy_state : ClusterState → Bool
is_healthy_state healthy = true
is_healthy_state _ = false

abbrev pub is_known : {A : Type 0} → Option A → Bool
is_known none = false
is_known (some _) = true

-- After `_update_state` the cluster is FAILED exactly where the mediator has no quorum, and HEALTHY
-- exactly where it has a quorum and a primary and all nodes are healthy.
pub update_state-reports :
    (c : ActiveCluster)
    → (is_failed (update_state c).state ≡ not (has_quorum c.failover.mediator))
      × (is_healthy_state (update_state c).state ≡ (
          has_quorum c.failover.mediator
          && (is_known c.failover.mediator.current_primary
              && (healthy_nodes c.failover.mediator.nodes == length c.failover.mediator.nodes))))
unfolding update_state state_of has_quorum get_quorum_state
update_state-reports c = elim (Option-cases c.failover.mediator.current_primary) [
  | inl e ↦ (ground arith, ground arith)
  | inr (k, e) ↦ (ground arith, ground arith)
]

healthy_nodes-le : {K : Type 0} (d : Dict K (NodeInfo K)) → healthy_nodes d ≤ length d
healthy_nodes-le [] = omega arith
healthy_nodes-le ((k, n) ∷ d) = let r = healthy_nodes-le d in ground arith

unhealthy-lt :
    (p : String) (n : NodeInfo String) (d : Dict String (NodeInfo String))
    → lookup p d ≡ some n
    → n.is_healthy ≡ false
    → healthy_nodes d < length d
unfolding lookup
unhealthy-lt p n [] e u = absurd (ground arith)
unhealthy-lt p n ((k, v) ∷ d) e u = elim (string_discrete p k) [
  | yes q ↦ let r = healthy_nodes-le d in ground arith
  | no q ↦ let r = unhealthy-lt p n d (ground arith) u in ground arith
]

not_healthy :
    (m : Mediator String)
    → healthy_nodes m.nodes < length m.nodes
    → is_healthy_state (state_of m) ≡ false
unfolding state_of
not_healthy m h = elim (Bool-cases (has_quorum m)) [
  | inl q ↦ elim (Option-cases m.current_primary) [
    | inl e ↦ ground arith
    | inr (k, e) ↦ ground arith
  ]
  | inr q ↦ ground arith
]

module _ ⦃order : Order String⦄ where
  -- A round of the monitor, whatever the state it starts in, leaves the failover controller in a
  -- state of rest with its counters and history in agreement and the mediator settled.
  pub monitor_round-IsSafe :
      (c : ActiveCluster) → IsSafe c.failover → IsSafe (monitor_round c).failover
  unfolding monitor_round update_state
  monitor_round-IsSafe c h =
      check_and_failback-IsSafe _ _ refl (check_and_failover-IsSafe _ c.failover refl h)

  stays :
      (g : FailoverController String) (p : String) (v : NodeInfo String)
      → g.state ≡ failed_over
      → g.original_primary ≡ some p
      → lookup p g.mediator.nodes ≡ some v
      → v.is_healthy ≡ false
      → (check_and_failback g).1 ≡ g
  unfolding check_and_failback failback_to
  stays g p v s o l u = ground arith

  -- When the mediator is settled, the controller in its normal state, the primary unhealthy, the
  -- cluster has a quorum and some node may lead, one round of the monitor makes the healthy node with
  -- the lowest id that may lead primary, does not fail back to the old one, and does not report the
  -- cluster as HEALTHY.
  pub monitor_round-FailedOver :
      (c : ActiveCluster) (p : String) (n : NodeInfo String)
      → IsSettled c.failover.mediator
      → c.failover.state ≡ normal
      → c.failover.mediator.current_primary ≡ some p
      → lookup p c.failover.mediator.nodes ≡ some n
      → n.is_healthy ≡ false
      → has_quorum c.failover.mediator ≡ true
      → candidates_of c.failover.mediator.nodes ≢ []
      → (w : String) × (w ≢ p)
        × Elected c.failover.mediator w (monitor_round c).failover.mediator
        × ((monitor_round c).failover.state ≡ failed_over)
        × (is_healthy_state (monitor_round c).state ≡ false)
  unfolding monitor_round update_state state_of
  monitor_round-FailedOver c p n s e l f u q cs =
      let (event, w, g, run, fo) = check_and_failover-FailedOver c.failover p n s e l f u q cs in
      let found = fo.elected.roles p in
      let there : lookup p g.mediator.nodes ≡ some (elected w n) = found ∙ rw f refl in
      let same = stays g p (elected w n) fo.now fo.original there u in
      let less = unhealthy-lt p (elected w n) g.mediator.nodes there u in
      let after = ap (λ o. (check_and_failback o.1).1) run ∙ same in
      (
        w,
        fo.another,
        subst (λ h. Elected c.failover.mediator w h.mediator) (sym after) fo.elected,
        subst (λ h. h.state ≡ failed_over) (sym after) fo.now,
        subst (λ h. is_healthy_state (state_of h.mediator) ≡ false) (sym after)
            (not_healthy g.mediator less),
      )
