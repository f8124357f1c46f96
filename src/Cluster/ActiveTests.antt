-- ===== src/Cluster/ActiveTests.antt =====
-- activecluster/cluster.py: a cluster of three nodes that loses its primary.
use storage_appliance_archit.Base.{
  ◌≡◌, ◌≢◌, refl, [], ◌∷◌, Bool, true, false, not, ◌&&◌, String, string_discrete, string_key, some,
  ◌==◌, length, leb, arith,
}
use Prim.Native.String.{len}
use storage_appliance_archit.Base.Dict.{lookup, insert}
use storage_appliance_archit.Cluster.Order.{Order, leb_total, leb_trans}
use storage_appliance_archit.Cluster.Mediator.{
  NodeInfo, NodeRole, primary, secondary, new_node, has_quorum, get_quorum_state, candidates_of,
  healthy_nodes,
}
use storage_appliance_archit.Cluster.Settled.{IsSettled}
use storage_appliance_archit.Cluster.Election.{Elected}
use storage_appliance_archit.Cluster.Failover.{failed_over}
use storage_appliance_archit.Cluster.Replication.{async}
use storage_appliance_archit.Cluster.Active.{
  ActiveCluster, new_cluster, initialize, update_state, monitor_round,
}
use storage_appliance_archit.Cluster.ActiveSafe
use storage_appliance_archit.Cluster.ActiveSafe.{is_failed, is_healthy_state, is_known}
use storage_appliance_archit.Cluster.ActiveStart
use storage_appliance_archit.Cluster.ActiveStart.{IsStarted}

-- Node ids are ordered by their bytes' count.
instance abbrev order : Order String
order = record {
  le = λ a b. leb (len a) (len b);
  le_total = λ a b. leb_total (len a) (len b);
  le_trans = λ a b c. leb_trans (len a) (len b) (len c);
}

-- What the tests compute with.
program : Unit {0}
unfolding lookup insert string_discrete has_quorum get_quorum_state candidates_of new_cluster
    update_state
program = tt

abbrev node : String → NodeRole → Bool → NodeInfo String
node k r up = record (new_node k r "url" 0) { is_healthy = up }

abbrev headless : ActiveCluster
headless =
    let c = new_cluster "ccc" "http://c" [] async 5000 in
    record c {
      failover = record c.failover {
        mediator = record c.failover.mediator {
          nodes =
              ("bb", node "bb" secondary true)
              ∷ ("a", node "a" primary false)
              ∷ ("ccc", node "ccc" secondary true)
              ∷ [];
          current_primary = some "a";
        };
      };
    }

headless-IsSettled : IsSettled headless.failover.mediator
unfolding program
headless-IsSettled = record {
  is_dict = (refl, (refl, (refl, tt)));
  keyed = (refl, (refl, (refl, tt)));
  one = λ k n e r. ground arith;
}

monitor_round-FailedOver_example :
    (w : String) × (w ≢ "a")
    × Elected headless.failover.mediator w (monitor_round headless).failover.mediator
    × ((monitor_round headless).failover.state ≡ failed_over)
    × (is_healthy_state (monitor_round headless).state ≡ false)
unfolding program
monitor_round-FailedOver_example =
    ActiveSafe.monitor_round-FailedOver headless "a" (node "a" primary false) headless-IsSettled
      refl refl refl refl refl (λ e. cc)

update_state-reports_example :
    (is_failed (update_state headless).state ≡ not (has_quorum headless.failover.mediator))
    × (is_healthy_state (update_state headless).state ≡ (
        has_quorum headless.failover.mediator
        && (is_known headless.failover.mediator.current_primary
            && (healthy_nodes headless.failover.mediator.nodes
                == length headless.failover.mediator.nodes))))
update_state-reports_example = ActiveSafe.update_state-reports headless

initialize-IsStarted_example :
    IsStarted
      (λ url. url)
      ("http://b" ∷ "http://c" ∷ [])
      (initialize
        (λ url. url)
        primary
        7
        (new_cluster "a" "http://a" ("http://b" ∷ "http://c" ∷ []) async 5000))
initialize-IsStarted_example =
    ActiveStart.initialize-IsStarted (λ url. url) 7 "a" "http://a" ("http://b" ∷ "http://c" ∷ [])
      async 5000
