-- ===== src/Cluster/Failover.antt =====
-- activecluster/failover.py. The controller keeps the mediator that it steers. The callbacks are
-- not set, no id is the empty string, and the times of an event are left out.
use storage_appliance_archit.Base.{
  ℕ, ◌+◌, Option, none, some, List, [], ◌∷◌, ◌++◌, Bool, if◌then◌else◌, Exec, ok, modify, pure,
  gets, ◌>>=◌, ◌>>◌, Key,
}
use storage_appliance_archit.Base.Dict.{lookup}
use storage_appliance_archit.Cluster.Order.{Order}
use storage_appliance_archit.Cluster.Mediator.{Mediator, set_primary, initiate_election}

pub data FailoverState : Type 0 where
  normal failing_over failed_over failing_back : FailoverState

pub data FailoverReason : Type 0 where
  node_failure manual network_partition maintenance : FailoverReason

pub record FailoverEvent (K : Type 0) : Type 0 where
  pub old_primary : Option K
  pub new_primary : Option K
  pub reason : FailoverReason
  pub state : FailoverState

pub record FailoverStats : Type 0 where
  pub total_failovers : ℕ
  pub successful_failovers : ℕ
  pub failed_failovers : ℕ
  pub total_failbacks : ℕ

pub record FailoverController (K : Type 0) : Type 0 where
  pub mediator : Mediator K
  pub auto_failback : Bool
  pub state : FailoverState
  pub original_primary : Option K
  pub history : List (FailoverEvent K)
  pub stats : FailoverStats

module _ {K : Type 0} where
  -- A call of the mediator's.
  abbrev pub on_mediator : {A : Type 0} → Exec (Mediator K) A → Exec (FailoverController K) A
  on_mediator call f = let (r, m) = call f.mediator in (r, record f { mediator = m })

  abbrev pub begin_failover : Option K → FailoverController K → FailoverController K
  begin_failover old f = record f { state = failing_over; original_primary = old }

  -- `if new_primary: ... else: ...`
  abbrev pub settle : Option K → FailoverController K → FailoverController K
  settle none f = record f {
    stats = record f.stats { failed_failovers = f.stats.failed_failovers + 1 };
    state = normal;
  }
  settle (some _) f = record f {
    stats = record f.stats { successful_failovers = f.stats.successful_failovers + 1 };
    state = failed_over;
  }

  abbrev pub event_of :
      Option K → Option K → FailoverReason → FailoverController K → FailoverEvent K
  event_of old new why f = record {
    old_primary = old;
    new_primary = new;
    reason = why;
    state = f.state;
  }

  -- `self._history.append(event); self._stats.total_failovers += 1`
  abbrev pub log_failover : FailoverEvent K → FailoverController K → FailoverController K
  log_failover event f = record f {
    history = f.history ++ (event ∷ []);
    stats = record f.stats { total_failovers = f.stats.total_failovers + 1 };
  }

  -- The failover once the new primary is known.
  unfoldable pub finish_failover :
      Option K → FailoverReason → Option K → Exec (FailoverController K) (FailoverEvent K)
  finish_failover old why new = do
    modify (settle new)
    event ← gets (event_of old new why)
    modify (log_failover event)
    pure event

module _ {K : Type 0} ⦃key : Key K⦄ where
  -- `nodes[k]["is_healthy"]`, where the node is a member.
  abbrev pub healthy_member : K → FailoverController K → Option Bool
  healthy_member k f = elim (lookup k f.mediator.nodes) [ none ↦ none | some n ↦ some n.is_healthy ]

  abbrev pub log_failback : FailoverEvent K → FailoverController K → FailoverController K
  log_failback event f = record f { history = f.history ++ (event ∷ []); original_primary = none }

  abbrev pub count_failback : FailoverController K → FailoverController K
  count_failback f = record f {
    stats = record f.stats { total_failbacks = f.stats.total_failbacks + 1 };
    state = normal;
  }

  -- `_execute_failback`, for the original primary `k`.
  unfoldable pub execute_failback : K → Exec (FailoverController K) (Option (FailoverEvent K))
  unfolding set_primary
  execute_failback k = do
    modify (λ f. record f { state = failing_back })
    current ← gets (λ f. f.mediator.current_primary)
    on_mediator (set_primary k)
    modify count_failback
    event ← gets (event_of current (some k) manual)
    modify (log_failback event)
    pure (some event)

  -- What `check_and_failback` does for the original primary `k`.
  unfoldable pub failback_to : K → Exec (FailoverController K) (Option (FailoverEvent K))
  unfolding execute_failback
  failback_to k f = elim (healthy_member k f) [
    | none ↦ (ok none, f)
    | some up ↦ (if up then execute_failback k else pure none) f
  ]

  unfoldable pub check_and_failback : Exec (FailoverController K) (Option (FailoverEvent K))
  unfolding failback_to
  check_and_failback f =
      if f.auto_failback
      then elim f.state [
        | failed_over ↦ elim f.original_primary [ none ↦ (ok none, f) | some k ↦ failback_to k f ]
        | _ ↦ (ok none, f)
      ]
      else (ok none, f)

  unfoldable pub manual_failback : Exec (FailoverController K) (Option (FailoverEvent K))
  unfolding execute_failback
  manual_failback f = elim f.state [
    | failed_over ↦ elim f.original_primary [ none ↦ (ok none, f) | some k ↦ execute_failback k f ]
    | _ ↦ (ok none, f)
  ]

module _ {K : Type 0} ⦃key : Key K⦄ ⦃order : Order K⦄ where
  -- `if not new_primary: new_primary = await self.mediator.initiate_election()`
  abbrev pub or_elected : Option K → Exec (FailoverController K) (Option K)
  or_elected none = on_mediator initiate_election
  or_elected (some k) = pure (some k)

  -- `_execute_failover`
  unfoldable pub execute_failover :
      Option K → FailoverReason → Option K → Exec (FailoverController K) (FailoverEvent K)
  unfolding finish_failover
  execute_failover old why new = do
    modify (begin_failover old)
    found ← or_elected new
    finish_failover old why found

  abbrev pub some_event :
      Exec (FailoverController K) (FailoverEvent K)
      → Exec (FailoverController K) (Option (FailoverEvent K))
  some_event call = do event ← call; pure (some event)

  -- What `check_and_failover` does for the current primary `k`.
  unfoldable pub failover_from : K → Exec (FailoverController K) (Option (FailoverEvent K))
  unfolding execute_failover
  failover_from k f = elim (healthy_member k f) [
    | none ↦ (ok none, f)
    | some up ↦
        (if up then pure none else some_event (execute_failover (some k) node_failure none)) f
  ]

  unfoldable pub check_and_failover : Exec (FailoverController K) (Option (FailoverEvent K))
  unfolding failover_from
  check_and_failover f = elim f.state [
    | normal ↦ elim f.mediator.current_primary [ none ↦ (ok none, f) | some k ↦ failover_from k f ]
    | _ ↦ (ok none, f)
  ]

  -- The new primary of `manual_failover`: the target, whether the mediator knows it or not.
  unfoldable pub choose_primary : Option K → Exec (FailoverController K) (Option K)
  unfolding set_primary initiate_election
  choose_primary none = on_mediator initiate_election
  choose_primary (some k) = on_mediator (set_primary k) >> pure (some k)

  unfoldable pub manual_failover : Option K → Exec (FailoverController K) (FailoverEvent K)
  unfolding choose_primary execute_failover
  manual_failover target = do
    current ← gets (λ f. f.mediator.current_primary)
    new ← choose_primary target
    execute_failover current manual new
