-- ===== src/Alerting/Transitions.antt =====
-- Notifications against the state of the alerts.
use theminidog.Base.{
  ◌≡◌, refl, Bool, true, false, Option, none, some, List, [], ◌∷◌, ◌++◌, String, Time, lookup,
  lookup-insert, str_eq, str_eq_iff, if◌then◌else◌, Floats, arith, ◌∙◌,
}
use theminidog.Storage.Metrics.{QueryPoint}
use theminidog.Alerting.Rules.{Rule, rule_key}
use theminidog.Alerting.Evaluator.{
  EventName, fired, resolved, NotificationEvent, Evaluator, MetricQuerier, hosts_for, transition,
  was_firing, mean, state_for, params_for, update, on_points, evaluate_hosts, evaluate_rules,
  evaluate,
}

-- What a receiver makes of the events of one alert: whether it is firing, or `none` where an alert
-- fires twice in a row, or is resolved without firing.
unfoldable pub replay : Bool → List EventName → Option Bool
replay b [] = some b
replay false (fired ∷ es) = replay true es
replay true (resolved ∷ es) = replay false es
replay _ _ = none

pub replay-append :
    (b : Bool) (xs ys : List EventName) {c : Bool}
    → replay b xs ≡ some c
    → replay b (xs ++ ys) ≡ replay c ys
unfolding replay
replay-append b [] ys h = ground arith
replay-append false (fired ∷ es) ys h = replay-append true es ys h
replay-append true (resolved ∷ es) ys h = replay-append false es ys h
replay-append true (fired ∷ es) ys h = cc
replay-append false (resolved ∷ es) ys h = cc

-- The recorded state of an alert.
abbrev pub is_firing : {F : Type 0} → String → Evaluator F → Bool
unfolding was_firing
is_firing k e = was_firing (lookup k e.state)

module _ (fl : Floats) where
  open fl use {F}

  abbrev pub event_key : NotificationEvent F → String
  event_key ev = rule_key fl ev.rule.host ev.rule.name ev.rule.op ev.rule.threshold

  -- The events whose rule has a key.
  unfoldable pub events_of : String → List (NotificationEvent F) → List EventName
  events_of k [] = []
  events_of k (ev ∷ evs) =
      if str_eq (event_key ev) k then ev.event ∷ events_of k evs else events_of k evs

  events_of-append :
      (k : String) (xs ys : List (NotificationEvent F))
      → events_of k (xs ++ ys) ≡ events_of k xs ++ events_of k ys
  unfolding events_of
  events_of-append k [] ys = refl
  events_of-append k (ev ∷ evs) ys = ground (arith, events_of-append k evs ys)

  update-replay :
      (now : Time) (rule : Rule F) (host : String) (m : F) (e : Evaluator F) (k : String)
      → replay (is_firing k e) (events_of k (update fl now rule host m e).1)
        ≡ some (is_firing k (update fl now rule host m e).0)
  unfolding replay events_of update transition was_firing
  update-replay now rule host m e k =
      let key = rule_key fl host rule.name rule.op rule.threshold in
      ground (
        arith,
        str_eq_iff key k,
        lookup-insert key k
            (record {
              rule = record rule { host = host };
              state = state_for fl rule m;
              updated_at = now;
              value = m;
            })
            e.state,
      )

  on_points-replay :
      (now : Time) (rule : Rule F) (host : String) (points : Option (List (QueryPoint F)))
      (e : Evaluator F) (k : String)
      → replay (is_firing k e) (events_of k (on_points fl now rule host points e).1)
        ≡ some (is_firing k (on_points fl now rule host points e).0)
  unfolding on_points replay events_of
  on_points-replay now rule host none e k = ground arith
  on_points-replay now rule host (some []) e k = ground arith
  on_points-replay now rule host (some (p ∷ ps)) e k =
      update-replay now rule host (mean fl (p ∷ ps)) e k

  module _ (repo : MetricQuerier F) (now : Time) (k : String) where
    evaluate_hosts-replay :
        (rule : Rule F) (hosts : List String) (e : Evaluator F)
        → replay (is_firing k e) (events_of k (evaluate_hosts fl repo now rule hosts e).1)
          ≡ some (is_firing k (evaluate_hosts fl repo now rule hosts e).0)
    unfolding evaluate_hosts
    evaluate_hosts-replay rule [] e = unfold replay events_of in ground arith
    evaluate_hosts-replay rule (host ∷ hosts) e =
        let r = on_points fl now rule host (repo.query (params_for fl now rule host)) e in
        let rest = evaluate_hosts fl repo now rule hosts r.0 in
        rw (events_of-append k r.1 rest.1) (
          replay-append (is_firing k e) (events_of k r.1) (events_of k rest.1)
            (on_points-replay now rule host _ e k)
          ∙ evaluate_hosts-replay rule hosts r.0)

    evaluate_rules-replay :
        (rules : List (Rule F)) (e : Evaluator F)
        → replay (is_firing k e) (events_of k (evaluate_rules fl repo now rules e).1)
          ≡ some (is_firing k (evaluate_rules fl repo now rules e).0)
    unfolding evaluate_rules
    evaluate_rules-replay [] e = unfold replay events_of in ground arith
    evaluate_rules-replay (rule ∷ rules) e =
        let r = evaluate_hosts fl repo now rule (hosts_for repo rule) e in
        let rest = evaluate_rules fl repo now rules r.0 in
        rw (events_of-append k r.1 rest.1) (
          replay-append (is_firing k e) (events_of k r.1) (events_of k rest.1)
            (evaluate_hosts-replay rule (hosts_for repo rule) e)
          ∙ evaluate_rules-replay rules r.0)

  -- The evaluations of a history, each with its answers of the store and its time.
  unfoldable pub run :
      List (MetricQuerier F × Time) → Evaluator F → Evaluator F × List (NotificationEvent F)
  run [] e = (e, [])
  run ((repo, now) ∷ ticks) e =
      let r = evaluate fl repo now e in let rest = run ticks r.0 in (rest.0, r.1 ++ rest.1)

  -- Over any history of evaluations, whatever the rules, the answers and the times: the events of
  -- an alert alternate between firing and resolved, and a receiver that replays them from the
  -- recorded state at the start is at the end in the recorded state.
  pub run-replay :
      (ticks : List (MetricQuerier F × Time)) (e : Evaluator F) (k : String)
      → replay (is_firing k e) (events_of k (run ticks e).1) ≡ some (is_firing k (run ticks e).0)
  unfolding run evaluate
  run-replay [] e k = unfold replay events_of in ground arith
  run-replay ((repo, now) ∷ ticks) e k =
      let r = evaluate fl repo now e in
      let rest = run ticks r.0 in
      rw (events_of-append k r.1 rest.1) (
        replay-append (is_firing k e) (events_of k r.1) (events_of k rest.1)
          (evaluate_rules-replay repo now k e.rules e)
        ∙ run-replay ticks r.0 k)
