-- ===== src/Alerting/Evaluator.antt =====
-- internal/server/alerting/alerting.go: the evaluator. The clock and the answers of the metric
-- store are arguments of an evaluation; an evaluation returns the new state and the events that
-- `notifyAll` is called with, in order. The logger is left out.
use theminidog.Base.{
  Bool, true, false, not, ◌&&◌, ◌||◌, Option, none, some, List, [], ◌∷◌, ◌++◌, String, Time,
  Duration, Map, lookup, insert, str_eq, ◌-ℤ◌, pos, if◌then◌else◌, length, Floats, seconds,
}
use theminidog.Storage.Metrics.{QueryParams, QueryPoint}
use theminidog.Alerting.Rules.{Rule, rule_key}

pub data AlertState : Type 0 where
  firing ok : AlertState

-- The field `Event` of a notification: "firing" or "resolved".
pub data EventName : Type 0 where
  fired resolved : EventName

pub record Alert (F : Type 0) : Type 0 where
  pub rule : Rule F
  pub state : AlertState
  pub updated_at : Time
  pub value : F

pub record NotificationEvent (F : Type 0) : Type 0 where
  pub event : EventName
  pub rule : Rule F
  pub value : F
  pub fired_at : Time

-- A webhook notifier is its URL.
pub record Evaluator (F : Type 0) : Type 0 where
  pub rules : List (Rule F)
  pub state : Map (Alert F)
  pub notifiers : List String

-- `MetricQuerier`: the answers of the store during one evaluation, `none` for an error.
pub record MetricQuerier (F : Type 0) : Type 0 where
  pub query : QueryParams → Option (List (QueryPoint F))
  pub hosts : Duration → Option (List String)

unfoldable pub new_evaluator : {F : Type 0} → List (Rule F) → List String → Evaluator F
new_evaluator rules notifiers = record { rules = rules; state = []; notifiers = notifiers }

-- `ActiveAlerts`, in the order of the map; a nil evaluator has none.
values : {F : Type 0} → Map (Alert F) → List (Alert F)
values [] = []
values ((k, a) ∷ m) = a ∷ values m

unfoldable pub active_alerts : {F : Type 0} → Option (Evaluator F) → List (Alert F)
unfolding values
active_alerts none = []
active_alerts (some e) = values e.state

unfoldable pub hosts_for : {F : Type 0} → MetricQuerier F → Rule F → List String
hosts_for repo rule =
    if not (str_eq rule.host "*")
    then rule.host ∷ []
    else elim (repo.hosts (seconds 1800)) [ none ↦ [] | some hosts ↦ hosts ]

-- The dispatch of one event: a goroutine for each notifier.
unfoldable pub notify_all :
    {F : Type 0} → List String → NotificationEvent F → List (String × NotificationEvent F)
notify_all [] ev = []
notify_all (n ∷ ns) ev = (n, ev) ∷ notify_all ns ev

same_state : AlertState → AlertState → Bool
same_state firing firing = true
same_state ok ok = true
same_state _ _ = false

unfoldable pub was_firing : {F : Type 0} → Option (Alert F) → Bool
unfolding same_state
was_firing none = false
was_firing (some prev) = same_state prev.state firing

-- `!existed || prev.State != newState`
changed : {F : Type 0} → Option (Alert F) → AlertState → Bool
changed none new = true
changed (some prev) new = not (same_state prev.state new)

-- The notification of a state that was `prev` and is `new`, if any.
unfoldable pub transition : {F : Type 0} → Option (Alert F) → AlertState → Option EventName
unfolding changed was_firing same_state
transition prev new =
    if changed prev new
    then elim new [ firing ↦ some fired | ok ↦ if was_firing prev then some resolved else none ]
    else none

module _ (fl : Floats) where
  open fl use {F, add, div, of_int, lt}

  sum_from : F → List (QueryPoint F) → F
  sum_from acc [] = acc
  sum_from acc (p ∷ ps) = sum_from (add acc p.value) ps

  unfoldable pub mean : List (QueryPoint F) → F
  unfolding sum_from
  mean points = div (sum_from (of_int (pos 0)) points) (of_int (pos (length points)))

  unfoldable pub state_for : Rule F → F → AlertState
  state_for rule m =
      if (str_eq rule.op ">" && lt rule.threshold m) || (str_eq rule.op "<" && lt m rule.threshold)
      then firing
      else ok

  unfoldable pub params_for : Time → Rule F → String → QueryParams
  params_for now rule host = record {
    host = host;
    name = rule.name;
    from = now -ℤ rule.for;
    to = now;
    bucket = "1m";
    agg = "avg";
  }

  unfoldable pub event_list : Option EventName → Rule F → F → Time → List (NotificationEvent F)
  event_list none rule m now = []
  event_list (some name) rule m now =
      record { event = name; rule = rule; value = m; fired_at = now } ∷ []

  -- The state and the notification for a mean.
  unfoldable pub update :
      Time → Rule F → String → F → Evaluator F → Evaluator F × List (NotificationEvent F)
  unfolding event_list
  update now rule host m e =
      let key = rule_key fl host rule.name rule.op rule.threshold in
      let resolved_rule : Rule F = record rule { host = host } in
      let new = state_for rule m in
      (
        record e {
          state =
              insert key (record { rule = resolved_rule; state = new; updated_at = now; value = m })
                e.state;
        },
        event_list (transition (lookup key e.state) new) resolved_rule m now,
      )

  -- The answer of the store: an error and no data leave the state alone.
  unfoldable pub on_points :
      Time
      → Rule F
      → String
      → Option (List (QueryPoint F))
      → Evaluator F
      → Evaluator F × List (NotificationEvent F)
  on_points now rule host none e = (e, [])
  on_points now rule host (some []) e = (e, [])
  on_points now rule host (some (p ∷ ps)) e = update now rule host (mean (p ∷ ps)) e

  module _ (repo : MetricQuerier F) (now : Time) where
    unfoldable pub evaluate_hosts :
        Rule F → List String → Evaluator F → Evaluator F × List (NotificationEvent F)
    evaluate_hosts rule [] e = (e, [])
    evaluate_hosts rule (host ∷ hosts) e =
        let r = on_points now rule host (repo.query (params_for now rule host)) e in
        let rest = evaluate_hosts rule hosts r.0 in (rest.0, r.1 ++ rest.1)

    unfoldable pub evaluate_rules :
        List (Rule F) → Evaluator F → Evaluator F × List (NotificationEvent F)
    evaluate_rules [] e = (e, [])
    evaluate_rules (rule ∷ rules) e =
        let r = evaluate_hosts rule (hosts_for repo rule) e in
        let rest = evaluate_rules rules r.0 in (rest.0, r.1 ++ rest.1)

    unfoldable pub evaluate : Evaluator F → Evaluator F × List (NotificationEvent F)
    evaluate e = evaluate_rules e.rules e

-- `NotifyHostDown`: the synthetic event for a host; a nil evaluator sends none.
unfoldable pub notify_host_down :
    (fl : Floats) → Time → String → Option (Evaluator fl.F) → List (NotificationEvent fl.F)
notify_host_down fl now host none = []
notify_host_down fl now host (some e) =
    record {
      event = fired;
      rule = record {
        host = host;
        name = "host.down";
        op = ">";
        threshold = fl.of_int (pos 0);
        for = pos 0;
      };
      value = fl.of_int (pos 0);
      fired_at = now;
    }
    ∷ []
