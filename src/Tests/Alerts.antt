-- ===== src/Tests/Alerts.antt =====
-- internal/server/alerting: witnesses and tests.
use theminidog.Base.{
  ℕ, ◌≡◌, ◌≢◌, refl, ◌≤◌, false, Option, none, some, List, [], ◌∷◌, String, Duration, seconds,
  lookup, insert, length, All, arith, str_eq, str_eq_iff, if◌then◌else◌, ◌-ℤ◌, eqb_ℤ,
}
use theminidog.Storage.Metrics.{QueryPoint}
use theminidog.Alerting.Rules.{Rule, RuleJson, bad_json, bad_op, parse_rules, parse_rule, rule_key}
use theminidog.Base.{ok, err}
use theminidog.Alerting.Parsing.{IsAcceptable, Parsed, parse_rules_iff}
use theminidog.Alerting.Evaluator.{
  fired, resolved, Evaluator, MetricQuerier, evaluate, evaluate_rules, evaluate_hosts, hosts_for,
  on_points, update, transition, mean, state_for, params_for, was_firing,
}
use theminidog.Alerting.Transitions.{replay, events_of, run}
use theminidog.Alerting.Collision.{key_at, outcome, Elsewhere, evaluate_decides}
use theminidog.Alerting.Flapping.{of_key, evaluate_flaps}
use theminidog.Tests.Numbers.{numbers}

alerting_code : Unit {0}
unfolding parse_rules parse_rule rule_key evaluate evaluate_rules evaluate_hosts hosts_for on_points
    update transition mean state_for params_for was_firing replay events_of run lookup insert ◌-ℤ◌
alerting_code = tt

abbrev cpu_rule : Rule ℕ
cpu_rule = record {
  host = "web-1";
  name = "cpu.usage_pct";
  op = ">";
  threshold = 90;
  for = seconds 300;
}

abbrev point : ℕ → QueryPoint ℕ
point v = record { time = seconds 0; value = v }

-- The mean over five minutes is 95, over a longer window 50.
abbrev pub busy : MetricQuerier ℕ
busy = record {
  query = λ p.
      if eqb_ℤ p.from (seconds 700) then some (point 90 ∷ point 100 ∷ []) else some (point 50 ∷ []);
  hosts = λ w. some ("web-1" ∷ []);
}

abbrev pub calm : MetricQuerier ℕ
calm = record { query = λ p. some (point 10 ∷ []); hosts = λ w. none }

abbrev pub idle : Evaluator ℕ
idle = record { rules = cpu_rule ∷ []; state = []; notifiers = "http://hook" ∷ [] }

-- Firing once, silent while it lasts, resolved once.
events_test :
    events_of numbers "web-1/cpu.usage_pct/>/90"
      (run numbers
        ((busy, seconds 1000)
          ∷ (busy, seconds 1000)
          ∷ (calm, seconds 1030)
          ∷ (calm, seconds 1060)
          ∷ [])
        idle).1
    ≡ fired ∷ resolved ∷ []
unfolding alerting_code
events_test = refl

web_1_named : ◌≢◌ {A = String} "web-1" "*"
web_1_named = ground (arith, str_eq_iff "web-1" "*")

evaluate_decides_example :
    lookup (key_at numbers cpu_rule "web-1") (evaluate numbers busy (seconds 1000) idle).0.state
    ≡ some
        (outcome numbers (seconds 1000) cpu_rule "web-1" (mean numbers (point 90 ∷ point 100 ∷ [])))
unfolding params_for ◌-ℤ◌
evaluate_decides_example =
    evaluate_decides numbers busy (seconds 1000) idle [] [] cpu_rule (point 90) (point 100 ∷ [])
      refl web_1_named refl tt

abbrev slow_rule : Rule ℕ
slow_rule = record cpu_rule { for = seconds 900 }

abbrev mem_rule : Rule ℕ
mem_rule = record cpu_rule { name = "mem.used_pct" }

-- Another rule stands before the two, between them and behind them.
abbrev flapping : Evaluator ℕ
flapping = record idle { rules = mem_rule ∷ cpu_rule ∷ mem_rule ∷ slow_rule ∷ mem_rule ∷ [] }

mem_rule-Elsewhere :
    All (Elsewhere numbers busy (seconds 1000) (key_at numbers cpu_rule "web-1")) (mem_rule ∷ [])
unfolding hosts_for rule_key
mem_rule-Elsewhere =
    ((ground (arith, str_eq_iff "web-1/mem.used_pct/>/90" "web-1/cpu.usage_pct/>/90"), tt), tt)

evaluate_flaps_example :
    (of_key numbers
        (key_at numbers cpu_rule "web-1")
        (evaluate numbers busy (seconds 1000) flapping).1
      ≡ record {
        event = fired;
        rule = cpu_rule;
        value = mean numbers (point 90 ∷ point 100 ∷ []);
        fired_at = seconds 1000;
      }
        ∷ record {
          event = resolved;
          rule = slow_rule;
          value = mean numbers (point 50 ∷ []);
          fired_at = seconds 1000;
        }
        ∷ [])
    × (was_firing (
          lookup
            (key_at numbers cpu_rule "web-1")
            (evaluate numbers busy (seconds 1000) flapping).0.state)
        ≡ false)
unfolding alerting_code
evaluate_flaps_example =
    evaluate_flaps numbers busy (seconds 1000) flapping (mem_rule ∷ []) (mem_rule ∷ [])
      (mem_rule ∷ []) cpu_rule (seconds 900) (point 90) (point 50) (point 100 ∷ []) [] refl
      mem_rule-Elsewhere mem_rule-Elsewhere mem_rule-Elsewhere web_1_named refl refl refl refl refl

abbrev configured : RuleJson ℕ
configured = record { host = "*"; name = "mem.used_pct"; op = "<"; threshold = 5; for = "5m" }

abbrev parse_minutes : String → Option Duration
parse_minutes s = if str_eq s "5m" then some (seconds 300) else none

abbrev unmarshal : String → Option (List (RuleJson ℕ))
unmarshal s =
    if str_eq s "good"
    then some (configured ∷ [])
    else if str_eq s "bad"
    then some (record configured { op = "=" } ∷ [])
    else none

parsing_tests :
    (parse_rules ℕ parse_minutes unmarshal "bad" ≡ err (bad_op 0 "="))
    × (parse_rules ℕ parse_minutes unmarshal "" ≡ ok [])
    × (parse_rules ℕ parse_minutes unmarshal "?" ≡ err bad_json)
unfolding alerting_code
parsing_tests = (refl, refl, refl)

parse_rules_iff_example :
    ((rs : List (Rule ℕ))
      → parse_rules ℕ parse_minutes unmarshal "good" ≡ ok rs
      → (rjs : List (RuleJson ℕ)) × (unmarshal "good" ≡ some rjs)
        × (length rjs ≤ 20)
        × All (IsAcceptable ℕ parse_minutes) rjs
        × Parsed ℕ parse_minutes rjs rs)
    × ((rjs : List (RuleJson ℕ))
        → unmarshal "good" ≡ some rjs
        → length rjs ≤ 20
        → All (IsAcceptable ℕ parse_minutes) rjs
        → (rs : List (Rule ℕ)) × (parse_rules ℕ parse_minutes unmarshal "good" ≡ ok rs))
parse_rules_iff_example = parse_rules_iff ℕ parse_minutes unmarshal "good" named
  where
    named : ◌≢◌ {A = String} "good" ""
    named = ground (arith, str_eq_iff "good" "")
