-- ===== src/Tests/Pages.antt =====
-- The Prometheus page and the notices of the running server: witnesses.
use theminidog.Base.{
  ◌≡◌, ℕ, refl, false, Option, none, some, List, [], ◌∷◌, ◌++◌, String, Time, seconds, str_eq,
  is_blank, contains, ◌-ℤ◌, if◌then◌else◌, arith, ap, ◌∙◌, inl, inr, Bool-cases, str_eq_iff, codes,
  codes-append,
}
use theminidog.Storage.Metrics.{MetricSelect, Rows, rows, QueryPoint, hosts}
use theminidog.Alerting.Rules.{rule_key}
use theminidog.Alerting.Transitions.{replay}
use theminidog.Api.Query.{handle_query}
use theminidog.Api.Status.{handle_prometheus}
use theminidog.Api.Status.Samples.{page_sample, first, handle_prometheus-query}
use theminidog.Dashboard.Agreement.{points_in, metric_values}
use theminidog.Server.Start.{Server}
use theminidog.Server.Process.{Event, evaluator_tick, tracker_tick, run, launch}
use theminidog.Server.Dispatches.{dispatched_to, fires, IsOfRule}
use theminidog.Server.Notices.{run-dispatched}
use theminidog.Tests.Numbers.{numbers}
use theminidog.Tests.Alerts.{idle, busy, calm}
use theminidog.Tests.Running.{server}

abbrev one_point : MetricSelect → Rows (QueryPoint ℕ)
one_point s = rows (some (record { time = s.from; value = 7 }) ∷ []) false

abbrev two_hosts : Time → Rows String
two_hosts t = rows (some "web-1" ∷ some "db-1" ∷ []) false

abbrev parse : String → Option Time
parse s = if str_eq s "start" then some (seconds 880) else some (seconds 1000)

handle_prometheus-query_example :
    page_sample "cpu.usage_pct" "db-1" (handle_prometheus two_hosts one_point (seconds 1000)).body
    ≡ (if contains "db-1" ("web-1" ∷ "db-1" ∷ [])
        then first (
            points_in
              (handle_query one_point parse (metric_values "db-1" "start" "end" "cpu.usage_pct")))
        else none)
unfolding hosts ◌-ℤ◌ is_blank contains
handle_prometheus-query_example =
    handle_prometheus-query one_point (seconds 1000) two_hosts ("web-1" ∷ "db-1" ∷ []) parse "start"
      "end" "cpu.usage_pct" "db-1" refl refl refl refl refl

-- A host whose name is escaped on the page.
abbrev quoted_host : Time → Rows String
quoted_host t = rows (some "a\"\\b" ∷ []) false

abbrev watching : Server ℕ
watching = record server { evaluator = some idle }

abbrev history : List (Event ℕ)
history =
    evaluator_tick busy (seconds 1000)
    ∷ tracker_tick (seconds 1010)
    ∷ evaluator_tick calm (seconds 1030)
    ∷ []

last : List ℕ → ℕ
last [] = 0
last (x ∷ []) = x
last (x ∷ y ∷ ys) = last (y ∷ ys)

last-append : (xs : List ℕ) (y : ℕ) (ys : List ℕ) → last (xs ++ y ∷ ys) ≡ last (y ∷ ys)
unfolding last
last-append [] y ys = refl
last-append (x ∷ []) y ys = refl
last-append (x ∷ z ∷ xs) y ys = last-append (z ∷ xs) y ys

-- The keys of the reports of hosts end otherwise.
cpu_rule-IsOfRule : IsOfRule numbers "web-1/cpu.usage_pct/>/90"
unfolding rule_key last
cpu_rule-IsOfRule h =
    elim (Bool-cases (str_eq (rule_key numbers h "host.down" ">" 0) "web-1/cpu.usage_pct/>/90")) [
      | inr other ↦ other
      | inl same ↦
          let equal = ap (λ s. last (codes s)) ((str_eq_iff _ _).0 same) in
          let ends =
            ap last (codes-append h "/host.down/>/other")
            ∙ last-append (codes h) b'/' (codes "host.down/>/other") in
          absurd (ground (arith, equal, ends))
    ]

run-dispatched_example :
    replay false (
      dispatched_to numbers "http://hook" "web-1/cpu.usage_pct/>/90"
        (run numbers watching (launch watching) history).1)
    ≡ some (
        fires numbers "web-1/cpu.usage_pct/>/90"
          (run numbers watching (launch watching) history).0.evaluator)
unfolding contains
run-dispatched_example =
    run-dispatched numbers watching idle history "http://hook" "web-1/cpu.usage_pct/>/90" refl refl
      refl cpu_rule-IsOfRule
