-- ===== src/Tests/Agents.antt =====
-- internal/agent: witnesses and tests.
use theminidog.Base.{
  false, ℕ, zero, suc, ◌-◌, ◌+◌, ◌≤◌, ◌<◌, ◌≡◌, refl, true, Option, none, some, List, [], ◌∷◌,
  String, Duration, pos, seconds, arith, str_eq, if◌then◌else◌, insert, lookup, contains, is_blank,
  All, subst, Floats, min, ◌^◌, ◌*◌, ◌/◌, pos_part,
}
use theminidog.Model.Metric.{Metric, MetricBatch}
use theminidog.Agent.Backoff.{wait_for, log_wait_for, backoff, BackoffConfig, config}
use theminidog.Agent.Sending.{
  Reply, no_reply, status, delivered, final, IsRetried, HttpSender, send, send_logs, send_decided,
}
use theminidog.Agent.Loops.{
  Agent, new_agent, on_tick, sender_turn, cancel, close, Steps, ticked, stopped, closed, turned,
  start, then_step,
}
use theminidog.Agent.Loops.Order.{collected, results, IsCapacity, IsOrdered, run-IsOrdered}
use theminidog.Agent.Loops.End.{IsDrained, turns-IsDrained}
use theminidog.Agent.Network.{
  delta, delta_lem, two_64, two_63, Counters, NetworkCollector, is_collected, collect_network,
}
use theminidog.Agent.Collectors.{Usage}
use mathlib.Core.Option.{some-injective}
use theminidog.Agent.Accepted.{IsFinite, IsNamed}
use theminidog.Agent.Tick.{Readings, IsSane, collect_tick, collect_tick-accepted}
use theminidog.Model.Metric.{validate_batch}
use theminidog.Tests.Numbers.{numbers}

agent_code : Unit {0}
unfolding wait_for log_wait_for backoff final send send_logs new_agent on_tick delta collect_network
agent_code = tt

-- With numbers for float64 the jitter is 0 and the waits are 1, 2, 4, … seconds.
abbrev sender : HttpSender numbers
sender = record {
  url = "http://server/api/v1/metrics";
  token = "";
  backoff = record { base = seconds 1; max = seconds 60; jitter = 0 };
  rand = λ i. 0;
  sleep = λ i d. true;
}

abbrev flaky : ℕ → Reply
flaky zero = no_reply
flaky (suc zero) = status 503
flaky (suc (suc i)) = status 202

wait_test :
    (wait_for numbers 4 sender.backoff 0 ≡ seconds 8)
    × (wait_for numbers 9 sender.backoff 0 ≡ seconds 60)
unfolding wait_for
wait_test = (refl, refl)

retried : (wait : ℕ → Duration) (j : ℕ) → j < 2 → IsRetried wait sender.sleep flaky j
unfolding final
retried wait zero h = record { slept = refl; again = refl }
retried wait (suc zero) h = record { slept = refl; again = refl }
retried wait (suc (suc j)) h = absurd (omega arith)

accepted : final (flaky 2) ≡ some delivered
unfolding final
accepted = refl

send_decided_example : send numbers sender true true flaky 5 ≡ (delivered, 2)
send_decided_example =
    send_decided numbers sender flaky 2 5 delivered
      (retried (λ i. wait_for numbers i sender.backoff 0)) refl accepted (omega arith)

abbrev one_metric : List (Metric ℕ)
one_metric =
    record { time = seconds 5; host = "web-1"; name = "cpu.usage_pct"; value = 40; labels = [] }
    ∷ []

abbrev fresh : Agent ℕ
fresh = record {
  host = "web-1";
  size = 1;
  batches = [];
  cancelled = false;
  is_open = true;
  sending = true;
  in_flight = none;
}

abbrev a_batch : MetricBatch ℕ
a_batch = record { host = "web-1"; metrics = one_metric }

abbrev filled : Agent ℕ
filled = record fresh { batches = a_batch ∷ [] }

abbrev in_hand : Agent ℕ
in_hand = record fresh { in_flight = some a_batch }

abbrev stopping : Agent ℕ
stopping = record filled { in_flight = some a_batch; cancelled = true }

-- The second batch finds the channel full; the third comes after the first was received.
three_ticks : Steps ℕ (new_agent ℕ "web-1" (pos 1)) (close ℕ stopping)
unfolding new_agent on_tick sender_turn cancel close
three_ticks =
    let first = then_step fresh fresh filled (start fresh) (ticked fresh one_metric refl) in
    let second = then_step fresh filled filled first (ticked filled one_metric refl) in
    let taken = then_step fresh filled in_hand second (turned filled false) in
    let third =
      then_step fresh in_hand (record filled { in_flight = some a_batch }) taken
        (ticked in_hand one_metric refl) in
    then_step fresh stopping (close ℕ stopping)
      (then_step fresh (record filled { in_flight = some a_batch }) stopping third
        (stopped (record filled { in_flight = some a_batch })))
      (closed stopping refl)

run-IsOrdered_example :
    (cap : ℕ) × IsCapacity (pos 1) cap
    × IsOrdered ℕ cap (collected ℕ three_ticks) (results ℕ three_ticks) (close ℕ stopping)
run-IsOrdered_example = run-IsOrdered ℕ "web-1" (pos 1) three_ticks

turns-IsDrained_example : IsDrained ℕ (false ∷ true ∷ false ∷ true ∷ []) (close ℕ stopping)
unfolding close
turns-IsDrained_example =
    turns-IsDrained ℕ (false ∷ true ∷ false ∷ true ∷ []) (close ℕ stopping) refl refl (omega arith)

-- Numbers and a half in the place of float64.
abbrev both : (ℕ → ℕ → ℕ) → Option ℕ → Option ℕ → Option ℕ
both f (some a) (some b) = some (f a b)
both f a b = some 0

abbrev times : Option ℕ → Option ℕ → Option ℕ
times none (some b) = some (b / 2)
times (some a) (some b) = some (a * b)
times a none = some 0

abbrev halves : Floats
halves = record {
  F = Option ℕ;
  add = both (λ a b. a + b);
  minus = both (λ a b. a - b);
  mul = times;
  div = both (λ a b. a / b);
  pow2 = λ a. elim a [ none ↦ some 1 | some n ↦ some (2 ^ n) ];
  min_f = both (λ a b. min a b);
  of_int = λ z. some (pos_part z);
  to_int = λ a. elim a [ none ↦ pos 0 | some n ↦ pos n ];
  lt = λ a b. false;
  is_nan = λ a. false;
  is_inf = λ a. false;
  show = λ a. "number";
}

abbrev seconds_to_a_minute : BackoffConfig (Option ℕ)
seconds_to_a_minute = config halves 1_000_000_000 60_000_000_000 (some 1)

delta_lem_example :
    (100 ≤ 150 → 150 - 100 < two_63 → delta 150 100 ≡ 150 - 100)
    × (150 < 100 → 100 - 150 ≤ two_63 → delta 150 100 ≡ 0)
    × (150 < 100 → two_63 < 100 - 150 → delta 150 100 ≡ 150 + two_64 - 100)
delta_lem_example = delta_lem 150 100 (omega arith) (omega arith)

delta_test : (delta 150 100 ≡ 50) × (delta 7 1000 ≡ 0)
unfolding delta
delta_test = (refl, refl)

abbrev eth0 : ℕ → Counters
eth0 n = record { name = "eth0"; bytes_recv = n; bytes_sent = n }

abbrev running : NetworkCollector
running = record {
  host = "web-1";
  ifaces = [];
  prev = some (("eth0", eth0 100) ∷ []);
  prev_at = seconds 1;
}

abbrev network_metrics : List (Metric ℕ)
network_metrics =
    record {
      time = seconds 11;
      host = "web-1";
      name = "net.bytes_in";
      value = 50;
      labels = ("iface", "eth0") ∷ [];
    }
    ∷ record {
      time = seconds 11;
      host = "web-1";
      name = "net.bytes_out";
      value = 50;
      labels = ("iface", "eth0") ∷ [];
    }
    ∷ []

network_test :
    (collect_network numbers (seconds 11) (some (eth0 150 ∷ [])) running).1 ≡ some network_metrics
unfolding collect_network delta insert lookup contains is_collected
network_test = refl

abbrev root_usage : String → Option (Usage numbers)
root_usage p =
    if str_eq p "/" then some (record { used_percent = 40; used = 4; total = 10 }) else none

-- The usage of the second mount cannot be read.
abbrev readings : Readings numbers
readings = record {
  totals = some (40 ∷ []);
  cores = some (30 ∷ 50 ∷ []);
  memory = some (record { used_percent = 40; used = 4; total = 10 });
  partitions = some ("/" ∷ "/home" ∷ []);
  usage = root_usage;
  counters = some (eth0 150 ∷ []);
  cpu_time = seconds 11;
  memory_time = seconds 11;
  disk_time = seconds 11;
  network_time = seconds 11;
}

numbers-IsFinite : (vs : List ℕ) → All (IsFinite numbers) vs
numbers-IsFinite [] = tt
numbers-IsFinite (v ∷ vs) = ((refl, refl), numbers-IsFinite vs)

mounts_named :
    (ps : List String)
    → ◌≡◌ {A = Option (List String)} (some ("/" ∷ "/home" ∷ [])) (some ps)
    → All (λ p. str_eq p "" ≡ false) ps
mounts_named ps e =
    subst (All (λ p. str_eq p "" ≡ false)) (some-injective ("/" ∷ "/home" ∷ []) ps e)
      (refl, (refl, tt))

counters-IsNamed :
    (cs : List Counters)
    → ◌≡◌ {A = Option (List Counters)} (some (eth0 150 ∷ [])) (some cs)
    → IsNamed cs
counters-IsNamed cs e = subst IsNamed (some-injective (eth0 150 ∷ []) cs e) (refl, tt)

sane : IsSane numbers readings
sane = record {
  cpu_timed = refl;
  memory_timed = refl;
  disk_timed = refl;
  network_timed = refl;
  totals_finite = λ vs e. numbers-IsFinite vs;
  cores_finite = λ vs e. numbers-IsFinite vs;
  memory_finite = λ u e. (refl, refl);
  mounts_named = mounts_named;
  usage_finite = λ p u e. (refl, refl);
  counters_named = counters-IsNamed;
}

collect_tick-accepted_example :
    validate_batch numbers
      (record { host = "web-1"; metrics = (collect_tick numbers readings "web-1" running).1.0 })
    ≡ none
unfolding is_blank
collect_tick-accepted_example =
    collect_tick-accepted numbers "web-1" refl (λ z. (refl, refl)) readings running sane refl
