-- ===== src/Server/Dispatches.antt =====
-- notifyAll of internal/server/alerting/alerting.go in the running server: what a list of outputs
-- dispatches to one webhook. Each dispatch is a goroutine of its own, so the order is that of their
-- start.
use theminidog.Base.{
  ◌≡◌, refl, sym, ap, ◌∙◌, subst, inl, inr, Bool, false, ◌&&◌, Option, none, some, List, [], ◌∷◌,
  String, Time, Floats, ◌++◌, map, pos, contains, str_eq, if◌then◌else◌, arith, Bool-cases,
}
use mathlib.Core.List.{append-nil}
use theminidog.Alerting.Rules.{Rule, rule_key}
use theminidog.Alerting.Evaluator.{
  EventName, NotificationEvent, Evaluator, MetricQuerier, hosts_for, update, on_points, params_for,
  evaluate_hosts, evaluate_rules, notify_all, notify_host_down,
}
use theminidog.Alerting.Transitions.{is_firing, event_key, events_of}
use theminidog.Storage.Metrics.{QueryPoint}
use theminidog.Server.Process.{
  Output, answered, reported_down, notified, drained, pool_closed, dispatch_events, on_down,
}

-- A webhook that is configured once.
abbrev pub IsOnce : String → List String → Type 0
IsOnce u [] = ⊥
IsOnce u (v ∷ vs) = if str_eq v u then contains u vs ≡ false else IsOnce u vs

module _ (fl : Floats) where
  open fl use {F}

  update-notifiers :
      (now : Time) (rule : Rule F) (host : String) (m : F) (e : Evaluator F)
      → (update fl now rule host m e).0.notifiers ≡ e.notifiers
  unfolding update
  update-notifiers now rule host m e = refl

  on_points-notifiers :
      (now : Time) (rule : Rule F) (host : String) (ps : Option (List (QueryPoint F)))
      (e : Evaluator F)
      → (on_points fl now rule host ps e).0.notifiers ≡ e.notifiers
  unfolding on_points
  on_points-notifiers now rule host none e = refl
  on_points-notifiers now rule host (some []) e = refl
  on_points-notifiers now rule host (some (p ∷ ps)) e = update-notifiers now rule host _ e

  evaluate_hosts-notifiers :
      (repo : MetricQuerier F) (now : Time) (rule : Rule F) (hosts : List String) (e : Evaluator F)
      → (evaluate_hosts fl repo now rule hosts e).0.notifiers ≡ e.notifiers
  unfolding evaluate_hosts
  evaluate_hosts-notifiers repo now rule [] e = refl
  evaluate_hosts-notifiers repo now rule (host ∷ hosts) e =
      let points = repo.query (params_for fl now rule host) in
      evaluate_hosts-notifiers repo now rule hosts (on_points fl now rule host points e).0
      ∙ on_points-notifiers now rule host points e

  pub evaluate_rules-notifiers :
      (repo : MetricQuerier F) (now : Time) (rules : List (Rule F)) (e : Evaluator F)
      → (evaluate_rules fl repo now rules e).0.notifiers ≡ e.notifiers
  unfolding evaluate_rules
  evaluate_rules-notifiers repo now [] e = refl
  evaluate_rules-notifiers repo now (rule ∷ rules) e =
      let hosts = hosts_for repo rule in
      evaluate_rules-notifiers repo now rules (evaluate_hosts fl repo now rule hosts e).0
      ∙ evaluate_hosts-notifiers repo now rule hosts e

  -- The events of an alert that are dispatched to a webhook.
  unfoldable pub dispatched_to : String → String → List (Output F) → List EventName
  dispatched_to u k [] = []
  dispatched_to u k (notified v ev ∷ outs) =
      if str_eq v u && str_eq (event_key fl ev) k
      then ev.event ∷ dispatched_to u k outs
      else dispatched_to u k outs
  dispatched_to u k (answered r ∷ outs) = dispatched_to u k outs
  dispatched_to u k (reported_down h ∷ outs) = dispatched_to u k outs
  dispatched_to u k (drained d ∷ outs) = dispatched_to u k outs
  dispatched_to u k (pool_closed ∷ outs) = dispatched_to u k outs

  -- The key is none that `NotifyHostDown` makes of a host.
  abbrev pub IsOfRule : String → Type 0
  IsOfRule k = (h : String) → str_eq (rule_key fl h "host.down" ">" (fl.of_int (pos 0))) k ≡ false

  -- The recorded state of an alert; without an evaluator none fires.
  abbrev pub fires : String → Option (Evaluator F) → Bool
  fires k none = false
  fires k (some e) = is_firing k e

  module _ (u k : String) where
    pub dispatched_to-append :
        (xs ys : List (Output F))
        → dispatched_to u k (xs ++ ys) ≡ dispatched_to u k xs ++ dispatched_to u k ys
    unfolding dispatched_to
    dispatched_to-append [] ys = refl
    dispatched_to-append (notified v ev ∷ xs) ys = ground (arith, dispatched_to-append xs ys)
    dispatched_to-append (answered r ∷ xs) ys = dispatched_to-append xs ys
    dispatched_to-append (reported_down h ∷ xs) ys = dispatched_to-append xs ys
    dispatched_to-append (drained d ∷ xs) ys = dispatched_to-append xs ys
    dispatched_to-append (pool_closed ∷ xs) ys = dispatched_to-append xs ys

    -- The calls for one event.
    abbrev calls : List String → NotificationEvent F → List (Output F)
    calls urls ev = map (λ (v, e). notified v e) (notify_all urls ev)

    calls_elsewhere :
        (urls : List String) (ev : NotificationEvent F)
        → contains u urls ≡ false
        → dispatched_to u k (calls urls ev) ≡ []
    unfolding dispatched_to notify_all contains
    calls_elsewhere [] ev h = refl
    calls_elsewhere (v ∷ vs) ev h = ground (arith, h, calls_elsewhere vs ev)

    calls_other :
        (urls : List String) (ev : NotificationEvent F)
        → str_eq (event_key fl ev) k ≡ false
        → dispatched_to u k (calls urls ev) ≡ []
    unfolding dispatched_to notify_all
    calls_other [] ev h = refl
    calls_other (v ∷ vs) ev h = ground (arith, h, calls_other vs ev h)

    calls_once :
        (urls : List String) (ev : NotificationEvent F)
        → IsOnce u urls
        → dispatched_to u k (calls urls ev) ≡ events_of fl k (ev ∷ [])
    unfolding dispatched_to notify_all events_of
    calls_once [] ev h = absurd h
    calls_once (v ∷ vs) ev h = elim (Bool-cases (str_eq v u)) [
      | inl same ↦
          let away : contains u vs ≡ false =
            subst (λ b. if b then contains u vs ≡ false else IsOnce u vs) same h in
          ground (arith, same, calls_elsewhere vs ev away)
      | inr other ↦
          let later : IsOnce u vs =
            subst (λ b. if b then contains u vs ≡ false else IsOnce u vs) other h in
          ground (arith, other, calls_once vs ev later)
    ]

    events_of-cons :
        (ev : NotificationEvent F) (evs : List (NotificationEvent F))
        → events_of fl k (ev ∷ evs) ≡ events_of fl k (ev ∷ []) ++ events_of fl k evs
    unfolding events_of
    events_of-cons ev evs = ground arith

    pub dispatch_events-once :
        (urls : List String) (evs : List (NotificationEvent F))
        → IsOnce u urls
        → dispatched_to u k (dispatch_events urls evs) ≡ events_of fl k evs
    unfolding dispatch_events
    dispatch_events-once urls [] h = unfold dispatched_to events_of in refl
    dispatch_events-once urls (ev ∷ evs) h =
        dispatched_to-append (calls urls ev) (dispatch_events urls evs)
        ∙ ap (λ l. l ++ dispatched_to u k (dispatch_events urls evs)) (calls_once urls ev h)
        ∙ ap (◌++◌ (events_of fl k (ev ∷ []))) (dispatch_events-once urls evs h)
        ∙ sym (events_of-cons ev evs)

    pub on_down-silent :
        (now : Time) (e : Option (Evaluator F)) (hs : List String)
        → IsOfRule k
        → dispatched_to u k (on_down fl now e hs) ≡ []
    unfolding on_down dispatched_to notify_host_down dispatch_events
    on_down-silent now e [] r = refl
    on_down-silent now none (h ∷ hs) r = on_down-silent now none hs r
    on_down-silent now (some e) (h ∷ hs) r =
        let ev : NotificationEvent F = record {
          event = EventName.fired;
          rule = record {
            host = h;
            name = "host.down";
            op = ">";
            threshold = fl.of_int (pos 0);
            for = pos 0;
          };
          value = fl.of_int (pos 0);
          fired_at = now;
        } in
        ap (λ l. dispatched_to u k (l ++ on_down fl now (some e) hs))
          (append-nil (calls e.notifiers ev))
        ∙ dispatched_to-append (calls e.notifiers ev) (on_down fl now (some e) hs)
        ∙ ap (λ l. l ++ dispatched_to u k (on_down fl now (some e) hs))
            (calls_other e.notifiers ev (r h))
        ∙ on_down-silent now (some e) hs r
