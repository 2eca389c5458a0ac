-- ===== src/Server/Notices.antt =====
-- What the running server dispatches to a webhook, against the state of the alerts.
use theminidog.Base.{
  ◌≡◌, refl, sym, ap, ◌∙◌, subst, inl, inr, false, Option, none, some, List, [], ◌∷◌, String, Time,
  Floats, lookup,
}
use mathlib.Core.List.{append-nil}
use theminidog.Alerting.Evaluator.{was_firing, Evaluator, MetricQuerier, evaluate}
use theminidog.Alerting.Transitions as Transitions
use theminidog.Alerting.Transitions.{
  replay, replay-append, is_firing, event_key, events_of, run-replay,
}
use theminidog.Storage.Hosts.{scan}
use theminidog.Server.Start.{Server}
use theminidog.Server.Process.{
  Output, shutdown, launch, Process, Event, request, tracker_tick, evaluator_tick, stop,
  evaluate_with, scan_with, handle, step, run,
}
use theminidog.Server.Dispatches.{
  IsOnce, IsOfRule, fires, dispatched_to, dispatched_to-append, dispatch_events-once,
  on_down-silent, evaluate_rules-notifiers,
}
use theminidog.Server.Outputs.{step-cases}

module _ (fl : Floats) where
  open fl use {F}

  module _ (u k : String) where
    abbrev IsOnceIn : Option (Evaluator F) → Type 0
    IsOnceIn none = Unit
    IsOnceIn (some e) = IsOnce u e.notifiers

    -- What is dispatched to the webhook in a step leads from the state before to the state after.
    abbrev IsReplayed : Process F → Process F × List (Output F) → Type 0
    IsReplayed p out =
        (replay (fires fl k p.evaluator) (dispatched_to fl u k out.1)
          ≡ some (fires fl k out.0.evaluator))
        × IsOnceIn out.0.evaluator

    evaluated :
        (repo : MetricQuerier F) (now : Time) (e : Evaluator F)
        → replay (is_firing k e) (events_of fl k (evaluate fl repo now e).1)
          ≡ some (is_firing k (evaluate fl repo now e).0)
    unfolding Transitions.run
    evaluated repo now e =
        subst
          (λ l.
            replay (is_firing k e) (events_of fl k l)
            ≡ some (is_firing k (evaluate fl repo now e).0))
          (append-nil (evaluate fl repo now e).1) (run-replay fl ((repo, now) ∷ []) e k)

    evaluate_with-IsReplayed :
        (repo : MetricQuerier F) (now : Time) (e : Option (Evaluator F))
        → IsOnceIn e
        → (replay (fires fl k e) (dispatched_to fl u k (evaluate_with fl repo now e).1)
            ≡ some (fires fl k (evaluate_with fl repo now e).0))
          × IsOnceIn (evaluate_with fl repo now e).0
    unfolding evaluate_with evaluate
    evaluate_with-IsReplayed repo now none once = (unfold replay dispatched_to in refl, tt)
    evaluate_with-IsReplayed repo now (some e) once = (
      ap (replay (is_firing k e))
            (dispatch_events-once fl u k e.notifiers (evaluate fl repo now e).1 once)
          ∙ evaluated repo now e,
      subst (IsOnce u) (sym (evaluate_rules-notifiers fl repo now e.rules e)) once,
    )

    handle-IsReplayed :
        (srv : Server F) (p : Process F) (ev : Event F)
        → IsOfRule fl k
        → IsOnceIn p.evaluator
        → IsReplayed p (handle fl srv p ev)
    unfolding handle scan_with shutdown dispatched_to
    handle-IsReplayed srv p (request w r) rule once = (unfold replay in refl, once)
    handle-IsReplayed srv p (tracker_tick now) rule once = (
      ap (replay (fires fl k p.evaluator))
            (on_down-silent fl u k now p.evaluator (scan now p.tracker).1 rule)
          ∙ unfold replay in refl,
      once,
    )
    handle-IsReplayed srv p (evaluator_tick repo now) rule once =
        evaluate_with-IsReplayed repo now p.evaluator once
    handle-IsReplayed srv p stop rule once = (unfold replay in refl, once)

    step-IsReplayed :
        (srv : Server F) (p : Process F) (ev : Event F)
        → IsOfRule fl k
        → IsOnceIn p.evaluator
        → IsReplayed p (step fl srv p ev)
    unfolding dispatched_to replay
    step-IsReplayed srv p ev rule once = elim (step-cases fl srv p ev) [
      | inl e ↦ subst (IsReplayed p) (sym e) (handle-IsReplayed srv p ev rule once)
      | inr e ↦ subst (IsReplayed p) (sym e) (refl, once)
    ]

    run-IsReplayed :
        (srv : Server F) (p : Process F) (evs : List (Event F))
        → IsOfRule fl k
        → IsOnceIn p.evaluator
        → IsReplayed p (run fl srv p evs)
    unfolding run
    run-IsReplayed srv p [] rule once = (unfold replay dispatched_to in refl, once)
    run-IsReplayed srv p (ev ∷ evs) rule once =
        let (q, outs) = step fl srv p ev in
        let (first, kept) = step-IsReplayed srv p ev rule once in
        let (rest, end) = run-IsReplayed srv q evs rule kept in
        (
          ap (replay (fires fl k p.evaluator))
                (dispatched_to-append fl u k outs (run fl srv q evs).1)
              ∙ replay-append (fires fl k p.evaluator) (dispatched_to fl u k outs)
                  (dispatched_to fl u k (run fl srv q evs).1) first
              ∙ rest,
          end,
        )

  -- For a server whose evaluator has no alerts yet, from its launch and over any sequence of
  -- requests, ticks and stops: for a webhook that is configured once, and an alert whose key is
  -- none that the report of a host makes, the notifications that are dispatched to the webhook
  -- are firing and resolved in turn, in the order of their dispatch; and the last of them says
  -- whether the alert is firing in the evaluator afterwards, not firing where there is none.
  pub run-dispatched :
      (srv : Server F) (e : Evaluator F) (evs : List (Event F)) (u k : String)
      → srv.evaluator ≡ some e
      → e.state ≡ []
      → IsOnce u e.notifiers
      → IsOfRule fl k
      → replay false (dispatched_to fl u k (run fl srv (launch srv) evs).1)
        ≡ some (fires fl k (run fl srv (launch srv) evs).0.evaluator)
  unfolding launch lookup was_firing
  run-dispatched srv e evs u k there empty once rule =
      let quiet : fires fl k srv.evaluator ≡ false =
        ap (fires fl k) there ∙ ap (λ m. was_firing (lookup k m)) empty in
      let armed : IsOnceIn u k srv.evaluator = subst (IsOnceIn u k) (sym there) once in
      ap (λ b. replay b (dispatched_to fl u k (run fl srv (launch srv) evs).1)) (sym quiet)
      ∙ (run-IsReplayed u k srv (launch srv) evs rule armed).0
