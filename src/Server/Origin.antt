-- ===== src/Server/Origin.antt =====
-- Where the hosts of the running server come from.
use theminidog.Base.{
  ◌≡◌, sym, ap, ◌∙◌, ◌⊎◌, inl, inr, true, Option, none, some, List, [], ◌∷◌, String, Time, Floats,
  lookup, ok, arith, subst,
}
use theminidog.Model.Metric.{MetricBatch}
use theminidog.Storage.Hosts.{scan, new_host_tracker}
use theminidog.Api.Router.{post_method, authorized}
use theminidog.Api.Router.Access.{serve_tracker}
use theminidog.Api.Ingest.Outcomes.{IsGood}
use theminidog.Server.Start.{Server, Libraries, start_server}
use theminidog.Server.Started.{start_server-IsStarted}
use theminidog.Server.Process.{
  Process, Event, request, tracker_tick, evaluator_tick, stop, Output, backend, handle, step, run,
  launch, shutdown, scan_with,
}
use theminidog.Server.Outputs.{
  seen, IsSeen, IsReported, IsReported-append, heartbeat-IsSeen, scan-IsAmong, scan-IsSeen,
  on_down-IsReported, evaluate_with-IsReported, step-cases,
}

module _ (fl : Floats) where
  open fl use {F}

  module _ (srv : Server F) (h : String) where
    -- A request with an accepted token that posts an acceptable batch of the host.
    abbrev pub IsPost : Event F → Type 0
    IsPost (request w r) =
        (r.method ≡ post_method)
        × (r.path ≡ "/api/v1/metrics")
        × (authorized w.verify srv.secret r.authorization ≡ true)
        × ((batch : MetricBatch F) × (r.decoded_metrics ≡ some batch)
            × IsGood fl batch
            × (batch.host ≡ h))
    IsPost (tracker_tick now) = ⊥
    IsPost (evaluator_tick repo now) = ⊥
    IsPost stop = ⊥

    abbrev pub IsPosted : List (Event F) → Type 0
    IsPosted [] = ⊥
    IsPosted (ev ∷ evs) = IsPost ev ⊎ IsPosted evs

    handle-IsSeen :
        (p : Process F) (ev : Event F)
        → IsSeen h (handle fl srv p ev).0.tracker
        → IsSeen h p.tracker ⊎ IsPost ev
    unfolding handle backend scan_with
    handle-IsSeen p (request w r) s =
        elim (serve_tracker fl (backend fl srv w p.evaluator) r p.tracker) [
          | inl same ↦ inl (subst (IsSeen h) same s)
          | inr (post, there, allowed, (batch, decoded, good, answer)) ↦
              elim (heartbeat-IsSeen w.now batch.host h p.tracker
                (subst (λ o. IsSeen h o.1) answer s)) [
                  | inl before ↦ inl before
                  | inr e ↦ inr (post, there, allowed, (batch, decoded, good, e))
                ]
        ]
    handle-IsSeen p (tracker_tick now) (ls, e) = inl (ls, sym (scan-IsSeen now h p.tracker) ∙ e)
    handle-IsSeen p (evaluator_tick repo now) s = inl s
    handle-IsSeen p stop s = inl s

    handle-IsReported :
        (p : Process F) (ev : Event F) → IsReported h (handle fl srv p ev).1 → IsSeen h p.tracker
    unfolding handle shutdown scan_with
    handle-IsReported p (request w r) s = absurd s
    handle-IsReported p (tracker_tick now) s =
        scan-IsAmong now h p.tracker
          (on_down-IsReported fl now p.evaluator h (scan now p.tracker).1 s)
    handle-IsReported p (evaluator_tick repo now) s =
        absurd (evaluate_with-IsReported fl repo now p.evaluator h s)
    handle-IsReported p stop s = absurd s

    -- The tracker knows the host afterwards, or it was reported down.
    abbrev pub IsMentioned : Process F × List (Output F) → Type 0
    IsMentioned out = IsSeen h out.0.tracker ⊎ IsReported h out.1

    step-IsMentioned :
        (p : Process F) (ev : Event F)
        → IsMentioned (step fl srv p ev)
        → IsSeen h p.tracker ⊎ IsPost ev
    step-IsMentioned p ev s = elim (step-cases fl srv p ev) [
      | inl e ↦ elim (subst IsMentioned e s) [
        | inl a ↦ handle-IsSeen p ev a
        | inr b ↦ inl (handle-IsReported p ev b)
      ]
      | inr e ↦ elim (subst IsMentioned e s) [ inl a ↦ inl a | inr b ↦ absurd b ]
    ]

    run-IsMentioned :
        (p : Process F) (evs : List (Event F))
        → IsMentioned (run fl srv p evs)
        → IsSeen h p.tracker ⊎ IsPosted evs
    unfolding run
    run-IsMentioned p [] (inl a) = inl a
    run-IsMentioned p [] (inr b) = absurd b
    run-IsMentioned p (ev ∷ evs) s =
        let (q, outs) = step fl srv p ev in
        let before : IsMentioned (q, outs) → IsSeen h p.tracker ⊎ IsPosted (ev ∷ evs) =
          λ m. elim (step-IsMentioned p ev m) [ inl a ↦ inl a | inr b ↦ inr (inl b) ] in
        let later : IsMentioned (run fl srv q evs) → IsSeen h p.tracker ⊎ IsPosted (ev ∷ evs) =
          λ m. elim (run-IsMentioned q evs m) [ inl a ↦ before (inl a) | inr b ↦ inr (inr b) ] in
        elim s [
          | inl a ↦ later (inl a)
          | inr r ↦ elim (IsReported-append h outs (run fl srv q evs).1 r) [
            | inl a ↦ before (inr a)
            | inr b ↦ later (inr b)
          ]
        ]

    -- For a server that was started and any sequence of requests, ticks and stops: a host that its
    -- tracker knows afterwards, or that was reported down, was posted by one of the requests: a
    -- POST to /api/v1/metrics with a token accepted under the server's secret, whose batch is
    -- acceptable and names that host.
    pub run-origin :
        (lib : Libraries F) (env : String → String) (evs : List (Event F))
        → start_server lib env ≡ ok srv
        → IsMentioned (run fl srv (launch srv) evs)
        → IsPosted evs
    unfolding launch new_host_tracker lookup
    run-origin lib env evs started m =
        let empty = (start_server-IsStarted lib env srv started).tracker in
        elim (run-IsMentioned (launch srv) evs m) [
          | inl (ls, known) ↦
              let never : ◌≡◌ {A = Option Time} none (some ls) = sym (ap (seen h) empty) ∙ known in
              absurd (ground (arith, never))
          | inr posted ↦ posted
        ]
