-- ===== src/Stub/Agreement.antt =====
-- The stub in the place of the server.
use theminidog.Base.{
  ℕ, ◌<◌, ◌≡◌, Bool, true, Option, none, some, List, String, Time, Floats, inl, inr, arith,
}
use theminidog.Model.Metric.{MetricBatch}
use theminidog.Storage.Metrics.{InsertMetric}
use theminidog.Storage.Hosts.{HostTracker}
use theminidog.Api.Responses as Api
use theminidog.Api.Ingest.{handle_ingest}
use theminidog.Api.Ingest.Outcomes.{handle_ingest_answers}
use theminidog.Agent.Backoff.{wait_for}
use theminidog.Agent.Sending.{
  HttpSender, Reply, delivered, rejected, status, send, send_decided, final,
}
use theminidog.Stub.{post_metrics, ingested, handle}

module _ (fl : Floats) (show : fl.F → String) where
  open fl use {F}

  -- What the sender sees of the stub's answer to a batch.
  abbrev reply_of : Option (MetricBatch F) → Reply
  reply_of body = status (handle show (post_metrics body)).0.status

  agreed :
      (exec : List (InsertMetric F) → ℕ → Bool) (now : Time) (tracker : Option HostTracker)
      (body : Option (MetricBatch F)) (n : ℕ)
      → (handle_ingest fl exec now tracker body).0 ≡ record { status = 202; body = Api.ingested n }
      → (handle show (post_metrics body)).0 ≡ record { status = 202; body = ingested n }
  unfolding handle
  agreed exec now tracker body n h = elim (handle_ingest_answers fl exec now tracker body) [
    | inl (batch, decoded, good, all, answer) ↦ ground (arith, decoded, answer, h)
    | inr (inl (batch, decoded, good, failing, answer)) ↦ absurd (ground (arith, answer, h))
    | inr (inr (bad, (f, answer))) ↦ absurd (ground (arith, answer, h))
  ]

  -- In the place of the server, the stub answers alike wherever the server accepts: where the
  -- ingestion of a body is answered 202 with a count, so is the body at the stub. And it accepts
  -- more: a batch that decodes, also one that the server refuses, is delivered to the stub by the
  -- first attempt of Send, whose wait is not cancelled; a body that does not decode is rejected with
  -- 400 by the first.
  pub handle_agrees :
      (exec : List (InsertMetric F) → ℕ → Bool) (now : Time) (tracker : Option HostTracker)
      (body : Option (MetricBatch F)) (s : HttpSender fl) (fuel n : ℕ)
      → s.sleep 0 (wait_for fl 0 s.backoff (s.rand 0)) ≡ true
      → 0 < fuel
      → ((handle_ingest fl exec now tracker body).0 ≡ record { status = 202; body = Api.ingested n }
          → (handle show (post_metrics body)).0 ≡ record { status = 202; body = ingested n })
        × ((batch : MetricBatch F)
            → body ≡ some batch
            → send fl s true true (λ i. reply_of body) fuel ≡ (delivered, 0))
        × (body ≡ none → send fl s true true (λ i. reply_of body) fuel ≡ (rejected 400, 0))
  unfolding handle final
  handle_agrees exec now tracker body s fuel n slept enough = (
    (λ h. agreed exec now tracker body n h),
    (λ batch e.
        send_decided fl s (λ i. reply_of body) 0 fuel delivered (λ j h. absurd (omega arith)) slept
          (ground (arith, e)) enough),
    (λ e.
        send_decided fl s (λ i. reply_of body) 0 fuel (rejected 400) (λ j h. absurd (omega arith))
          slept (ground (arith, e)) enough),
  )
