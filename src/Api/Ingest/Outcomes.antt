-- ===== src/Api/Ingest/Outcomes.antt =====
-- The answers of the ingestion of metrics, and the heartbeats that go with them.
use theminidog.Base.{
  ℕ, ◌≡◌, refl, Bool, true, false, Option, none, some, List, Time, Floats, length, map, length-map,
  arith, ◌≤◌, ◌<◌, ◌⊎◌, inl, inr, Option-cases,
}
use theminidog.Model.Metric.{MetricBatch, validate_batch}
use theminidog.Storage.Metrics.{InsertMetric, queue, insert}
use theminidog.Storage.Batch.{exec_from, exec_from_lem}
use theminidog.Storage.Hosts.{HostTracker, heartbeat}
use theminidog.Api.Responses.{
  Failure, invalid_json, storage_error, error, ingested, Response, write_error,
}
use theminidog.Api.Ingest.{refusal, store, handle_ingest, max_batch_size}

module _ (fl : Floats) where
  open fl use {F}

  -- A decoded body that is acceptable.
  abbrev pub IsGood : MetricBatch F → Type 0
  IsGood batch =
      (1 ≤ length batch.metrics)
      × (length batch.metrics ≤ max_batch_size)
      × (validate_batch fl batch ≡ none)

  refusal_iff : (batch : MetricBatch F) → refusal fl batch ≡ none → IsGood batch
  unfolding refusal
  refusal_iff batch h = ground arith

  good_refusal : (batch : MetricBatch F) → IsGood batch → refusal fl batch ≡ none
  unfolding refusal
  good_refusal batch h = ground arith

  module _ (exec : List (InsertMetric F) → ℕ → Bool) (now : Time)
      (tracker : Option HostTracker) where
    -- The answer to a batch that is accepted, and to one whose i-th statement is the first to fail.
    pub handle_ingest_lem :
        (batch : MetricBatch F)
        → IsGood batch
        → (((i : ℕ) → i < length batch.metrics → exec (map queue batch.metrics) i ≡ true)
            × (handle_ingest fl exec now tracker (some batch) ≡ (
              record { status = 202; body = ingested (length batch.metrics) },
              heartbeat now batch.host tracker,
            )))
          ⊎ ((i : ℕ) × (i < length batch.metrics)
              × (exec (map queue batch.metrics) i ≡ false)
              × (handle_ingest fl exec now tracker (some batch)
                  ≡ (record { status = 500; body = error storage_error }, tracker)))
    unfolding handle_ingest store write_error insert
    handle_ingest_lem batch good =
        let sent = map queue batch.metrics in
        let (before, out) = exec_from_lem (exec sent) 0 (length sent) in
        let same = length-map batch.metrics queue in
        let fine = good_refusal batch good in
        elim out [
          | inl (e, k) ↦
              inl ((λ i h. before i (omega arith) (omega arith)), ground (arith, fine, e, k, same))
          | inr (e, h, f) ↦
              inr
                ((exec_from (exec sent) 0 (length sent)).0, omega arith, f, ground (arith, fine, e))
        ]

    -- The answers of the handler: accepted, failed in the store, or refused.
    abbrev pub IsAnswered : Option (MetricBatch F) → Response F × Option HostTracker → Type 0
    IsAnswered body out =
        ((batch : MetricBatch F) × (body ≡ some batch)
          × IsGood batch
          × ((i : ℕ) → i < length batch.metrics → exec (map queue batch.metrics) i ≡ true)
          × (out ≡ (
            record { status = 202; body = ingested (length batch.metrics) },
            heartbeat now batch.host tracker,
          )))
        ⊎ (((batch : MetricBatch F) × (body ≡ some batch)
              × IsGood batch
              × ((i : ℕ) × (i < length batch.metrics) × (exec (map queue batch.metrics) i ≡ false))
              × (out ≡ (record { status = 500; body = error storage_error }, tracker)))
            ⊎ (((batch : MetricBatch F) → body ≡ some batch → ¬ IsGood batch)
                × ((f : Failure) × (out ≡ (record { status = 400; body = error f }, tracker)))))

    -- The ingestion of metrics answers 202 with the size of the batch, after a heartbeat of its
    -- host, where the body is a batch of 1 to 1000 metrics that validates and every statement
    -- succeeds; 500 where the batch is so but some statement fails; 400 where it is not so; and it
    -- leaves the tracker as it was in the last two.
    pub handle_ingest_answers :
        (body : Option (MetricBatch F)) → IsAnswered body (handle_ingest fl exec now tracker body)
    unfolding handle_ingest write_error
    handle_ingest_answers none =
        inr (inr ((λ batch e. absurd (ground arith)), (invalid_json, refl)))
    handle_ingest_answers (some batch) = elim (Option-cases (refusal fl batch)) [
      | inr (f, e) ↦
          inr (inr ((λ b same good. ground (arith, good_refusal b good)), (f, ground (arith, e))))
      | inl e ↦
          let good = refusal_iff batch e in
          elim (handle_ingest_lem batch good) [
            | inl (all, answer) ↦ inl (batch, refl, good, all, answer)
            | inr (i, h, f, answer) ↦ inr (inl (batch, refl, good, (i, h, f), answer))
          ]
    ]
