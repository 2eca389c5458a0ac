-- ===== src/Api/Ingest.antt =====
-- internal/server/api/metrics.go and logs.go: the ingestion handlers. The body of a request is
-- decoded already, `none` where it is not JSON of the batch's shape; `exec` is the pool that runs
-- the statements of a batch.
pub mod Outcomes
pub mod LogOutcomes
use theminidog.Base.{
  ℕ, ◌≡◌, refl, ◌↔◌, Bool, true, false, Option, none, some, List, [], ◌∷◌, String, Time, Floats,
  length, ltb, ◌==◌, if◌then◌else◌, arith, ◌≤◌, ◌<◌, ◌+◌, ◌⊎◌, inl, inr,
}
use theminidog.Model.Metric as MetricModel
use theminidog.Model.Log as LogModel
use theminidog.Model.Metric.{MetricBatch}
use theminidog.Model.Log.{LogBatch}
use theminidog.Storage.Metrics as Metrics
use theminidog.Storage.Metrics.{InsertMetric}
use theminidog.Storage.Logs as Logs
use theminidog.Storage.Logs.{InsertLog}
use theminidog.Storage.Hosts.{HostTracker, heartbeat}
use theminidog.Api.Responses.{
  Failure, invalid_json, empty_metrics, invalid_metrics, invalid_logs, batch_too_large,
  storage_error, Body, ingested, Response, write_error,
}

abbrev pub max_batch_size : ℕ
max_batch_size = 1000

module _ (fl : Floats) where
  open fl use {F}

  -- The checks of `HandleIngest` on a decoded batch, in their order.
  unfoldable pub refusal : MetricBatch F → Option Failure
  refusal batch =
      if length batch.metrics == 0
      then some empty_metrics
      else elim (MetricModel.validate_batch fl batch) [
        | some e ↦ some (invalid_metrics e)
        | none ↦ if ltb max_batch_size (length batch.metrics) then some batch_too_large else none
      ]

  -- The insertion, the heartbeat and the answer.
  unfoldable pub store :
      (List (InsertMetric F) → ℕ → Bool)
      → Time
      → Option HostTracker
      → MetricBatch F
      → Response F × Option HostTracker
  unfolding write_error
  store exec now tracker batch =
      let (n, failed) = Metrics.insert exec batch in
      if failed
      then (write_error 500 storage_error, tracker)
      else (record { status = 202; body = ingested n }, heartbeat now batch.host tracker)

  unfoldable pub handle_ingest :
      (List (InsertMetric F) → ℕ → Bool)
      → Time
      → Option HostTracker
      → Option (MetricBatch F)
      → Response F × Option HostTracker
  unfolding refusal store write_error
  handle_ingest exec now tracker none = (write_error 400 invalid_json, tracker)
  handle_ingest exec now tracker (some batch) = elim (refusal batch) [
    | some e ↦ (write_error 400 e, tracker)
    | none ↦ store exec now tracker batch
  ]

unfoldable pub store_logs : {F : Type 0} → (List InsertLog → ℕ → Bool) → LogBatch → Response F
unfolding write_error
store_logs exec batch =
    let (n, failed) = Logs.insert exec batch in
    if failed then write_error 500 storage_error else record { status = 202; body = ingested n }

unfoldable pub handle_ingest_logs :
    {F : Type 0} → (List InsertLog → ℕ → Bool) → Option LogBatch → Response F
unfolding store_logs write_error
handle_ingest_logs exec none = write_error 400 invalid_json
handle_ingest_logs exec (some batch) = elim (LogModel.validate_batch batch) [
  | some e ↦ write_error 400 (invalid_logs e)
  | none ↦ store_logs exec batch
]
