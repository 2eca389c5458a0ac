-- ===== src/Api/Ingest/LogOutcomes.antt =====
-- The answers of the ingestion of logs.
use theminidog.Base.{
  ℕ, ◌≡◌, refl, Bool, true, false, Option, none, some, List, length, map, length-map, ◌<◌, ◌⊎◌, inl,
  inr, Option-cases, arith,
}
use theminidog.Model.Log.{LogBatch, validate_batch}
use theminidog.Storage.Logs.{InsertLog, queue, insert}
use theminidog.Storage.Batch.{exec_from, exec_from_lem}
use theminidog.Api.Responses.{
  Failure, invalid_json, invalid_logs, storage_error, error, ingested, Response, write_error,
}
use theminidog.Api.Ingest.{store_logs, handle_ingest_logs}

module _ {F : Type 0} (exec : List InsertLog → ℕ → Bool) where
  -- Accepted, failed in the store, or refused.
  abbrev pub IsLogAnswer : Option LogBatch → Response F → Type 0
  IsLogAnswer body out =
      ((batch : LogBatch) × (body ≡ some batch)
        × (validate_batch batch ≡ none)
        × ((i : ℕ) → i < length batch.entries → exec (map queue batch.entries) i ≡ true)
        × (out ≡ record { status = 202; body = ingested (length batch.entries) }))
      ⊎ (((batch : LogBatch) × (body ≡ some batch)
            × (validate_batch batch ≡ none)
            × ((i : ℕ) × (i < length batch.entries) × (exec (map queue batch.entries) i ≡ false))
            × (out ≡ record { status = 500; body = error storage_error }))
          ⊎ (((batch : LogBatch) → body ≡ some batch → ¬ (validate_batch batch ≡ none))
              × ((f : Failure) × (out ≡ record { status = 400; body = error f }))))

  -- The ingestion of logs answers 202 with the size of the batch where the body is a batch that
  -- validates and every statement succeeds, 500 where the batch validates but some statement
  -- fails, and 400 where there is no batch that validates.
  pub handle_ingest_logs_answers :
      (body : Option LogBatch) → IsLogAnswer body (handle_ingest_logs exec body)
  unfolding handle_ingest_logs store_logs write_error insert
  handle_ingest_logs_answers none =
      inr (inr ((λ batch e. absurd (ground arith)), (invalid_json, refl)))
  handle_ingest_logs_answers (some batch) = elim (Option-cases (validate_batch batch)) [
    | inr (x, e) ↦
        inr (
          inr ((λ b same good. ground (arith, same, good, e)), (invalid_logs x, ground (arith, e))))
    | inl e ↦
        let sent = map queue batch.entries in
        let (before, out) = exec_from_lem (exec sent) 0 (length sent) in
        let same = length-map batch.entries queue in
        elim out [
          | inl (fine, k) ↦ inl (
            batch,
            refl,
            e,
            (λ i h. before i (omega arith) (omega arith)),
            ground (arith, e, fine, k, same),
          )
          | inr (failed, h, f) ↦ inr (
              inl (
                batch,
                refl,
                e,
                ((exec_from (exec sent) 0 (length sent)).0, omega arith, f),
                ground (arith, e, failed),
              ))
        ]
  ]
