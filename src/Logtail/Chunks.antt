-- ===== src/Logtail/Chunks.antt =====
-- `sendChunked`: the batches against the entries.
use theminidog.Base.{
  ℕ, zero, suc, ◌≤◌, ◌≡◌, ◌≢◌, refl, ap, ◌∙◌, List, [], ◌∷◌, ◌++◌, String, length, take, drop, All,
  take-append-drop, length-drop, length-take, arith,
}
use mathlib.Core.List.{append_assoc, append-nil}
use theminidog.Model.Log.{LogEntry, LogBatch}
use theminidog.Logtail.Tailer.{
  Tailer, SendResult, sent, failed, cancelled, max_batch_size, send_from, send_chunked,
}

abbrev pub all_entries : List LogBatch → List LogEntry
all_entries [] = []
all_entries (b ∷ bs) = b.entries ++ all_entries bs

-- A batch that the server's limits on the size allow, from this host.
pub record IsBatchOf (host : String) (b : LogBatch) : Type 0 where
  pub not_empty : 1 ≤ length b.entries
  pub within : length b.entries ≤ max_batch_size
  pub from_host : b.host ≡ host

module _ (send : LogBatch → SendResult) (host : String) where
  send_from-IsBatchOf :
      (fuel : ℕ) (es : List LogEntry) → All (IsBatchOf host) (send_from fuel send host es)
  unfolding send_from
  send_from-IsBatchOf zero es = tt
  send_from-IsBatchOf (suc fuel) [] = tt
  send_from-IsBatchOf (suc fuel) (e ∷ es) =
      let rest = send_from-IsBatchOf fuel (drop max_batch_size (e ∷ es)) in
      ground (arith, rest, length-take 999 es)

  send_from-entries :
      (fuel : ℕ) (es : List LogEntry)
      → length es ≤ fuel
      → ((b : LogBatch) → send b ≢ cancelled)
      → all_entries (send_from fuel send host es) ≡ es
  unfolding send_from
  send_from-entries zero [] h s = refl
  send_from-entries zero (e ∷ es) h s = absurd (omega arith)
  send_from-entries (suc fuel) [] h s = refl
  send_from-entries (suc fuel) (e ∷ es) h s =
      let rest = send_from-entries fuel (drop 999 es) (omega (arith, length-drop 999 es)) s in
      ground (
        arith,
        rest,
        s (record { host = host; entries = e ∷ take 999 es }),
        take-append-drop 999 es,
      )

  send_from-prefix :
      (fuel : ℕ) (es : List LogEntry)
      → (unsent : List LogEntry) × (all_entries (send_from fuel send host es) ++ unsent ≡ es)
  unfolding send_from
  send_from-prefix zero es = (es, refl)
  send_from-prefix (suc fuel) [] = ([], refl)
  send_from-prefix (suc fuel) (e ∷ es) =
      let (unsent, ih) = send_from-prefix fuel (drop 999 es) in
      go (send (record { host = host; entries = e ∷ take 999 es })) refl unsent ih
    where
      stopped : e ∷ (take 999 es ++ []) ++ drop 999 es ≡ e ∷ es
      stopped = ap (◌∷◌ e) (rw append-nil (take-append-drop 999 es))

      went_on :
          (bs : List LogBatch) (unsent : List LogEntry)
          → all_entries bs ++ unsent ≡ drop 999 es
          → e ∷ (take 999 es ++ all_entries bs) ++ unsent ≡ e ∷ es
      went_on bs unsent ih = ap (◌∷◌ e) (
          append_assoc (take 999 es) (all_entries bs) unsent
          ∙ ap (◌++◌ (take 999 es)) ih
          ∙ take-append-drop 999 es)

      go :
          (r : SendResult)
          → send (record { host = host; entries = e ∷ take 999 es }) ≡ r
          → (unsent : List LogEntry)
          → all_entries (send_from fuel send host (drop 999 es)) ++ unsent ≡ drop 999 es
          → (rest : List LogEntry) × (all_entries (send_from (suc fuel) send host (e ∷ es)) ++ rest
              ≡ e ∷ es)
      go sent h unsent ih =
          (unsent, rw h (went_on (send_from fuel send host (drop 999 es)) unsent ih))
      go failed h unsent ih =
          (unsent, rw h (went_on (send_from fuel send host (drop 999 es)) unsent ih))
      go cancelled h unsent ih = (drop 999 es, rw h stopped)

-- The batches of a read hold its entries in order, from the first on: all of them unless a send
-- finds the context cancelled. Each batch is from the tailer's host and has between 1 and 1000
-- entries, which are the limits of the server.
pub send_chunked-entries :
    (send : LogBatch → SendResult) (t : Tailer) (es : List LogEntry)
    → All (IsBatchOf t.host) (send_chunked send t es)
      × ((unsent : List LogEntry) × (all_entries (send_chunked send t es) ++ unsent ≡ es))
      × (((b : LogBatch) → send b ≢ cancelled) → all_entries (send_chunked send t es) ≡ es)
unfolding send_chunked
send_chunked-entries send t es = (
  send_from-IsBatchOf send t.host (length es) es,
  send_from-prefix send t.host (length es) es,
  send_from-entries send t.host (length es) es (omega arith),
)
