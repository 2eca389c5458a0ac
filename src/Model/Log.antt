-- ===== src/Model/Log.antt =====
-- internal/model/log.go. The host, the path and the level are compared as texts; a message is
-- bytes, since the tailer may cut it inside a character. Each error is its message's kind.
use theminidog.Base.{
  ℕ, suc, Option, none, some, List, [], ◌∷◌, String, Time, is_zero, is_blank, contains, Bytes,
  is_blank_bytes, if◌then◌else◌, not, ltb, length, ◌==◌,
}

pub record LogEntry : Type 0 where
  pub time : Time
  pub host : String
  pub path : String
  pub level : String
  pub message : Bytes

pub record LogBatch : Type 0 where
  pub host : String
  pub entries : List LogEntry

abbrev pub valid_log_levels : List String
valid_log_levels = "info" ∷ "warn" ∷ "error" ∷ "debug" ∷ []

pub data EntryError : Type 0 where
  blank_host blank_message zero_time : EntryError
  bad_level : String → EntryError

-- `none` where the entry is well formed.
unfoldable pub validate_entry : LogEntry → Option EntryError
validate_entry e =
    if is_blank e.host
    then some blank_host
    else if is_blank_bytes e.message
    then some blank_message
    else if is_zero e.time
    then some zero_time
    else if not (contains e.level valid_log_levels)
    then some (bad_level e.level)
    else none

pub data BatchError : Type 0 where
  blank_batch_host no_entries too_many_entries : BatchError
  entry_error : ℕ → EntryError → BatchError

-- The loop over the entries, from an index.
unfoldable pub validate_entries : ℕ → List LogEntry → Option BatchError
validate_entries i [] = none
validate_entries i (e ∷ es) =
    let rest = validate_entries (suc i) es in
    elim (validate_entry e) [ none ↦ rest | some x ↦ some (entry_error i x) ]

unfoldable pub validate_batch : LogBatch → Option BatchError
unfolding validate_entries
validate_batch b =
    if is_blank b.host
    then some blank_batch_host
    else if length b.entries == 0
    then some no_entries
    else if ltb 1000 (length b.entries)
    then some too_many_entries
    else validate_entries 0 b.entries
