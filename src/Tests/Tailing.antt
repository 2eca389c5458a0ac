-- ===== src/Tests/Tailing.antt =====
-- internal/agent/logtail: witnesses and tests.
use theminidog.Base.{
  ℕ, ◌+◌, ◌≡◌, ◌≢◌, refl, true, false, none, some, List, [], ◌∷◌, ◌++◌, String, Bytes, seconds,
  is_blank, is_blank_bytes, runes, codes, contains, lookup, insert, delete, length, replicate,
  length-replicate, All-replicate, All, arith,
}
use mathlib.Core.List.{Memᴰ}
use theminidog.Model.Log.{LogEntry, LogBatch, validate_entry, validate_entries, validate_batch}
use theminidog.Logtail.Level.{
  parse_level, search_from, match_here, re_json_level, re_bracketed, re_prefixed, re_first_word,
  level_norm,
}
use theminidog.Logtail.Lines.{lines}
use theminidog.Logtail.Tailer.{
  Disk, Tailer, SendResult, sent, failed, cancelled, FileEvent, entries_of, send_chunked,
  read_new_lines, open_and_seek_eof, new_tailer, handle_event, set_offset, close_path,
}
use theminidog.Logtail.Chunks.{IsBatchOf, all_entries, send_chunked-entries}
use theminidog.Logtail.Entries.{cut, IsVisible}
use theminidog.Logtail.Rejected.{cut_line_rejected}
use theminidog.Logtail.Run.{
  Occurrence, happened, failed_watch, cancelled_run, run_tailer, IsValidBatch, run_tailer-accepted,
}
use theminidog.Logtail.Reading.{lines-append, appended_twice, long_line_lost}

tailer_code : Unit {0}
unfolding parse_level search_from match_here re_json_level re_bracketed re_prefixed re_first_word
    level_norm runes lines entries_of send_chunked read_new_lines open_and_seek_eof new_tailer
    handle_event set_offset close_path lookup insert delete is_blank_bytes validate_entry
    validate_entries validate_batch is_blank contains
tailer_code = tt

-- One log file, whose size and end are given.
abbrev disk : ℕ → Bytes → Disk
disk size end = record {
  open_file = λ p. some 3;
  size = λ f. some size;
  seekable = λ f n. true;
  tail = λ f n. end;
  watchable = λ p. true;
}

abbrev fresh : Tailer
fresh = record { paths = "app.log" ∷ []; host = "web-1"; offsets = []; files = [] }

abbrev tailer : Tailer
tailer = record fresh { offsets = ("app.log", 4) ∷ []; files = ("app.log", 3) ∷ [] }

started : new_tailer (disk 4 []) ("app.log" ∷ []) "web-1" ≡ tailer
unfolding tailer_code
started = refl

abbrev two_lines : Bytes
two_lines = codes "[WARN] slow" ++ 13 ∷ 10 ∷ codes " " ++ 10 ∷ codes "done" ++ 10 ∷ []

abbrev written : FileEvent
written = record { path = "app.log"; write = true; rename = false; remove = false; create = false }

entry : String → Bytes → LogEntry
entry level message = record {
  time = seconds 9;
  host = "web-1";
  path = "app.log";
  level = level;
  message = message;
}

batches_test :
    (handle_event (disk 23 two_lines) (seconds 9) (λ b. sent) written tailer).1
    ≡ record {
      host = "web-1";
      entries = entry "warn" (codes "[WARN] slow") ∷ entry "info" (codes "done") ∷ [];
    }
      ∷ []
unfolding tailer_code entry
batches_test = refl

two_lines-IsVisible : All IsVisible (lines two_lines)
unfolding tailer_code
two_lines-IsVisible = (λ b. b, (λ b. b, (λ b. b, tt)))

send_chunked-entries_example :
    All (IsBatchOf "web-1") (send_chunked (λ b. failed) tailer (entry "info" [] ∷ []))
    × ((unsent : List LogEntry) × (all_entries
              (send_chunked (λ b. failed) tailer (entry "info" [] ∷ []))
            ++ unsent
          ≡ entry "info" [] ∷ []))
    × (((b : LogBatch) → ◌≢◌ {A = SendResult} failed cancelled)
        → all_entries (send_chunked (λ b. failed) tailer (entry "info" [] ∷ []))
          ≡ entry "info" [] ∷ [])
send_chunked-entries_example = send_chunked-entries (λ b. failed) tailer (entry "info" [] ∷ [])

-- 4096 spaces and a letter.
abbrev indented : Bytes
indented = replicate 4096 32 ++ 65 ∷ []

abbrev indented_batch : LogBatch
indented_batch = record {
  host = "web-1";
  entries = entries_of (seconds 9) "web-1" "app.log" (codes "ok" ∷ indented ∷ []);
}

cut_line_rejected_example : validate_batch indented_batch ≢ none
cut_line_rejected_example =
    cut_line_rejected (seconds 9) "web-1" "app.log" (codes "ok" ∷ indented ∷ []) indented
      indented_batch (Memᴰ.tail (Memᴰ.head refl)) seen hidden refl
  where
    seen : is_blank_bytes indented ≡ false
    seen = unfold is_blank_bytes replicate in refl

    hidden : is_blank_bytes (cut indented) ≡ true
    hidden = unfold is_blank_bytes replicate in refl

lines-append_example :
    lines (codes "a" ++ 10 ∷ codes "b") ≡ lines (codes "a" ++ 10 ∷ []) ++ lines (codes "b")
lines-append_example = lines-append (codes "a") (codes "b") (omega arith)

appended_twice_example :
    (read_new_lines
        (disk 6 (codes "a" ++ 10 ∷ []))
        (seconds 9)
        "app.log"
        (open_and_seek_eof (disk 4 []) "app.log" fresh).0).1
      ++ (read_new_lines
          (disk 7 (codes "b"))
          (seconds 9)
          "app.log"
          (read_new_lines
            (disk 6 (codes "a" ++ 10 ∷ []))
            (seconds 9)
            "app.log"
            (open_and_seek_eof (disk 4 []) "app.log" fresh).0).0).1
    ≡ entries_of (seconds 9) "web-1" "app.log" (lines (codes "a" ++ 10 ∷ codes "b"))
appended_twice_example =
    appended_twice (disk 4 []) (disk 6 (codes "a" ++ 10 ∷ [])) (disk 7 (codes "b")) (seconds 9)
      "app.log" 3 4 (codes "a") (codes "b") fresh refl refl
      (record { sized = refl; held = refl; seeks = λ k. refl })
      (record { sized = refl; held = refl; seeks = λ k. refl }) (omega arith)

abbrev flood : Bytes
flood = replicate 65536 65

abbrev flooded : Disk
flooded = disk (4 + length (flood ++ two_lines)) (flood ++ two_lines)

long_line_lost_example :
    ((read_new_lines flooded (seconds 9) "app.log" tailer).1 ≡ [])
    × (lookup "app.log" (read_new_lines flooded (seconds 9) "app.log" tailer).0.offsets
        ≡ some (4 + length (flood ++ two_lines)))
long_line_lost_example =
    long_line_lost flooded (seconds 9) "app.log" 3 4 flood two_lines tailer known at
      (record { sized = refl; held = refl; seeks = λ k. refl })
      (All-replicate (λ b. b ≢ 10) 65536 65 (omega arith)) (length-replicate 65536 65)
  where
    known : lookup "app.log" tailer.files ≡ some 3
    known = unfold lookup in refl

    at : lookup "app.log" tailer.offsets ≡ some 4
    at = unfold lookup in refl

abbrev watched : List Occurrence
watched = happened (disk 23 two_lines) (seconds 9) (λ b. sent) written ∷ failed_watch ∷ []

run_tailer-accepted_example :
    All IsValidBatch (run_tailer watched (new_tailer (disk 4 []) ("app.log" ∷ []) "web-1")).batches
run_tailer-accepted_example =
    run_tailer-accepted (disk 4 []) ("app.log" ∷ []) "web-1" watched named
      ((refl, λ f n. two_lines-IsVisible), (tt, tt))
  where
    named : is_blank "web-1" ≡ false
    named = unfold is_blank in refl

closed_test : (run_tailer (cancelled_run ∷ []) tailer).closed ≡ some (3 ∷ [])
unfolding tailer_code run_tailer
closed_test = refl
