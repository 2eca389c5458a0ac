-- ===== src/Logtail/Run.antt =====
-- internal/agent/logtail/tailer.go: `Run` and `Close`. What the `select` of the loop receives is a
-- list of occurrences; where the list ends, the loop waits on.
use theminidog.Base.{
  ◌≡◌, refl, ap, ◌∙◌, ℕ, false, Option, none, some, List, [], ◌∷◌, ◌++◌, String, Time, Map, length,
  ◌==◌, if◌then◌else◌, All, All-append, is_zero, is_blank, arith, Bool-cases, inl, inr,
}
use theminidog.Model.Log.{LogBatch, validate_batch}
use theminidog.Logtail.Tailer.{
  Disk, Tailer, SendResult, FileEvent, set_offset, close_path, open_and_seek_eof, record_file,
  file_and_size, open_all, new_tailer, handle_event,
}
use theminidog.Logtail.Entries.{AllVisible, read_new_lines-Accepts, handle_event-accepted}

pub data Occurrence : Type 0 where
  happened : Disk → Time → (LogBatch → SendResult) → FileEvent → Occurrence
  failed_watch : Occurrence
  cancelled_run closed_events closed_errors : Occurrence

-- `closed` has the handles that `closeAll` closed, `none` while `Run` goes on.
pub record Ran : Type 0 where
  pub tailer : Tailer
  pub batches : List LogBatch
  pub closed : Option (List ℕ)

handles : Map ℕ → List ℕ
handles [] = []
handles ((p, f) ∷ m) = f ∷ handles m

-- The files that are open; the watcher is closed with them.
unfoldable pub close_all : Tailer → List ℕ
unfolding handles
close_all t = handles t.files

unfoldable pub ended : Tailer → Ran
unfolding close_all
ended t = record { tailer = t; batches = []; closed = some (close_all t) }

unfoldable pub run_loop : List Occurrence → Tailer → Ran
unfolding ended
run_loop [] t = record { tailer = t; batches = []; closed = none }
run_loop (happened d now send ev ∷ os) t =
    let (t', bs) = handle_event d now send ev t in
    let rest = run_loop os t' in record rest { batches = bs ++ rest.batches }
run_loop (failed_watch ∷ os) t = run_loop os t
run_loop (cancelled_run ∷ os) t = ended t
run_loop (closed_events ∷ os) t = ended t
run_loop (closed_errors ∷ os) t = ended t

-- Without paths only the cancellation is waited for.
unfoldable pub run_idle : List Occurrence → Tailer → Ran
unfolding ended
run_idle [] t = record { tailer = t; batches = []; closed = none }
run_idle (cancelled_run ∷ os) t = ended t
run_idle (_ ∷ os) t = run_idle os t

unfoldable pub run_tailer : List Occurrence → Tailer → Ran
unfolding run_idle run_loop
run_tailer os t = if length t.paths == 0 then run_idle os t else run_loop os t

handle_event-host :
    (d : Disk) (now : Time) (send : LogBatch → SendResult) (ev : FileEvent) (t : Tailer)
    → is_zero now ≡ false
    → AllVisible d
    → is_blank t.host ≡ false
    → (handle_event d now send ev t).0.host ≡ t.host
unfolding handle_event set_offset close_path open_and_seek_eof file_and_size record_file
handle_event-host d now send ev t later seen named =
    ground (arith, (read_new_lines-Accepts d now later seen ev.path t named).0)

-- The clock is past its zero, and the lines of the files are visible.
abbrev pub IsUsual : Occurrence → Type 0
IsUsual (happened d now send ev) = (is_zero now ≡ false) × AllVisible d
IsUsual failed_watch = Unit {0}
IsUsual cancelled_run = Unit {0}
IsUsual closed_events = Unit {0}
IsUsual closed_errors = Unit {0}

abbrev pub IsValidBatch : LogBatch → Type 0
IsValidBatch b = validate_batch b ≡ none

run_loop-accepted :
    (os : List Occurrence) (t : Tailer)
    → is_blank t.host ≡ false
    → All IsUsual os
    → All IsValidBatch (run_loop os t).batches
unfolding run_loop ended
run_loop-accepted [] t named u = tt
run_loop-accepted (happened d now send ev ∷ os) t named ((later, seen), us) =
    let (t', bs) = handle_event d now send ev t in
    let same = handle_event-host d now send ev t later seen named in
    All-append IsValidBatch bs (run_loop os t').batches
      (handle_event-accepted d now later seen send ev t named)
      (run_loop-accepted os t' (rw same named) us)
run_loop-accepted (failed_watch ∷ os) t named u = run_loop-accepted os t named u.1
run_loop-accepted (cancelled_run ∷ os) t named u = tt
run_loop-accepted (closed_events ∷ os) t named u = tt
run_loop-accepted (closed_errors ∷ os) t named u = tt

run_idle-silent : (os : List Occurrence) (t : Tailer) → (run_idle os t).batches ≡ []
unfolding run_idle ended
run_idle-silent [] t = refl
run_idle-silent (happened d now send ev ∷ os) t = run_idle-silent os t
run_idle-silent (failed_watch ∷ os) t = run_idle-silent os t
run_idle-silent (cancelled_run ∷ os) t = refl
run_idle-silent (closed_events ∷ os) t = run_idle-silent os t
run_idle-silent (closed_errors ∷ os) t = run_idle-silent os t

open_all-host : (d : Disk) (ps : List String) (t : Tailer) → (open_all d ps t).host ≡ t.host
unfolding open_all open_and_seek_eof file_and_size record_file close_path
open_all-host d [] t = refl
open_all-host d (p ∷ ps) t =
    let r = open_and_seek_eof d p t in
    let next = if r.1 then if d.watchable p then r.0 else close_path p r.0 else r.0 in
    open_all-host d ps next ∙ ground arith

-- Over the whole run of a tailer that was made for a host that is not blank, whatever its paths,
-- the files and the events: every batch that it sends passes LogBatch.Validate, if the times are
-- not zero and no line that it reads is blank in its first 4096 bytes without being blank.
pub run_tailer-accepted :
    (disk : Disk) (paths : List String) (host : String) (os : List Occurrence)
    → is_blank host ≡ false
    → All IsUsual os
    → All IsValidBatch (run_tailer os (new_tailer disk paths host)).batches
unfolding run_tailer new_tailer
run_tailer-accepted disk paths host os named u =
    let t = new_tailer disk paths host in
    let same : t.host ≡ host = open_all-host disk paths _ in
    elim (Bool-cases (length t.paths == 0)) [
      | inl e ↦ rw (e, run_idle-silent os t) tt
      | inr e ↦ rw e (run_loop-accepted os t (rw same named) u)
    ]

-- `Run` returned with every open file closed, and what came later played no part.
abbrev pub IsEnded : (List Occurrence → Ran) → List Occurrence → Type 0
IsEnded run after =
    ((run after).closed ≡ some (close_all (run after).tailer)) × (run after ≡ run [])

run_loop-IsEnded :
    (before after : List Occurrence) (t : Tailer)
    → IsEnded (λ later. run_loop (before ++ cancelled_run ∷ later) t) after
unfolding run_loop ended
run_loop-IsEnded [] after t = (refl, refl)
run_loop-IsEnded (happened d now send ev ∷ os) after t =
    let (t', bs) = handle_event d now send ev t in
    let (closing, same) = run_loop-IsEnded os after t' in
    (closing, ap {A = Ran} (λ rest. record rest { batches = bs ++ rest.batches }) same)
run_loop-IsEnded (failed_watch ∷ os) after t = run_loop-IsEnded os after t
run_loop-IsEnded (cancelled_run ∷ os) after t = (refl, refl)
run_loop-IsEnded (closed_events ∷ os) after t = (refl, refl)
run_loop-IsEnded (closed_errors ∷ os) after t = (refl, refl)

run_idle-IsEnded :
    (before after : List Occurrence) (t : Tailer)
    → IsEnded (λ later. run_idle (before ++ cancelled_run ∷ later) t) after
unfolding run_idle ended
run_idle-IsEnded [] after t = (refl, refl)
run_idle-IsEnded (happened d now send ev ∷ os) after t = run_idle-IsEnded os after t
run_idle-IsEnded (failed_watch ∷ os) after t = run_idle-IsEnded os after t
run_idle-IsEnded (cancelled_run ∷ os) after t = (refl, refl)
run_idle-IsEnded (closed_events ∷ os) after t = run_idle-IsEnded os after t
run_idle-IsEnded (closed_errors ∷ os) after t = run_idle-IsEnded os after t

-- Once the context is cancelled, Run returns, whatever happened before: every file that is then
-- open is closed, and nothing that comes later is read or sent.
pub run_tailer-IsEnded :
    (before after : List Occurrence) (t : Tailer)
    → IsEnded (λ later. run_tailer (before ++ cancelled_run ∷ later) t) after
unfolding run_tailer
run_tailer-IsEnded before after t = elim (Bool-cases (length t.paths == 0)) [
  | inl e ↦ rw e (run_idle-IsEnded before after t)
  | inr e ↦ rw e (run_loop-IsEnded before after t)
]
