-- ===== src/Logtail/Tailer.antt =====
-- internal/agent/logtail/tailer.go. The file system is an argument of each call; an open file is
-- a number, since a handle keeps to its file when the path is renamed. The logger is left out.
use theminidog.Base.{
  ℕ, zero, suc, Bool, true, false, ◌||◌, Option, none, some, List, [], ◌∷◌, String, Time, Map,
  lookup, insert, delete, Bytes, is_blank_bytes, length, take, drop, ltb, ◌==◌, if◌then◌else◌,
}
use theminidog.Model.Log.{LogEntry, LogBatch}
use theminidog.Logtail.Level.{parse_level}
use theminidog.Logtail.Lines.{lines}

abbrev pub max_line_bytes : ℕ
max_line_bytes = 4096

abbrev pub max_batch_size : ℕ
max_batch_size = 1000

-- What the calls of the operating system answer; `none` and `false` are errors. `tail f n` is what
-- reading the file `f` from byte `n` gives: it may have grown since its size was asked for.
pub record Disk : Type 0 where
  pub open_file : String → Option ℕ
  pub size : ℕ → Option ℕ
  pub seekable : ℕ → ℕ → Bool
  pub tail : ℕ → ℕ → Bytes
  pub watchable : String → Bool

pub record Tailer : Type 0 where
  pub paths : List String
  pub host : String
  pub offsets : Map ℕ
  pub files : Map ℕ

-- `t.offsets[path]`, which is 0 where the path is unknown.
abbrev pub offset : String → Tailer → ℕ
offset p t = elim (lookup p t.offsets) [ none ↦ 0 | some n ↦ n ]

unfoldable pub set_offset : String → ℕ → Tailer → Tailer
set_offset p n t = record t { offsets = insert p n t.offsets }

unfoldable pub close_path : String → Tailer → Tailer
close_path p t = record t { files = delete p t.files }

-- `openAndSeekEOF`: the file and its size, or an error that leaves the tailer as it was.
unfoldable pub file_and_size : Disk → Option ℕ → Option (ℕ × ℕ)
file_and_size d none = none
file_and_size d (some f) = elim (d.size f) [ none ↦ none | some n ↦ some (f, n) ]

unfoldable pub record_file : String → Tailer → Option (ℕ × ℕ) → Tailer × Bool
record_file p t none = (t, false)
record_file p t (some (f, n)) =
    (record t { files = insert p f t.files; offsets = insert p n t.offsets }, true)

unfoldable pub open_and_seek_eof : Disk → String → Tailer → Tailer × Bool
unfolding file_and_size record_file
open_and_seek_eof d p t = record_file p t (file_and_size d (d.open_file p))

-- The loop of `NewTailer`.
unfoldable pub open_all : Disk → List String → Tailer → Tailer
unfolding close_path open_and_seek_eof
open_all d [] t = t
open_all d (p ∷ ps) t =
    let r = open_and_seek_eof d p t in
    open_all d ps (if r.1 then if d.watchable p then r.0 else close_path p r.0 else r.0)

unfoldable pub new_tailer : Disk → List String → String → Tailer
unfolding open_all
new_tailer d paths host =
    open_all d paths (record { paths = paths; host = host; offsets = []; files = [] })

-- One token of the scanner: a blank line is skipped, a long one cut.
unfoldable pub entries_of : Time → String → String → List Bytes → List LogEntry
entries_of now host path [] = []
entries_of now host path (line ∷ ls) =
    let rest = entries_of now host path ls in
    let cut = if ltb max_line_bytes (length line) then take max_line_bytes line else line in
    if is_blank_bytes line
    then rest
    else record { time = now; host = host; path = path; level = parse_level cut; message = cut }
      ∷ rest

-- The handle of a path, opened if need be.
unfoldable pub handle_of : Disk → String → Tailer → Option (ℕ × Tailer)
handle_of d p t = elim (lookup p t.files) [
  | some f ↦ some (f, t)
  | none ↦ elim (d.open_file p) [
    | none ↦ none
    | some f ↦ some (f, record t { files = insert p f t.files })
  ]
]

-- From the size on: a shrunken file is read from its start.
unfoldable pub read_file : Disk → Time → String → ℕ → ℕ → Tailer → Tailer × List LogEntry
unfolding set_offset
read_file d now p f size t =
    let t' = if ltb size (offset p t) then set_offset p 0 t else t in
    let from = offset p t' in
    if size == from
    then (t', [])
    else if d.seekable f from
    then (set_offset p size t', entries_of now t.host p (lines (d.tail f from)))
    else (t', [])

unfoldable pub read_handle :
    Disk → Time → String → Option (ℕ × Tailer) → Tailer → Tailer × List LogEntry
unfolding read_file
read_handle d now p none t = (t, [])
read_handle d now p (some (f, t')) t = elim (d.size f) [
  | none ↦ (t', [])
  | some n ↦ read_file d now p f n t'
]

unfoldable pub read_new_lines : Disk → Time → String → Tailer → Tailer × List LogEntry
unfolding handle_of read_handle
read_new_lines d now p t = read_handle d now p (handle_of d p t) t

-- What `SendLogs` returned: no error, an error, or an error with the context cancelled.
pub data SendResult : Type 0 where
  sent failed cancelled : SendResult

-- The loop of `sendChunked` on the entries from `i` on: the batches that are sent. The fuel bounds
-- the rounds; each takes at least one entry.
unfoldable pub send_from : ℕ → (LogBatch → SendResult) → String → List LogEntry → List LogBatch
send_from zero send host es = []
send_from (suc fuel) send host [] = []
send_from (suc fuel) send host (e ∷ es) =
    let rest = send_from fuel send host (drop max_batch_size (e ∷ es)) in
    let batch : LogBatch = record { host = host; entries = take max_batch_size (e ∷ es) } in
    batch ∷ elim (send batch) [ cancelled ↦ [] | _ ↦ rest ]

unfoldable pub send_chunked : (LogBatch → SendResult) → Tailer → List LogEntry → List LogBatch
unfolding send_from
send_chunked send t es = send_from (length es) send t.host es

-- An event of the watcher, with the flags of its operation.
pub record FileEvent : Type 0 where
  pub path : String
  pub write : Bool
  pub rename : Bool
  pub remove : Bool
  pub create : Bool

-- The reopening of a created path: it is read from its start at the next write. Whether it could
-- be watched again is only logged.
after_create : String → Tailer × Bool → Tailer
unfolding set_offset
after_create p (t, false) = t
after_create p (t, true) = set_offset p 0 t

-- The new state, and the batches that are sent.
unfoldable pub handle_event :
    Disk → Time → (LogBatch → SendResult) → FileEvent → Tailer → Tailer × List LogBatch
unfolding read_new_lines send_chunked set_offset close_path open_and_seek_eof after_create
handle_event d now send ev t =
    if ev.write
    then (let r = read_new_lines d now ev.path t in (r.0, send_chunked send r.0 r.1))
    else if ev.rename || ev.remove
    then (set_offset ev.path 0 (close_path ev.path t), [])
    else if ev.create
    then (after_create ev.path (open_and_seek_eof d ev.path (close_path ev.path t)), [])
    else (t, [])
