-- ===== src/Logtail/Entries.antt =====
-- The tailer's entries against the validation of the server.
use theminidog.Base.{
  ℕ, zero, suc, ◌≡◌, refl, ◌∙◌, true, false, Option, none, some, List, [], ◌∷◌, String, Time, Bytes,
  is_zero, is_blank, is_blank_bytes, runes, contains, if◌then◌else◌, ltb, length, take, drop, All,
  All-take, All-drop, map, codes, arith, Bool-cases, inl, inr,
}
use theminidog.Model.Log.{
  LogEntry, LogBatch, valid_log_levels, validate_entry, validate_entries, validate_batch,
}
use theminidog.Logtail.Level.{
  parse_level, level_norm, first_level, norm, lookup_word, level_table, same_word, lower,
  search_from, match_here, re_json_level, re_bracketed, re_prefixed, re_first_word,
}
use theminidog.Logtail.Lines.{lines}
use theminidog.Logtail.Chunks.{IsBatchOf, send_chunked-entries}
use theminidog.Logtail.Tailer.{
  Disk, Tailer, SendResult, sent, failed, cancelled, max_batch_size, FileEvent, max_line_bytes,
  entries_of, send_from, send_chunked, read_file, read_new_lines, offset, set_offset, handle_of,
  read_handle, handle_event,
}

abbrev Valid : Option String → Type 0
Valid none = Unit {0}
Valid (some l) = contains l valid_log_levels ≡ true

lookup_word-Valid :
    (w : List ℕ) (m : List (String × String))
    → All (λ e. contains e.1 valid_log_levels ≡ true) m
    → Valid (lookup_word w m)
unfolding lookup_word
lookup_word-Valid w [] h = tt
lookup_word-Valid w ((k, v) ∷ m) h = elim (Bool-cases (same_word (codes k) w)) [
  | inl e ↦ rw e h.0
  | inr e ↦ rw e (lookup_word-Valid w m h.1)
]

norm-Valid : (w : Option (List ℕ)) → Valid (norm w)
unfolding norm level_norm contains
norm-Valid none = tt
norm-Valid (some w) = lookup_word-Valid (map lower w) level_table (
  refl,
  (refl, (refl, (refl, (refl, (refl, (refl, (refl, (refl, (refl, (refl, (refl, tt))))))))))),
)

first_level-Valid :
    (os : List (Option String)) → All Valid os → contains (first_level os) valid_log_levels ≡ true
unfolding first_level contains
first_level-Valid [] h = refl
first_level-Valid (some l ∷ os) h = h.0
first_level-Valid (none ∷ os) h = first_level-Valid os h.1

four_found :
    (a b c d : Option (List ℕ))
    → contains (first_level (norm a ∷ norm b ∷ norm c ∷ norm d ∷ [])) valid_log_levels ≡ true
four_found a b c d =
    first_level-Valid (norm a ∷ norm b ∷ norm c ∷ norm d ∷ [])
      (norm-Valid a, (norm-Valid b, (norm-Valid c, (norm-Valid d, tt))))

-- Whatever the line, `ParseLevel` gives one of the four levels that the server accepts.
pub parse_level_known : (line : Bytes) → contains (parse_level line) valid_log_levels ≡ true
unfolding parse_level
parse_level_known line =
    let cs = runes line in
    four_found (search_from re_json_level cs) (search_from re_bracketed cs)
      (match_here re_prefixed [] cs) (match_here re_first_word [] cs)

abbrev pub cut : Bytes → Bytes
cut line = if ltb max_line_bytes (length line) then take max_line_bytes line else line

-- A line that is not blank is not blank where it is cut.
abbrev pub IsVisible : Bytes → Type 0
IsVisible line = is_blank_bytes line ≡ false → is_blank_bytes (cut line) ≡ false

abbrev pub IsAccepted : LogEntry → Type 0
IsAccepted e = validate_entry e ≡ none

module _ (now : Time) (host path : String) (later : is_zero now ≡ false)
    (named : is_blank host ≡ false) where
  one-IsAccepted :
      (message : Bytes)
      → is_blank_bytes message ≡ false
      → IsAccepted (record {
        time = now;
        host = host;
        path = path;
        level = parse_level message;
        message = message;
      })
  unfolding validate_entry
  one-IsAccepted message m = rw (named, m, later, parse_level_known message)

  entries_of-All :
      (ls : List Bytes) → All IsVisible ls → All IsAccepted (entries_of now host path ls)
  unfolding entries_of
  entries_of-All [] v = tt
  entries_of-All (line ∷ ls) v = elim (Bool-cases (is_blank_bytes line)) [
    | inl e ↦ rw e (entries_of-All ls v.1)
    | inr e ↦ rw e (one-IsAccepted (cut line) (v.0 e), entries_of-All ls v.1)
  ]

validate_entries-none :
    (i : ℕ) (es : List LogEntry) → All IsAccepted es → validate_entries i es ≡ none
unfolding validate_entries
validate_entries-none i [] a = refl
validate_entries-none i (e ∷ es) a = ground (arith, a.0, validate_entries-none (suc i) es a.1)

validate_batch-none :
    (host : String) (b : LogBatch)
    → is_blank host ≡ false
    → IsBatchOf host b
    → All IsAccepted b.entries
    → validate_batch b ≡ none
unfolding validate_batch
validate_batch-none host b named s a =
    ground (arith, validate_entries-none 0 b.entries a, s.not_empty, s.within, s.from_host)

All-unless_cancelled :
    (r : SendResult) (bs : List LogBatch)
    → All (λ b. All IsAccepted b.entries) bs
    → All (λ b. All IsAccepted b.entries) (elim r [ cancelled ↦ [] | _ ↦ bs ])
All-unless_cancelled sent bs a = a
All-unless_cancelled failed bs a = a
All-unless_cancelled cancelled bs a = tt

send_from-All :
    (fuel : ℕ) (send : LogBatch → SendResult) (host : String) (es : List LogEntry)
    → All IsAccepted es
    → All (λ b. All IsAccepted b.entries) (send_from fuel send host es)
unfolding send_from
send_from-All zero send host es a = tt
send_from-All (suc fuel) send host [] a = tt
send_from-All (suc fuel) send host (e ∷ es) a = (
  All-take IsAccepted max_batch_size (e ∷ es) a,
  All-unless_cancelled (send _) (send_from fuel send host (drop max_batch_size (e ∷ es))) (
      send_from-All fuel send host (drop max_batch_size (e ∷ es))
        (All-drop IsAccepted max_batch_size (e ∷ es) a)),
)

both_accepted :
    (host : String) (bs : List LogBatch)
    → is_blank host ≡ false
    → All (IsBatchOf host) bs
    → All (λ b. All IsAccepted b.entries) bs
    → All (λ b. validate_batch b ≡ none) bs
both_accepted host [] n s a = tt
both_accepted host (b ∷ bs) n s a =
    (validate_batch-none host b n s.0 a.0, both_accepted host bs n s.1 a.1)

send_chunked-accepted :
    (send : LogBatch → SendResult) (t : Tailer) (es : List LogEntry)
    → is_blank t.host ≡ false
    → All IsAccepted es
    → All (λ b. validate_batch b ≡ none) (send_chunked send t es)
send_chunked-accepted send t es n a =
    both_accepted t.host (send_chunked send t es) n (send_chunked-entries send t es).0
      (unfold send_chunked in send_from-All (length es) send t.host es a)

-- The lines that a write event reads, wherever the file is read from.
abbrev pub AllVisible : Disk → Type 0
AllVisible d = (f n : ℕ) → All IsVisible (lines (d.tail f n))

module _ (d : Disk) (now : Time) (later : is_zero now ≡ false) (seen : AllVisible d) where
  abbrev pub Accepts : Tailer → Tailer × List LogEntry → Type 0
  Accepts t r = (r.0.host ≡ t.host) × All IsAccepted r.1

  read_file-Accepts :
      (p : String) (f size : ℕ) (t : Tailer)
      → is_blank t.host ≡ false
      → Accepts t (read_file d now p f size t)
  unfolding read_file set_offset
  read_file-Accepts p f size t named =
      let old = offset p t in
      let start = offset p (set_offset p 0 t) in
      ground (
        arith,
        entries_of-All now t.host p later named (lines (d.tail f old)) (seen f old),
        entries_of-All now t.host p later named (lines (d.tail f start)) (seen f start),
      )

  handle_of-host :
      (p : String) (t : Tailer) (h : ℕ × Tailer) → handle_of d p t ≡ some h → h.1.host ≡ t.host
  unfolding handle_of
  handle_of-host p t h e = ground arith

  sized-Accepts :
      (p : String) (f : ℕ) (o : Option ℕ) (t : Tailer)
      → is_blank t.host ≡ false
      → Accepts t (elim o [ none ↦ (t, []) | some n ↦ read_file d now p f n t ])
  sized-Accepts p f none t named = (refl, tt)
  sized-Accepts p f (some n) t named = read_file-Accepts p f n t named

  read_handle-Accepts :
      (p : String) (o : Option (ℕ × Tailer)) (t : Tailer)
      → is_blank t.host ≡ false
      → ((h : ℕ × Tailer) → o ≡ some h → h.1.host ≡ t.host)
      → Accepts t (read_handle d now p o t)
  unfolding read_handle
  read_handle-Accepts p none t named same = (refl, tt)
  read_handle-Accepts p (some (f, t')) t named same =
      let e = same (f, t') refl in
      let r = sized-Accepts p f (d.size f) t' (rw e named) in (r.0 ∙ e, r.1)

  pub read_new_lines-Accepts :
      (p : String) (t : Tailer) → is_blank t.host ≡ false → Accepts t (read_new_lines d now p t)
  unfolding read_new_lines
  read_new_lines-Accepts p t named =
      read_handle-Accepts p (handle_of d p t) t named (handle_of-host p t)

  -- What the agent sends the server accepts: every batch that the tailer sends on an event passes
  -- `LogBatch.Validate`, at a time that is not zero, for a tailer whose host is not blank, and if no
  -- line that it reads is blank in its first 4096 bytes without being blank.
  pub handle_event-accepted :
      (send : LogBatch → SendResult) (ev : FileEvent) (t : Tailer)
      → is_blank t.host ≡ false
      → All (λ b. validate_batch b ≡ none) (handle_event d now send ev t).1
  unfolding handle_event
  handle_event-accepted send ev t named =
      let r = read_new_lines-Accepts ev.path t named in
      ground (
        arith,
        send_chunked-accepted send (read_new_lines d now ev.path t).0
            (read_new_lines d now ev.path t).1 (rw r.0 named) r.1,
      )
