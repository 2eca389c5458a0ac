-- ===== src/Logtail/Rejected.antt =====
-- A line that is blank only where it is cut, and what it does to its batch.
use theminidog.Base.{
  ℕ, suc, ◌≡◌, ◌≢◌, refl, true, false, none, List, [], ◌∷◌, String, Time, Bytes, is_blank_bytes,
  arith, Bool-cases, inl, inr, subst,
}
use mathlib.Core.List.{Memᴰ}
use theminidog.Model.Log.{LogEntry, LogBatch, validate_entry, validate_entries, validate_batch}
use theminidog.Logtail.Level.{parse_level}
use theminidog.Logtail.Tailer.{entries_of}
use theminidog.Logtail.Entries.{cut}

blank_rejected : (e : LogEntry) → is_blank_bytes e.message ≡ true → validate_entry e ≢ none
unfolding validate_entry
blank_rejected e b = ground arith

entry_rejected :
    (i : ℕ) (es : List LogEntry) (e : LogEntry)
    → Memᴰ e es
    → validate_entry e ≢ none
    → validate_entries i es ≢ none
unfolding validate_entries
entry_rejected i [] e m bad = elim m [ ]
entry_rejected i (e' ∷ es) e (Memᴰ.head p) bad = λ h. bad (ground arith)
entry_rejected i (e' ∷ es) e (Memᴰ.tail m) bad =
    λ h. entry_rejected (suc i) es e m bad (ground arith)

mem-entries_of :
    (now : Time) (host path : String) (ls : List Bytes) (line : Bytes)
    → Memᴰ line ls
    → is_blank_bytes line ≡ false
    → Memᴰ
        (record {
          time = now;
          host = host;
          path = path;
          level = parse_level (cut line);
          message = cut line;
        })
        (entries_of now host path ls)
unfolding entries_of
mem-entries_of now host path [] line m b = elim m [ ]
mem-entries_of now host path (l ∷ ls) line (Memᴰ.head p) b = rw (← p, b) (Memᴰ.head refl)
mem-entries_of now host path (l ∷ ls) line (Memᴰ.tail m) b =
    let ih = mem-entries_of now host path ls line m b in
    elim (Bool-cases (is_blank_bytes l)) [ inl e ↦ rw e ih | inr e ↦ rw e (Memᴰ.tail ih) ]

accepted_entries : (b : LogBatch) → validate_batch b ≡ none → validate_entries 0 b.entries ≡ none
unfolding validate_batch
accepted_entries b h = ground arith

-- The tailer skips blank lines, and cuts the others to 4096 bytes afterwards. A line that is not
-- blank but begins with at least 4096 bytes of white space becomes a blank message, and then the
-- server rejects every batch that has the entries of its read, whatever its host and the other
-- lines are.
pub cut_line_rejected :
    (now : Time) (host path : String) (ls : List Bytes) (line : Bytes) (b : LogBatch)
    → Memᴰ line ls
    → is_blank_bytes line ≡ false
    → is_blank_bytes (cut line) ≡ true
    → b.entries ≡ entries_of now host path ls
    → validate_batch b ≢ none
cut_line_rejected now host path ls line b m seen hidden e =
    let bad =
      entry_rejected 0 (entries_of now host path ls) _ (mem-entries_of now host path ls line m seen)
        (blank_rejected _ hidden) in
    λ h. bad (subst (λ es. validate_entries 0 es ≡ none) e (accepted_entries b h))
