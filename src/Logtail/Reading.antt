-- ===== src/Logtail/Reading.antt =====
-- What a tailer reads of a growing file.
use theminidog.Base.{
  ℕ, ◌+◌, ◌<◌, ◌≡◌, ◌≢◌, refl, sym, ◌∙◌, true, false, some, List, [], ◌∷◌, ◌++◌, String, Time,
  Bytes, lookup, lookup-insert_self, if◌then◌else◌, ltb, ◌==◌, length, arith, All,
}
use theminidog.Logtail.Lines.{scan_lines, lines}
use theminidog.Logtail.Tailer.{
  Disk, Tailer, set_offset, entries_of, handle_of, read_file, read_handle, read_new_lines,
  open_and_seek_eof,
}

-- Every line, from a line of `n` bytes on, stays below the buffer of the scanner.
abbrev pub Fits : ℕ → Bytes → Type 0
Fits n [] = Unit {0}
Fits n (b ∷ bs) = elim (b == 10) [ true ↦ Fits 0 bs | false ↦ (n + 1 < 65536) × Fits (n + 1) bs ]

scan_lines-append :
    (n : ℕ) (cur xs ys : Bytes)
    → Fits n xs
    → scan_lines n cur (xs ++ 10 ∷ ys) ≡ scan_lines n cur (xs ++ 10 ∷ []) ++ scan_lines 0 [] ys
unfolding scan_lines
scan_lines-append n cur [] ys f = refl
scan_lines-append n cur (b ∷ xs) ys f =
    ground (arith, scan_lines-append 0 [] xs ys, scan_lines-append (n + 1) (b ∷ cur) xs ys)

-- A file that ends in a newline, and what is appended to it later, read one after the other give
-- the lines of the whole: none is lost, split or read twice.
pub lines-append :
    (xs ys : Bytes) → Fits 0 xs → lines (xs ++ 10 ∷ ys) ≡ lines (xs ++ 10 ∷ []) ++ lines ys
unfolding lines
lines-append xs ys f = scan_lines-append 0 [] xs ys f

entries_of-append :
    (now : Time) (host path : String) (xs ys : List Bytes)
    → entries_of now host path (xs ++ ys)
      ≡ entries_of now host path xs ++ entries_of now host path ys
unfolding entries_of
entries_of-append now host path [] ys = refl
entries_of-append now host path (x ∷ xs) ys = ground (arith, entries_of-append now host path xs ys)

module _ (d : Disk) (now : Time) (p : String) (f : ℕ) where
  -- A write event on an open file, by what has become of its size.
  read_new_lines_lem :
      (t : Tailer) (from size : ℕ)
      → lookup p t.files ≡ some f
      → lookup p t.offsets ≡ some from
      → d.size f ≡ some size
      → ((n : ℕ) → d.seekable f n ≡ true)
      → read_new_lines d now p t ≡ (
          if size == from
          then (t, [])
          else if ltb size from
          then if size == 0 then (set_offset p 0 t, []) else (
            set_offset p size (set_offset p 0 t),
            entries_of now t.host p (lines (d.tail f 0)),
          )
          else (set_offset p size t, entries_of now t.host p (lines (d.tail f from))))
  unfolding read_new_lines handle_of read_handle read_file set_offset
  read_new_lines_lem t from size open_already at sized s =
      ground (arith, lookup-insert_self p 0 t.offsets, s from, s 0)

-- The file holds `bytes` from byte `n` on, up to its end.
pub record Holds (d : Disk) (f n : ℕ) (bytes : Bytes) : Type 0 where
  pub sized : d.size f ≡ some (n + length bytes)
  pub held : d.tail f n ≡ bytes
  pub seeks : (k : ℕ) → d.seekable f k ≡ true

read_new_lines-Holds :
    (d : Disk) (now : Time) (p : String) (f n : ℕ) (bytes : Bytes) (t : Tailer)
    → lookup p t.files ≡ some f
    → lookup p t.offsets ≡ some n
    → Holds d f n bytes
    → ((read_new_lines d now p t).1 ≡ entries_of now t.host p (lines bytes))
      × ((read_new_lines d now p t).0.host ≡ t.host)
      × (lookup p (read_new_lines d now p t).0.files ≡ some f)
      × (lookup p (read_new_lines d now p t).0.offsets ≡ some (n + length bytes))
unfolding set_offset entries_of lines
read_new_lines-Holds d now p f n [] t o a h =
    ground (arith, read_new_lines_lem d now p f t n (n + 0) o a h.sized h.seeks)
read_new_lines-Holds d now p f n (b ∷ bs) t o a h = ground (
  arith,
  read_new_lines_lem d now p f t n (n + length (b ∷ bs)) o a h.sized h.seeks,
  lookup-insert_self p (n + length (b ∷ bs)) t.offsets,
  h.held,
)

opened_at_end :
    (d : Disk) (p : String) (f n : ℕ) (t : Tailer)
    → d.open_file p ≡ some f
    → d.size f ≡ some n
    → (lookup p (open_and_seek_eof d p t).0.files ≡ some f)
      × (lookup p (open_and_seek_eof d p t).0.offsets ≡ some n)
      × ((open_and_seek_eof d p t).0.host ≡ t.host)
unfolding open_and_seek_eof
opened_at_end d p f n t o z =
    ground (arith, lookup-insert_self p f t.files, lookup-insert_self p n t.offsets)

-- A file that is open at its end when the tailer starts, and to which a line and then more bytes
-- are appended with a write event each: the entries of the two reads are those of the lines of
-- what was appended, in order. What the file held before is never read, and no line is lost or
-- read twice.
pub appended_twice :
    (before d1 d2 : Disk) (now : Time) (p : String) (f n : ℕ) (xs ys : Bytes) (t : Tailer)
    → before.open_file p ≡ some f
    → before.size f ≡ some n
    → Holds d1 f n (xs ++ 10 ∷ [])
    → Holds d2 f (n + length (xs ++ 10 ∷ [])) ys
    → Fits 0 xs
    → (read_new_lines d1 now p (open_and_seek_eof before p t).0).1
        ++ (read_new_lines d2 now p (read_new_lines d1 now p (open_and_seek_eof before p t).0).0).1
      ≡ entries_of now t.host p (lines (xs ++ 10 ∷ ys))
appended_twice before d1 d2 now p f n xs ys t opened sized h1 h2 fits =
    let start = open_and_seek_eof before p t in
    let at_end : (lookup p start.0.files ≡ some f)
        × (lookup p start.0.offsets ≡ some n)
        × (start.0.host ≡ t.host) =
      opened_at_end before p f n t opened sized in
    let one = read_new_lines-Holds d1 now p f n (xs ++ 10 ∷ []) start.0 at_end.0 at_end.1 h1 in
    let two =
      read_new_lines-Holds d2 now p f (n + length (xs ++ 10 ∷ [])) ys
        (read_new_lines d1 now p start.0).0 one.2 one.3 h2 in
    rw (one.0, two.0, one.1, at_end.2, lines-append xs ys fits)
      (sym (entries_of-append now t.host p (lines (xs ++ 10 ∷ [])) (lines ys)))

scan_lines_long :
    (n : ℕ) (cur long rest : Bytes)
    → All (λ b. b ≢ 10) long
    → n < 65536
    → n + length long ≡ 65536
    → scan_lines n cur (long ++ rest) ≡ []
unfolding scan_lines
scan_lines_long n cur [] rest a l e = absurd (omega arith)
scan_lines_long n cur (b ∷ long) rest a l e =
    ground (arith, scan_lines_long (n + 1) (b ∷ cur) long rest a.1)

-- Where 64 KiB without a newline stand at the offset, the scanner gives up: whatever follows them,
-- the read has no entries, and yet the offset goes to the end of the file, so that none of what
-- was appended is ever sent.
pub long_line_lost :
    (d : Disk) (now : Time) (p : String) (f n : ℕ) (long rest : Bytes) (t : Tailer)
    → lookup p t.files ≡ some f
    → lookup p t.offsets ≡ some n
    → Holds d f n (long ++ rest)
    → All (λ b. b ≢ 10) long
    → length long ≡ 65536
    → ((read_new_lines d now p t).1 ≡ [])
      × (lookup p (read_new_lines d now p t).0.offsets ≡ some (n + length (long ++ rest)))
unfolding lines entries_of
long_line_lost d now p f n long rest t o a h free full =
    let r = read_new_lines-Holds d now p f n (long ++ rest) t o a h in
    (r.0 ∙ rw (scan_lines_long 0 [] long rest free (omega arith) (omega arith)), r.3)
