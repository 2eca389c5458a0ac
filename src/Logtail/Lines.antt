-- ===== src/Logtail/Lines.antt =====
-- The lines of a tailed file: `bufio.Scanner` with `bufio.ScanLines` and a buffer of 64 KiB.
use theminidog.Base.{ℕ, ◌+◌, List, [], ◌∷◌, Bytes, ◌==◌, if◌then◌else◌}
use mathlib.Core.List.{reverse}

-- `dropCR`, on a line whose last byte stands first.
drop_cr : Bytes → Bytes
drop_cr [] = []
drop_cr (b ∷ bs) = if b == 13 then bs else b ∷ bs

-- The tokens from the bytes that are left. `cur` is the line so far, its last byte first, and `n`
-- its length. A last line without a newline is a token too; a line that fills the buffer ends the
-- scan (`bufio.ErrTooLong`).
unfoldable pub scan_lines : ℕ → Bytes → Bytes → List Bytes
unfolding drop_cr
scan_lines n cur [] = if n == 0 then [] else reverse (drop_cr cur) ∷ []
scan_lines n cur (b ∷ bs) =
    let closed = reverse (drop_cr cur) ∷ scan_lines 0 [] bs in
    let longer = scan_lines (n + 1) (b ∷ cur) bs in
    if b == 10 then closed else if n + 1 == 65536 then [] else longer

unfoldable pub lines : Bytes → List Bytes
unfolding scan_lines
lines bs = scan_lines 0 [] bs
