-- ===== src/Logtail/Level/Structured.antt =====
-- internal/agent/logtail/parser.go on the lines of structured logs.
use theminidog.Base.{
  ℕ, ◌≡◌, refl, sym, ap, ◌∙◌, subst, inl, inr, Bool, true, false, not, ◌&&◌, ◌||◌, none, some, List,
  [], ◌∷◌, String, Bytes, runes, codes, ◌==◌, ◌++◌, All, arith, Bool-cases, IsAscii, runes-ascii,
}
use mathlib.Core.List.{reverse, reverse-cons, append-nil, append_assoc}
use theminidog.Logtail.Level.{
  Rest, strip, after, quote, capture, text, run, lookup_word, is_white, is_word, lower, same_letter,
  match_here, search_from, or_else, run_then, word_then, capture_then, re_json_level, level_norm,
  norm, first_level, parse_level,
}

run_then-stop :
    (p : ℕ → Bool) (k : Rest) (xs : List ℕ) (c : ℕ) (cs r : List ℕ)
    → All (λ x. p x ≡ true) xs
    → p c ≡ false
    → k (c ∷ cs) ≡ some r
    → run_then p k (xs ++ c ∷ cs) ≡ some r
unfolding run_then or_else
run_then-stop p k [] c cs r h stop e = rw stop e
run_then-stop p k (x ∷ xs) c cs r h stop e =
    rw h.0 (rw (run_then-stop p k xs c cs r h.1 stop e) refl)

word_then-stop :
    (v : List ℕ) (k : List ℕ → Rest) (xs : List ℕ) (c : ℕ) (cs r : List ℕ)
    → All (λ x. is_word x ≡ true) xs
    → is_word c ≡ false
    → k (reverse v ++ xs) (c ∷ cs) ≡ some r
    → word_then v k (xs ++ c ∷ cs) ≡ some r
unfolding word_then or_else
word_then-stop v k [] c cs r h stop e =
    rw stop (subst (λ w. k w (c ∷ cs) ≡ some r) (append-nil (reverse v)) e)
word_then-stop v k (x ∷ xs) c cs r h stop e =
    let moved : reverse v ++ x ∷ xs ≡ reverse (x ∷ v) ++ xs =
      sym (append_assoc (reverse v) (x ∷ []) xs) ∙ ap (λ l. l ++ xs) (sym (reverse-cons x v)) in
    let later = subst (λ w. k w (c ∷ cs) ≡ some r) moved e in
    rw h.0 (rw (word_then-stop (x ∷ v) k xs c cs r h.1 stop later) refl)

-- The value of a key, behind its quotation mark.
value_matched :
    (w r : List ℕ) (l : String)
    → All (λ x. is_word x ≡ true) w
    → level_norm w ≡ some l
    → match_here (quote ∷ capture ∷ quote ∷ []) [] (b'"' ∷ w ++ b'"' ∷ r) ≡ some w
unfolding match_here strip same_letter after capture_then is_word level_norm lookup_word
value_matched [] r l h e = ground (arith, e)
value_matched (x ∷ w) r l h e =
    rw h.0 (word_then-stop (x ∷ []) (match_here (quote ∷ [])) w b'"' r (x ∷ w) h.1 refl refl)

-- The key of the level with its value, and white space on both sides of the colon.
abbrev pub field_then : List ℕ → List ℕ → List ℕ → List ℕ → List ℕ
field_then sp sp' w r = codes "\"level\"" ++ (sp ++ (b':' ∷ (sp' ++ (b'"' ∷ (w ++ (b'"' ∷ r))))))

field_matched :
    (sp sp' w r : List ℕ) (l : String)
    → All (λ x. is_white x ≡ true) sp
    → All (λ x. is_white x ≡ true) sp'
    → All (λ x. is_word x ≡ true) w
    → level_norm w ≡ some l
    → match_here re_json_level [] (field_then sp sp' w r) ≡ some w
unfolding match_here strip same_letter after re_json_level or_else is_white lower
field_matched sp sp' w r l hs hs' hw e =
    let value = value_matched w r l hw e in
    let spaced =
      run_then-stop is_white (match_here (quote ∷ capture ∷ quote ∷ []) []) sp' b'"'
        (w ++ (b'"' ∷ r)) w hs' refl value in
    let named =
      run_then-stop is_white
        (match_here (text (codes ":") ∷ run is_white ∷ quote ∷ capture ∷ quote ∷ []) []) sp b':'
        (sp' ++ (b'"' ∷ (w ++ (b'"' ∷ r)))) w hs refl spaced in
    rw named refl

-- A text in which no quotation mark stands before an l or an s, so that it begins no key for the
-- level.
unfoldable pub no_key : List ℕ → Bool
unfolding same_letter
no_key [] = true
no_key (c ∷ []) = true
no_key (c ∷ d ∷ r) = not (c == b'"' && (same_letter b'l' d || same_letter b's' d)) && no_key (d ∷ r)

quoted : (c : ℕ) → same_letter b'"' c ≡ c == b'"'
unfolding same_letter lower
quoted c = ground arith

unless : (a b d : Bool) → not (a && (b || d)) ≡ true → a ≡ true → (b ≡ false) × (d ≡ false)
unless a b d h e = ground (arith, h, e)

missed :
    (c d : ℕ) (r : List ℕ)
    → not (c == b'"' && (same_letter b'l' d || same_letter b's' d)) ≡ true
    → match_here re_json_level [] (c ∷ d ∷ r) ≡ none
unfolding match_here strip after re_json_level or_else
missed c d r h = elim (Bool-cases (c == b'"')) [
  | inl e ↦
      let (no_l, no_s) = unless (c == b'"') (same_letter b'l' d) (same_letter b's' d) h e in
      rw (quoted c ∙ e) (rw no_l (rw no_s refl))
  | inr e ↦ rw (quoted c ∙ e) refl
]

both : (a b : Bool) → a && b ≡ true → (a ≡ true) × (b ≡ true)
both a b h = ground (arith, h)

quote_apart : (a : Bool) → not (a && false) ≡ true
quote_apart a = ground arith

skipped :
    (before r : List ℕ)
    → no_key before ≡ true
    → search_from re_json_level (before ++ b'"' ∷ r) ≡ search_from re_json_level (b'"' ∷ r)
unfolding no_key search_from or_else same_letter lower
skipped [] r h = refl
skipped (c ∷ []) r h = rw (missed c b'"' r (quote_apart (c == b'"'))) refl
skipped (c ∷ d ∷ before) r h =
    let (head, tail) =
      both (not (c == b'"' && (same_letter b'l' d || same_letter b's' d))) (no_key (d ∷ before))
        h in
    rw (missed c d (before ++ b'"' ∷ r) head) (skipped (d ∷ before) r tail)

white-IsAscii : (xs : List ℕ) → All (λ x. is_white x ≡ true) xs → IsAscii xs
unfolding is_white
white-IsAscii [] h = tt
white-IsAscii (x ∷ xs) h = (let e = h.0 in ground (arith, e), white-IsAscii xs h.1)

runes-field_then :
    (sp sp' w r : Bytes)
    → IsAscii sp
    → IsAscii sp'
    → IsAscii w
    → runes (field_then sp sp' w r) ≡ field_then sp sp' w (runes r)
runes-field_then sp sp' w r hs hs' hw =
    let behind = w ++ (b'"' ∷ r) in
    let spaced = sp' ++ (b'"' ∷ behind) in
    let key = codes "\"level\"" in
    runes-ascii key (sp ++ (b':' ∷ spaced))
      (refl, (refl, (refl, (refl, (refl, (refl, (refl, tt)))))))
    ∙ ap (◌++◌ key) (
        runes-ascii sp (b':' ∷ spaced) hs
        ∙ ap (◌++◌ sp) (
            runes-ascii (b':' ∷ []) spaced (refl, tt)
            ∙ ap (◌∷◌ b':') (
                runes-ascii sp' (b'"' ∷ behind) hs'
                ∙ ap (◌++◌ sp') (
                    runes-ascii (b'"' ∷ []) behind (refl, tt)
                    ∙ ap (◌∷◌ b'"') (
                        runes-ascii w (b'"' ∷ r) hw
                        ∙ ap (◌++◌ w) (runes-ascii (b'"' ∷ []) r (refl, tt)))))))

-- For a line of ASCII characters up to the value of a key "level", with any white space on both
-- sides of its colon, in which no quotation mark before the key stands before a letter l or s in
-- either case, and whose value is a word that the table of levels has, in any case: `ParseLevel`
-- gives the level of the table, whatever bytes stand behind the value.
pub parse_level-field :
    (before sp sp' w behind : Bytes) (l : String)
    → IsAscii before
    → no_key before ≡ true
    → All (λ x. is_white x ≡ true) sp
    → All (λ x. is_white x ≡ true) sp'
    → IsAscii w
    → All (λ x. is_word x ≡ true) w
    → level_norm w ≡ some l
    → parse_level (before ++ field_then sp sp' w behind) ≡ l
unfolding parse_level norm first_level search_from or_else
parse_level-field before sp sp' w behind l hb key hs hs' ha hw e =
    let decoded =
      runes-ascii before (field_then sp sp' w behind) hb
      ∙ ap (◌++◌ before)
          (runes-field_then sp sp' w behind (white-IsAscii sp hs) (white-IsAscii sp' hs') ha) in
    let after_key : List ℕ = field_then sp sp' w (runes behind) in
    let at_key : search_from re_json_level (before ++ after_key) ≡ some w =
      skipped before _ key ∙ rw (field_matched sp sp' w (runes behind) l hs hs' hw e) refl in
    rw decoded (rw at_key (rw e refl))
