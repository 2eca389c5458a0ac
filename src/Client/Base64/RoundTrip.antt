-- ===== src/Client/Base64/RoundTrip.antt =====
-- What the encoder writes is read back.
use theminidog.Base.{
  ℕ, ◌+◌, ◌*◌, ◌/◌, ◌%◌, ◌<◌, ◌≡◌, refl, ◌∙◌, ap, sym, subst, false, some, List, [], ◌∷◌, ◌++◌, map,
  Bytes, ◌==◌, if◌then◌else◌, arith, All,
}
use theminidog.Client.Base64.{
  std_char, std_encode, replace_all, trim_equals, base64_url_encode, url_value, url_values,
  join_digits, raw_url_decode,
}

-- The digits of 6 bits, without padding.
digits_of : Bytes → List ℕ
digits_of [] = []
digits_of (a ∷ []) = (a / 4) ∷ (a % 4 * 16) ∷ []
digits_of (a ∷ b ∷ []) = (a / 4) ∷ (a % 4 * 16 + b / 16) ∷ (b % 16 * 4) ∷ []
digits_of (a ∷ b ∷ c ∷ r) =
    (a / 4) ∷ (a % 4 * 16 + b / 16) ∷ (b % 16 * 4 + c / 64) ∷ (c % 64) ∷ digits_of r

abbrev replaced : ℕ → ℕ → ℕ → ℕ
replaced old new c = if c == old then new else c

url_char : ℕ → ℕ
unfolding std_char
url_char d = replaced b'/' b'_' (replaced b'+' b'-' (std_char d))

abbrev pub IsByte : ℕ → Type 0
IsByte a = a < 256

abbrev IsDigit : ℕ → Type 0
IsDigit d = d < 64

url_char-ne : (d : ℕ) → (url_char d == b'=') ≡ false
unfolding url_char std_char
url_char-ne d = ground arith

url_value-url_char : (d : ℕ) → d < 64 → url_value (url_char d) ≡ some d
unfolding url_char std_char url_value
url_value-url_char d h = ground arith

trim_equals-keeps :
    (c : ℕ) (s : List ℕ) → (c == b'=') ≡ false → trim_equals (c ∷ s) ≡ c ∷ trim_equals s
unfolding trim_equals
trim_equals-keeps c s h = ground arith

-- Trimming leaves the characters of the alphabet.
trimmed :
    (ds s t : List ℕ)
    → trim_equals s ≡ t
    → trim_equals (map url_char ds ++ s) ≡ map url_char ds ++ t
trimmed [] s t e = e
trimmed (d ∷ ds) s t e =
    trim_equals-keeps (url_char d) (map url_char ds ++ s) (url_char-ne d)
    ∙ ap (◌∷◌ (url_char d)) (trimmed ds s t e)

base64_url_encode-digits :
    (bytes : Bytes) → base64_url_encode bytes ≡ map url_char (digits_of bytes)
unfolding base64_url_encode std_encode replace_all digits_of trim_equals url_char
base64_url_encode-digits [] = refl
base64_url_encode-digits (a ∷ []) = trimmed ((a / 4) ∷ (a % 4 * 16) ∷ []) (b'=' ∷ b'=' ∷ []) [] refl
base64_url_encode-digits (a ∷ b ∷ []) =
    trimmed ((a / 4) ∷ (a % 4 * 16 + b / 16) ∷ (b % 16 * 4) ∷ []) (b'=' ∷ []) [] refl
base64_url_encode-digits (a ∷ b ∷ c ∷ r) =
    trimmed ((a / 4) ∷ (a % 4 * 16 + b / 16) ∷ (b % 16 * 4 + c / 64) ∷ (c % 64) ∷ [])
      (replace_all b'/' b'_' (replace_all b'+' b'-' (std_encode r))) (map url_char (digits_of r))
      (base64_url_encode-digits r)

url_values-map : (ds : List ℕ) → All IsDigit ds → url_values (map url_char ds) ≡ some ds
unfolding url_values
url_values-map [] h = refl
url_values-map (d ∷ ds) h = ground (arith, url_value-url_char d h.0, url_values-map ds h.1)

digits_of-IsDigit : (bytes : Bytes) → All IsByte bytes → All IsDigit (digits_of bytes)
unfolding digits_of
digits_of-IsDigit [] h = tt
digits_of-IsDigit (a ∷ []) h = omega arith
digits_of-IsDigit (a ∷ b ∷ []) h = omega arith
digits_of-IsDigit (a ∷ b ∷ c ∷ r) h =
    (omega arith, (omega arith, (omega arith, (omega arith, digits_of-IsDigit r h.1.1.1))))

join_digits-digits_of :
    (bytes : Bytes) → All IsByte bytes → join_digits (digits_of bytes) ≡ some bytes
unfolding digits_of join_digits
join_digits-digits_of [] h = refl
join_digits-digits_of (a ∷ []) h = ground arith
join_digits-digits_of (a ∷ b ∷ []) h = ground arith
join_digits-digits_of (a ∷ b ∷ c ∷ r) h = ground (arith, join_digits-digits_of r h.1.1.1)

-- Every text of bytes comes back from its encoding.
pub raw_url_decode-base64_url_encode :
    (bytes : Bytes) → All IsByte bytes → raw_url_decode (base64_url_encode bytes) ≡ some bytes
unfolding raw_url_decode
raw_url_decode-base64_url_encode bytes h = ground (
  arith,
  base64_url_encode-digits bytes,
  url_values-map (digits_of bytes) (digits_of-IsDigit bytes h),
  join_digits-digits_of bytes h,
)

-- A digit is an ASCII character, and no dot.
abbrev pub IsTokenChar : ℕ → Type 0
IsTokenChar c = (c < 128) × ((c == b'.') ≡ false)

url_char-IsTokenChar : (d : ℕ) → d < 64 → IsTokenChar (url_char d)
unfolding url_char std_char
url_char-IsTokenChar d h = ground arith

map-IsTokenChar : (ds : List ℕ) → All IsDigit ds → All IsTokenChar (map url_char ds)
map-IsTokenChar [] h = tt
map-IsTokenChar (d ∷ ds) h = (url_char-IsTokenChar d h.0, map-IsTokenChar ds h.1)

pub base64_url_encode-IsTokenChar :
    (bytes : Bytes) → All IsByte bytes → All IsTokenChar (base64_url_encode bytes)
base64_url_encode-IsTokenChar bytes h =
    subst (All IsTokenChar) (sym (base64_url_encode-digits bytes))
      (map-IsTokenChar (digits_of bytes) (digits_of-IsDigit bytes h))
