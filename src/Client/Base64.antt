-- ===== src/Client/Base64.antt =====
-- example/04-go-http-client/main.go: `base64URLEncode`. `std_encode` is what it uses of the package
-- encoding/base64, `StdEncoding.EncodeToString` (RFC 4648, section 4), over the codes of ASCII
-- characters.
pub mod RoundTrip
use theminidog.Base.{
  ℕ, zero, suc, ◌+◌, ◌-◌, ◌*◌, ◌/◌, ◌%◌, ◌<◌, ◌≤◌, ◌≡◌, refl, sym, ◌∙◌, ap, Bool, true, false, ◌&&◌,
  ◌||◌, not, Option, none, some, List, [], ◌∷◌, ◌++◌, map, Bytes, codes, ltb, leb, ◌==◌, ==_iff,
  if◌then◌else◌, arith, All, Bool-cases, inl, inr,
}

-- The characters of the standard alphabet.
unfoldable pub std_char : ℕ → ℕ
std_char d =
    if ltb d 26
    then b'A' + d
    else if ltb d 52
    then b'a' + (d - 26)
    else if ltb d 62
    then b'0' + (d - 52)
    else if d == 62
    then b'+'
    else b'/'

unfoldable pub std_encode : Bytes → List ℕ
unfolding std_char
std_encode [] = []
std_encode (a ∷ []) = std_char (a / 4) ∷ std_char (a % 4 * 16) ∷ b'=' ∷ b'=' ∷ []
std_encode (a ∷ b ∷ []) =
    std_char (a / 4) ∷ std_char (a % 4 * 16 + b / 16) ∷ std_char (b % 16 * 4) ∷ b'=' ∷ []
std_encode (a ∷ b ∷ c ∷ r) =
    std_char (a / 4)
    ∷ std_char (a % 4 * 16 + b / 16)
    ∷ std_char (b % 16 * 4 + c / 64)
    ∷ std_char (c % 64)
    ∷ std_encode r

-- `strings.ReplaceAll` of one character by another.
unfoldable pub replace_all : ℕ → ℕ → List ℕ → List ℕ
replace_all old new = map (λ c. if c == old then new else c)

-- `strings.TrimRight(s, "=")`
unfoldable pub trim_equals : List ℕ → List ℕ
trim_equals [] = []
trim_equals (c ∷ s) =
    let rest = trim_equals s in
    elim rest [ [] ↦ if c == b'=' then [] else c ∷ [] | d ∷ t ↦ c ∷ d ∷ t ]

unfoldable pub base64_url_encode : Bytes → List ℕ
unfolding std_encode replace_all trim_equals
base64_url_encode bytes =
    trim_equals (replace_all b'/' b'_' (replace_all b'+' b'-' (std_encode bytes)))

-- The value of a character of the URL alphabet (RFC 4648, section 5).
unfoldable pub url_value : ℕ → Option ℕ
url_value c =
    if leb b'A' c && leb c b'Z'
    then some (c - b'A')
    else if leb b'a' c && leb c b'z'
    then some (c - b'a' + 26)
    else if leb b'0' c && leb c b'9'
    then some (c - b'0' + 52)
    else if c == b'-'
    then some 62
    else if c == b'_'
    then some 63
    else none

unfoldable pub url_values : List ℕ → Option (List ℕ)
url_values [] = some []
url_values (c ∷ s) = elim (url_value c) [
  | none ↦ none
  | some d ↦ elim (url_values s) [ none ↦ none | some ds ↦ some (d ∷ ds) ]
]

-- Four digits are three bytes; two or three digits at the end are one or two, with zero bits left.
unfoldable pub join_digits : List ℕ → Option Bytes
join_digits [] = some []
join_digits (p ∷ []) = none
join_digits (p ∷ q ∷ []) = if q % 16 == 0 then some ((p * 4 + q / 16) ∷ []) else none
join_digits (p ∷ q ∷ r ∷ []) =
    if r % 4 == 0 then some ((p * 4 + q / 16) ∷ (q % 16 * 16 + r / 4) ∷ []) else none
join_digits (p ∷ q ∷ r ∷ s ∷ t) = elim (join_digits t) [
  | none ↦ none
  | some bytes ↦ some ((p * 4 + q / 16) ∷ (q % 16 * 16 + r / 4) ∷ (r % 4 * 64 + s) ∷ bytes)
]

-- The decoding of base64url without padding, which a reader of a token does
-- (`base64.RawURLEncoding` in strict mode).
unfoldable pub raw_url_decode : List ℕ → Option Bytes
unfolding url_values url_value join_digits
raw_url_decode s = elim (url_values s) [ none ↦ none | some ds ↦ join_digits ds ]

base64_tests :
    (base64_url_encode (codes "any carnal pleas") ≡ codes "YW55IGNhcm5hbCBwbGVhcw")
    × (base64_url_encode (251 ∷ 255 ∷ []) ≡ codes "-_8")
    × (raw_url_decode (codes "-_8") ≡ some (251 ∷ 255 ∷ []))
unfolding base64_url_encode raw_url_decode
base64_tests = (refl, refl, refl)
