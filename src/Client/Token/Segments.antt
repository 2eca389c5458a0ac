-- ===== src/Client/Token/Segments.antt =====
-- The token as a reader sees it: three segments between dots.
use theminidog.Base.{
  ℕ, ◌+◌, ◌<◌, ◌≡◌, refl, ◌∙◌, ap, String, some, List, [], ◌∷◌, ◌++◌, Bytes, codes, codes-of_codes,
  decimal, decimal-All, ◌==◌, if◌then◌else◌, arith, All, All-append,
}
use mathlib.Core.List.{append_assoc}
use theminidog.Client.Base64.{base64_url_encode, raw_url_decode}
use theminidog.Client.Base64.RoundTrip.{
  IsByte, IsTokenChar, raw_url_decode-base64_url_encode, base64_url_encode-IsTokenChar,
}
use theminidog.Client.Token.{header_json, claims_json, dot, signing_input, token_codes, mint_jwt}

prepend : ℕ → List (List ℕ) → List (List ℕ)
prepend c [] = (c ∷ []) ∷ []
prepend c (s ∷ ss) = (c ∷ s) ∷ ss

-- `strings.Split(s, ".")`
unfoldable pub split_dots : List ℕ → List (List ℕ)
unfolding prepend
split_dots [] = [] ∷ []
split_dots (c ∷ s) = let rest = split_dots s in if c == dot then [] ∷ rest else prepend c rest

split_dots-plain : (s : List ℕ) → All IsTokenChar s → split_dots s ≡ s ∷ []
unfolding split_dots prepend
split_dots-plain [] h = refl
split_dots-plain (c ∷ s) h = ground (arith, h.0.1, split_dots-plain s h.1)

split_dots-append :
    (s t : List ℕ) → All IsTokenChar s → split_dots (s ++ dot ∷ t) ≡ s ∷ split_dots t
unfolding split_dots prepend
split_dots-append [] t h = refl
split_dots-append (c ∷ s) t h = ground (arith, h.0.1, split_dots-append s t h.1)

All-lt : (s : List ℕ) → All (λ c. c < 128) s → All IsByte s
All-lt [] h = tt
All-lt (c ∷ s) h = (omega (arith, h.0), All-lt s h.1)

claims_json-IsByte : (e i : ℕ) → All IsByte (claims_json e i)
unfolding claims_json
claims_json-IsByte e i =
    let begins = codes "{\"exp\":" in
    let middle = codes ",\"iat\":" in
    let ends = codes ",\"iss\":\"miniobserv-agent\"}" in
    let issued = codes (decimal i) in
    let expires = codes (decimal e) in
    All-append IsByte begins (expires ++ (middle ++ (issued ++ ends))) (omega arith) (
      All-append IsByte expires (middle ++ (issued ++ ends)) (All-lt expires (decimal-All e)) (
        All-append IsByte middle (issued ++ ends) (omega arith)
          (All-append IsByte issued ends (All-lt issued (decimal-All i)) (omega arith))))

header_json-IsByte : All IsByte header_json
unfolding header_json
header_json-IsByte = omega arith

-- The header and the claims that a reader decodes from three segments, and the signature over the
-- first two.
pub record IsSigned (hmac : String → Bytes → Bytes) (unix : ℕ) (secret token : String)
    (header payload signature : List ℕ) : Type 0 where
  pub segments : split_dots (codes token) ≡ header ∷ payload ∷ signature ∷ []
  pub header_read : raw_url_decode header ≡ some header_json
  pub payload_read : raw_url_decode payload ≡ some (claims_json (unix + 86_400) unix)
  pub signature_read : raw_url_decode signature ≡ some (hmac secret (header ++ dot ∷ payload))

IsTokenChar-lt : (s : List ℕ) → All IsTokenChar s → All (λ c. c < 128) s
IsTokenChar-lt [] h = tt
IsTokenChar-lt (c ∷ s) h = (h.0.0, IsTokenChar-lt s h.1)

module _ (hmac : String → Bytes → Bytes)
    (bytes : (secret : String) (m : Bytes) → All IsByte (hmac secret m)) where
  pub mint_jwt-IsSigned :
      (unix : ℕ) (secret : String)
      → IsSigned hmac unix secret
          (mint_jwt hmac unix secret)
          (base64_url_encode header_json)
          (base64_url_encode (claims_json (unix + 86_400) unix))
          (base64_url_encode (hmac secret (signing_input unix)))
  unfolding mint_jwt token_codes signing_input
  mint_jwt-IsSigned unix secret =
      let h = base64_url_encode header_json in
      let claims = claims_json (unix + 86_400) unix in
      let p = base64_url_encode claims in
      let mac = hmac secret (h ++ dot ∷ p) in
      let s = base64_url_encode mac in
      let hc = base64_url_encode-IsTokenChar header_json header_json-IsByte in
      let pc = base64_url_encode-IsTokenChar claims (claims_json-IsByte (unix + 86_400) unix) in
      let sc = base64_url_encode-IsTokenChar mac (bytes secret (h ++ dot ∷ p)) in
      let P : ℕ → Type 0 = λ c. c < 128 in
      let ascii =
        All-append P (h ++ dot ∷ p) (dot ∷ s)
          (All-append P h (dot ∷ p) (IsTokenChar-lt h hc) (omega arith, IsTokenChar-lt p pc))
          (omega arith, IsTokenChar-lt s sc) in
      record {
        segments =
            ap split_dots (codes-of_codes ((h ++ dot ∷ p) ++ dot ∷ s) ascii)
            ∙ ap split_dots (append_assoc h (dot ∷ p) (dot ∷ s))
            ∙ split_dots-append h (p ++ dot ∷ s) hc
            ∙ ap (◌∷◌ h) (split_dots-append p s pc)
            ∙ ap (λ r. h ∷ p ∷ r) (split_dots-plain s sc);
        header_read = raw_url_decode-base64_url_encode header_json header_json-IsByte;
        payload_read =
            raw_url_decode-base64_url_encode claims (claims_json-IsByte (unix + 86_400) unix);
        signature_read = raw_url_decode-base64_url_encode mac (bytes secret (h ++ dot ∷ p));
      }
