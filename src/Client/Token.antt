-- ===== src/Client/Token.antt =====
-- example/04-go-http-client/main.go: `jsonBase64URL` and `mintJWT`. `hmac` is HMAC-SHA256 of
-- crypto/hmac under a secret. `unix` is `time.Now().Unix()`, which is not negative. json.Marshal
-- writes the keys of a map in their order.
pub mod Segments
use theminidog.Base.{
  ℕ, ◌+◌, ◌<◌, ◌≡◌, refl, String, List, [], ◌∷◌, ◌++◌, Bytes, codes, of_codes, decimal, ◌==◌,
  if◌then◌else◌, arith,
}
use Prim.Native.String.{◌++◌ as text_append}
use theminidog.Client.Base64.{base64_url_encode}

-- `json.Marshal` of the two maps.
unfoldable pub header_json : Bytes
header_json = codes "{\"alg\":\"HS256\",\"typ\":\"JWT\"}"

unfoldable pub claims_json : ℕ → ℕ → Bytes
claims_json expires issued =
    codes "{\"exp\":"
    ++ (codes (decimal expires)
        ++ (codes ",\"iat\":"
            ++ (codes (decimal issued) ++ codes ",\"iss\":\"miniobserv-agent\"}")))

abbrev pub dot : ℕ
dot = b'.'

unfoldable pub signing_input : ℕ → List ℕ
unfolding header_json claims_json
signing_input unix =
    base64_url_encode header_json ++ dot ∷ base64_url_encode (claims_json (unix + 86_400) unix)

module _ (hmac : String → Bytes → Bytes) where
  unfoldable pub token_codes : ℕ → String → List ℕ
  unfolding signing_input
  token_codes unix secret =
      signing_input unix ++ dot ∷ base64_url_encode (hmac secret (signing_input unix))

  unfoldable pub mint_jwt : ℕ → String → String
  unfolding token_codes
  mint_jwt unix secret = of_codes (token_codes unix secret)

header_test : of_codes (base64_url_encode header_json) ≡ "eyJhbGciOiJIUzI1NiIsInR5cCI6IkpXVCJ9"
unfolding header_json base64_url_encode of_codes
header_test = refl

claims_test :
    of_codes (claims_json 1_700_086_400 1_700_000_000)
    ≡ "{\"exp\":1700086400,\"iat\":1700000000,\"iss\":\"miniobserv-agent\"}"
unfolding claims_json decimal of_codes
claims_test = refl
