-- ===== src/Tests/Client.antt =====
-- example/04-go-http-client: witnesses and tests. Time is 1000 s and a half after Go's zero time.
use theminidog.Base.{
  ◌≡◌, ℕ, ◌%◌, ◌==◌, refl, ap, Bool, true, false, Option, none, some, [], ◌∷◌, String, Time, pos,
  seconds, length, str_eq, if◌then◌else◌, arith, codes, Bytes, eqb_ℤ,
}
use theminidog.Storage.Metrics as Store
use theminidog.Storage.Metrics.{MetricSelect, Rows, rows, QueryPoint, QueryParams, refused}
use theminidog.Api.Responses.{Body, ingested, points}
use theminidog.Api.Router.{Backend}
use theminidog.Client.Base64.{base64_url_encode, raw_url_decode}
use theminidog.Client.Base64.RoundTrip.{raw_url_decode-base64_url_encode}
use theminidog.Client.Token.Segments.{split_dots}
use theminidog.Client.Requests.{Wire, unhealthy, run_client, trim_slashes}
use theminidog.Client.Session.{end_slashes}
use theminidog.Client.Served.{at_server}
use theminidog.Client.Served.Slashes.{run_client-unhealthy}
use theminidog.Tests.Numbers.{numbers}
use theminidog.Tests.Http.{backend}

raw_url_decode-base64_url_encode_example :
    raw_url_decode (base64_url_encode (251 ∷ 255 ∷ 0 ∷ 62 ∷ [])) ≡ some (251 ∷ 255 ∷ 0 ∷ 62 ∷ [])
raw_url_decode-base64_url_encode_example =
    raw_url_decode-base64_url_encode (251 ∷ 255 ∷ 0 ∷ 62 ∷ []) (omega arith)

-- In the place of SHA-256, the length.
abbrev short_hmac : String → Bytes → Bytes
short_hmac secret m = (length m % 256) ∷ []

-- Three segments are accepted.
abbrev three_segments : String → String → Bool
three_segments secret token = length (split_dots (codes token)) == 3

abbrev half_past : ℕ
half_past = 1_000_500_000_000

abbrev stamps : Time → String
stamps t =
    if eqb_ℤ t (pos half_past)
    then "now"
    else if eqb_ℤ t (pos 700_500_000_000)
    then "from"
    else "to"

abbrev read_stamp : String → Option Time
read_stamp s =
    if str_eq s "now"
    then some (seconds 1000)
    else if str_eq s "from"
    then some (seconds 700)
    else some (seconds 1060)

abbrev one_point : MetricSelect → Rows (QueryPoint ℕ)
one_point s = rows (some (record { time = s.to; value = 37 }) ∷ []) false

abbrev server : Backend ℕ
server = record backend {
  verify = three_segments;
  parse_time = read_stamp;
  select_metrics = one_point;
}

abbrev json : Wire ℕ (QueryPoint ℕ) (Body ℕ)
json = record {
  marshals = λ b. true;
  builds = λ url. true;
  ingest_of = λ b. elim b [ ingested n ↦ some n | _ ↦ none ];
  query_of = λ b. elim b [
    | points h n k a ps ↦ some (record { host = h; name = n; bucket = k; agg = a; points = ps })
    | _ ↦ none
  ];
}

run_client-unhealthy_example :
    run_client json
      (at_server numbers server short_hmac stamps 37 55 990 (pos half_past) none none)
      "http://localhost:8080/"
      "a-long-secret-16"
    ≡ unhealthy
unfolding end_slashes trim_slashes
run_client-unhealthy_example =
    run_client-unhealthy numbers server short_hmac json stamps 37 55 990 half_past none none
      "http://localhost:8080/" "a-long-secret-16" (λ r. refl) refl refl
      (λ e. ground (arith, ap codes e))
