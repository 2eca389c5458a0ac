-- ===== src/Client/Served.antt =====
-- The requests of the client at the server.
pub mod Finished
pub mod Slashes
use theminidog.Base.{
  ℕ, ◌+◌, ◌-◌, ◌*◌, ◌/◌, ◌<◌, ◌≤◌, ◌≡◌, refl, sym, ◌∙◌, ap, subst, Bool, true, false, Option, none,
  some, List, [], ◌∷◌, String, Time, ℤ, pos, negsuc, ◌+ℤ◌, ◌-ℤ◌, ◌≤ℤ◌, ◌<ℤ◌, seconds, length, map,
  str_eq, if◌then◌else◌, Floats, Result, ok, err, arith, inl, inr, Bool-cases, str_eq_iff, codes,
  Bytes, All, sub, ltb_ℤ, is_zero, is_blank, contains, lookup,
}
use Prim.Native.String.{◌++◌ as text_append}
use text.Mathlib.TextLemmas.{nil-append}
use theminidog.Model.Metric as Model
use theminidog.Model.Metric.{validate_batch, validate_metric, has_empty_label}
use theminidog.Storage.Metrics as Store
use theminidog.Storage.Metrics.{QueryPoint, QueryParams, queue}
use theminidog.Storage.Hosts.{HostTracker, heartbeat}
use theminidog.Api.Responses.{Body, ingested, points, Response}
use theminidog.Api.Ingest.{handle_ingest}
use theminidog.Api.Status.{handle_healthz}
use theminidog.Api.Ingest.Outcomes.{IsGood, handle_ingest_lem}
use theminidog.Api.Query.{handle_query}
use theminidog.Api.Router.{
  Backend, Request, get_method, post_method, authorized, serve, route, dispatch, protect,
  strip_prefix,
}
use theminidog.Api.Router.Bearer.{strip-append}
use theminidog.Client.Token.{mint_jwt}
use theminidog.Client.Token.Segments.{IsSigned, mint_jwt-IsSigned, split_dots}
use theminidog.Client.Base64.RoundTrip.{IsByte}
use theminidog.Client.Requests.{
  Client, HttpRequest, QueryResponse, Wire, Session, Ending, finished, run_client, example_batch,
  trim_slashes, new_request, query_values,
}
use theminidog.Client.Session.{
  received, received_health, decode_batch, end_slashes, end_slashes-trim_slashes,
}

-- The time without its fraction of a second.
unfoldable pub whole_seconds : Time → Time
whole_seconds (pos n) = pos (n / 1_000_000_000 * 1_000_000_000)
whole_seconds (negsuc n) = negsuc (n / 1_000_000_000 * 1_000_000_000 + 999_999_999)

-- What golang-jwt documents: it accepts a token in the compact form whose header names HS256, whose
-- signature is the HMAC under the secret, and whose expiry is later than its clock.
pub record Verifies (hmac : String → Bytes → Bytes) (verify : String → String → Bool) (clock : ℕ)
    : Type 0 where
  pub accepts :
      (unix : ℕ) (secret token : String) (header payload signature : List ℕ)
      → IsSigned hmac unix secret token header payload signature
      → clock < unix + 86_400
      → verify secret token ≡ true

module _ (hmac : String → Bytes → Bytes)
    (bytes : (secret : String) (m : Bytes) → All IsByte (hmac secret m)) where
  mint_jwt-filled : (unix : ℕ) (secret : String) → str_eq (mint_jwt hmac unix secret) "" ≡ false
  unfolding split_dots
  mint_jwt-filled unix secret = elim (Bool-cases (str_eq (mint_jwt hmac unix secret) "")) [
    | inr filled ↦ filled
    | inl empty ↦
        let none_left : mint_jwt hmac unix secret ≡ "" =
          (str_eq_iff (mint_jwt hmac unix secret) "").0 empty in
        absurd (
          ground (
            arith,
            (mint_jwt-IsSigned hmac bytes unix secret).segments,
            ap (λ t. split_dots (codes t)) none_left,
          ))
  ]

  pub authorized_client :
      (verify : String → String → Bool) (clock unix : ℕ) (secret : String)
      → Verifies hmac verify clock
      → clock < unix + 86_400
      → authorized verify secret (text_append "Bearer " (mint_jwt hmac unix secret)) ≡ true
  unfolding authorized
  authorized_client verify clock unix secret law early =
      let token = mint_jwt hmac unix secret in
      ground (
        arith,
        strip-append "Bearer " token,
        mint_jwt-filled unix secret,
        law.accepts unix secret token _ _ _ (mint_jwt-IsSigned hmac bytes unix secret) early,
      )

client_path : (url path : String) → text_append (end_slashes (trim_slashes url)) path ≡ path
client_path url path = ap (λ s. text_append s path) (end_slashes-trim_slashes url) ∙ nil-append path

module _ (fl : Floats) where
  open fl use {F}

  -- The batch that the server decodes.
  abbrev pub carried : F → F → Time → Model.MetricBatch F
  carried cpu mem t = record {
    host = "go-example";
    metrics =
        record { time = t; host = "go-example"; name = "cpu.usage_pct"; value = cpu; labels = [] }
        ∷ record { time = t; host = "go-example"; name = "mem.used_pct"; value = mem; labels = [] }
        ∷ [];
  }

  carried-decoded :
      (parse_time : String → Option Time) (stamp : String) (t : Time) (cpu mem : F)
      → parse_time stamp ≡ some t
      → decode_batch parse_time (some (example_batch cpu mem stamp)) ≡ some (carried cpu mem t)
  unfolding decode_batch example_batch
  carried-decoded parse_time stamp t cpu mem e = ground (arith, e)

  abbrev pub AreFinite : F → F → Type 0
  AreFinite cpu mem =
      (fl.is_nan cpu ≡ false)
      × (fl.is_inf cpu ≡ false)
      × (fl.is_nan mem ≡ false)
      × (fl.is_inf mem ≡ false)

  pub carried-IsGood :
      (cpu mem : F) (t : Time)
      → is_zero t ≡ false
      → AreFinite cpu mem
      → IsGood fl (carried cpu mem t)
  unfolding validate_batch validate_metric is_blank contains has_empty_label
  carried-IsGood cpu mem t z (a, b, c, d) =
      (omega arith, omega arith, ground (arith, z, a, b, c, d))

  -- `http.NewRequest` makes the client's two requests of the URL.
  abbrev pub IsRequestable : Wire F (QueryPoint F) (Body F) → String → Type 0
  IsRequestable w url =
      (w.builds (text_append (trim_slashes url) "/api/v1/metrics") ≡ true)
      × (w.builds (text_append (trim_slashes url) "/api/v1/metrics/query") ≡ true)

  -- The server as the other side of the exchanges: the health request, the push and the query, with
  -- the tracker before each.
  abbrev pub at_server :
      Backend F
      → (String → Bytes → Bytes)
      → (Time → String)
      → F
      → F
      → ℕ
      → Time
      → Option HostTracker
      → Option HostTracker
      → Session F (Body F)
  at_server b hmac format cpu mem unix now t u = record {
    hmac = hmac;
    format = format;
    cpu = cpu;
    mem = mem;
    unix = unix;
    now = now;
    health_reply = λ base path.
        let out = (serve fl b (received_health base path) t).0 in some (out.status, out.body);
    push_exchange =
        λ r. let out = (serve fl b (received b.parse_time r) t).0 in some (out.status, out.body);
    query_exchange =
        λ r. let out = (serve fl b (received b.parse_time r) u).0 in some (out.status, out.body);
  }

  -- A point that has a JSON text: its value is finite, and its year has four digits.
  abbrev pub IsEncodable : QueryPoint F → Type 0
  IsEncodable p =
      (fl.is_nan p.value ≡ false)
      × (fl.is_inf p.value ≡ false)
      × (pos 0 ≤ℤ p.time)
      × (p.time <ℤ seconds 315_537_897_600)

  -- What encoding/json documents: a batch of finite values has a JSON text, and the client's types
  -- read the bodies that the server writes.
  pub record IsWire (w : Wire F (QueryPoint F) (Body F)) : Type 0 where
    pub marshals :
        (cpu mem : F) (stamp : String)
        → AreFinite cpu mem
        → w.marshals (example_batch cpu mem stamp) ≡ true
    pub ingest : (n : ℕ) → n < 9_223_372_036_854_775_808 → w.ingest_of (ingested n) ≡ some n
    pub answer :
        (host name bucket agg : String) (ps : List (QueryPoint F))
        → All IsEncodable ps
        → w.query_of (points host name bucket agg ps)
          ≡ some (record { host = host; name = name; bucket = bucket; agg = agg; points = ps })

  pub push_served :
      (b : Backend F) (url token stamp : String) (cpu mem : F) (time : Time)
      (t : Option HostTracker)
      → authorized b.verify b.secret (text_append "Bearer " token) ≡ true
      → b.parse_time stamp ≡ some time
      → serve fl b
          (received b.parse_time (
            new_request
              (record { base_url = trim_slashes url; token = token })
              post_method
              "/api/v1/metrics"
              []
              (some (example_batch cpu mem stamp))))
          t
        ≡ handle_ingest fl b.exec_metrics b.now t (some (carried cpu mem time))
  unfolding serve route dispatch protect received new_request
  push_served b url token stamp cpu mem time t allowed read =
      rw (client_path url "/api/v1/metrics", carried-decoded b.parse_time stamp time cpu mem read)
        (ground (arith, allowed))

  pub query_served :
      (b : Backend F) (url token host name from to bucket agg : String) (u : Option HostTracker)
      → authorized b.verify b.secret (text_append "Bearer " token) ≡ true
      → serve fl b
          (received b.parse_time (
            new_request
              (record { base_url = trim_slashes url; token = token })
              get_method
              "/api/v1/metrics/query"
              (query_values host name from to bucket agg)
              none))
          u
        ≡ (
          handle_query b.select_metrics b.parse_time (query_values host name from to bucket agg),
          u,
        )
  unfolding serve route dispatch protect received new_request
  query_served b url token host name from to bucket agg u allowed =
      rw (client_path url "/api/v1/metrics/query") (ground (arith, allowed))

  -- The health of a server for a URL without slashes at its end.
  pub health_served :
      (b : Backend F) (url : String) (t : Option HostTracker)
      → end_slashes url ≡ ""
      → (serve fl b (received_health url "/healthz") t).0.status ≡ 200
  unfolding serve route dispatch received_health handle_healthz
  health_served b url t plain =
      let here : text_append (end_slashes url) "/healthz" ≡ "/healthz" =
        ap (λ s. text_append s "/healthz") plain ∙ nil-append "/healthz" in
      rw here refl
