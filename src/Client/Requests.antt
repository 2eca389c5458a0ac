-- ===== src/Client/Requests.antt =====
-- example/04-go-http-client/main.go: the client and `main`. `exchange` is what comes back for a
-- request: `none` for an error of transport, else the status and the raw body. The texts of times
-- are those of `Format(time.RFC3339)`.
use theminidog.Base.{
  ℕ, ◌==◌, Bool, true, false, not, Option, none, some, List, [], ◌∷◌, String, Time, ◌+ℤ◌, ◌-ℤ◌,
  seconds, leb, str_eq, if◌then◌else◌, Result, ok, err, Bytes, ◌≡◌, refl, ap, inl, inr, Bool-cases,
  ◌<◌, arith,
}
use Prim.Native.Char.{Char, code}
use Prim.Native.String.{◌++◌ as text_append}
use theminidog.Api.Responses.{Values}
use theminidog.Api.Router.{Method, get_method, post_method}
use theminidog.Client.Token.{mint_jwt}

pub record Metric (F : Type 0) : Type 0 where
  pub time : String
  pub host : String
  pub name : String
  pub value : F

pub record MetricBatch (F : Type 0) : Type 0 where
  pub host : String
  pub metrics : List (Metric F)

pub record QueryResponse (P : Type 0) : Type 0 where
  pub host : String
  pub name : String
  pub bucket : String
  pub agg : String
  pub points : List P

-- A request of `do`, with the query before it is encoded.
pub record HttpRequest (F : Type 0) : Type 0 where
  pub method : Method
  pub base : String
  pub path : String
  pub query : Values
  pub authorization : String
  pub body : Option (MetricBatch F)

pub data ClientError : Type 0 where
  not_marshalled not_built no_answer not_unmarshalled : ClientError
  refused : ℕ → ClientError

unfoldable pub cons_trimmed : Char → String → String
cons_trimmed c String.[] = if code c == b'/' then "" else String.◌∷◌ c ""
cons_trimmed c (String.◌∷◌ d t) = String.◌∷◌ c (String.◌∷◌ d t)

-- `strings.TrimRight(s, "/")`
unfoldable pub trim_slashes : String → String
unfolding cons_trimmed
trim_slashes String.[] = ""
trim_slashes (String.◌∷◌ c s) = cons_trimmed c (trim_slashes s)

cons_trimmed-trimmed :
    (c : Char) (r : String)
    → trim_slashes r ≡ r
    → trim_slashes (cons_trimmed c r) ≡ cons_trimmed c r
unfolding trim_slashes
cons_trimmed-trimmed c String.[] h = elim (Bool-cases (code c == b'/')) [
  | inl e ↦ rw e refl
  | inr e ↦ rw (e, trim_slashes, e) refl
]
cons_trimmed-trimmed c (String.◌∷◌ d t) h = ap (cons_trimmed c) h

pub trim_slashes_twice : (s : String) → trim_slashes (trim_slashes s) ≡ trim_slashes s
unfolding trim_slashes
trim_slashes_twice String.[] = refl
trim_slashes_twice (String.◌∷◌ c s) = cons_trimmed-trimmed c (trim_slashes s) (trim_slashes_twice s)

pub record Client : Type 0 where
  pub base_url : String
  pub token : String

-- Whether a batch has a JSON text, whether a request is made of a base URL and a path, and the
-- decoding of the bodies of the answers.
pub record Wire (F P R : Type 0) : Type 0 where
  pub marshals : MetricBatch F → Bool
  pub builds : String → Bool
  pub ingest_of : R → Option ℕ
  pub query_of : R → Option (QueryResponse P)

abbrev pub Exchange : Type 0 → Type 0 → Type 0
Exchange F R = HttpRequest F → Option (ℕ × R)

-- `http.NewRequest` with the header.
unfoldable pub new_request :
    {F : Type 0} → Client → Method → String → Values → Option (MetricBatch F) → HttpRequest F
new_request c method path query body = record {
  method = method;
  base = c.base_url;
  path = path;
  query = query;
  authorization = text_append "Bearer " c.token;
  body = body;
}

-- The query of `queryMetrics`.
unfoldable pub query_values : String → String → String → String → String → String → Values
query_values host name from to bucket agg =
    ("host", host)
    ∷ ("name", name)
    ∷ ("from", from)
    ∷ ("to", to)
    ∷ ("bucket", bucket)
    ∷ ("agg", agg)
    ∷ []

module _ {F P R : Type 0} (w : Wire F P R) where
  unfoldable pub marshals_body : Option (MetricBatch F) → Bool
  marshals_body none = true
  marshals_body (some b) = w.marshals b

  unfoldable pub read_answer : {A : Type 0} → (R → Option A) → Option (ℕ × R) → Result ClientError A
  read_answer decode none = err no_answer
  read_answer decode (some (status, raw)) =
      if leb 300 status
      then err (refused status)
      else elim (decode raw) [ none ↦ err not_unmarshalled | some a ↦ ok a ]

  unfoldable pub do_request :
      {A : Type 0}
      → Client
      → Exchange F R
      → Method
      → String
      → Values
      → Option (MetricBatch F)
      → (R → Option A)
      → Result ClientError A
  unfolding marshals_body read_answer new_request
  do_request c exchange method path query body decode =
      if not (marshals_body body)
      then err not_marshalled
      else if not (w.builds (text_append c.base_url path))
      then err not_built
      else read_answer decode (exchange (new_request c method path query body))

  -- A request that can be made and is answered below 300.
  pub do_request_answered :
      {A : Type 0} (c : Client) (exchange : Exchange F R) (method : Method) (path : String)
      (query : Values) (body : Option (MetricBatch F)) (decode : R → Option A) (status : ℕ)
      (raw : R) (a : A)
      → marshals_body body ≡ true
      → w.builds (text_append c.base_url path) ≡ true
      → exchange (new_request c method path query body) ≡ some (status, raw)
      → status < 300
      → decode raw ≡ some a
      → do_request c exchange method path query body decode ≡ ok a
  unfolding do_request
  do_request_answered c exchange method path query body decode status raw a m b e h d =
      ground (arith, m, b, e, d)

  unfoldable pub push_metrics : Client → Exchange F R → MetricBatch F → Result ClientError ℕ
  unfolding do_request
  push_metrics c exchange batch =
      do_request c exchange post_method "/api/v1/metrics" [] (some batch) w.ingest_of

  unfoldable pub query_metrics :
      Client
      → Exchange F R
      → String
      → String
      → String
      → String
      → String
      → String
      → Result ClientError (QueryResponse P)
  unfolding do_request query_values
  query_metrics c exchange host name from to bucket agg =
      do_request c exchange get_method "/api/v1/metrics/query"
        (query_values host name from to bucket agg) none w.query_of

-- Whether `checkHealth` returns nil, for the reply to its request. Unlike the client it is given the
-- base URL as it is configured.
unfoldable pub check_health : {R : Type 0} → Option (ℕ × R) → Bool
check_health none = false
check_health (some (status, raw)) = status == 200

-- The exits of `main`, and its end with the count and the answer that it prints.
pub data Ending (P : Type 0) : Type 0 where
  no_url no_token unhealthy : Ending P
  push_failed query_failed : ClientError → Ending P
  finished : ℕ → QueryResponse P → Ending P

unfoldable pub example_batch : {F : Type 0} → F → F → String → MetricBatch F
example_batch cpu mem stamp = record {
  host = "go-example";
  metrics =
      record { time = stamp; host = "go-example"; name = "cpu.usage_pct"; value = cpu }
      ∷ record { time = stamp; host = "go-example"; name = "mem.used_pct"; value = mem }
      ∷ [];
}

-- `cpu` and `mem` are the float64 37.8 and 55.2, `unix` and `now` the times of the two calls of
-- `time.Now`, and the exchanges those of the three requests, in their order.
pub record Session (F R : Type 0) : Type 0 where
  pub hmac : String → Bytes → Bytes
  pub format : Time → String
  pub cpu : F
  pub mem : F
  pub unix : ℕ
  pub now : Time
  -- of the base URL and the path
  pub health_reply : String → String → Option (ℕ × R)
  pub push_exchange : Exchange F R
  pub query_exchange : Exchange F R

module _ {F P R : Type 0} (w : Wire F P R) (s : Session F R) where
  unfoldable pub run_query : Client → ℕ → Ending P
  unfolding query_metrics
  run_query c count =
      elim (query_metrics w c s.query_exchange "go-example" "cpu.usage_pct"
        (s.format (s.now -ℤ seconds 300)) (s.format (s.now +ℤ seconds 60)) "1m" "avg") [
          | err e ↦ query_failed e
          | ok answer ↦ finished count answer
        ]

  unfoldable pub run_push : Client → Ending P
  unfolding push_metrics run_query example_batch
  run_push c =
      elim (push_metrics w c s.push_exchange (example_batch s.cpu s.mem (s.format s.now))) [
        | err e ↦ push_failed e
        | ok count ↦ run_query c count
      ]

  unfoldable pub run_client : String → String → Ending P
  unfolding check_health run_push mint_jwt trim_slashes
  run_client url agent_token =
      if str_eq url ""
      then no_url
      else if str_eq agent_token ""
      then no_token
      else if not (check_health (s.health_reply url "/healthz"))
      then unhealthy
      else run_push
          (record { base_url = trim_slashes url; token = mint_jwt s.hmac s.unix agent_token })
