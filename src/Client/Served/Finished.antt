-- ===== src/Client/Served/Finished.antt =====
-- The client's `main` to its end.
use theminidog.Base.{
  ℕ, ◌≤◌, ◌≡◌, true, Option, some, List, String, Time, pos, ◌+ℤ◌, ◌-ℤ◌, seconds, Floats, Bytes,
}
use theminidog.Storage.Metrics as Store
use theminidog.Storage.Metrics.{QueryPoint, QueryParams}
use theminidog.Storage.Hosts.{HostTracker}
use theminidog.Api.Responses.{Body, points}
use theminidog.Api.Router.{Backend, authorized}
use Prim.Native.String.{◌++◌ as text_append}
use theminidog.Client.Token.{mint_jwt}
use theminidog.Client.Requests.{Client, QueryResponse, Wire, Session, trim_slashes}
use theminidog.Client.Served.{whole_seconds, at_server, IsWire, IsRequestable}

-- The texts of the three times of the client are read back, without the fraction of a second.
pub record ReadsBack (parse_time : String → Option Time) (format : Time → String) (n : ℕ)
    : Type 0 where
  pub now : parse_time (format (pos n)) ≡ some (whole_seconds (pos n))
  pub from :
      parse_time (format (pos n -ℤ seconds 300)) ≡ some (whole_seconds (pos n -ℤ seconds 300))
  pub to : parse_time (format (pos n +ℤ seconds 60)) ≡ some (whole_seconds (pos n +ℤ seconds 60))

-- The parameters that the server reads of the client's query.
abbrev pub asked : Time → Time → QueryParams
asked from to = record {
  host = "go-example";
  name = "cpu.usage_pct";
  from = from;
  to = to;
  bucket = "1m";
  agg = "avg";
}

module _ (fl : Floats) where
  open fl use {F}

  -- The client's answer for a list of points.
  abbrev pub printed : List (QueryPoint F) → QueryResponse (QueryPoint F)
  printed ps = record {
    host = "go-example";
    name = "cpu.usage_pct";
    bucket = "1m";
    agg = "avg";
    points = ps;
  }

  module _ (b : Backend F) (hmac : String → Bytes → Bytes) (w : Wire F (QueryPoint F) (Body F))
      (wire : IsWire fl w) (format : Time → String) (unix n : ℕ)
      (reads : ReadsBack b.parse_time format n) (cpu mem : F) (t u : Option HostTracker)
      (url secret : String)
      (allowed : authorized b.verify b.secret (text_append "Bearer " (mint_jwt hmac unix secret))
        ≡ true)
      (late : 300_000_000_000 ≤ n) (requestable : IsRequestable fl w url) where
    abbrev session : Session F (Body F)
    session = at_server fl b hmac format cpu mem unix (pos n) t u

    abbrev client : Client
    client = record { base_url = trim_slashes url; token = mint_jwt hmac unix secret }
