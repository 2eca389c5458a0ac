-- ===== src/Client/Session.antt =====
-- The client against the server. The base URL has no path of its own but slashes at its end, and the
-- server sees these in front of the path.
use theminidog.Base.{
  ◌≡◌, refl, ◌∙◌, ap, Option, none, some, List, [], ◌∷◌, String, Time, if◌then◌else◌, inl, inr,
  Bool-cases,
}
use Prim.Native.Char.{Char, code}
use Prim.Native.String.{◌++◌ as text_append}
use theminidog.Base.{◌==◌}
use theminidog.Model.Metric as Model
use theminidog.Api.Router.{Request, get_method}
use theminidog.Client.Requests.{
  Metric, MetricBatch, HttpRequest, cons_trimmed, trim_slashes, trim_slashes_twice,
}

unfoldable pub slash_before : Char → String → String → String
slash_before c String.[] rest = if code c == b'/' then String.◌∷◌ c rest else rest
slash_before c (String.◌∷◌ d t) rest = rest

-- The slashes at the end of a text.
unfoldable pub end_slashes : String → String
unfolding trim_slashes slash_before
end_slashes String.[] = ""
end_slashes (String.◌∷◌ c s) = slash_before c (trim_slashes s) (end_slashes s)

cons_trimmed-end_slashes :
    (c : Char) (r : String)
    → trim_slashes r ≡ r
    → end_slashes r ≡ ""
    → end_slashes (cons_trimmed c r) ≡ ""
unfolding end_slashes cons_trimmed trim_slashes
cons_trimmed-end_slashes c String.[] h e = elim (Bool-cases (code c == b'/')) [
  | inl slash ↦ rw slash refl
  | inr other ↦ rw (other, end_slashes, slash_before, other) refl
]
cons_trimmed-end_slashes c (String.◌∷◌ d t) h e =
    ap (λ r. slash_before c r (end_slashes (String.◌∷◌ d t))) h ∙ e

-- The client's own base URL has none.
pub end_slashes-trim_slashes : (s : String) → end_slashes (trim_slashes s) ≡ ""
unfolding trim_slashes
end_slashes-trim_slashes String.[] = unfold end_slashes in refl
end_slashes-trim_slashes (String.◌∷◌ c s) =
    cons_trimmed-end_slashes c (trim_slashes s) (trim_slashes_twice s) (end_slashes-trim_slashes s)

-- The decoding of a body at the server, where `parse_time` reads the text of a time.
unfoldable pub decode_metrics :
    {F : Type 0} → (String → Option Time) → List (Metric F) → Option (List (Model.Metric F))
decode_metrics parse_time [] = some []
decode_metrics parse_time (m ∷ ms) = elim (parse_time m.time) [
  | none ↦ none
  | some t ↦ elim (decode_metrics parse_time ms) [
    | none ↦ none
    | some ns ↦
        some (record { time = t; host = m.host; name = m.name; value = m.value; labels = [] } ∷ ns)
  ]
]

unfoldable pub decode_batch :
    {F : Type 0} → (String → Option Time) → Option (MetricBatch F) → Option (Model.MetricBatch F)
unfolding decode_metrics
decode_batch parse_time none = none
decode_batch parse_time (some b) = elim (decode_metrics parse_time b.metrics) [
  | none ↦ none
  | some ms ↦ some (record { host = b.host; metrics = ms })
]

-- A request of the client as the server sees it.
unfoldable pub received : {F : Type 0} → (String → Option Time) → HttpRequest F → Request F
unfolding decode_batch end_slashes
received parse_time r = record {
  method = r.method;
  path = text_append (end_slashes r.base) r.path;
  authorization = r.authorization;
  query = r.query;
  decoded_metrics = decode_batch parse_time r.body;
  decoded_logs = none;
}

unfoldable pub received_health : {F : Type 0} → String → String → Request F
unfolding end_slashes
received_health base path = record {
  method = get_method;
  path = text_append (end_slashes base) path;
  authorization = "";
  query = [];
  decoded_metrics = none;
  decoded_logs = none;
}
