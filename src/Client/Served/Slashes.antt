-- ===== src/Client/Served/Slashes.antt =====
-- A URL with a slash at its end: `checkHealth` is given it as it is, the client trims it.
use theminidog.Base.{
  ℕ, ◌≡◌, ◌≢◌, refl, sym, ◌∙◌, ap, Bool, false, Option, none, List, ◌∷◌, ◌++◌, String, Time, pos,
  str_eq, Floats, arith, inl, inr, Bool-cases, str_eq_iff, codes, Bytes, All, ◌==◌, codes-append,
}
use Prim.Native.Char.{Char, code}
use Prim.Native.String.{◌++◌ as text_append}
use theminidog.Storage.Metrics.{QueryPoint}
use theminidog.Storage.Hosts.{HostTracker}
use theminidog.Api.Responses.{Body}
use theminidog.Api.Router.{Backend, Request, get_route, serve, route}
use theminidog.Client.Requests.{Wire, unhealthy, check_health, run_client}
use theminidog.Client.Session.{end_slashes, slash_before, received_health}
use theminidog.Client.Served.{at_server}

abbrev IsSlash : ℕ → Type 0
IsSlash c = c ≡ b'/'

slash_before-All :
    (c : Char) (r s : String) → All IsSlash (codes s) → All IsSlash (codes (slash_before c r s))
unfolding slash_before
slash_before-All c String.[] s h = elim (Bool-cases (code c == b'/')) [
  | inl e ↦ rw e (ground (arith, e), h)
  | inr e ↦ rw e h
]
slash_before-All c (String.◌∷◌ d t) s h = h

end_slashes-All : (s : String) → All IsSlash (codes (end_slashes s))
unfolding end_slashes
end_slashes-All String.[] = tt
end_slashes-All (String.◌∷◌ c s) = slash_before-All c _ (end_slashes s) (end_slashes-All s)

-- A slash more than there should be.
doubled :
    (s : String) (t : List ℕ)
    → All IsSlash (codes s)
    → s ≢ ""
    → (r : List ℕ) × (codes s ++ b'/' ∷ t ≡ b'/' ∷ b'/' ∷ r)
doubled String.[] t h ne = absurd (ne refl)
doubled (String.◌∷◌ c String.[]) t h ne = (t, ground (arith, h.0))
doubled (String.◌∷◌ c (String.◌∷◌ d s)) t h ne = (codes s ++ b'/' ∷ t, ground (arith, h.0, h.1.0))

other_path :
    (p q : String) (r : List ℕ)
    → codes p ≡ b'/' ∷ b'/' ∷ r
    → codes q ≢ b'/' ∷ b'/' ∷ r
    → str_eq p q ≡ false
other_path p q r e ne = elim (Bool-cases (str_eq p q)) [
  | inr other ↦ other
  | inl same ↦ absurd (ne (sym (ap codes ((str_eq_iff p q).0 same)) ∙ e))
]

-- No route begins with two slashes.
get_route-doubled :
    (dash : Bool) (p : String) (r : List ℕ) → codes p ≡ b'/' ∷ b'/' ∷ r → get_route dash p ≡ none
unfolding get_route
get_route-doubled dash p r e = ground (
  arith,
  other_path p "/healthz" r e (λ h. ground (arith, h)),
  other_path p "/readyz" r e (λ h. ground (arith, h)),
  other_path p "/" r e (λ h. ground (arith, h)),
  other_path p "/api/v1/dashboard/metrics" r e (λ h. ground (arith, h)),
  other_path p "/api/v1/dashboard/logs" r e (λ h. ground (arith, h)),
  other_path p "/metrics" r e (λ h. ground (arith, h)),
  other_path p "/api/v1/alerts" r e (λ h. ground (arith, h)),
  other_path p "/api/v1/hosts" r e (λ h. ground (arith, h)),
  other_path p "/api/v1/metrics/query" r e (λ h. ground (arith, h)),
  other_path p "/api/v1/logs/query" r e (λ h. ground (arith, h)),
)

module _ (fl : Floats) where
  open fl use {F}

  -- A URL that ends in a slash, a server that answers 404 where it has no route, and a secret that
  -- is set: main ends with the failed health check, whatever the state of the server, although the
  -- client that it makes later trims the slash.
  pub run_client-unhealthy :
      (b : Backend F) (hmac : String → Bytes → Bytes) (w : Wire F (QueryPoint F) (Body F))
      (format : Time → String) (cpu mem : F) (unix n : ℕ) (t u : Option HostTracker)
      (url secret : String)
      → ((r : Request F) → (b.unrouted r).status ≡ 404)
      → str_eq url "" ≡ false
      → str_eq secret "" ≡ false
      → end_slashes url ≢ ""
      → run_client w (at_server fl b hmac format cpu mem unix (pos n) t u) url secret ≡ unhealthy
  unfolding run_client check_health serve route received_health
  run_client-unhealthy b hmac w format cpu mem unix n t u url secret missing named armed slashed =
      let path = text_append (end_slashes url) "/healthz" in
      let (r, twice) = doubled (end_slashes url) (codes "healthz") (end_slashes-All url) slashed in
      let lost : get_route b.dash path ≡ none =
        get_route-doubled b.dash path r (codes-append (end_slashes url) "/healthz" ∙ twice) in
      let answer : (serve fl b (received_health url "/healthz") t).0.status ≡ 404 =
        ground (arith, lost, missing (received_health url "/healthz")) in
      ground (arith, named, armed, answer)
