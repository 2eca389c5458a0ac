-- ===== src/Server/Answers.antt =====
-- What the answer to a request tells of the tracker.
use theminidog.Base.{
  ◌≡◌, refl, sym, subst, ◌==◌, ◌&&◌, inl, inr, Bool, true, false, Option, none, some, String, Time,
  Floats, str_eq, str_eq_iff, if◌then◌else◌, arith, Bool-cases,
}
use theminidog.Storage.Hosts.{HostTracker, heartbeat}
use theminidog.Api.Responses.{Response, write_error, unauthorized}
use theminidog.Api.Ingest.{handle_ingest}
use theminidog.Api.Ingest.Outcomes.{handle_ingest_answers}
use theminidog.Api.Router.{
  Method, get_method, post_method, other_method, Request, Backend, authorized, route, post_route,
  protect, dispatch, serve,
}
use theminidog.Api.Router.Access.{serve_tracker}

is_post : Method → Bool
is_post get_method = false
is_post post_method = true
is_post (other_method m) = false

unfoldable pub heartbeat_if : Time → Option String → Option HostTracker → Option HostTracker
heartbeat_if now none t = t
heartbeat_if now (some h) t = heartbeat now h t

is_post_lem : (m : Method) → is_post m ≡ true → m ≡ post_method
unfolding is_post
is_post_lem get_method e = absurd (ground (arith, e))
is_post_lem post_method e = refl
is_post_lem (other_method m) e = absurd (ground (arith, e))

-- The host whose metrics were accepted: a POST to /api/v1/metrics that is answered 202.
unfoldable pub accepted_host : {F : Type 0} → Request F → Response F → Option String
unfolding is_post
accepted_host r out =
    if is_post r.method && str_eq r.path "/api/v1/metrics" && out.status == 202
    then elim r.decoded_metrics [ none ↦ none | some batch ↦ some batch.host ]
    else none

module _ (fl : Floats) where
  open fl use {F}

  module _ (b : Backend F) (r : Request F) (t : Option HostTracker) where
    abbrev pub IsTold : Response F × Option HostTracker → Type 0
    IsTold out = out.1 ≡ heartbeat_if b.now (accepted_host r out.0) t

    serve_ingest :
        r.method ≡ post_method
        → r.path ≡ "/api/v1/metrics"
        → serve fl b r t ≡ (
            if authorized b.verify b.secret r.authorization
            then handle_ingest fl b.exec_metrics b.now t r.decoded_metrics
            else (write_error 401 unauthorized, t))
    unfolding serve route post_route dispatch protect
    serve_ingest post there = rw (post, there) refl

    ingest-IsTold :
        r.method ≡ post_method
        → r.path ≡ "/api/v1/metrics"
        → IsTold (handle_ingest fl b.exec_metrics b.now t r.decoded_metrics)
    unfolding accepted_host heartbeat_if is_post
    ingest-IsTold post there =
        let here : str_eq r.path "/api/v1/metrics" ≡ true =
          (str_eq_iff r.path "/api/v1/metrics").1 there in
        elim (handle_ingest_answers fl b.exec_metrics b.now t r.decoded_metrics) [
          | inl (batch, decoded, good, all, answer) ↦
              subst IsTold (sym answer) (ground (arith, post, here, decoded))
          | inr (inl (batch, decoded, good, failing, answer)) ↦
              subst IsTold (sym answer) (ground (arith, post, here))
          | inr (inr (bad, (f, answer))) ↦ subst IsTold (sym answer) (ground (arith, post, here))
        ]

    -- The answer tells what became of the tracker.
    pub serve-IsTold : IsTold (serve fl b r t)
    unfolding accepted_host heartbeat_if write_error is_post
    serve-IsTold = elim (Bool-cases (is_post r.method && str_eq r.path "/api/v1/metrics")) [
      | inl e ↦
          let post : r.method ≡ post_method = is_post_lem r.method (ground (arith, e)) in
          let there : r.path ≡ "/api/v1/metrics" =
            ground (arith, e, str_eq_iff r.path "/api/v1/metrics") in
          elim (Bool-cases (authorized b.verify b.secret r.authorization)) [
            | inl allowed ↦
                let served : serve fl b r t
                    ≡ handle_ingest fl b.exec_metrics b.now t r.decoded_metrics =
                  ground (arith, serve_ingest post there, allowed) in
                subst IsTold (sym served) (ingest-IsTold post there)
            | inr refused ↦
                let served : serve fl b r t ≡ (write_error 401 unauthorized, t) =
                  ground (arith, serve_ingest post there, refused) in
                subst IsTold (sym served) (ground (arith, e))
          ]
      | inr e ↦ elim (serve_tracker fl b r t) [
        | inl same ↦ ground (arith, e, same)
        | inr (post, there, allowed, rest) ↦
            absurd (ground (arith, e, post, (str_eq_iff r.path "/api/v1/metrics").1 there))
      ]
    ]
