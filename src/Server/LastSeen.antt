-- ===== src/Server/LastSeen.antt =====
-- The tracker of the running server against the log of the requests that it answered.
use theminidog.Base.{
  ◌≡◌, refl, sym, ap, ◌∙◌, subst, inl, inr, false, Option, none, some, List, [], ◌∷◌, String, Time,
  Duration, Floats, ◌++◌, pos, leb_ℤ, sub, delete, lookup, insert, lookup-insert, str_eq,
  str_eq_iff, if◌then◌else◌, arith, Bool-cases,
}
use mathlib.Core.Option.{some-injective}
use theminidog.Storage.Hosts.{
  HostTracker, HostStatus, ok, stale, down, heartbeat, scan, scan_from, status_of, status, classify,
  new_host_tracker,
}
use theminidog.Api.Router.{serve}
use theminidog.Server.Start.{Server}
use theminidog.Server.Process.{
  Output, answered, launch, Process, Event, request, tracker_tick, evaluator_tick, stop, backend,
  scan_with, handle, step, run,
}
use theminidog.Server.Outputs.{step-cases}
use theminidog.Server.Answers.{accepted_host, heartbeat_if, serve-IsTold}

module _ (fl : Floats) where
  open fl use {F}

  -- The accepted batches, with their times and hosts.
  heard : Event F → List (Output F) → List (Time × String)
  heard (request w r) (answered out ∷ outs) = elim (accepted_host r out) [
    | none ↦ []
    | some h ↦ (w.now, h) ∷ []
  ]
  heard _ _ = []

  -- The log of the run: nothing but the requests and their answers.
  unfoldable pub accepted_log : Server F → Process F → List (Event F) → List (Time × String)
  unfolding heard accepted_host
  accepted_log srv p [] = []
  accepted_log srv p (ev ∷ evs) =
      let (q, outs) = step fl srv p ev in heard ev outs ++ accepted_log srv q evs

-- The last time of a host in a log, `last` where it is not in it.
unfoldable pub last_time : String → List (Time × String) → Option Time → Option Time
last_time h [] last = last
last_time h ((now, k) ∷ entries) last = last_time h entries (if str_eq k h then some now else last)

last_time-append :
    (h : String) (xs ys : List (Time × String)) (last : Option Time)
    → last_time h (xs ++ ys) last ≡ last_time h ys (last_time h xs last)
unfolding last_time
last_time-append h [] ys last = refl
last_time-append h ((now, k) ∷ xs) ys last = last_time-append h xs ys _

-- What `Status` says of a host, by the last time that it was accepted.
unfoldable pub status_by : Duration → Duration → Time → String → Option Time → HostStatus
status_by stale_after down_after now h none = record { host = h; status = down; last_seen = pos 0 }
status_by stale_after down_after now h (some ls) = record {
  host = h;
  status =
      if leb_ℤ down_after (sub now ls)
      then down
      else if leb_ℤ stale_after (sub now ls)
      then stale
      else ok;
  last_seen = ls;
}

module _ (stale_after down_after : Duration) (h : String) (named : str_eq h "" ≡ false) where
  -- A tracker with these thresholds that last saw the host then.
  abbrev IsKept : Option Time → Option HostTracker → Type 0
  IsKept last tracker =
      (t : HostTracker) × (tracker ≡ some t)
      × (t.stale_after ≡ stale_after)
      × (t.down_after ≡ down_after)
      × (lookup h t.hosts ≡ last)

  heartbeat-IsKept :
      (now : Time) (k : String) (last : Option Time) (tracker : Option HostTracker)
      → IsKept last tracker
      → IsKept (if str_eq k h then some now else last) (heartbeat now k tracker)
  unfolding heartbeat
  heartbeat-IsKept now k last tracker (t, e, s, d, known) = elim (Bool-cases (str_eq k "")) [
    | inl empty ↦ (
      t,
      ground (arith, e, empty),
      s,
      d,
      ground (arith, known, empty, str_eq_iff k "", str_eq_iff k h, str_eq_iff h "", named),
    )
    | inr filled ↦ (
      record t { hosts = insert k now t.hosts; reported = delete k t.reported },
      ground (arith, e, filled),
      s,
      d,
      ground (arith, lookup-insert k h now t.hosts, known),
    )
  ]

  heartbeat_if-IsKept :
      (now : Time) (o : Option String) (last : Option Time) (tracker : Option HostTracker)
      → IsKept last tracker
      → IsKept
          (last_time h (elim o [ none ↦ [] | some k ↦ (now, k) ∷ [] ]) last)
          (heartbeat_if now o tracker)
  unfolding last_time heartbeat_if
  heartbeat_if-IsKept now none last tracker kept = kept
  heartbeat_if-IsKept now (some k) last tracker kept = heartbeat-IsKept now k last tracker kept

  scan-IsKept :
      (now : Time) (last : Option Time) (tracker : Option HostTracker)
      → IsKept last tracker
      → IsKept last (scan now tracker).0
  unfolding scan
  scan-IsKept now last none (t, e, s, d, known) = absurd (ground (arith, e))
  scan-IsKept now last (some u) (t, e, s, d, known) =
      let same : u ≡ t = some-injective u t e in
      (
        record u { reported = (scan_from now u.down_after u.hosts u.reported).0 },
        refl,
        ap (λ (x : HostTracker). x.stale_after) same ∙ s,
        ap (λ (x : HostTracker). x.down_after) same ∙ d,
        ap (λ (x : HostTracker). lookup h x.hosts) same ∙ known,
      )

module _ (fl : Floats) (srv : Server fl.F) (stale_after down_after : Duration) (h : String)
    (named : str_eq h "" ≡ false) where
  open fl use {F}

  abbrev Kept : Option Time → Option HostTracker → Type 0
  Kept = IsKept stale_after down_after h named

  -- The step keeps the tracker with the log.
  abbrev IsLogged : Event F → Option Time → Process F × List (Output F) → Type 0
  IsLogged ev last out = Kept (last_time h (heard fl ev out.1) last) out.0.tracker

  handle-IsLogged :
      (p : Process F) (ev : Event F) (last : Option Time)
      → Kept last p.tracker
      → IsLogged ev last (handle fl srv p ev)
  unfolding handle heard last_time backend scan_with
  handle-IsLogged p (request w r) last kept =
      let b = backend fl srv w p.evaluator in
      let out = serve fl b r p.tracker in
      let o = accepted_host r out.0 in
      subst (Kept (last_time h (elim o [ none ↦ [] | some k ↦ (w.now, k) ∷ [] ]) last))
        (sym (serve-IsTold fl b r p.tracker))
        (heartbeat_if-IsKept stale_after down_after h named w.now o last p.tracker kept)
  handle-IsLogged p (tracker_tick now) last kept =
      scan-IsKept stale_after down_after h named now last p.tracker kept
  handle-IsLogged p (evaluator_tick repo now) last kept = kept
  handle-IsLogged p stop last kept = kept

  heard-silent : (ev : Event F) → heard fl ev [] ≡ []
  unfolding heard
  heard-silent (request w r) = refl
  heard-silent (tracker_tick now) = refl
  heard-silent (evaluator_tick repo now) = refl
  heard-silent stop = refl

  step-IsLogged :
      (p : Process F) (ev : Event F) (last : Option Time)
      → Kept last p.tracker
      → IsLogged ev last (step fl srv p ev)
  unfolding step last_time
  step-IsLogged p ev last kept = elim (step-cases fl srv p ev) [
    | inl e ↦ subst (IsLogged ev last) (sym e) (handle-IsLogged p ev last kept)
    | inr e ↦ subst (IsLogged ev last) (sym e) (rw (heard-silent ev) kept)
  ]

  run-Kept :
      (p : Process F) (evs : List (Event F)) (last : Option Time)
      → Kept last p.tracker
      → Kept (last_time h (accepted_log fl srv p evs) last) (run fl srv p evs).0.tracker
  unfolding run accepted_log last_time
  run-Kept p [] last kept = kept
  run-Kept p (ev ∷ evs) last kept =
      let (q, outs) = step fl srv p ev in
      rw (last_time-append h (heard fl ev outs) (accepted_log fl srv q evs) last)
        (run-Kept q evs (last_time h (heard fl ev outs) last) (step-IsLogged p ev last kept))

  status-Kept :
      (now : Time) (last : Option Time) (tracker : Option HostTracker)
      → Kept last tracker
      → status now h tracker ≡ status_by stale_after down_after now h last
  unfolding status status_of classify status_by
  status-Kept now none tracker (t, e, s, d, known) = ground (arith, e, known)
  status-Kept now (some ls) tracker (t, e, s, d, known) = ground (arith, e, s, d, known)

  -- For a server whose tracker starts empty, any sequence of requests, ticks and stops, and a host
  -- with a name: what Status says of the host afterwards is what the log of the answered requests
  -- says. The host is down and was never seen where no POST to /api/v1/metrics with a batch of the
  -- host was answered 202; else it was seen at the last of these, and is ok, stale or down by its
  -- age.
  pub run-status :
      (evs : List (Event F)) (now : Time)
      → srv.tracker ≡ some (new_host_tracker stale_after down_after)
      → status now h (run fl srv (launch srv) evs).0.tracker
        ≡ status_by stale_after down_after now h
            (last_time h (accepted_log fl srv (launch srv) evs) none)
  unfolding launch new_host_tracker lookup
  run-status evs now empty =
      status-Kept now (last_time h (accepted_log fl srv (launch srv) evs) none)
        (run fl srv (launch srv) evs).0.tracker
        (run-Kept (launch srv) evs none
          (new_host_tracker stale_after down_after, empty, refl, refl, refl))
