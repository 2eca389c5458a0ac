-- ===== src/Server/Outputs.antt =====
-- The hosts in the outputs of the running server.
use theminidog.Base.{
  ◌≡◌, refl, ◌⊎◌, inl, inr, Bool, true, false, Option, none, some, List, [], ◌∷◌, ◌++◌, String,
  Time, Duration, Map, Floats, lookup, insert, flag, lookup-insert, str_eq, str_eq_iff, map,
  if◌then◌else◌, arith, Bool-cases, sub, leb_ℤ, ◌&&◌, not,
}
use theminidog.Storage.Hosts.{HostTracker, heartbeat, scan, scan_from}
use theminidog.Alerting.Evaluator.{
  Evaluator, NotificationEvent, MetricQuerier, evaluate, notify_all, notify_host_down,
}
use theminidog.Server.Start.{Server}
use theminidog.Server.Process.{
  Process, Event, handle, step, Output, answered, reported_down, notified, drained, pool_closed,
  notifiers_of, dispatch_events, on_down, evaluate_with,
}

-- When the host was last seen, if it was.
abbrev pub seen : String → Option HostTracker → Option Time
seen h none = none
seen h (some t) = lookup h t.hosts

abbrev pub IsSeen : String → Option HostTracker → Type 0
IsSeen h t = (ls : Time) × (seen h t ≡ some ls)

pub heartbeat-IsSeen :
    (now : Time) (k h : String) (t : Option HostTracker)
    → IsSeen h (heartbeat now k t)
    → IsSeen h t ⊎ (k ≡ h)
unfolding heartbeat
heartbeat-IsSeen now k h none s = inl s
heartbeat-IsSeen now k h (some t) (ls, e) = elim (Bool-cases (str_eq k h)) [
  | inl same ↦ inr ((str_eq_iff k h).0 same)
  | inr other ↦ inl (ls, ground (arith, e, other, lookup-insert k h now t.hosts))
]

-- A host among those that a scan reports.
abbrev pub IsAmong : String → List String → Type 0
IsAmong h [] = ⊥
IsAmong h (k ∷ ks) = (k ≡ h) ⊎ IsAmong h ks

if-IsAmong :
    (c : Bool) (k h : String) (ks : List String)
    → IsAmong h (if c then k ∷ ks else ks)
    → (k ≡ h) ⊎ IsAmong h ks
if-IsAmong true k h ks a = a
if-IsAmong false k h ks a = inr a

-- A scan reports hosts of the tracker only, whatever the flags.
pub scan_from-IsAmong :
    (now : Time) (d : Duration) (m : Map Time) (reported : Map Bool) (h : String)
    → IsAmong h (scan_from now d m reported).1
    → (ls : Time) × (lookup h m ≡ some ls)
unfolding scan_from lookup
scan_from-IsAmong now d [] reported h a = absurd a
scan_from-IsAmong now d ((k, ls) ∷ m) reported h a =
    let fire = leb_ℤ d (sub now ls) && not (flag k reported) in
    let after = if fire then insert k true reported else reported in
    elim (if-IsAmong fire k h (scan_from now d m after).1 a) [
      | inl e ↦ (ls, ground (arith, str_eq_iff k h))
      | inr rest ↦
          let (t, found) = scan_from-IsAmong now d m after h rest in
          elim (Bool-cases (str_eq k h)) [
            | inl same ↦ (ls, ground (arith, same))
            | inr other ↦ (t, ground (arith, other, found))
          ]
    ]

pub scan-IsAmong :
    (now : Time) (h : String) (t : Option HostTracker) → IsAmong h (scan now t).1 → IsSeen h t
unfolding scan
scan-IsAmong now h none a = absurd a
scan-IsAmong now h (some t) a = scan_from-IsAmong now t.down_after t.hosts t.reported h a

pub scan-IsSeen :
    (now : Time) (h : String) (t : Option HostTracker) → seen h (scan now t).0 ≡ seen h t
unfolding scan
scan-IsSeen now h none = refl
scan-IsSeen now h (some t) = refl

module _ {F : Type 0} where
  -- `onDown` was called with the host.
  abbrev pub IsReported : String → List (Output F) → Type 0
  IsReported h [] = ⊥
  IsReported h (answered r ∷ outs) = IsReported h outs
  IsReported h (reported_down k ∷ outs) = (k ≡ h) ⊎ IsReported h outs
  IsReported h (notified u e ∷ outs) = IsReported h outs
  IsReported h (drained d ∷ outs) = IsReported h outs
  IsReported h (pool_closed ∷ outs) = IsReported h outs

  pub IsReported-append :
      (h : String) (xs ys : List (Output F))
      → IsReported h (xs ++ ys)
      → IsReported h xs ⊎ IsReported h ys
  IsReported-append h [] ys r = inr r
  IsReported-append h (answered x ∷ xs) ys r = IsReported-append h xs ys r
  IsReported-append h (reported_down k ∷ xs) ys (inl e) = inl (inl e)
  IsReported-append h (reported_down k ∷ xs) ys (inr r) = elim (IsReported-append h xs ys r) [
    | inl a ↦ inl (inr a)
    | inr b ↦ inr b
  ]
  IsReported-append h (notified u e ∷ xs) ys r = IsReported-append h xs ys r
  IsReported-append h (drained d ∷ xs) ys r = IsReported-append h xs ys r
  IsReported-append h (pool_closed ∷ xs) ys r = IsReported-append h xs ys r

  notified-IsReported :
      (h : String) (l : List (String × NotificationEvent F))
      → IsReported h (map (λ (u, e). notified u e) l)
      → ⊥
  notified-IsReported h [] r = r
  notified-IsReported h (x ∷ l) r = notified-IsReported h l r

  dispatch_events-IsReported :
      (h : String) (urls : List String) (evs : List (NotificationEvent F))
      → IsReported h (dispatch_events urls evs)
      → ⊥
  unfolding dispatch_events
  dispatch_events-IsReported h urls [] r = r
  dispatch_events-IsReported h urls (ev ∷ evs) r =
      elim (IsReported-append h (map (λ (u, e). notified u e) (notify_all urls ev)) _ r) [
        | inl a ↦ notified-IsReported h (notify_all urls ev) a
        | inr b ↦ dispatch_events-IsReported h urls evs b
      ]

module _ (fl : Floats) where
  open fl use {F}

  pub on_down-IsReported :
      (now : Time) (e : Option (Evaluator F)) (h : String) (hs : List String)
      → IsReported h (on_down fl now e hs)
      → IsAmong h hs
  unfolding on_down
  on_down-IsReported now e h [] r = absurd r
  on_down-IsReported now e h (k ∷ hs) (inl same) = inl same
  on_down-IsReported now e h (k ∷ hs) (inr r) =
      let urls = notifiers_of e in
      let evs = notify_host_down fl now k e in
      elim (IsReported-append h (dispatch_events urls evs) (on_down fl now e hs) r) [
        | inl a ↦ absurd (dispatch_events-IsReported h urls evs a)
        | inr b ↦ inr (on_down-IsReported now e h hs b)
      ]

  pub evaluate_with-IsReported :
      (repo : MetricQuerier F) (now : Time) (e : Option (Evaluator F)) (h : String)
      → IsReported h (evaluate_with fl repo now e).1
      → ⊥
  unfolding evaluate_with
  evaluate_with-IsReported repo now none h r = r
  evaluate_with-IsReported repo now (some e) h r =
      dispatch_events-IsReported h e.notifiers (evaluate fl repo now e).1 r

  -- A step is that of the event, or nothing.
  pub step-cases :
      (srv : Server F) (p : Process F) (ev : Event F)
      → (step fl srv p ev ≡ handle fl srv p ev) ⊎ (step fl srv p ev ≡ (p, []))
  unfolding step
  step-cases srv p ev = elim (Bool-cases p.is_running) [
    | inl e ↦ inl (ground (arith, e))
    | inr e ↦ inr (ground (arith, e))
  ]
