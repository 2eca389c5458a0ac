-- ===== src/Agent/Loops/Order.antt =====
-- internal/agent/agent.go: what becomes of the batches that the agent collects.
use theminidog.Base.{
  ℕ, zero, suc, ◌≤◌, ◌<◌, ◌≡◌, refl, sym, ap, ◌∙◌, subst, Bool, true, false, Option, none, some,
  List, [], ◌∷◌, ◌++◌, String, ℤ, pos, negsuc, ◌≤ℤ◌, ltb, arith, length, length-append, Bool-cases,
  inl, inr, ◌⊎◌, map,
}
use mathlib.Core.List.{append_assoc, append-nil, map-append}
use theminidog.Model.Metric.{MetricBatch}
use theminidog.Agent.Loops.{
  Agent, Step, Steps, ticked, stopped, closed, turned, start, then_step, buffer_size, new_agent,
  offer, on_tick, cancel, close, receive, returned, sender_turn, result, flight,
}

-- The number of batches that the channel of an agent with the option holds.
abbrev pub IsCapacity : ℤ → ℕ → Type 0
IsCapacity size cap = ((size ≡ pos cap) × (0 < cap)) ⊎ ((size ≤ℤ pos 0) × (cap ≡ 10))

module _ (F : Type 0) where
  -- The batches that the ticks of a history made, in order.

  unfoldable pub made : {a b : Agent F} → Step F a b → List (MetricBatch F)
  made (ticked a [] o) = []
  made (ticked a (m ∷ ms) o) = record { host = a.host; metrics = m ∷ ms } ∷ []
  made (stopped a) = []
  made (closed a c) = []
  made (turned a failed) = []

  unfoldable pub collected : {a b : Agent F} → Steps F a b → List (MetricBatch F)
  unfolding made
  collected (start a) = []
  collected (then_step a b c p q) = collected p ++ made q

  -- The results of `Send` in a history, in order, each with its batch.
  unfoldable pub added : {a b : Agent F} → Step F a b → List (MetricBatch F × Bool)
  unfolding result
  added (ticked a ms o) = []
  added (stopped a) = []
  added (closed a c) = []
  added (turned a failed) = result F failed a

  unfoldable pub results : {a b : Agent F} → Steps F a b → List (MetricBatch F × Bool)
  unfolding added
  results (start a) = []
  results (then_step a b c p q) = results p ++ added q

  -- The first list holds the elements of the other two, each of them in its order.
  pub data IsMerge
      : List (MetricBatch F) → List (MetricBatch F) → List (MetricBatch F) → Type 0 where
    nothing : IsMerge [] [] []
    kept :
        (b : MetricBatch F) (xs ys zs : List (MetricBatch F))
        → IsMerge xs ys zs
        → IsMerge (xs ++ b ∷ []) (ys ++ b ∷ []) zs
    lost :
        (b : MetricBatch F) (xs ys zs : List (MetricBatch F))
        → IsMerge xs ys zs
        → IsMerge (xs ++ b ∷ []) ys (zs ++ b ∷ [])

  -- The sending loop has ended: at the end of the closed channel, or with a failed `Send`.
  abbrev pub IsEnded : Agent F → List (MetricBatch F × Bool) → Type 0
  IsEnded a rs =
      (a.cancelled ≡ true)
      × (((a.is_open ≡ false) × (a.batches ≡ []) × (a.in_flight ≡ none))
          ⊎ ((b : MetricBatch F) × (before : List (MetricBatch F × Bool)) × (rs
                ≡ before ++ (b, true) ∷ [])))

  -- Of the batches made, some are accepted and the others dropped. The accepted ones have a result,
  -- are given to `Send`, or wait in the channel, in this order.
  pub record IsOrdered (cap : ℕ) (made_so_far : List (MetricBatch F))
      (rs : List (MetricBatch F × Bool)) (a : Agent F) : Type 0 where
    pub accepted : List (MetricBatch F)
    pub dropped : List (MetricBatch F)
    pub sized : a.size ≡ cap
    pub bounded : length a.batches ≤ cap
    pub merged : IsMerge made_so_far accepted dropped
    pub in_order : map (λ r. r.0) rs ++ (flight F a.in_flight ++ a.batches) ≡ accepted
    pub spared : (dropped ≡ []) ⊎ (cap ≤ length accepted)
    pub stopping : (a.is_open ≡ true) ⊎ (a.cancelled ≡ true)
    pub going : (a.sending ≡ true) ⊎ IsEnded a rs

  -- A turn gives its result to the batch in front, and keeps the order.
  turn_order :
      (failed : Bool) (a : Agent F)
      → map (λ r. r.0) (result F failed a)
          ++ (flight F (sender_turn F failed a).in_flight ++ (sender_turn F failed a).batches)
        ≡ flight F a.in_flight ++ a.batches
  unfolding result sender_turn receive returned
  turn_order failed a = ground arith

  turn_bounded :
      (failed : Bool) (a : Agent F)
      → ((sender_turn F failed a).size ≡ a.size)
        × (length (sender_turn F failed a).batches ≤ length a.batches)
        × ((sender_turn F failed a).is_open ≡ a.is_open)
        × ((sender_turn F failed a).cancelled ≡ a.cancelled)
  unfolding sender_turn receive returned
  turn_bounded failed a = ground arith

  module _ (host : String) (size : ℕ) (rs : List (MetricBatch F × Bool)) where
    -- The state with these fields.
    abbrev at : List (MetricBatch F) → Bool → Bool → Bool → Option (MetricBatch F) → Agent F
    at bs c o s f = record {
      host = host;
      size = size;
      batches = bs;
      cancelled = c;
      is_open = o;
      sending = s;
      in_flight = f;
    }

    abbrev IsGoing : Agent F → List (MetricBatch F × Bool) → Type 0
    IsGoing a l = (a.sending ≡ true) ⊎ IsEnded a l

    at-IsGoing :
        (bs : List (MetricBatch F)) (c o s : Bool) (f : Option (MetricBatch F)) (failed : Bool)
        → (o ≡ true) ⊎ (c ≡ true)
        → IsGoing (at bs c o s f) rs
        → IsGoing (sender_turn F failed (at bs c o s f)) (rs ++ result F failed (at bs c o s f))
    unfolding result sender_turn receive returned
    at-IsGoing bs c o false f failed stopping (inl e) = absurd (ground (arith, e))
    at-IsGoing bs c o false f failed stopping (inr e) =
        inr (subst (IsEnded (at bs c o false f)) (sym (append-nil rs)) e)
    at-IsGoing [] c true true none failed stopping going = inl refl
    at-IsGoing [] c false true none failed (inl e) going = absurd (ground (arith, e))
    at-IsGoing [] c false true none failed (inr e) going = inr (e, inl (refl, refl, refl))
    at-IsGoing (b ∷ bs) c o true none failed stopping going = inl refl
    at-IsGoing bs c o true (some b) false stopping going = inl refl
    at-IsGoing bs false o true (some b) true stopping going = inl refl
    at-IsGoing bs true o true (some b) true stopping going = inr (refl, inr (b, rs, refl))

  longer :
      (xs ys zs ws : List (MetricBatch F)) → xs ++ (ys ++ (zs ++ ws)) ≡ (xs ++ (ys ++ zs)) ++ ws
  longer xs ys zs ws =
      ap (λ l. xs ++ l) (sym (append_assoc ys zs ws)) ∙ sym (append_assoc xs (ys ++ zs) ws)

  module _ (cap : ℕ) (ms : List (MetricBatch F)) (rs : List (MetricBatch F × Bool)) where
    quiet : (a : Agent F) → IsOrdered cap ms rs a → IsOrdered cap (ms ++ []) (rs ++ []) a
    quiet a h =
        subst (λ l. IsOrdered cap l (rs ++ []) a) (sym (append-nil ms))
          (subst (λ l. IsOrdered cap ms l a) (sym (append-nil rs)) h)

    -- While the channel is open, the loop has ended with a failure, if it has.
    open_going :
        (a a' : Agent F)
        → a.is_open ≡ true
        → a'.sending ≡ a.sending
        → a'.cancelled ≡ a.cancelled
        → (a.sending ≡ true) ⊎ IsEnded a rs
        → (a'.sending ≡ true) ⊎ IsEnded a' rs
    open_going a a' o s c (inl e) = inl (s ∙ e)
    open_going a a' o s c (inr (e, inl (shut, empty, idle))) = absurd (ground (arith, o, shut))
    open_going a a' o s c (inr (e, inr failure)) = inr (c ∙ e, inr failure)

    waiting :
        (a : Agent F) (accepted : List (MetricBatch F))
        → map (λ r. r.0) rs ++ (flight F a.in_flight ++ a.batches) ≡ accepted
        → length a.batches ≤ length accepted
    waiting a accepted e =
        let done = map (λ r. r.0) rs in
        let whole = ap length e in
        omega (
          arith,
          whole,
          length-append done (flight F a.in_flight ++ a.batches),
          length-append (flight F a.in_flight) a.batches,
        )

    offered :
        (b : MetricBatch F) (a : Agent F)
        → a.is_open ≡ true
        → IsOrdered cap ms rs a
        → IsOrdered cap (ms ++ b ∷ []) rs (offer F b a)
    unfolding offer
    offered b a o h = elim (Bool-cases (ltb (length a.batches) a.size)) [
      | inl e ↦
          let put : Agent F = record a { batches = a.batches ++ b ∷ [] } in
          rw (e, offer)
            (record {
              accepted = h.accepted ++ b ∷ [];
              dropped = h.dropped;
              sized = h.sized;
              bounded = ground (arith, e, h.sized, length-append a.batches (b ∷ []));
              merged = kept b ms h.accepted h.dropped h.merged;
              in_order =
                  longer (map (λ r. r.0) rs) (flight F a.in_flight) a.batches (b ∷ [])
                  ∙ ap (λ l. l ++ b ∷ []) h.in_order;
              spared = elim h.spared [
                | inl n ↦ inl n
                | inr k ↦ inr (omega (arith, k, length-append h.accepted (b ∷ [])))
              ];
              stopping = h.stopping;
              going = open_going a put o refl refl h.going;
            })
      | inr e ↦
          rw (e, offer)
            (record {
              accepted = h.accepted;
              dropped = h.dropped ++ b ∷ [];
              sized = h.sized;
              bounded = h.bounded;
              merged = lost b ms h.accepted h.dropped h.merged;
              in_order = h.in_order;
              spared = inr (ground (arith, e, h.sized, waiting a h.accepted h.in_order));
              stopping = h.stopping;
              going = h.going;
            })
    ]

    turned-IsOrdered :
        (a : Agent F) (failed : Bool)
        → IsOrdered cap ms rs a
        → IsOrdered cap ms (rs ++ result F failed a) (sender_turn F failed a)
    turned-IsOrdered a failed h =
        let (same, fewer, shut, stop) = turn_bounded failed a in
        let next = sender_turn F failed a in
        let left = flight F next.in_flight ++ next.batches in
        record {
          accepted = h.accepted;
          dropped = h.dropped;
          sized = same ∙ h.sized;
          bounded = let most = h.bounded in omega (arith, fewer, most);
          merged = h.merged;
          in_order =
              ap (λ l. l ++ left) (map-append (λ r. r.0) rs (result F failed a))
              ∙ append_assoc (map (λ r. r.0) rs) (map (λ r. r.0) (result F failed a)) left
              ∙ ap (λ l. map (λ r. r.0) rs ++ l) (turn_order failed a)
              ∙ h.in_order;
          spared = h.spared;
          stopping = rw (shut, stop) h.stopping;
          going =
              at-IsGoing a.host a.size rs a.batches a.cancelled a.is_open a.sending a.in_flight
                failed h.stopping h.going;
        }

    -- A step keeps the order, and its batches and results join those of the history.
    Step-IsOrdered :
        {a b : Agent F} (q : Step F a b)
        → IsOrdered cap ms rs a
        → IsOrdered cap (ms ++ made q) (rs ++ added q) b
    unfolding made added on_tick cancel close
    Step-IsOrdered (ticked a [] o) h = quiet a h
    Step-IsOrdered (ticked a (x ∷ xs) o) h =
        let b : MetricBatch F = record { host = a.host; metrics = x ∷ xs } in
        subst (λ l. IsOrdered cap (ms ++ b ∷ []) l (offer F b a)) (sym (append-nil rs))
          (offered b a o h)
    Step-IsOrdered (stopped a) h = quiet (cancel F a) (record {
      accepted = h.accepted;
      dropped = h.dropped;
      sized = h.sized;
      bounded = h.bounded;
      merged = h.merged;
      in_order = h.in_order;
      spared = h.spared;
      stopping = inr refl;
      going = elim h.going [ inl e ↦ inl e | inr e ↦ inr (refl, e.1) ];
    })
    Step-IsOrdered (closed a c) h = quiet (close F a) (record {
      accepted = h.accepted;
      dropped = h.dropped;
      sized = h.sized;
      bounded = h.bounded;
      merged = h.merged;
      in_order = h.in_order;
      spared = h.spared;
      stopping = inr c;
      going = elim h.going [
        | inl e ↦ inl e
        | inr (e, inl (shut, empty, idle)) ↦ inr (e, inl (refl, empty, idle))
        | inr (e, inr failure) ↦ inr (e, inr failure)
      ];
    })
    Step-IsOrdered (turned a failed) h =
        subst (λ l. IsOrdered cap l (rs ++ result F failed a) (sender_turn F failed a))
          (sym (append-nil ms)) (turned-IsOrdered a failed h)

  Steps-IsOrdered :
      (cap : ℕ) {a b : Agent F} (p : Steps F a b)
      → IsOrdered cap [] [] a
      → IsOrdered cap (collected p) (results p) b
  unfolding collected results
  Steps-IsOrdered cap (start a) h = h
  Steps-IsOrdered cap (then_step a b c p q) h =
      Step-IsOrdered cap (collected p) (results p) q (Steps-IsOrdered cap p h)

  new-IsOrdered :
      (host : String) (size : ℤ) → IsOrdered (buffer_size size) [] [] (new_agent F host size)
  unfolding new_agent
  new-IsOrdered host size = record {
    accepted = [];
    dropped = [];
    sized = refl;
    bounded = omega arith;
    merged = nothing;
    in_order = refl;
    spared = inl refl;
    stopping = inl refl;
    going = inl refl;
  }

  buffer_size-IsCapacity : (size : ℤ) → IsCapacity size (buffer_size size)
  unfolding buffer_size
  buffer_size-IsCapacity (pos zero) = inr (omega arith, refl)
  buffer_size-IsCapacity (pos (suc n)) = inl (refl, omega arith)
  buffer_size-IsCapacity (negsuc n) = inr (omega arith, refl)

  -- For every history of the two loops from a new agent, whatever the interleaving of ticks, turns
  -- of the sending loop, results of Send, and the cancellation: the channel holds at most the
  -- configured number of batches, 10 where that is not positive. The batches made by the ticks are
  -- the accepted and the dropped ones, each in order, and none is dropped before that number was
  -- accepted. The accepted ones are those whose Send has returned, then the one that Send has,
  -- then those in the channel. The sending loop has ended only under a cancelled context, at the
  -- end of the closed and empty channel or with a failed Send.
  pub run-IsOrdered :
      (host : String) (size : ℤ) {a : Agent F} (p : Steps F (new_agent F host size) a)
      → (cap : ℕ) × IsCapacity size cap × IsOrdered cap (collected p) (results p) a
  run-IsOrdered host size p = (
    buffer_size size,
    buffer_size-IsCapacity size,
    Steps-IsOrdered (buffer_size size) p (new-IsOrdered host size),
  )
