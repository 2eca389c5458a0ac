-- ===== src/Agent/Loops/End.antt =====
-- internal/agent/agent.go: the end of the sending loop after the collecting loop has returned.
use theminidog.Base.{
  ℕ, ◌+◌, ◌*◌, ◌≤◌, ◌≡◌, refl, sym, ap, subst, Bool, true, false, Option, none, some, List, [], ◌∷◌,
  ◌++◌, String, arith, length, inl, inr, ◌⊎◌, map,
}
use theminidog.Model.Metric.{MetricBatch}
use theminidog.Agent.Loops.{Agent, receive, returned, sender_turn, result, flight}

module _ (F : Type 0) where
  -- Turns of the sending loop alone, with the results of `Send` where it returns, and what came of
  -- its batches.
  unfoldable pub turns : List Bool → Agent F → Agent F
  turns [] a = a
  turns (failed ∷ fs) a = turns fs (sender_turn F failed a)

  unfoldable pub outcomes : List Bool → Agent F → List (MetricBatch F × Bool)
  outcomes [] a = []
  outcomes (failed ∷ fs) a = result F failed a ++ outcomes fs (sender_turn F failed a)

  -- The loop has ended with all the batches, or with a failed `Send`.
  abbrev pub IsDrained : List Bool → Agent F → Type 0
  IsDrained fs a =
      ((turns fs a).sending ≡ false)
      × ((map (λ r. r.0) (outcomes fs a) ≡ flight F a.in_flight ++ a.batches)
          ⊎ ((b : MetricBatch F) × (before : List (MetricBatch F × Bool)) × (a.cancelled ≡ true)
              × (outcomes fs a ≡ before ++ (b, true) ∷ [])))

  flight_short : (f : Option (MetricBatch F)) → length (flight F f) ≤ 1
  flight_short none = omega arith
  flight_short (some b) = omega arith

  ended :
      (fs : List Bool) (a : Agent F)
      → a.sending ≡ false
      → ((turns fs a).sending ≡ false) × (outcomes fs a ≡ [])
  unfolding turns outcomes sender_turn result
  ended [] a e = (e, refl)
  ended (f ∷ fs) a e = ground (arith, e, ended fs a e)

  module _ (host : String) (size : ℕ) where
    -- A state after the end of the collecting loop.
    abbrev left : List (MetricBatch F) → Bool → Option (MetricBatch F) → Bool → Agent F
    left bs c f s = record {
      host = host;
      size = size;
      batches = bs;
      cancelled = c;
      is_open = false;
      sending = s;
      in_flight = f;
    }

    left-IsDrained :
        (fs : List Bool) (bs : List (MetricBatch F)) (c : Bool) (f : Option (MetricBatch F))
        → 2 * length bs + length (flight F f) + 1 ≤ length fs
        → IsDrained fs (left bs c f true)
    unfolding turns outcomes sender_turn result receive returned
    left-IsDrained [] bs c f h = absurd (omega (arith, h))
    left-IsDrained (failed ∷ fs) [] c none h =
        let (stays, nothing_more) = ended fs (left [] c none false) refl in
        (stays, inl (ap (map (λ r. r.0)) nothing_more))
    left-IsDrained (failed ∷ fs) (b ∷ bs) c none h =
        left-IsDrained fs bs c (some b) (omega (arith, h))
    left-IsDrained (false ∷ fs) bs c (some b) h =
        let (stops, rest) = left-IsDrained fs bs c none (omega (arith, h)) in
        (
          stops,
          elim rest [
            | inl all ↦ inl (ap (◌∷◌ b) all)
            | inr (x, before, gone, e) ↦ inr (x, (b, false) ∷ before, gone, ap (◌∷◌ (b, false)) e)
          ],
        )
    left-IsDrained (true ∷ fs) bs false (some b) h =
        let (stops, rest) = left-IsDrained fs bs false none (omega (arith, h)) in
        (
          stops,
          elim rest [
            | inl all ↦ inl (ap (◌∷◌ b) all)
            | inr (x, before, gone, e) ↦ inr (x, (b, true) ∷ before, gone, ap (◌∷◌ (b, true)) e)
          ],
        )
    left-IsDrained (true ∷ fs) bs true (some b) h =
        let (stays, nothing_more) = ended fs (left bs true none false) refl in
        (stays, inr (b, [], refl, ap (◌∷◌ (b, true)) nothing_more))

  -- Where the sending loop runs and the collecting loop has returned and closed the channel: after
  -- two turns for each batch in the channel and two more, whatever the results of Send, the
  -- sending loop has ended; and by then Send has returned for the batch that it had and for all
  -- those in the channel, in order, or the context is cancelled and the last Send failed.
  pub turns-IsDrained :
      (fs : List Bool) (a : Agent F)
      → a.is_open ≡ false
      → a.sending ≡ true
      → 2 * length a.batches + 2 ≤ length fs
      → IsDrained fs a
  turns-IsDrained fs a shut runs enough =
      subst (λ o. IsDrained fs (record a { is_open = o })) (sym shut)
        (subst (λ s. IsDrained fs (record a { is_open = false; sending = s })) (sym runs)
          (left-IsDrained a.host a.size fs a.batches a.cancelled a.in_flight
            (omega (arith, enough, flight_short a.in_flight))))
