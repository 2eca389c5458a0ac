-- ===== src/Agent/Loops.antt =====
-- internal/agent/agent.go: the collecting and the sending loop, over the buffered channel between
-- them, as a step relation.
pub mod Order
pub mod End
use theminidog.Base.{
  ℕ, zero, suc, Bool, true, false, not, ◌&&◌, Option, none, some, List, [], ◌∷◌, ◌++◌, String, ℤ,
  pos, ltb, if◌then◌else◌, length, ◌≡◌,
}
use theminidog.Model.Metric.{Metric, MetricBatch}

-- `New`: a size that is not positive becomes 10.
unfoldable pub buffer_size : ℤ → ℕ
buffer_size (pos zero) = 10
buffer_size (pos (suc n)) = suc n
buffer_size n = 10

module _ (F : Type 0) where
  -- `batches` is the channel, open until the collecting loop has returned; `cancelled` says whether
  -- the context is. `sending` says whether the sending loop runs, and `in_flight` is the batch that
  -- `Send` has.
  pub record Agent : Type 0 where
    pub host : String
    pub size : ℕ
    pub batches : List (MetricBatch F)
    pub cancelled : Bool
    pub is_open : Bool
    pub sending : Bool
    pub in_flight : Option (MetricBatch F)

  unfoldable pub new_agent : String → ℤ → Agent
  unfolding buffer_size
  new_agent host size = record {
    host = host;
    size = buffer_size size;
    batches = [];
    cancelled = false;
    is_open = true;
    sending = true;
    in_flight = none;
  }

  -- The send of the `select`, which falls through where the channel is full.
  unfoldable pub offer : MetricBatch F → Agent → Agent
  offer b a =
      if ltb (length a.batches) a.size then record a { batches = a.batches ++ b ∷ [] } else a

  -- A tick, with what `CollectAll` returned.
  unfoldable pub on_tick : List (Metric F) → Agent → Agent
  unfolding offer
  on_tick [] a = a
  on_tick (m ∷ ms) a = offer (record { host = a.host; metrics = m ∷ ms }) a

  unfoldable pub cancel : Agent → Agent
  cancel a = record a { cancelled = true }

  -- The collecting loop returns and closes the channel.
  unfoldable pub close : Agent → Agent
  close a = record a { is_open = false }

  -- The receive of `range`: at an empty channel the loop waits, or ends where it is closed.
  unfoldable pub receive : List (MetricBatch F) → Agent → Agent
  receive [] a = if a.is_open then a else record a { sending = false }
  receive (b ∷ rest) a = record a { batches = rest; in_flight = some b }

  -- `Send` returns: with an error under a cancelled context the loop ends.
  unfoldable pub returned : Bool → Agent → Agent
  returned failed a = record a { in_flight = none; sending = not (failed && a.cancelled) }

  -- The next turn of the sending loop; `failed` is the result of `Send` where it returns.
  unfoldable pub sender_turn : Bool → Agent → Agent
  unfolding receive returned
  sender_turn failed a =
      if a.sending
      then (elim a.in_flight [ none ↦ receive a.batches a | some b ↦ returned failed a ])
      else a

  pub data Step : Agent → Agent → Type 0 where
    ticked : (a : Agent) (ms : List (Metric F)) → a.is_open ≡ true → Step a (on_tick ms a)
    stopped : (a : Agent) → Step a (cancel a)
    closed : (a : Agent) → a.cancelled ≡ true → Step a (close a)
    turned : (a : Agent) (failed : Bool) → Step a (sender_turn failed a)

  pub data Steps : Agent → Agent → Type 0 where
    start : (a : Agent) → Steps a a
    then_step : (a b c : Agent) → Steps a b → Step b c → Steps a c

  -- The result of `Send` in a turn, with its batch.
  unfoldable pub result : Bool → Agent → List (MetricBatch F × Bool)
  result failed a =
      if a.sending then (elim a.in_flight [ none ↦ [] | some b ↦ (b, failed) ∷ [] ]) else []

  -- The batch of `Send`, as a list.
  abbrev pub flight : Option (MetricBatch F) → List (MetricBatch F)
  flight none = []
  flight (some b) = b ∷ []
