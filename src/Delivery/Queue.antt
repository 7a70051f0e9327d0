-- ===== src/Delivery/Queue.antt =====
-- gamesync_delivery.go: Send, stop, failLocked, failure, and the writer goroutine `run` as steps.
-- A message is any type with its encoded size (proto.Size), which is below 2 GB, so that the int
-- `bytes` does not overflow. Errors are status codes; the channel `done` is closed exactly when
-- `err` is set, since no caller stops a delivery with a nil error.
use pokemon_violet.Base.{
  ℕ, ◌+◌, ◌-◌, ◌*◌, Option, none, some, List, [], ◌∷◌, ◌++◌, ltb, if◌then◌else◌, length,
}
use pokemon_violet.Base.Result.{Code, resource_exhausted}

-- Where the writer goroutine stands: at its select, in the stream's Send, or returned.
pub data Writer {ℓ} (M : Type ℓ) : Type ℓ where
  selecting returned : Writer M
  writing : M → Writer M

pub record GamesyncDelivery {ℓ} (M : Type ℓ) : Type ℓ where
  pub queue : List M
  pub failed : Option Code
  pub bytes : ℕ
  pub writer : Writer M

abbrev pub queue_capacity : ℕ
queue_capacity = 256

abbrev pub byte_limit : ℕ
byte_limit = 4 * 1024 * 1024

-- What happens next: a handler's Send or stop, or a step of the writer. `takes` is its case on the
-- queue, `sent` and `send_fails` the two returns of the stream's Send.
pub data Event {ℓ} (M : Type ℓ) : Type ℓ where
  sends : M → Event M
  stops context_ends send_fails : Code → Event M
  takes sees_done sent : Event M

module _ {ℓ} {M : Type ℓ} where
  unfoldable pub new_gamesync_delivery : GamesyncDelivery M
  new_gamesync_delivery = record { queue = []; failed = none; bytes = 0; writer = selecting }

  unfoldable pub fail_locked : Code → GamesyncDelivery M → GamesyncDelivery M
  fail_locked c d = elim d.failed [ none ↦ record d { failed = some c } | some first ↦ d ]

  -- case message := <-d.queue, then the check of the failure
  unfoldable pub take_message : GamesyncDelivery M → GamesyncDelivery M
  take_message d = elim d.queue [
    | [] ↦ d
    | message ∷ rest ↦ elim d.failed [
      | none ↦ record d { queue = rest; writer = writing message }
      | some c ↦ record d { queue = rest; writer = returned }
    ]
  ]

  -- A step of the writer at its select; elsewhere the event does not happen.
  unfoldable pub at_select :
      (GamesyncDelivery M → GamesyncDelivery M) → GamesyncDelivery M → GamesyncDelivery M
  at_select step d = elim d.writer [ selecting ↦ step d | returned ↦ d | writing message ↦ d ]

  -- case <-d.done
  unfoldable pub see_done : GamesyncDelivery M → GamesyncDelivery M
  see_done d = elim d.failed [ none ↦ d | some c ↦ record d { writer = returned } ]

  -- case <-d.Context().Done()
  unfoldable pub see_context : Code → GamesyncDelivery M → GamesyncDelivery M
  see_context c d = record (fail_locked c d) { writer = returned }

  -- The stream's Send returned an error.
  unfoldable pub send_failed : Code → GamesyncDelivery M → GamesyncDelivery M
  send_failed c d = elim d.writer [
    | selecting ↦ d
    | returned ↦ d
    | writing message ↦ record (fail_locked c d) { writer = returned }
  ]

module _ {ℓ} {M : Type ℓ} (size : M → ℕ) where
  -- The reply is the error that Send returns, if any.
  unfoldable pub send_message : GamesyncDelivery M → M → GamesyncDelivery M × Option Code
  send_message d message = elim d.failed [
    | some c ↦ (d, some c)
    | none ↦
        if ltb byte_limit (d.bytes + size message)
        then (fail_locked resource_exhausted d, some resource_exhausted)
        else if ltb (length d.queue) queue_capacity
        then (record d { queue = d.queue ++ (message ∷ []); bytes = d.bytes + size message }, none)
        else (fail_locked resource_exhausted d, some resource_exhausted)
  ]

  -- The stream's Send returned nil.
  unfoldable pub send_done : GamesyncDelivery M → GamesyncDelivery M
  send_done d = elim d.writer [
    | selecting ↦ d
    | returned ↦ d
    | writing message ↦ record d { bytes = d.bytes - size message; writer = selecting }
  ]

  unfoldable pub step : GamesyncDelivery M → Event M → GamesyncDelivery M
  step d (sends message) = (send_message d message).0
  step d (stops c) = fail_locked c d
  step d (context_ends c) = at_select (see_context c) d
  step d (send_fails c) = send_failed c d
  step d takes = at_select take_message d
  step d sees_done = at_select see_done d
  step d sent = send_done d
