-- ===== src/Delivery/History.antt =====
-- gamesync_delivery.go: an interleaving of the handlers with the writer, and what it took and sent.
use pokemon_violet.Base.{
  ℕ, ◌+◌, ◌≡◌, refl, ◌⊎◌, inl, inr, Option, none, some, List, [], ◌∷◌, ◌++◌, arith,
}
use pokemon_violet.Base.Result.{Code}
use pokemon_violet.Delivery.Queue.{
  Writer, selecting, returned, writing, GamesyncDelivery, Event, sends, stops, context_ends,
  send_fails, takes, sees_done, sent, new_gamesync_delivery, send_message, step,
}

-- The delivery with what happened so far: the messages that Send took, and those that the stream
-- has sent, each in order.
pub record History {ℓ} (M : Type ℓ) : Type ℓ where
  pub delivery : GamesyncDelivery M
  pub taken : List M
  pub delivered : List M

abbrev pub in_flight {ℓ} : {M : Type ℓ} → Writer M → List M
in_flight selecting = []
in_flight returned = []
in_flight (writing message) = message ∷ []

abbrev pub taken_if {ℓ} : {M : Type ℓ} → M → Option Code → List M
taken_if message none = message ∷ []
taken_if message (some c) = []

abbrev pub with_writer {ℓ} : {M : Type ℓ} → GamesyncDelivery M → Writer M → GamesyncDelivery M
with_writer d w = record d { writer = w }

pub Writer-cases {ℓ} :
    {M : Type ℓ} (w : Writer M)
    → (w ≡ selecting) ⊎ ((w ≡ returned) ⊎ ((message : M) × (w ≡ writing message)))
Writer-cases selecting = inl refl
Writer-cases returned = inr (inl refl)
Writer-cases (writing message) = inr (inr (message, refl))

module _ {ℓ} {M : Type ℓ} (size : M → ℕ) where
  unfoldable pub total : List M → ℕ
  total [] = 0
  total (message ∷ rest) = size message + total rest

  unfoldable pub taken_by : GamesyncDelivery M → Event M → List M
  taken_by d (sends message) = taken_if message (send_message size d message).1
  taken_by d (stops c) = []
  taken_by d (context_ends c) = []
  taken_by d (send_fails c) = []
  taken_by d takes = []
  taken_by d sees_done = []
  taken_by d sent = []

  unfoldable pub delivered_by : GamesyncDelivery M → Event M → List M
  delivered_by d (sends message) = []
  delivered_by d (stops c) = []
  delivered_by d (context_ends c) = []
  delivered_by d (send_fails c) = []
  delivered_by d takes = []
  delivered_by d sees_done = []
  delivered_by d sent = in_flight d.writer

  unfoldable pub follow : History M → Event M → History M
  unfolding taken_by delivered_by
  follow h e = record {
    delivery = step size h.delivery e;
    taken = h.taken ++ taken_by h.delivery e;
    delivered = h.delivered ++ delivered_by h.delivery e;
  }

  unfoldable pub run : History M → List (Event M) → History M
  run h [] = h
  run h (e ∷ es) = run (follow h e) es

  unfoldable pub new_history : History M
  new_history = record { delivery = new_gamesync_delivery; taken = []; delivered = [] }

  pub total-append : (xs ys : List M) → total (xs ++ ys) ≡ total xs + total ys
  unfolding total
  total-append [] ys = omega arith
  total-append (x ∷ xs) ys = omega (arith, total-append xs ys)
