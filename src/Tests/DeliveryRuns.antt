-- ===== src/Tests/DeliveryRuns.antt =====
-- Runs and witnesses of the gamesync delivery, with numbers as messages, each its own size.
use pokemon_violet.Base.{ℕ, ◌≤◌, ◌≡◌, refl, ◌≢◌, none, some, List, [], ◌∷◌, ◌++◌, length}
use pokemon_violet.Base.Result.{resource_exhausted}
use pokemon_violet.Delivery.Queue.{
  selecting, returned, queue_capacity, byte_limit, Event, sends, takes, sent, new_gamesync_delivery,
  fail_locked, take_message, at_select, send_message, send_done, step,
}
use pokemon_violet.Delivery.History.{
  run, in_flight, total, taken_by, delivered_by, follow, new_history,
}
use pokemon_violet.Delivery.Order.{delivered_in_order, delivery_bounded}
use pokemon_violet.Delivery.Failure.{rounds, failure_final, idle_drains}

abbrev number_size : ℕ → ℕ
number_size n = n

abbrev two_sends : List (Event ℕ)
two_sends = sends 10 ∷ sends 20 ∷ []

abbrev interleaved : List (Event ℕ)
interleaved = sends 10 ∷ takes ∷ sends 20 ∷ sent ∷ []

abbrev too_large : List (Event ℕ)
too_large = sends 10 ∷ sends 4194300 ∷ []

queue_moves : run number_size (new_history number_size) interleaved ≡ record {
  delivery = record { queue = 20 ∷ []; failed = none; bytes = 20; writer = selecting };
  taken = 10 ∷ 20 ∷ [];
  delivered = 10 ∷ [];
}
unfolding run follow new_history new_gamesync_delivery step taken_by delivered_by send_message
    at_select take_message send_done
queue_moves = refl

overflow_fails :
    (run number_size (new_history number_size) too_large).delivery.failed ≡ some resource_exhausted
unfolding run follow new_history new_gamesync_delivery step send_message fail_locked
overflow_fails = refl

two_alive : (run number_size (new_history number_size) two_sends).delivery.failed ≡ none
unfolding run follow new_history new_gamesync_delivery step send_message
two_alive = refl

two_idle : (run number_size (new_history number_size) two_sends).delivery.writer ≡ selecting
unfolding run follow new_history new_gamesync_delivery step send_message
two_idle = refl

delivered_in_order_example :
    let h = run number_size (new_history number_size) interleaved in
    (later : List ℕ) × (h.taken ≡ h.delivered ++ (in_flight h.delivery.writer ++ later))
    × (h.delivery.failed ≡ none → later ≡ h.delivery.queue)
delivered_in_order_example = delivered_in_order number_size interleaved

delivery_bounded_example :
    let d = (run number_size (new_history number_size) interleaved).delivery in
    (d.bytes ≤ byte_limit)
    × (length d.queue ≤ queue_capacity)
    × (d.failed ≡ none
        → (d.bytes ≡ total number_size (in_flight d.writer ++ d.queue)) × (d.writer ≢ returned))
delivery_bounded_example = delivery_bounded number_size interleaved

failure_final_example :
    let h = run number_size (new_history number_size) too_large in
    let later = run number_size h interleaved in
    (later.delivery.failed ≡ some resource_exhausted)
    × (later.taken ≡ h.taken)
    × (send_message number_size later.delivery 1 ≡ (later.delivery, some resource_exhausted))
failure_final_example =
    failure_final number_size (run number_size (new_history number_size) too_large) interleaved 1
      resource_exhausted overflow_fails

idle_drains_example :
    let h = run number_size (new_history number_size) two_sends in
    (run number_size h (rounds number_size (length h.delivery.queue))).delivered ≡ h.taken
idle_drains_example = idle_drains number_size two_sends two_alive two_idle
