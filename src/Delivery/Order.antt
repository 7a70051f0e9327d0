-- ===== src/Delivery/Order.antt =====
-- gamesync_delivery.go: what holds of a delivery after any interleaving of the handlers with the writer.
use pokemon_violet.Base.{
  ℕ, ◌≤◌, ◌≡◌, refl, sym, subst, ◌≢◌, inl, inr, none, List, [], ◌∷◌, ◌++◌, append-nil, arith,
  Option-cases, length,
}
use pokemon_violet.Delivery.Queue.{
  Writer, returned, GamesyncDelivery, queue_capacity, byte_limit, Event, sends, stops, context_ends,
  send_fails, takes, sees_done, sent, new_gamesync_delivery, step, take_message, see_context,
  at_select, see_done, send_failed, send_done,
}
use pokemon_violet.Delivery.History.{
  total, History, in_flight, Writer-cases, taken_by, delivered_by, follow, run, new_history,
  with_writer,
}
use pokemon_violet.Delivery.Kept.{
  Settled, Good, fails-Good, sends-Good, returns-Good, sees_context-Good, takes-Good, sent-Good,
}

module _ {ℓ} {M : Type ℓ} (size : M → ℕ) where
  step-Good :
      (d : GamesyncDelivery M) (e : Event M) (taken delivered : List M)
      → Good size d taken delivered
      → Good size (step size d e) (taken ++ taken_by size d e) (delivered ++ delivered_by size d e)
  unfolding step taken_by delivered_by at_select see_done send_failed send_done see_context
  step-Good d (sends message) taken delivered good = sends-Good size message d taken delivered good
  step-Good d (stops c) taken delivered good =
      rw (append-nil taken, append-nil delivered) (fails-Good size c d taken delivered good)
  step-Good d (context_ends c) taken delivered good =
      rw (append-nil taken, append-nil delivered)
        (elim (Writer-cases d.writer) [
          | inl idle ↦ rw (idle, at_select) (sees_context-Good size c d taken delivered good)
          | inr (inl gone) ↦ rw (gone, at_select) good
          | inr (inr (m, busy)) ↦ rw (busy, at_select) good
        ])
  step-Good d (send_fails c) taken delivered good =
      rw (append-nil taken, append-nil delivered)
        (elim (Writer-cases d.writer) [
          | inl idle ↦ rw (idle, send_failed) good
          | inr (inl gone) ↦ rw (gone, send_failed) good
          | inr (inr (m, busy)) ↦
              rw (busy, send_failed) (sees_context-Good size c d taken delivered good)
        ])
  step-Good d takes taken delivered good =
      rw (append-nil taken, append-nil delivered)
        (elim (Writer-cases d.writer) [
          | inl idle ↦
              rw (idle, at_select)
                (subst
                  (λ (w : Writer M). Good size (take_message (with_writer d w)) taken delivered)
                  (sym idle)
                  (takes-Good size d.queue d.failed d.bytes taken delivered (
                    subst (λ (w : Writer M). Good size (with_writer d w) taken delivered) idle
                      good)))
          | inr (inl gone) ↦ rw (gone, at_select) good
          | inr (inr (m, busy)) ↦ rw (busy, at_select) good
        ])
  step-Good d sees_done taken delivered good =
      rw (append-nil taken, append-nil delivered)
        (elim (Writer-cases d.writer) [
          | inl idle ↦ elim (Option-cases d.failed) [
            | inl alive ↦ rw (idle, at_select) (rw (alive, see_done) good)
            | inr (first, e) ↦
                rw (idle, at_select)
                  (rw (e, see_done) (returns-Good size d taken delivered first e good))
          ]
          | inr (inl gone) ↦ rw (gone, at_select) good
          | inr (inr (m, busy)) ↦ rw (busy, at_select) good
        ])
  step-Good d sent taken delivered good = rw (append-nil taken) (elim (Writer-cases d.writer) [
    | inl idle ↦ rw (idle, send_done) (rw (append-nil delivered) good)
    | inr (inl gone) ↦ rw (gone, send_done) (rw (append-nil delivered) good)
    | inr (inr (m, busy)) ↦
        rw (busy, send_done)
          (sent-Good size d.queue d.failed d.bytes m taken delivered
            (subst (λ (w : Writer M). Good size (with_writer d w) taken delivered) busy good))
  ])

  pub run-Good :
      (h : History M) (es : List (Event M))
      → Good size h.delivery h.taken h.delivered
      → Good size (run size h es).delivery (run size h es).taken (run size h es).delivered
  unfolding run follow
  run-Good h [] good = good
  run-Good h (e ∷ es) good =
      run-Good (follow size h e) es (step-Good h.delivery e h.taken h.delivered good)

  pub new-Good : Good size new_gamesync_delivery [] []
  unfolding new_gamesync_delivery total
  new-Good = ([], refl, (refl, refl, λ e. cc), omega arith, omega arith)

  -- Whatever the interleaving of handlers and writer, nothing overtakes and nothing is dropped in
  -- the middle: the messages that Send took are those that the stream has sent, then the one in
  -- flight, then some others, all in the order of the calls; while the delivery has not failed, the
  -- others are the queue.
  pub delivered_in_order :
      (es : List (Event M))
      → let h = run size (new_history size) es in
        (later : List M) × (h.taken ≡ h.delivered ++ (in_flight h.delivery.writer ++ later))
        × (h.delivery.failed ≡ none → later ≡ h.delivery.queue)
  unfolding new_history
  delivered_in_order es =
      let h = run size (new_history size) es in
      let (later, all, settled, _, _) = run-Good (new_history size) es new-Good in
      (
        later,
        all,
        λ alive.
            (subst (λ f. Settled size f later h.delivery.queue h.delivery.bytes h.delivery.writer)
              alive settled).0,
      )

  -- The delivery never holds more than 256 queued messages or 4 MiB; while it has not failed, its
  -- byte count is the size of what is in flight and queued, and the writer still runs.
  pub delivery_bounded :
      (es : List (Event M))
      → let d = (run size (new_history size) es).delivery in
        (d.bytes ≤ byte_limit)
        × (length d.queue ≤ queue_capacity)
        × (d.failed ≡ none
            → (d.bytes ≡ total size (in_flight d.writer ++ d.queue)) × (d.writer ≢ returned))
  unfolding new_history
  delivery_bounded es =
      let d = (run size (new_history size) es).delivery in
      let (later, _, settled, small, short) = run-Good (new_history size) es new-Good in
      (
        small,
        short,
        λ alive.
            let (_, counted, active) =
              subst (λ f. Settled size f later d.queue d.bytes d.writer) alive settled in
            (counted, active),
      )
