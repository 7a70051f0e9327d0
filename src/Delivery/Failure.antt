-- ===== src/Delivery/Failure.antt =====
-- gamesync_delivery.go: a delivery after its failure, and the rounds of its writer.
use pokemon_violet.Base.{
  ℕ, zero, suc, ◌-◌, ◌≡◌, refl, sym, ap, ◌∙◌, subst, inl, inr, Option, none, some, List, [], ◌∷◌,
  ◌++◌, append-nil, append_assoc, length,
}
use pokemon_violet.Base.Result.{Code}
use pokemon_violet.Delivery.Queue.{
  selecting, GamesyncDelivery, Event, sends, stops, context_ends, send_fails, takes, sees_done,
  sent, fail_locked, take_message, at_select, see_done, see_context, send_failed, send_message,
  send_done, step, Writer,
}
use pokemon_violet.Delivery.History.{
  History, run, Writer-cases, taken_by, delivered_by, follow, new_history,
}
use pokemon_violet.Delivery.Order.{delivered_in_order}

module _ {ℓ} {M : Type ℓ} (size : M → ℕ) where
  fail_locked-failed :
      (c first : Code) (d : GamesyncDelivery M) → d.failed ≡ some first → fail_locked c d ≡ d
  unfolding fail_locked
  fail_locked-failed c first d e =
      rw (e, fail_locked) (ap (λ (f : Option Code). record d { failed = f }) e)

  step-failed :
      (d : GamesyncDelivery M) (e : Event M) (first : Code)
      → d.failed ≡ some first
      → ((step size d e).failed ≡ some first) × (taken_by size d e ≡ [])
  unfolding step taken_by send_message at_select see_context take_message see_done send_failed
      send_done
  step-failed d (sends message) first e = (rw (e, send_message) refl, rw (e, send_message) refl)
  step-failed d (stops c) first e = (rw (fail_locked-failed c first d e) e, refl)
  step-failed d (context_ends c) first e = elim (Writer-cases d.writer) [
    | inl idle ↦ (rw (idle, at_select) (rw (fail_locked-failed c first d e) e), refl)
    | inr (inl gone) ↦ (rw (gone, at_select) e, refl)
    | inr (inr (m, busy)) ↦ (rw (busy, at_select) e, refl)
  ]
  step-failed d (send_fails c) first e = elim (Writer-cases d.writer) [
    | inl idle ↦ (rw (idle, send_failed) e, refl)
    | inr (inl gone) ↦ (rw (gone, send_failed) e, refl)
    | inr (inr (m, busy)) ↦ (rw (busy, send_failed) (rw (fail_locked-failed c first d e) e), refl)
  ]
  step-failed d takes first e = elim (Writer-cases d.writer) [
    | inl idle ↦ (rw (idle, at_select) (takes_failed d.queue refl), refl)
    | inr (inl gone) ↦ (rw (gone, at_select) e, refl)
    | inr (inr (m, busy)) ↦ (rw (busy, at_select) e, refl)
  ]
    where
      takes_failed : (q : List M) → d.queue ≡ q → (take_message d).failed ≡ some first
      takes_failed [] at = rw (at, take_message) e
      takes_failed (m ∷ rest) at = rw (at, take_message) (rw (e, take_message) e)
  step-failed d sees_done first e = elim (Writer-cases d.writer) [
    | inl idle ↦ (rw (idle, at_select) (rw (e, see_done) e), refl)
    | inr (inl gone) ↦ (rw (gone, at_select) e, refl)
    | inr (inr (m, busy)) ↦ (rw (busy, at_select) e, refl)
  ]
  step-failed d sent first e = elim (Writer-cases d.writer) [
    | inl idle ↦ (rw (idle, send_done) e, refl)
    | inr (inl gone) ↦ (rw (gone, send_done) e, refl)
    | inr (inr (m, busy)) ↦ (rw (busy, send_done) e, refl)
  ]

  -- The first failure is final: from then on the delivery keeps that error, takes no message, and
  -- answers every Send with it.
  pub failure_final :
      (h : History M) (es : List (Event M)) (message : M) (first : Code)
      → h.delivery.failed ≡ some first
      → let later = run size h es in
        (later.delivery.failed ≡ some first)
        × (later.taken ≡ h.taken)
        × (send_message size later.delivery message ≡ (later.delivery, some first))
  unfolding run follow send_message
  failure_final h [] message first e = (e, refl, refuses h.delivery e)
    where
      refuses :
          (d : GamesyncDelivery M)
          → d.failed ≡ some first
          → send_message size d message ≡ (d, some first)
      refuses d at =
          rw (at, send_message)
            (ap
              (λ (f : Option Code).
                let pair : GamesyncDelivery M × Option Code =
                  (record d { failed = f }, some first) in
                pair)
              at)
  failure_final h (x ∷ es) message first e =
      let (stays, none_taken) = step-failed h.delivery x first e in
      let (keeps, same, refused) = failure_final (follow size h x) es message first stays in
      (keeps, same ∙ rw none_taken (append-nil h.taken), refused)

  -- The writer's own rounds: it takes a message and the stream sends it.
  abbrev pub rounds : ℕ → List (Event M)
  rounds zero = []
  rounds (suc n) = takes ∷ sent ∷ rounds n

  drain :
      (queue : List M) (bytes : ℕ) (taken delivered : List M)
      → let h : History M = record {
        delivery = record { queue = queue; failed = none; bytes = bytes; writer = selecting };
        taken = taken;
        delivered = delivered;
      } in
        (run size h (rounds (length queue))).delivered ≡ delivered ++ queue
  unfolding run follow step taken_by delivered_by at_select take_message send_done
  drain [] bytes taken delivered = sym (append-nil delivered)
  drain (message ∷ rest) bytes taken delivered =
      drain rest (bytes - size message) ((taken ++ []) ++ []) ((delivered ++ []) ++ (message ∷ []))
      ∙ simp (append-nil, append_assoc)

  -- Nothing that Send took is left behind: as long as the delivery has not failed and its writer is
  -- idle, one round of the writer for each queued message brings the stream everything taken so far.
  pub idle_drains :
      (es : List (Event M))
      → let h = run size (new_history size) es in
        h.delivery.failed ≡ none
        → h.delivery.writer ≡ selecting
        → (run size h (rounds (length h.delivery.queue))).delivered ≡ h.taken
  idle_drains es alive idle =
      let h = run size (new_history size) es in
      let d = h.delivery in
      let (later, all, same) = delivered_in_order size es in
      let at : d ≡ record d { failed = none; writer = selecting } =
        ap (λ (f : Option Code). record d { failed = f }) alive
        ∙ ap (λ (w : Writer M). record d { failed = none; writer = w }) idle in
      let drained : (run size h (rounds (length d.queue))).delivered ≡ h.delivered ++ d.queue =
        subst
          (λ (x : GamesyncDelivery M).
            (run size (record h { delivery = x }) (rounds (length x.queue))).delivered
            ≡ h.delivered ++ x.queue)
          (sym at) (drain d.queue d.bytes h.taken h.delivered) in
      drained ∙ sym (all ∙ rw idle (rw (same alive) refl))
