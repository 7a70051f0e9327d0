-- ===== src/Delivery/Kept.antt =====
-- gamesync_delivery.go: what each event of a delivery keeps.
use pokemon_violet.Base.{
  ℕ, ◌+◌, ◌-◌, ◌≤◌, ◌≡◌, refl, subst, ◌≢◌, inl, inr, Option, none, some, List, [], ◌∷◌, ◌++◌,
  append-nil, append_assoc, arith, ltb, Bool-cases, Option-cases, length, length-append,
}
use pokemon_violet.Base.Result.{Code, resource_exhausted}
use pokemon_violet.Delivery.Queue.{
  Writer, selecting, returned, writing, GamesyncDelivery, queue_capacity, byte_limit, fail_locked,
  send_message, take_message, see_context,
}
use pokemon_violet.Delivery.History.{total, in_flight, taken_if, total-append}

module _ {ℓ} {M : Type ℓ} (size : M → ℕ) where
  -- What holds while the delivery has not failed; `lost` are the messages behind the one in flight.
  abbrev pub Settled : Option Code → List M → List M → ℕ → Writer M → Type ℓ
  Settled none lost queue bytes writer =
      (lost ≡ queue) × (bytes ≡ total size (in_flight writer ++ queue)) × (writer ≢ returned)
  Settled (some c) lost queue bytes writer = Unit

  abbrev pub Good : GamesyncDelivery M → List M → List M → Type ℓ
  Good d taken delivered =
      (lost : List M) × (taken ≡ delivered ++ (in_flight d.writer ++ lost))
      × Settled d.failed lost d.queue d.bytes d.writer
      × (d.bytes ≤ byte_limit)
      × (length d.queue ≤ queue_capacity)

  pub fails-Good :
      (c : Code) (d : GamesyncDelivery M) (taken delivered : List M)
      → Good d taken delivered
      → Good (fail_locked c d) taken delivered
  unfolding fail_locked
  fails-Good c d taken delivered (lost, all, settled, small, short) = elim (Option-cases d.failed) [
    | inl alive ↦ rw (alive, fail_locked) (lost, all, tt, small, short)
    | inr (first, e) ↦ rw (e, fail_locked) (lost, all, rw e tt, small, short)
  ]

  grows :
      (taken delivered flight queue : List M) (message : M)
      → taken ≡ delivered ++ (flight ++ queue)
      → taken ++ (message ∷ []) ≡ (delivered ++ []) ++ (flight ++ (queue ++ (message ∷ [])))
  grows taken delivered flight queue message all = rw all (simp (append-nil, append_assoc))

  total-grows :
      (flight queue : List M) (message : M) (bytes : ℕ)
      → bytes ≡ total size (flight ++ queue)
      → bytes + size message ≡ total size (flight ++ (queue ++ (message ∷ [])))
  unfolding total
  total-grows flight queue message bytes all = omega (
    arith,
    total-append size flight queue,
    total-append size flight (queue ++ (message ∷ [])),
    total-append size queue (message ∷ []),
  )

  pub sends-Good :
      (message : M) (d : GamesyncDelivery M) (taken delivered : List M)
      → Good d taken delivered
      → Good
          (send_message size d message).0
          (taken ++ taken_if message (send_message size d message).1)
          (delivered ++ [])
  unfolding send_message
  sends-Good message d taken delivered good = elim (Option-cases d.failed) [
    | inr (first, e) ↦ rw (e, send_message) (rw (append-nil taken, append-nil delivered) good)
    | inl alive ↦ elim (Bool-cases (ltb byte_limit (d.bytes + size message))) [
      | inl big ↦
          rw (alive, send_message)
            (rw big (
              rw (append-nil taken, append-nil delivered)
                (fails-Good resource_exhausted d taken delivered good)))
      | inr fits ↦ elim (Bool-cases (ltb (length d.queue) queue_capacity)) [
        | inr full ↦
            rw (alive, send_message)
              (rw fits (
                rw full (
                  rw (append-nil taken, append-nil delivered)
                    (fails-Good resource_exhausted d taken delivered good))))
        | inl room ↦
            let (lost, all, settled, small, short) = good in
            let (same, counted, active) =
              subst (λ f. Settled f lost d.queue d.bytes d.writer) alive settled in
            rw (alive, send_message)
              (rw fits (
                rw room (
                  rw (alive) (
                    d.queue ++ (message ∷ []),
                    grows taken delivered (in_flight d.writer) d.queue message
                        (rw all (rw same refl)),
                    (
                      refl,
                      total-grows (in_flight d.writer) d.queue message d.bytes counted,
                      active,
                    ),
                    ground (arith, fits),
                    ground (arith, room, length-append d.queue (message ∷ [])),
                  ))))
      ]
    ]
  ]

  -- A writer that has returned leaves what it was writing among the lost messages.
  pub returns-Good :
      (d : GamesyncDelivery M) (taken delivered : List M) (first : Code)
      → d.failed ≡ some first
      → Good d taken delivered
      → Good (record d { writer = returned }) taken delivered
  returns-Good d taken delivered first e (lost, all, settled, small, short) =
      (in_flight d.writer ++ lost, all, rw e tt, small, short)

  pub sees_context-Good :
      (c : Code) (d : GamesyncDelivery M) (taken delivered : List M)
      → Good d taken delivered
      → Good (see_context c d) taken delivered
  unfolding see_context fail_locked
  sees_context-Good c d taken delivered (lost, all, settled, small, short) =
      elim (Option-cases d.failed) [
        | inl alive ↦ rw (alive, fail_locked) (in_flight d.writer ++ lost, all, tt, small, short)
        | inr (first, e) ↦
            rw (e, fail_locked) (in_flight d.writer ++ lost, all, rw e tt, small, short)
      ]

  pub takes-Good :
      (queue : List M) (failed : Option Code) (bytes : ℕ) (taken delivered : List M)
      → Good
          (record { queue = queue; failed = failed; bytes = bytes; writer = selecting })
          taken
          delivered
      → Good
          (take_message
            (record { queue = queue; failed = failed; bytes = bytes; writer = selecting }))
          taken
          delivered
  unfolding take_message
  takes-Good [] failed bytes taken delivered good = good
  takes-Good (message ∷ rest) none bytes taken delivered
        (lost, all, (same, counted, active), small, short) =
      (rest, rw all (rw same refl), (refl, counted, λ e. cc), small, ground arith)
  takes-Good (message ∷ rest) (some c) bytes taken delivered (lost, all, settled, small, short) =
      (lost, all, tt, small, ground arith)

  pub sent-Good :
      (queue : List M) (failed : Option Code) (bytes : ℕ) (message : M) (taken delivered : List M)
      → Good
          (record { queue = queue; failed = failed; bytes = bytes; writer = writing message })
          taken
          delivered
      → Good
          (record {
            queue = queue;
            failed = failed;
            bytes = bytes - size message;
            writer = selecting;
          })
          taken
          (delivered ++ (message ∷ []))
  unfolding total
  sent-Good queue none bytes message taken delivered
        (lost, all, (same, counted, active), small, short) =
      (
        lost,
        rw all (simp append_assoc),
        (same, omega (arith, counted), λ e. cc),
        omega (arith, small),
        short,
      )
  sent-Good queue (some c) bytes message taken delivered (lost, all, settled, small, short) =
      (lost, rw all (simp append_assoc), tt, omega (arith, small), short)
