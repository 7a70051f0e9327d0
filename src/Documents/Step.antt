-- ===== src/Documents/Step.antt =====
-- gamesync_store.go: what a write operation that succeeds has passed, and what it leaves.
use pokemon_violet.Base.{◌≡◌, sym, false, not, Option, arith, nat_eq, bytes_eq}
use pokemon_violet.Base.Dict.{Dict, lookup}
use pokemon_violet.Base.Int.{ℤ, int_eq}
use pokemon_violet.Base.Result.{
  invalid_argument, Result, ok, ◌>>◌, guard, >>=-eq-ok, >>-eq-ok, guard-eq-ok, ok-inj,
}
use pokemon_violet.Base.Text.{Bytes}
use pokemon_violet.TradeBox.Message.{Time}
use pokemon_violet.TradeBox.Server.{last_resource_segment}
use pokemon_violet.Documents.Message.{Document, WriteOperation, GamesyncSession}
use pokemon_violet.Documents.Writable.{writable_document}
use pokemon_violet.Documents.Batch.{
  write_operation, check_precondition, target_name, precondition, no_operation, draft, Edit, edit,
  Batch, store_edit,
}

abbrev pub caller_id : GamesyncSession → Bytes
caller_id session = last_resource_segment session.user_session

-- The stored document that an operation is about.
abbrev pub stored : WriteOperation → Batch → Option Document
stored op b = lookup (target_name op) b.documents

module _ (decimal : ℤ → Bytes) (session : GamesyncSession) (sessions : Dict Bytes GamesyncSession)
    (now : Time) where
  abbrev pub edit_of : WriteOperation → Batch → Result Edit
  edit_of op b =
      edit op (stored op b) (draft (target_name op) (stored op b) now) b.global_values now

  -- The checks that a successful operation has passed.
  abbrev pub Accepted : WriteOperation → Batch → Edit → Type 0
  Accepted op b e =
      (no_operation op ≡ false)
      × (check_precondition (precondition op) (stored op b) ≡ ok tt)
      × (edit_of op b ≡ ok e)
      × (writable_document decimal (target_name op) e.written session b.owners (stored op b)
            sessions
          ≡ ok tt)

  pub write_operation-eq-ok :
      (op : WriteOperation) (b after : Batch)
      → write_operation decimal session sessions now op b ≡ ok after
      → (e : Edit) × Accepted op b e × (after ≡ store_edit op (caller_id session) e b)
  unfolding write_operation
  write_operation-eq-ok op b after done =
      let checks = guard (not (no_operation op)) invalid_argument in
      let condition = check_precondition (precondition op) (stored op b) in
      let finish = λ (e : Edit).
        writable_document decimal (target_name op) e.written session b.owners (stored op b) sessions
        >> ok (store_edit op (caller_id session) e b) in
      let (e, made, rest) = >>=-eq-ok (checks >> condition >> edit_of op b) finish done in
      let (checked, edit_ok) = >>-eq-ok (checks >> condition) (edit_of op b) made in
      let (guarded, held) = >>-eq-ok checks condition checked in
      let (allowed, same) =
        >>-eq-ok
          (writable_document decimal (target_name op) e.written session b.owners (stored op b)
            sessions)
          (ok (store_edit op (caller_id session) e b)) rest in
      let some_operation : no_operation op ≡ false =
        ground (arith, guard-eq-ok (not (no_operation op)) invalid_argument guarded) in
      (e, (some_operation, held, edit_ok, allowed), sym (ok-inj same))
