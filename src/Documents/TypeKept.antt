-- ===== src/Documents/TypeKept.antt =====
-- gamesync_store.go: that WriteDocuments keeps the documents of a room well typed.
use pokemon_violet.Base.{
  ℕ, ◌≡◌, refl, sym, ◌∙◌, subst, ◌≢◌, ◌⊎◌, inl, inr, true, false, Option, none, some, List, [], ◌∷◌,
  arith, Bool-cases, ◌==◌, ==_iff, nat_eq, bytes_eq,
}
use pokemon_violet.Base.Dict.{Dict, lookup, delete, insert, lookup-insert, lookup-delete}
use pokemon_violet.Base.Int.{ℤ, int_eq}
use pokemon_violet.Base.Result.{
  failed_precondition, unimplemented, Result, ok, ◌>>=◌, ◌>>◌, guard, >>=-eq-ok, ok-inj,
}
use pokemon_violet.Base.Text.{Bytes, text, has_prefix}
use pokemon_violet.TradeBox.Message.{Time}
use pokemon_violet.Ranked.Store.{Fault}
use pokemon_violet.Session.Message.{MapValue, Value}
use pokemon_violet.Documents.Message.{
  Document, FieldTransform, WriteOperation, update_document, merge_document, transform_document,
  delete_document, empty_write, update_result, transform_result, GamesyncSession,
}
use pokemon_violet.Documents.Field.{whole_mask, mask_paths, copy_masked}
use pokemon_violet.Documents.Batch.{
  write_operation, is_delete, Edit, edited, apply_transforms, edit_transform, edit_update,
  edit_merge, edit, Batch, store_edit, write_operations, target_name, draft,
}
use pokemon_violet.Documents.Server.{GamesyncServer, KeepUserSessionResponse}
use pokemon_violet.Documents.Commit.{
  commit_documents, WriteDocumentsRequest, WriteDocumentsResponse, open_batch,
}
use pokemon_violet.Documents.Writable.{is_some, writable_document}
use pokemon_violet.Documents.Protect.{store_edit-Kept}
use pokemon_violet.Documents.Step.{write_operation-eq-ok, caller_id, Accepted, stored}
use pokemon_violet.Documents.Refine.{commit_batch, prepare-eq-ok}
use pokemon_violet.Documents.View.{view_batch, view}
use pokemon_violet.Documents.Schema.{accepted, writable-TypedAs}
use pokemon_violet.Documents.Families.{WellTyped, TypedAs}

-- The stored fields are those that writableDocument has seen.
abbrev Written : Edit → Type 0
Written e = e.written ≡ some e.document.fields

edit_update-Written :
    (content : MapValue) (mask : Option (List Bytes)) (doc : Document) (globals : Dict Bytes Value)
    (e : Edit)
    → edit_update (some content) mask doc globals ≡ ok e
    → Written e
unfolding edit_update
edit_update-Written content mask doc globals e done = elim (Bool-cases (whole_mask mask)) [
  | inl whole ↦
      let step : edit_update (some content) mask doc globals
          ≡ ok (edited doc globals update_result content) =
        rw whole refl in
      subst Written (ok-inj (sym step ∙ done)) refl
  | inr part ↦
      let copied = copy_masked (mask_paths mask) content doc.fields in
      let finish = λ (after : MapValue). ok (edited doc globals update_result after) in
      let step : edit_update (some content) mask doc globals ≡ (copied >>= finish) = rw part refl in
      let (after, _, made) = >>=-eq-ok copied finish (sym step ∙ done) in
      subst Written (ok-inj made) refl
]

edit_transform-Written :
    (name : Bytes) (transforms : List FieldTransform) (old : Option Document) (doc : Document)
    (globals : Dict Bytes Value) (now : Time) (e : Edit)
    → edit_transform name transforms old doc globals now ≡ ok e
    → Written e
unfolding edit_transform
edit_transform-Written name transforms old doc globals now e done =
    let (run, _, made) =
      >>=-eq-ok
        (guard (is_some old) failed_precondition
          >> guard (has_prefix name (text "docs/__pus/")) unimplemented
          >> apply_transforms transforms now
              (record { fields = doc.fields; globals = globals; transformed = [] }))
        (λ run. ok (edited doc run.globals (transform_result run.transformed) run.fields)) done in
    subst Written (ok-inj made) refl

edit-Written :
    (op : WriteOperation) (old : Option Document) (doc : Document) (globals : Dict Bytes Value)
    (now : Time) (e : Edit)
    → edit op old doc globals now ≡ ok e
    → (is_delete op ≡ true) ⊎ Written e
unfolding edit edit_merge edit_update
edit-Written (update_document name none mask condition) old doc globals now e done = cc
edit-Written (update_document name (some content) mask condition) old doc globals now e done =
    inr (edit_update-Written content mask doc globals e done)
edit-Written (merge_document name none) old doc globals now e done = cc
edit-Written (merge_document name (some content)) old doc globals now e done =
    inr (subst Written (ok-inj done) refl)
edit-Written (transform_document name transforms) old doc globals now e done =
    inr (edit_transform-Written name transforms old doc globals now e done)
edit-Written (delete_document name condition) old doc globals now e done = inl refl
edit-Written empty_write old doc globals now e done = cc

module _ (decimal : ℤ → Bytes) (session : GamesyncSession) (sessions : Dict Bytes GamesyncSession)
    (now : Time) where
  abbrev TypedBatch : Batch → Type 0
  TypedBatch b = WellTyped (view_batch b)

  edit-TypedAs :
      (op : WriteOperation) (b : Batch) (e : Edit)
      → Accepted decimal session sessions now op b e
      → is_delete op ≡ false
      → TypedAs (target_name op) e.document.fields
  edit-TypedAs op b e accepted stays =
      elim (edit-Written op (stored op b) (draft (target_name op) (stored op b) now) b.global_values
        now e accepted.2) [
          | inl gone ↦ absurd (ground (arith, gone, stays))
          | inr written ↦
              writable-TypedAs decimal session sessions b.owners (stored op b) e.document.fields
                (target_name op)
                (subst
                  (λ w.
                    writable_document decimal (target_name op) w session b.owners (stored op b)
                      sessions
                    ≡ ok tt)
                  written accepted.3)
        ]

  store_edit-TypedBatch :
      (op : WriteOperation) (b : Batch) (e : Edit)
      → Accepted decimal session sessions now op b e
      → TypedBatch b
      → TypedBatch (store_edit op (caller_id session) e b)
  unfolding store_edit
  store_edit-TypedBatch op b e accepted typed name d there =
      elim (Bool-cases (target_name op == name)) [
        | inr other ↦
            let ne : target_name op ≢ name =
              λ same. absurd (ground (arith, other, (==_iff (target_name op) name).1 same)) in
            typed name d (
              sym
                (store_edit-Kept decimal session sessions now name op (caller_id session) e b ne).0
              ∙ there)
        | inl hit ↦
            let same = (==_iff (target_name op) name).0 hit in
            elim (Bool-cases (is_delete op)) [
              | inl gone ↦
                  let left : lookup name (delete (target_name op) b.documents) ≡ some d =
                    sym (rw gone refl) ∙ there in
                  absurd
                    (ground (arith, left, hit, lookup-delete (target_name op) name b.documents))
              | inr stays ↦
                  let put : lookup name (insert (target_name op) e.document b.documents) ≡ some d =
                    sym (rw stays refl) ∙ there in
                  let found : some e.document ≡ some d =
                    sym (lookup-insert (target_name op) name e.document b.documents ∙ rw hit refl)
                    ∙ put in
                  let new : e.document ≡ d = cc in
                  subst (λ x. TypedAs name x.fields) new
                    (subst (λ n. TypedAs n e.document.fields) same
                      (edit-TypedAs op b e accepted stays))
            ]
      ]

  write_operations-TypedBatch :
      (ops : List WriteOperation) (b after : Batch)
      → TypedBatch b
      → write_operations decimal session sessions now ops b ≡ ok after
      → TypedBatch after
  unfolding write_operations
  write_operations-TypedBatch [] b after typed done = subst TypedBatch (ok-inj done) typed
  write_operations-TypedBatch (op ∷ ops) b after typed done =
      let (next, one, rest) =
        >>=-eq-ok (write_operation decimal session sessions now op b)
          (write_operations decimal session sessions now ops) done in
      let (e, accepted, stores) =
        write_operation-eq-ok decimal session sessions now op b next one in
      write_operations-TypedBatch ops next after
        (subst TypedBatch (sym stores) (store_edit-TypedBatch op b e accepted typed)) rest

-- If every control document, presence record, signalling envelope and battle report of the caller's
-- room has the fields of its family, then WriteDocuments leaves it so, whatever the request writes,
-- merges, masks or transforms: a report has a ranked competition, scores of both participants
-- within 0 to 4 and 0 to 3, and a log of 1 to 65536 bytes; the control document has no field but
-- its three flags.
pub commit_typed :
    (size : KeepUserSessionResponse → ℕ) (decimal : ℤ → Bytes) (fault : Fault) (g : GamesyncServer)
    (session : GamesyncSession) (now : Time) (request : WriteDocumentsRequest)
    → WellTyped (view session.game_session g)
    → WellTyped
        (view session.game_session (commit_documents size decimal fault g session now request).0)
commit_typed size decimal fault g session now request typed =
    let game = session.game_session in
    elim (commit_batch size decimal fault g session now request) [
      | inl (c, refused) ↦
          subst (λ (r : GamesyncServer × Result WriteDocumentsResponse). WellTyped (view game r.0))
            (sym refused) typed
      | inr (p, fine, same) ↦
          let (_, ran) = prepare-eq-ok decimal session now g request p fine in
          subst WellTyped (sym same) (
            write_operations-TypedBatch decimal session g.sessions now request.write_operations
              (open_batch g session) p.batch typed ran)
    ]
