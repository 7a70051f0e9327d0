-- ===== src/Documents/Protect.antt =====
-- gamesync_store.go: the documents that WriteDocuments of one member cannot touch.
use pokemon_violet.Base.{
  ℕ, ◌≡◌, refl, sym, ap, ◌∙◌, subst, ◌≢◌, inl, inr, true, List, [], ◌∷◌, Bool-cases, ==_iff, nat_eq,
  bytes_eq,
}
use pokemon_violet.Base.Dict.{Dict, lookup, lookup-insert_ne, lookup-delete_ne}
use pokemon_violet.Base.Int.{ℤ, int_eq}
use pokemon_violet.Base.Result.{Result, ok, >>=-eq-ok, ok-inj}
use pokemon_violet.Base.Text.{Bytes, before}
use pokemon_violet.Documents.Message.{GamesyncSession, WriteOperation}
use pokemon_violet.Documents.Writable.{owner_of, is_some}
use pokemon_violet.Documents.Batch.{
  target_name, is_delete, Edit, Batch, store_edit, write_operations, write_operation,
}
use pokemon_violet.Documents.Refine.{commit_batch, prepare-eq-ok}
use pokemon_violet.Documents.View.{Store, view}
use pokemon_violet.Documents.Commit.{
  commit_documents, WriteDocumentsRequest, WriteDocumentsResponse, open_batch,
}
use pokemon_violet.Documents.Server.{GamesyncServer, KeepUserSessionResponse, map_at}
use pokemon_violet.Ranked.Store.{Fault}
use pokemon_violet.Documents.Step.{stored, Accepted, caller_id, write_operation-eq-ok}
use pokemon_violet.TradeBox.Message.{Time}
use pokemon_violet.Documents.Refusal.{
  ServerSide, OneWriter, Protected, server_refused, OneWriter-owns,
}

module _ (decimal : ℤ → Bytes) (session : GamesyncSession) (sessions : Dict Bytes GamesyncSession)
    (now : Time) where
  abbrev Kept : Bytes → Batch → Batch → Type 0
  Kept name b after =
      (lookup name after.documents ≡ lookup name b.documents)
      × (lookup name after.owners ≡ lookup name b.owners)

  -- A successful operation has another target.
  spared :
      (name : Bytes) (op : WriteOperation) (b : Batch) (e : Edit)
      → Accepted decimal session sessions now op b e
      → Protected (caller_id session) b.owners b.documents name
      → target_name op ≢ name
  spared name op b e accepted (inl server) same =
      server_refused decimal session sessions b.owners (stored op b) e.written (target_name op)
        (subst ServerSide (sym same) server) accepted.3
  spared name op b e accepted (inr (family, foreign, there)) same =
      let stands : is_some (stored op b) ≡ true =
        subst (λ n. is_some (lookup n b.documents) ≡ true) (sym same) there in
      let owns =
        OneWriter-owns decimal session sessions b.owners (stored op b) e.written (target_name op)
          (subst OneWriter (sym same) family) stands accepted.3 in
      foreign (
        subst (λ n. owner_of b.owners n ≡ (caller_id session)) same
          ((==_iff (owner_of b.owners (target_name op)) (caller_id session)).0 owns))

  pub store_edit-Kept :
      (name : Bytes) (op : WriteOperation) (owner : Bytes) (e : Edit) (b : Batch)
      → target_name op ≢ name
      → Kept name b (store_edit op owner e b)
  unfolding store_edit
  store_edit-Kept name op owner e b other = elim (Bool-cases (is_delete op)) [
    | inl gone ↦ rw gone (
      lookup-delete_ne (target_name op) name b.documents other,
      lookup-delete_ne (target_name op) name b.owners other,
    )
    | inr there ↦ rw there (
      lookup-insert_ne (target_name op) name e.document b.documents other,
      lookup-insert_ne (target_name op) name owner b.owners other,
    )
  ]

  Protected-Kept :
      (name : Bytes) (b after : Batch)
      → Kept name b after
      → Protected (caller_id session) b.owners b.documents name
      → Protected (caller_id session) after.owners after.documents name
  Protected-Kept name b after kept (inl server) = inl server
  Protected-Kept name b after (doc, owner) (inr (family, foreign, there)) =
      inr (family, rw (owner, owner_of) foreign, rw doc there)

  write_operations-Kept :
      (name : Bytes) (ops : List WriteOperation) (b after : Batch)
      → Protected (caller_id session) b.owners b.documents name
      → write_operations decimal session sessions now ops b ≡ ok after
      → Kept name b after
  unfolding write_operations
  write_operations-Kept name [] b after reach done = subst (Kept name b) (ok-inj done) (refl, refl)
  write_operations-Kept name (op ∷ ops) b after reach done =
      let (next, one, rest) =
        >>=-eq-ok (write_operation decimal session sessions now op b)
          (write_operations decimal session sessions now ops) done in
      let (e, accepted, stores) =
        write_operation-eq-ok decimal session sessions now op b next one in
      let kept : Kept name b next =
        subst (Kept name b) (sym stores)
          (store_edit-Kept name op (caller_id session) e b (spared name op b e accepted reach)) in
      let later =
        write_operations-Kept name ops next after (Protected-Kept name b next kept reach) rest in
      (later.0 ∙ kept.0, later.1 ∙ kept.1)

-- The document of the name and its owner are the same in two stores.
abbrev pub Unchanged : Bytes → Store → Store → Type 0
Unchanged name before after =
    (after.document_at name ≡ before.document_at name)
    × (after.owner_at name ≡ before.owner_at name)

-- WriteDocuments changes neither the documents that the server writes (the records of the user
-- sessions, the fixed data), nor the existing control and battle documents of another owner,
-- whether it succeeds or not, and their owners stay.
pub commit_protects :
    (size : KeepUserSessionResponse → ℕ) (decimal : ℤ → Bytes) (fault : Fault) (g : GamesyncServer)
    (session : GamesyncSession) (now : Time) (request : WriteDocumentsRequest) (name : Bytes)
    → Protected
        (caller_id session)
        (map_at session.game_session g.owners)
        (map_at session.game_session g.documents)
        name
    → Unchanged name
        (view session.game_session g)
        (view session.game_session (commit_documents size decimal fault g session now request).0)
commit_protects size decimal fault g session now request name reach =
    let game = session.game_session in
    elim (commit_batch size decimal fault g session now request) [
      | inl (c, refused) ↦
          let same =
            ap (λ (r : GamesyncServer × Result WriteDocumentsResponse). view game r.0) refused in
          (ap (λ (s : Store). s.document_at name) same, ap (λ (s : Store). s.owner_at name) same)
      | inr (p, fine, same) ↦
          let (_, ran) = prepare-eq-ok decimal session now g request p fine in
          let kept =
            write_operations-Kept decimal session g.sessions now name request.write_operations
              (open_batch g session) p.batch reach ran in
          (
            ap (λ (s : Store). s.document_at name) same ∙ kept.0,
            ap (λ (s : Store). s.owner_at name) same ∙ kept.1,
          )
    ]
