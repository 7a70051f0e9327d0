-- ===== src/Documents/Refine.antt =====
-- gamesync_store.go: WriteDocuments against a store that is a function from names to documents.
use pokemon_violet.Base.{
  ℕ, ◌+◌, ◌≡◌, refl, sym, ap, ◌∙◌, ◌≢◌, ◌⊎◌, inl, inr, Bool, true, false, not, none, some, List, [],
  ◌∷◌, ltb, if◌then◌else◌, nat_eq, bytes_eq, length,
}
use pokemon_violet.Base.Dict.{Dict, lookup, delete, insert, lookup-insert, lookup-delete}
use pokemon_violet.Base.Int.{ℤ, int_eq}
use pokemon_violet.Base.Result.{
  Code, resource_exhausted, unauthenticated, Result, err, ok, ◌>>=◌, ◌>>◌, guard, >>=-eq-ok,
  Result-cases, >>-eq-ok, guard-eq-ok, ok-inj,
}
use pokemon_violet.Base.Text.{Bytes}
use pokemon_violet.TradeBox.Message.{Time}
use pokemon_violet.Documents.Message.{WriteOperation, GamesyncSession}
use pokemon_violet.Documents.Writable.{is_some}
use pokemon_violet.Documents.Batch.{
  write_operation, target_name, is_delete, Edit, Batch, store_edit, write_operations,
}
use pokemon_violet.Documents.Step.{write_operation-eq-ok, caller_id}
use pokemon_violet.Documents.Server.{GamesyncServer, map_at, KeepUserSessionResponse}
use pokemon_violet.Documents.Commit.{
  prepare, Prepared, WriteDocumentsRequest, open_batch, deferment_run, WriteDocumentsResponse,
  committed, announced, write_reply, commit_documents,
}
use pokemon_violet.Ranked.Store.{Fault}
use pokemon_violet.Documents.View.{
  update, put_edit, write_store, write_store_all, view_batch, view, announced-view, committed-view,
  committed-others,
}

changed-lookup {ℓ} :
    {A : Type ℓ} (gone : Bool) (key name : Bytes) (new : A) (m : Dict Bytes A)
    → lookup name (if gone then delete key m else insert key new m)
      ≡ update (λ n. lookup n m) key (if gone then none else some new) name
changed-lookup true key name new m = lookup-delete key name m
changed-lookup false key name new m = lookup-insert key name new m

store_edit-view :
    (op : WriteOperation) (owner : Bytes) (e : Edit) (b : Batch)
    → view_batch (store_edit op owner e b) ≡ put_edit op owner e (view_batch b)
unfolding store_edit
store_edit-view op owner e b = λ i. record {
  document_at =
      λ name. changed-lookup (is_delete op) (target_name op) name e.document b.documents i;
  owner_at = λ name. changed-lookup (is_delete op) (target_name op) name owner b.owners i;
  globals = e.globals;
}

module _ (decimal : ℤ → Bytes) (session : GamesyncSession) (sessions : Dict Bytes GamesyncSession)
    (now : Time) where
  write_operation-refines :
      (op : WriteOperation) (b after : Batch)
      → write_operation decimal session sessions now op b ≡ ok after
      → view_batch after ≡ write_store now (caller_id session) op (view_batch b)
  unfolding write_store
  write_operation-refines op b after done =
      let (e, accepted, stores) =
        write_operation-eq-ok decimal session sessions now op b after done in
      ap view_batch stores
      ∙ store_edit-view op (caller_id session) e b
      ∙ rw (accepted.2, write_store) refl

  write_operations-refines :
      (ops : List WriteOperation) (b after : Batch)
      → write_operations decimal session sessions now ops b ≡ ok after
      → view_batch after ≡ write_store_all now (caller_id session) ops (view_batch b)
  unfolding write_operations write_store_all
  write_operations-refines [] b after done = ap view_batch (sym (ok-inj done))
  write_operations-refines (op ∷ ops) b after done =
      let (next, one, rest) =
        >>=-eq-ok (write_operation decimal session sessions now op b)
          (write_operations decimal session sessions now ops) done in
      write_operations-refines ops next after rest
      ∙ ap (write_store_all now (caller_id session) ops) (write_operation-refines op b next one)

module _ (decimal : ℤ → Bytes) (session : GamesyncSession) (now : Time) where
  pub prepare-eq-ok :
      (g : GamesyncServer) (request : WriteDocumentsRequest) (p : Prepared)
      → prepare decimal g session now request ≡ ok p
      → (is_some (lookup (caller_id session) g.sessions) ≡ true)
        × (write_operations decimal session g.sessions now request.write_operations
              (open_batch g session)
            ≡ ok p.batch)
  unfolding prepare
  prepare-eq-ok g request p done =
      let few =
        guard
          (not (ltb 256 (length request.write_operations + length request.deferment_operations)))
          resource_exhausted in
      let alive = guard (is_some (lookup (caller_id session) g.sessions)) unauthenticated in
      let writes =
        write_operations decimal session g.sessions now request.write_operations
          (open_batch g session) in
      let defer = λ (b : Batch).
        deferment_run decimal session g.sessions b request.deferment_operations
          (map_at (caller_id session) g.deferments) in
      let finish = λ (b : Batch).
        defer b >>= λ deferments. ok (record { batch = b; deferments = deferments }) in
      let (b, wrote, rest) = >>=-eq-ok (few >> alive >> writes) finish done in
      let (checked, ran) = >>-eq-ok (few >> alive) writes wrote in
      let (_, here) = >>-eq-ok few alive checked in
      let (deferments, _, made) =
        >>=-eq-ok (defer b) (λ d. ok (record { batch = b; deferments = d })) rest in
      let same : b ≡ p.batch = ap (λ (q : Prepared). q.batch) (ok-inj made) in
      (
        guard-eq-ok (is_some (lookup (caller_id session) g.sessions)) unauthenticated here,
        ran ∙ ap (λ (x : Batch). ok x) same,
      )

module _ (size : KeepUserSessionResponse → ℕ) (decimal : ℤ → Bytes) (fault : Fault)
    (g : GamesyncServer) (session : GamesyncSession) (now : Time)
    (request : WriteDocumentsRequest) where
  abbrev pub after_commit : GamesyncServer × Result WriteDocumentsResponse
  after_commit = commit_documents size decimal fault g session now request

  pub commit-cases :
      ((c : Code) × (after_commit ≡ (g, err c)))
      ⊎ ((p : Prepared) × (prepare decimal g session now request ≡ ok p)
          × (after_commit ≡ (
            announced size fault session.game_session p.batch (committed g session p),
            ok (write_reply p.batch now),
          )))
  unfolding commit_documents
  commit-cases = elim (Result-cases (prepare decimal g session now request)) [
    | inl (c, failed) ↦ inl (c, rw (failed, commit_documents) refl)
    | inr (p, fine) ↦ inr (p, fine, rw (fine, commit_documents) refl)
  ]

  -- The room of the caller after a commit is the batch.
  pub commit_batch :
      ((c : Code) × (after_commit ≡ (g, err c)))
      ⊎ ((p : Prepared) × (prepare decimal g session now request ≡ ok p)
          × (view session.game_session after_commit.0 ≡ view_batch p.batch))
  commit_batch = elim commit-cases [
    | inl refused ↦ inl refused
    | inr (p, fine, done) ↦ inr (
      p,
      fine,
      ap (λ (r : GamesyncServer × Result WriteDocumentsResponse). view session.game_session r.0)
            done
          ∙ announced-view size fault session.game_session p.batch (committed g session p)
              session.game_session
          ∙ committed-view g session p,
    )
  ]

  -- Either WriteDocuments is refused and the server is as before, or it succeeds: then the caller's
  -- session is known, the documents, owners and globals of its room are those of the request's
  -- writes applied one after the other to a store that is a function of the name, and those of
  -- every other room are as before.
  pub commit_refines :
      ((c : Code) × (after_commit ≡ (g, err c)))
      ⊎ (((reply : WriteDocumentsResponse) × (after_commit.1 ≡ ok reply))
          × (is_some (lookup (caller_id session) g.sessions) ≡ true)
          × (view session.game_session after_commit.0
              ≡ write_store_all now
                  (caller_id session)
                  request.write_operations
                  (view session.game_session g))
          × ((other : Bytes)
              → session.game_session ≢ other
              → view other after_commit.0 ≡ view other g))
  commit_refines = elim commit-cases [
    | inl refused ↦ inl refused
    | inr (p, fine, done) ↦
        let game = session.game_session in
        let (alive, ran) = prepare-eq-ok decimal session now g request p fine in
        let server = ap (λ (r : GamesyncServer × Result WriteDocumentsResponse). r.0) done in
        let told = λ (x : Bytes).
          ap (view x) server ∙ announced-view size fault game p.batch (committed g session p) x in
        inr (
          (
            write_reply p.batch now,
            ap (λ (r : GamesyncServer × Result WriteDocumentsResponse). r.1) done,
          ),
          alive,
          told game
              ∙ committed-view g session p
              ∙ write_operations-refines decimal session g.sessions now request.write_operations
                  (open_batch g session) p.batch ran,
          λ other ne. told other ∙ committed-others g session p other ne,
        )
  ]
