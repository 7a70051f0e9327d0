-- ===== src/Documents/Departure.antt =====
-- gamesync_store.go: which documents go when a user session expires.
use pokemon_violet.Base.{
  ◌≡◌, refl, sym, subst, ◌≢◌, ◌⊎◌, inl, inr, Bool, true, ◌&&◌, none, some, List, [], ◌∷◌, arith,
  Bool-cases, ◌==◌, ==_iff, ==_refl, ==_ne, nat_eq, bytes_eq,
}
use pokemon_violet.Base.Dict.{Dict, lookup, UniqueKeys}
use pokemon_violet.Base.Int.{int_eq}
use pokemon_violet.Base.Result.{is_ok}
use pokemon_violet.Base.Text.{Bytes}
use pokemon_violet.Documents.Message.{
  Document, WriteOperation, update_document, merge_document, transform_document, delete_document,
  empty_write, Deferment, GamesyncSession,
}
use pokemon_violet.Documents.Writable.{owner_of}
use pokemon_violet.Documents.Batch.{check_precondition}
use pokemon_violet.Documents.Server.{GamesyncServer, map_at}
use pokemon_violet.Documents.Expire.{
  cleanup_name, cleanup_names, deferred_names, own_record, deleted_names,
}
use pokemon_violet.Documents.Marked.{
  Listed, mark-Listed, mark-unlisted, owned_names-Listed, owned_names-unlisted,
}

module _ (id : Bytes) (owners : Dict Bytes Bytes) (documents : Dict Bytes Document)
    (name : Bytes) where
  cleanup_name-Listed :
      (write : WriteOperation) (names : Dict Bytes Bool)
      → Listed name names
      → Listed name (cleanup_name id owners documents write names)
  unfolding cleanup_name
  cleanup_name-Listed (delete_document other condition) names listed =
      mark-Listed
        (owner_of owners other == id
          && is_ok (check_precondition condition (lookup other documents)))
        name other names listed
  cleanup_name-Listed (update_document other content mask condition) names listed = listed
  cleanup_name-Listed (merge_document other content) names listed = listed
  cleanup_name-Listed (transform_document other transforms) names listed = listed
  cleanup_name-Listed empty_write names listed = listed

  cleanup_name-unlisted :
      (write : WriteOperation) (names : Dict Bytes Bool)
      → owner_of owners name ≢ id
      → lookup name names ≡ none
      → lookup name (cleanup_name id owners documents write names) ≡ none
  unfolding cleanup_name
  cleanup_name-unlisted (delete_document other condition) names foreign free =
      let held = is_ok (check_precondition condition (lookup other documents)) in
      elim (Bool-cases (owner_of owners other == id)) [
        | inl mine ↦
            let ne : other ≢ name = λ e. foreign (
              subst (λ x. owner_of owners x ≡ id) e ((==_iff (owner_of owners other) id).0 mine)) in
            mark-unlisted (owner_of owners other == id && held) name other names (inr ne) free
        | inr theirs ↦
            mark-unlisted (owner_of owners other == id && held) name other names
              (inl (ground (arith, theirs))) free
      ]
  cleanup_name-unlisted (update_document other content mask condition) names foreign free = free
  cleanup_name-unlisted (merge_document other content) names foreign free = free
  cleanup_name-unlisted (transform_document other transforms) names foreign free = free
  cleanup_name-unlisted empty_write names foreign free = free

  cleanup_names-Listed :
      (writes : List WriteOperation) (names : Dict Bytes Bool)
      → Listed name names
      → Listed name (cleanup_names id owners documents writes names)
  unfolding cleanup_names
  cleanup_names-Listed [] names listed = listed
  cleanup_names-Listed (write ∷ writes) names listed =
      cleanup_names-Listed writes (cleanup_name id owners documents write names)
        (cleanup_name-Listed write names listed)

  cleanup_names-unlisted :
      (writes : List WriteOperation) (names : Dict Bytes Bool)
      → owner_of owners name ≢ id
      → lookup name names ≡ none
      → lookup name (cleanup_names id owners documents writes names) ≡ none
  unfolding cleanup_names
  cleanup_names-unlisted [] names foreign free = free
  cleanup_names-unlisted (write ∷ writes) names foreign free =
      cleanup_names-unlisted writes (cleanup_name id owners documents write names) foreign
        (cleanup_name-unlisted write names foreign free)

  deferred_names-Listed :
      (deferments : Dict Bytes Deferment) (names : Dict Bytes Bool)
      → Listed name names
      → Listed name (deferred_names id owners documents deferments names)
  unfolding deferred_names
  deferred_names-Listed [] names listed = listed
  deferred_names-Listed ((k, d) ∷ rest) names listed =
      deferred_names-Listed rest (cleanup_names id owners documents d.write_operations names)
        (cleanup_names-Listed d.write_operations names listed)

  deferred_names-unlisted :
      (deferments : Dict Bytes Deferment) (names : Dict Bytes Bool)
      → owner_of owners name ≢ id
      → lookup name names ≡ none
      → lookup name (deferred_names id owners documents deferments names) ≡ none
  unfolding deferred_names
  deferred_names-unlisted [] names foreign free = free
  deferred_names-unlisted ((k, d) ∷ rest) names foreign free =
      deferred_names-unlisted rest (cleanup_names id owners documents d.write_operations names)
        foreign (cleanup_names-unlisted d.write_operations names foreign free)

lookup-own : (name : Bytes) → Listed name ((name, true) ∷ [])
unfolding lookup
lookup-own name = rw (==_refl name) refl

lookup-alone : (own name : Bytes) → name ≢ own → lookup {V = Bool} name ((own, true) ∷ []) ≡ none
unfolding lookup
lookup-alone own name other = rw (==_ne own name (λ e. other (sym e))) refl

module _ (id : Bytes) (session : GamesyncSession) (g : GamesyncServer) (name : Bytes) where
  abbrev room_owners : Dict Bytes Bytes
  room_owners = map_at session.game_session g.owners

  abbrev room_documents : Dict Bytes Document
  room_documents = map_at session.game_session g.documents

  -- The names that the deferments add to the session's own record.
  abbrev first : Dict Bytes Bool
  first =
      deferred_names id room_owners room_documents (map_at id g.deferments)
        ((own_record id, true) ∷ [])

  pub deleted_names-Listed :
      (name ≡ own_record id) ⊎ (lookup name room_owners ≡ some id)
      → Listed name (deleted_names id session g)
  unfolding deleted_names
  deleted_names-Listed (inl own) = owned_names-Listed id name room_owners first (
      inl (
        deferred_names-Listed id room_owners room_documents name (map_at id g.deferments)
          ((own_record id, true) ∷ []) (rw own (lookup-own (own_record id)))))
  deleted_names-Listed (inr mine) = owned_names-Listed id name room_owners first (inr mine)

  pub deleted_names-unlisted :
      UniqueKeys room_owners
      → name ≢ own_record id
      → owner_of room_owners name ≢ id
      → lookup name (deleted_names id session g) ≡ none
  unfolding deleted_names
  deleted_names-unlisted unique other foreign =
      owned_names-unlisted id name room_owners first unique
        (λ mine. foreign (rw (mine, owner_of) refl))
        (deferred_names-unlisted id room_owners room_documents name (map_at id g.deferments)
          ((own_record id, true) ∷ []) foreign (lookup-alone (own_record id) name other))
