-- ===== src/Documents/Expiry.antt =====
-- gamesync_store.go: what is left when expireSession is done.
use pokemon_violet.Base.{
  ℕ, ◌≡◌, refl, sym, ap, ◌∙◌, ◌≢◌, ◌⊎◌, inl, inr, Bool, false, none, some, [], ◌∷◌, arith,
  Bool-cases, Option-cases, nat_eq, bytes_eq,
}
use pokemon_violet.Base.Dict.{
  Dict, lookup, delete, lookup-insert_ne, lookup-delete_self, UniqueKeys,
}
use pokemon_violet.Base.Int.{int_eq}
use pokemon_violet.Base.Text.{Bytes}
use pokemon_violet.TradeBox.Message.{Time}
use pokemon_violet.Session.Registry.{raid_needs_reopen, depart}
use pokemon_violet.Documents.Message.{Document, GamesyncSession}
use pokemon_violet.Documents.Commit.{control_name}
use pokemon_violet.Documents.Server.{
  GamesyncServer, KeepUserSessionResponse, map_at, publish_deleted,
}
use pokemon_violet.Documents.View.{Store, view, map_at-insert_self}
use pokemon_violet.Documents.Protect.{Unchanged}
use pokemon_violet.Documents.Expire.{
  tell, reopen_raid, tell_deleted, deleted_names, delete_all, removed, left, timer_stale,
  expire_session, own_record,
}
use pokemon_violet.Documents.Departure.{deleted_names-Listed, deleted_names-unlisted}
use pokemon_violet.Documents.Marked.{delete_all-Listed, delete_all-other}
use pokemon_violet.Documents.Writable.{owner_of}

-- No control document of the map bears the name.
abbrev pub NotControl : Bytes → Dict Bytes Document → Type 0
NotControl name docs =
    (control : Document) → lookup control_name docs ≡ some control → control.name ≢ name

module _ (size : KeepUserSessionResponse → ℕ) (game : Bytes) where
  tell_deleted-view :
      (names : Dict Bytes Bool) (g : GamesyncServer)
      → (view game (tell_deleted size game names g) ≡ view game g)
        × ((tell_deleted size game names g).sessions ≡ g.sessions)
  unfolding tell_deleted
  tell_deleted-view [] g = (refl, refl)
  tell_deleted-view ((name, b) ∷ names) g =
      tell_deleted-view names (tell game (publish_deleted size name) g)

  reopen_raid-sessions :
      (now : Time) (g : GamesyncServer) → (reopen_raid size game now g).sessions ≡ g.sessions
  unfolding reopen_raid
  reopen_raid-sessions now g = elim (Option-cases (lookup control_name (map_at game g.documents))) [
    | inl missing ↦ rw (missing, reopen_raid) (ground arith)
    | inr (control, found) ↦ rw (found, reopen_raid) (ground arith)
  ]

  reopen_raid-Unchanged :
      (now : Time) (g : GamesyncServer) (name : Bytes)
      → NotControl name (map_at game g.documents)
      → Unchanged name (view game g) (view game (reopen_raid size game now g))
  unfolding reopen_raid
  reopen_raid-Unchanged now g name apart = elim (Bool-cases (raid_needs_reopen g.registry game)) [
    | inr quiet ↦ rw quiet (refl, refl)
    | inl needed ↦ elim (Option-cases (lookup control_name (map_at game g.documents))) [
      | inl missing ↦ rw needed (rw (missing, reopen_raid) (refl, refl))
      | inr (control, found) ↦ rw needed (
          rw (found, reopen_raid)
            (
              ap (lookup name) (map_at-insert_self game _ g.documents)
                  ∙ lookup-insert_ne control.name name _ (map_at game g.documents)
                      (apart control found),
              refl,
            ))
    ]
  ]

module _ (size : KeepUserSessionResponse → ℕ) (id : Bytes) (timer : ℕ) (now : Time)
    (g : GamesyncServer) (session : GamesyncSession) where
  abbrev pub game : Bytes
  game = session.game_session

  abbrev pub expired : GamesyncServer
  expired = expire_session size id timer now g

  abbrev names : Dict Bytes Bool
  names = deleted_names id session g

  -- The member has left the room, before the raid opens again.
  abbrev without : GamesyncServer
  without =
      let rest = removed id session g in
      record rest { registry = depart rest.registry game session.user_session }

  removed-at :
      (name : Bytes)
      → ((view game without).document_at name
          ≡ lookup name (delete_all names (map_at game g.documents)))
        × ((view game without).owner_at name
            ≡ lookup name (delete_all names (map_at game g.owners)))
  unfolding removed
  removed-at name = (
    ap (lookup name)
        (map_at-insert_self game (delete_all names (map_at game g.documents)) g.documents),
    ap (lookup name) (map_at-insert_self game (delete_all names (map_at game g.owners)) g.owners),
  )

  removed-NotControl :
      (name : Bytes)
      → NotControl name (map_at game g.documents)
      → NotControl name (map_at game without.documents)
  removed-NotControl name apart control found =
      let held = sym (removed-at control_name).0 ∙ found in
      elim (Option-cases (lookup control_name names)) [
        | inl free ↦
            apart control
              (sym (delete_all-other control_name names (map_at game g.documents) free) ∙ held)
        | inr (b, listed) ↦
            let gone =
              delete_all-Listed control_name names (map_at game g.documents) (rw listed refl) in
            absurd (cc)
      ]

  expired-sessions :
      timer_stale id timer g ≡ false
      → lookup id g.sessions ≡ some session
      → expired.sessions ≡ delete id g.sessions
  unfolding expire_session left removed
  expired-sessions fresh known = rw fresh (
      rw (known, expire_session)
        ((tell_deleted-view size game names (reopen_raid size game now without)).1
          ∙ reopen_raid-sessions size game now without))

  expired-view :
      timer_stale id timer g ≡ false
      → lookup id g.sessions ≡ some session
      → (name : Bytes) → NotControl name (map_at game g.documents)
      → Unchanged name (view game without) (view game expired)
  unfolding expire_session left
  expired-view fresh known name apart =
      let told = (tell_deleted-view size game names (reopen_raid size game now without)).0 in
      let same = reopen_raid-Unchanged size game now without name (removed-NotControl name apart) in
      rw fresh (
        rw (known, expire_session)
          (
            ap (λ (s : Store). s.document_at name) told ∙ same.0,
            ap (λ (s : Store). s.owner_at name) told ∙ same.1,
          ))

  -- When the timer of a user session's disconnection fires and is current, and the session has no
  -- open stream and is known, then it is forgotten. Every document that it owns, and its own
  -- record, is deleted with its owner. Every other document of the room stays with its owner, also
  -- one that a deferment of the session names. The room's map of owners holds each name once, and
  -- a name that the room's control document bears is left aside, which a raid may open again.
  pub expire_exact :
      timer_stale id timer g ≡ false
      → lookup id g.sessions ≡ some session
      → UniqueKeys (map_at game g.owners)
      → (lookup id expired.sessions ≡ none)
        × ((name : Bytes)
            → NotControl name (map_at game g.documents)
            → (name ≡ own_record id) ⊎ (lookup name (map_at game g.owners) ≡ some id)
            → ((view game expired).document_at name ≡ none)
              × ((view game expired).owner_at name ≡ none))
        × ((name : Bytes)
            → NotControl name (map_at game g.documents)
            → name ≢ own_record id
            → owner_of (map_at game g.owners) name ≢ id
            → Unchanged name (view game g) (view game expired))
  expire_exact fresh known unique = (
    rw (expired-sessions fresh known) (lookup-delete_self id g.sessions),
    λ name apart hit.
        let same = expired-view fresh known name apart in
        let listed = deleted_names-Listed id session g name hit in
        let (docs, owns) = removed-at name in
        (
          same.0 ∙ docs ∙ delete_all-Listed name names (map_at game g.documents) listed,
          same.1 ∙ owns ∙ delete_all-Listed name names (map_at game g.owners) listed,
        ),
    λ name apart other foreign.
        let same = expired-view fresh known name apart in
        let free = deleted_names-unlisted id session g name unique other foreign in
        let (docs, owns) = removed-at name in
        (
          same.0 ∙ docs ∙ delete_all-other name names (map_at game g.documents) free,
          same.1 ∙ owns ∙ delete_all-other name names (map_at game g.owners) free,
        ),
  )
