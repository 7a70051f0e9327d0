-- ===== src/Documents/Life.antt =====
-- gamesync.go and gamesync_store.go: the life of a server as a sequence of its operations, each
-- under its locks.
use pokemon_violet.Base.{
  ℕ, ◌≡◌, refl, ap, ◌∙◌, ◌⊎◌, inl, inr, Bool, [], ◌∷◌, Bool-cases, Option-cases, nat_eq, bytes_eq,
}
use pokemon_violet.Base.Dict.{Dict, lookup}
use pokemon_violet.Base.Int.{ℤ, int_eq}
use pokemon_violet.Base.Result.{Result}
use pokemon_violet.Base.Text.{Bytes}
use pokemon_violet.TradeBox.Message.{Time}
use pokemon_violet.Ranked.Store.{Fault}
use pokemon_violet.Session.Registry.{raid_needs_reopen}
use pokemon_violet.Documents.Message.{GamesyncSession}
use pokemon_violet.Documents.Batch.{Batch}
use pokemon_violet.Documents.Battle.{matching_ranked_reports}
use pokemon_violet.Documents.Server.{
  GamesyncServer, KeepUserSessionResponse, map_at, publish_deleted,
}
use pokemon_violet.Documents.Commit.{
  commit_documents, WriteDocumentsRequest, WriteDocumentsResponse, committed, control_name,
  follow_reports, announced,
}
use pokemon_violet.Documents.Expire.{
  expire_session, removed, tell, timer_stale, reopen_raid, tell_deleted, left,
}
use pokemon_violet.Documents.Refine.{commit-cases}
use pokemon_violet.Documents.Sequence.{numbers_of, gone}

module _ (size : KeepUserSessionResponse → ℕ) where
  follow_reports-numbers :
      (fault : Fault) (game : Bytes) (b : Batch) (g : GamesyncServer)
      → numbers_of (follow_reports fault game b g) ≡ numbers_of g
  unfolding follow_reports
  follow_reports-numbers fault game b g =
      elim (Option-cases (matching_ranked_reports b.documents)) [
        | inl nothing ↦ rw (nothing, follow_reports) refl
        | inr (report, both) ↦ rw (both, follow_reports) refl
      ]

  pub commit-numbers :
      (decimal : ℤ → Bytes) (fault : Fault) (g : GamesyncServer) (session : GamesyncSession)
      (now : Time) (request : WriteDocumentsRequest)
      → numbers_of (commit_documents size decimal fault g session now request).0 ≡ numbers_of g
  unfolding announced committed
  commit-numbers decimal fault g session now request =
      elim (commit-cases size decimal fault g session now request) [
        | inl (c, refused) ↦
            ap (λ (r : GamesyncServer × Result WriteDocumentsResponse). numbers_of r.0) refused
        | inr (p, fine, done) ↦
            ap (λ (r : GamesyncServer × Result WriteDocumentsResponse). numbers_of r.0) done
            ∙ follow_reports-numbers fault session.game_session p.batch _
      ]

  tell_deleted-numbers :
      (game : Bytes) (names : Dict Bytes Bool) (g : GamesyncServer)
      → numbers_of (tell_deleted size game names g) ≡ numbers_of g
  unfolding tell_deleted
  tell_deleted-numbers game [] g = refl
  tell_deleted-numbers game ((name, b) ∷ names) g =
      tell_deleted-numbers game names (tell game (publish_deleted size name) g)

  reopen_raid-numbers :
      (game : Bytes) (now : Time) (g : GamesyncServer)
      → numbers_of (reopen_raid size game now g) ≡ numbers_of g
  unfolding reopen_raid
  reopen_raid-numbers game now g = elim (Bool-cases (raid_needs_reopen g.registry game)) [
    | inr quiet ↦ rw quiet refl
    | inl needed ↦ elim (Option-cases (lookup control_name (map_at game g.documents))) [
      | inl absent ↦ rw needed (rw (absent, reopen_raid) refl)
      | inr (control, found) ↦ rw needed (rw (found, reopen_raid) refl)
    ]
  ]

  pub expire-numbers :
      (id : Bytes) (timer : ℕ) (now : Time) (g : GamesyncServer)
      → (numbers_of (expire_session size id timer now g) ≡ numbers_of g)
        ⊎ (numbers_of (expire_session size id timer now g) ≡ gone id (numbers_of g))
  unfolding expire_session left removed
  expire-numbers id timer now g = elim (Bool-cases (timer_stale id timer g)) [
    | inl stale ↦ inl (rw stale refl)
    | inr fresh ↦ elim (Option-cases (lookup id g.sessions)) [
      | inl unknown ↦ inl (rw fresh (rw (unknown, expire_session) refl))
      | inr (session, known) ↦ inr (
          rw fresh (
            rw (known, expire_session)
              (tell_deleted-numbers session.game_session _ _
                ∙ reopen_raid-numbers session.game_session now _)))
    ]
  ]
