-- ===== src/Documents/Commit.antt =====
-- gamesync_store.go: WriteDocuments. `session` is what authorizedSession found before the locks
-- were taken, so it may be stale; the part under the locks checks it again.
use pokemon_violet.Base.{
  ℕ, ◌+◌, Bool, ◌&&◌, ◌||◌, not, Option, none, some, List, [], ◌∷◌, ◌++◌, map, ltb, if◌then◌else◌,
  ◌==◌, nat_eq, bytes_eq, length,
}
use pokemon_violet.Base.Dict.{Dict, lookup, delete, insert}
use pokemon_violet.Base.Int.{ℤ, pos, int_eq}
use pokemon_violet.Base.Result.{
  invalid_argument, permission_denied, resource_exhausted, unimplemented, unauthenticated, Result,
  err, ok, ◌>>=◌, ◌>>◌, guard,
}
use pokemon_violet.Base.Text.{Bytes, text, has_prefix, trim_suffix}
use pokemon_violet.Ranked.Store.{record_consensus, Fault, or_false}
use pokemon_violet.TradeBox.Message.{Time}
use pokemon_violet.TradeBox.Server.{last_resource_segment}
use pokemon_violet.Session.Registry.{update_room_control}
use pokemon_violet.Documents.Message.{
  WriteOperation, delete_document, WriteResult, Deferment, DefermentOperation, delete_deferment,
  update_deferment, empty_deferment, GamesyncSession,
}
use pokemon_violet.Documents.Writable.{writable_document, is_some, all_hold}
use pokemon_violet.Documents.Battle.{matching_ranked_reports}
use pokemon_violet.Documents.Batch.{write_operations, Batch}
use pokemon_violet.Documents.Server.{
  GamesyncServer, KeepUserSessionResponse, map_at, AccessClaims, authorized_session, authenticated,
  publish_names,
}
use pokemon_violet.Session.Matchmaker.{Matchmaker}
use pokemon_violet.Documents.Order.{sort_strings}

pub record WriteDocumentsRequest : Type 0 where
  pub write_operations : List WriteOperation
  pub deferment_operations : List DefermentOperation

pub record WriteDocumentsResponse : Type 0 where
  pub write_results : List WriteResult
  pub commit_time : Time

unfoldable pub deferment_belongs_to_session : Bytes → GamesyncSession → Bool
deferment_belongs_to_session name session =
    has_prefix name (text "userSessions/current/deferments/")
    || has_prefix name (trim_suffix session.user_session (text "/") ++ text "/deferments/")

module _ (decimal : ℤ → Bytes) (session : GamesyncSession)
    (sessions : Dict Bytes GamesyncSession) where
  -- One round of the loop over a deferment's writes.
  cleanup_write : Batch → WriteOperation → Result (Unit {0})
  cleanup_write b (delete_document name condition) =
      writable_document decimal name none session b.owners (lookup name b.documents) sessions
  cleanup_write b _ = err unimplemented

  store_deferment : Batch → Option Deferment → Dict Bytes Deferment → Result (Dict Bytes Deferment)
  unfolding cleanup_write
  store_deferment b none deferments = err invalid_argument
  store_deferment b (some d) deferments =
      guard (deferment_belongs_to_session d.name session && not (length d.write_operations == 0))
        invalid_argument
      >> all_hold (cleanup_write b) d.write_operations
      >> ok (insert d.name d deferments)

  -- One round of the loop over the deferment operations.
  unfoldable pub deferment_operation :
      Batch → DefermentOperation → Dict Bytes Deferment → Result (Dict Bytes Deferment)
  unfolding store_deferment
  deferment_operation b (delete_deferment name) deferments =
      guard (deferment_belongs_to_session name session) permission_denied
      >> ok (delete name deferments)
  deferment_operation b (update_deferment d) deferments = store_deferment b d deferments
  deferment_operation b empty_deferment deferments = err invalid_argument

  unfoldable pub deferment_run :
      Batch → List DefermentOperation → Dict Bytes Deferment → Result (Dict Bytes Deferment)
  deferment_run b [] deferments = ok deferments
  deferment_run b (op ∷ ops) deferments =
      deferment_operation b op deferments >>= deferment_run b ops

-- The copies of the maps of the caller's game session.
abbrev pub open_batch : GamesyncServer → GamesyncSession → Batch
open_batch g session = record {
  documents = map_at session.game_session g.documents;
  global_values = map_at session.game_session g.global_values;
  owners = map_at session.game_session g.owners;
  changed = [];
  results = [];
}

-- The copies after both loops.
pub record Prepared : Type 0 where
  pub batch : Batch
  pub deferments : Dict Bytes Deferment

-- The maps replaced under the lock.
unfoldable pub committed : GamesyncServer → GamesyncSession → Prepared → GamesyncServer
committed g session p = record g {
  documents = insert session.game_session p.batch.documents g.documents;
  global_values = insert session.game_session p.batch.global_values g.global_values;
  owners = insert session.game_session p.batch.owners g.owners;
  deferments = insert (last_resource_segment session.user_session) p.deferments g.deferments;
}

-- The loop that fills sequenceUID.
unfoldable pub sequence_uid : Bytes → Dict Bytes GamesyncSession → Dict ℤ Bytes → Dict ℤ Bytes
sequence_uid game [] found = found
sequence_uid game ((id, participant) ∷ rest) found = sequence_uid game rest (
    if participant.game_session == game
    then insert participant.sequence participant.uid found
    else found)

abbrev pub control_name : Bytes
control_name = text "docs/__gs/m"

-- A changed control document is passed on to the registry.
follow_control : Bytes → Batch → Matchmaker → Matchmaker
follow_control game b registry =
    if or_false (lookup control_name b.changed)
    then elim (lookup control_name b.documents) [
      | none ↦ registry
      | some control ↦ update_room_control registry game control.fields
    ]
    else registry

-- Matching reports are passed on to the ranked store; its error is logged only.
unfoldable pub follow_reports : Fault → Bytes → Batch → GamesyncServer → GamesyncServer
follow_reports fault game b g = elim (matching_ranked_reports b.documents) [
  | none ↦ g
  | some report ↦
      let outcome =
        record_consensus fault g.ranked g.file game report.competition_id
          (sequence_uid game g.sessions [])
          ((pos 1, report.result1) ∷ (pos 2, report.result2) ∷ []) in
      record g { ranked = outcome.store; file = outcome.file }
]

abbrev pub changed_names : Batch → List Bytes
changed_names b = sort_strings (map (λ (entry : Bytes × Bool). entry.0) b.changed)

module _ (size : KeepUserSessionResponse → ℕ) where
  -- What follows the commit: the registry, the subscribers, the ranked store.
  unfoldable pub announced : Fault → Bytes → Batch → GamesyncServer → GamesyncServer
  unfolding follow_control
  announced fault game b g = follow_reports fault game b (record g {
    registry = follow_control game b g.registry;
    subscribers =
        insert game (publish_names size b.documents (changed_names b) (map_at game g.subscribers))
          g.subscribers;
  })

module _ (decimal : ℤ → Bytes) where
  unfoldable pub prepare :
      GamesyncServer → GamesyncSession → Time → WriteDocumentsRequest → Result Prepared
  prepare g session now request =
      guard (not (ltb 256 (length request.write_operations + length request.deferment_operations)))
        resource_exhausted
      >> guard (is_some (lookup (last_resource_segment session.user_session) g.sessions))
          unauthenticated
      >> write_operations decimal session g.sessions now request.write_operations
          (open_batch g session)
      >>= λ b.
          deferment_run decimal session g.sessions b request.deferment_operations
            (map_at (last_resource_segment session.user_session) g.deferments)
          >>= λ deferments. ok (record { batch = b; deferments = deferments })

abbrev pub write_reply : Batch → Time → WriteDocumentsResponse
write_reply b now = record { write_results = b.results; commit_time = now }

module _ (size : KeepUserSessionResponse → ℕ) (decimal : ℤ → Bytes) where
  -- From the limit on the number of operations on.
  unfoldable pub commit_documents :
      Fault
      → GamesyncServer
      → GamesyncSession
      → Time
      → WriteDocumentsRequest
      → GamesyncServer × Result WriteDocumentsResponse
  commit_documents fault g session now request = elim (prepare decimal g session now request) [
    | err c ↦ (g, err c)
    | ok p ↦ (
      announced size fault session.game_session p.batch (committed g session p),
      ok (write_reply p.batch now),
    )
  ]

  unfoldable pub write_documents :
      Fault
      → GamesyncServer
      → Option AccessClaims
      → Time
      → WriteDocumentsRequest
      → GamesyncServer × Result WriteDocumentsResponse
  write_documents fault g caller now request =
      elim (authenticated (authorized_session g caller [])) [
        | err c ↦ (g, err c)
        | ok session ↦ commit_documents fault g session now request
      ]
