-- ===== src/Documents/View.antt =====
-- gamesync_store.go: the documents of a room as functions of the name, and what a commit shows.
use pokemon_violet.Base.{
  ℕ, ◌≡◌, refl, ◌≢◌, inl, inr, Option, none, some, List, [], ◌∷◌, if◌then◌else◌, Option-cases, ◌==◌,
  nat_eq, bytes_eq,
}
use pokemon_violet.Base.Dict.{Dict, lookup, insert, lookup-insert_self, lookup-insert_ne}
use pokemon_violet.Base.Int.{int_eq}
use pokemon_violet.Base.Result.{err, ok}
use pokemon_violet.Base.Text.{Bytes}
use pokemon_violet.TradeBox.Message.{Time}
use pokemon_violet.Session.Message.{Value}
use pokemon_violet.Documents.Message.{Document, WriteOperation, GamesyncSession}
use pokemon_violet.Documents.Battle.{matching_ranked_reports}
use pokemon_violet.Documents.Batch.{target_name, is_delete, draft, Edit, edit, Batch}
use pokemon_violet.Documents.Server.{GamesyncServer, map_at, KeepUserSessionResponse}
use pokemon_violet.Documents.Commit.{Prepared, committed, follow_reports, announced}
use pokemon_violet.Ranked.Store.{Fault}

-- The documents and their owners as functions of the name.
pub record Store : Type 0 where
  pub document_at : Bytes → Option Document
  pub owner_at : Bytes → Option Bytes
  pub globals : Dict Bytes Value

abbrev pub update {ℓ} : {A : Type ℓ} → (Bytes → A) → Bytes → A → Bytes → A
update f name new other = if name == other then new else f other

-- What an edit leaves under the name of its operation: nothing after a deletion.
abbrev pub outcome : WriteOperation → Edit → Option Document
outcome op e = if is_delete op then none else some e.document

abbrev pub keeper : WriteOperation → Bytes → Option Bytes
keeper op owner = if is_delete op then none else some owner

abbrev pub put_edit : WriteOperation → Bytes → Edit → Store → Store
put_edit op owner e s = record {
  document_at = update s.document_at (target_name op) (outcome op e);
  owner_at = update s.owner_at (target_name op) (keeper op owner);
  globals = e.globals;
}

-- One write on the store, with no check of who may do it; an edit that fails changes nothing.
unfoldable pub write_store : Time → Bytes → WriteOperation → Store → Store
write_store now owner op s =
    let old = s.document_at (target_name op) in
    elim (edit op old (draft (target_name op) old now) s.globals now) [
      | err c ↦ s
      | ok e ↦ put_edit op owner e s
    ]

unfoldable pub write_store_all : Time → Bytes → List WriteOperation → Store → Store
write_store_all now owner [] s = s
write_store_all now owner (op ∷ ops) s = write_store_all now owner ops (write_store now owner op s)

abbrev pub view_batch : Batch → Store
view_batch b = record {
  document_at = λ name. lookup name b.documents;
  owner_at = λ name. lookup name b.owners;
  globals = b.global_values;
}

-- The store of one game session.
abbrev pub view : Bytes → GamesyncServer → Store
view game g = record {
  document_at = λ name. lookup name (map_at game g.documents);
  owner_at = λ name. lookup name (map_at game g.owners);
  globals = map_at game g.global_values;
}

pub follow_reports-view :
    (fault : Fault) (game : Bytes) (b : Batch) (g : GamesyncServer) (x : Bytes)
    → view x (follow_reports fault game b g) ≡ view x g
unfolding follow_reports
follow_reports-view fault game b g x = elim (Option-cases (matching_ranked_reports b.documents)) [
  | inl nothing ↦ rw (nothing, follow_reports) refl
  | inr (report, both) ↦ rw (both, follow_reports) refl
]

pub announced-view :
    (size : KeepUserSessionResponse → ℕ) (fault : Fault) (game : Bytes) (b : Batch)
    (g : GamesyncServer) (x : Bytes)
    → view x (announced size fault game b g) ≡ view x g
unfolding announced
announced-view size fault game b g x = follow_reports-view fault game b _ x

pub map_at-insert_self {ℓ} :
    {A : Type ℓ} (game : Bytes) (inner : List A) (m : Dict Bytes (List A))
    → map_at game (insert game inner m) ≡ inner
map_at-insert_self game inner m = rw (lookup-insert_self game inner m, map_at) refl

pub map_at-insert_ne {ℓ} :
    {A : Type ℓ} (game other : Bytes) (inner : List A) (m : Dict Bytes (List A))
    → game ≢ other
    → map_at other (insert game inner m) ≡ map_at other m
map_at-insert_ne game other inner m ne = rw (lookup-insert_ne game other inner m ne, map_at) refl

-- The maps behind a view, and a view of each.
abbrev pub view_maps : Dict Bytes Document → Dict Bytes Bytes → Dict Bytes Value → Store
view_maps docs owners globals = record {
  document_at = λ name. lookup name docs;
  owner_at = λ name. lookup name owners;
  globals = globals;
}

pub committed-view :
    (g : GamesyncServer) (session : GamesyncSession) (p : Prepared)
    → view session.game_session (committed g session p) ≡ view_batch p.batch
unfolding committed
committed-view g session p = λ i.
    view_maps (map_at-insert_self session.game_session p.batch.documents g.documents i)
      (map_at-insert_self session.game_session p.batch.owners g.owners i)
      (map_at-insert_self session.game_session p.batch.global_values g.global_values i)

pub committed-others :
    (g : GamesyncServer) (session : GamesyncSession) (p : Prepared) (other : Bytes)
    → session.game_session ≢ other
    → view other (committed g session p) ≡ view other g
unfolding committed
committed-others g session p other ne = λ i.
    view_maps (map_at-insert_ne session.game_session other p.batch.documents g.documents ne i)
      (map_at-insert_ne session.game_session other p.batch.owners g.owners ne i)
      (map_at-insert_ne session.game_session other p.batch.global_values g.global_values ne i)
