-- ===== src/Documents/Join.antt =====
-- gamesync.go and gamesync_store.go: how a user session enters the document store, by IssueToken.
-- The claims of a match token whose signature verifies, the random seed and the signed access
-- token are arguments. A panic is `none`.
use pokemon_violet.Base.{
  ℕ, ◌&&◌, ◌||◌, Option, none, some, List, [], ◌∷◌, if◌then◌else◌, ◌==◌, nat_eq, bytes_eq,
}
use pokemon_violet.Base.Dict.{Dict, lookup, insert}
use pokemon_violet.Base.Int.{ℤ, pos, ◌+ℤ◌, int_eq, wrap64}
use pokemon_violet.Base.Text.{Bytes, text, split_slash}
use pokemon_violet.TradeBox.Message.{Time}
use pokemon_violet.TradeBox.Server.{last_resource_segment}
use pokemon_violet.Session.Message.{MapValue, integer_value, string_value, map_value}
use pokemon_violet.Documents.Message.{Document, GamesyncSession}
use pokemon_violet.Documents.Field.{fields_of}
use pokemon_violet.Documents.Expire.{own_record, tell}
use pokemon_violet.Documents.Server.{GamesyncServer, KeepUserSessionResponse, map_at, publish}

-- strings.Trim(name, "/")
unfoldable pub trim_left : Bytes → Bytes
trim_left [] = []
trim_left (c ∷ s) = let rest = trim_left s in if c == b'/' then rest else c ∷ s

unfoldable pub trim_right : Bytes → Bytes
trim_right [] = []
trim_right (c ∷ s) = let rest = trim_right s in if c == b'/' && rest == [] then [] else c ∷ rest

abbrev default_latency : Bytes
default_latency = text "{\"latencies\":{}}"

abbrev time_or : Option Time → Time → Time
time_or none now = now
time_or (some t) now = t

abbrev latency_or : Bytes → Bytes
latency_or latency = if latency == [] then default_latency else latency

abbrev observed_fields : Bytes → GamesyncSession → MapValue
observed_fields collection session =
    (text "uid", string_value session.uid)
    ∷ (text "ussid", integer_value session.sequence)
    ∷ (text "ucsid", integer_value session.connection)
    ∷ (if collection == text "__us"
        then ((text "st", integer_value (pos 2))
            ∷ (text "att", map_value (fields_of session.attributes))
            ∷ (text "ltc", string_value (latency_or session.latency_json))
            ∷ (text "tn", string_value session.team)
            ∷ [])
        else ((text "upcsid", integer_value session.connection)
            ∷ (text "pgn", string_value (text "All"))
            ∷ []))

abbrev observed_parts : List Bytes → GamesyncSession → Option Bytes
observed_parts (root ∷ collection ∷ id ∷ []) session =
    if root == text "docs"
      && (collection == text "__us" || collection == text "__pus")
      && id == last_resource_segment session.user_session
    then some collection
    else none
observed_parts _ session = none

unfoldable pub observed_user_session_document : Time → Bytes → GamesyncSession → Option Document
observed_user_session_document now name session =
    elim (observed_parts (split_slash (trim_right (trim_left name))) session) [
      | none ↦ none
      | some collection ↦
          let made = time_or session.created_at now in
          some (record {
            name = name;
            fields = observed_fields collection session;
            create_time = made;
            update_time = made;
          })
    ]

-- nextSequence[game] + 1, in int64.
abbrev pub next_of : Bytes → GamesyncServer → ℤ
next_of game g =
    wrap64 ((elim (lookup game g.next_sequence) [ none ↦ pos 0 | some n ↦ n ]) +ℤ pos 1)

-- The binding that is stored: a known session keeps its numbers, a new one takes the next.
unfoldable pub bound_session : Time → GamesyncSession → Option GamesyncSession → ℤ → GamesyncSession
bound_session now session (some previous) next = record session {
  sequence = previous.sequence;
  connection = previous.connection;
  created_at = previous.created_at;
  latency_json = latency_or session.latency_json;
}
bound_session now session none next = record session {
  sequence = next;
  connection = next;
  created_at = some now;
  latency_json = latency_or session.latency_json;
}

unfoldable pub next_sequences : Bytes → Option GamesyncSession → GamesyncServer → Dict Bytes ℤ
next_sequences game (some previous) g = g.next_sequence
next_sequences game none g = insert game (next_of game g) g.next_sequence

module _ (size : KeepUserSessionResponse → ℕ) where
  -- Subscribers of the room learn of a new session.
  abbrev pub announce_join :
      Bytes → Document → Option GamesyncSession → GamesyncServer → GamesyncServer
  announce_join game document (some previous) g = g
  announce_join game document none g = tell game (publish size document) g

  abbrev pub stored_session :
      Bytes
      → Bytes
      → GamesyncSession
      → Document
      → Option GamesyncSession
      → GamesyncServer
      → GamesyncServer
  stored_session game id session document previous g = record g {
    sessions = insert id session g.sessions;
    next_sequence = next_sequences game previous g;
    documents = insert game (insert document.name document (map_at game g.documents)) g.documents;
  }

  unfoldable pub remember_session : Time → GamesyncSession → GamesyncServer → Option GamesyncServer
  remember_session now session g =
      let id = last_resource_segment session.user_session in
      let previous = lookup id g.sessions in
      let bound = bound_session now session previous (next_of session.game_session g) in
      elim (observed_user_session_document now (own_record id) bound) [
        | none ↦ none
        | some document ↦ some (
            announce_join session.game_session document previous
              (stored_session session.game_session id bound document previous g))
      ]
