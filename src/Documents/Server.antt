-- ===== src/Documents/Server.antt =====
-- gamesync.go: the server's state, the caller's session, and the subscribers with their streams.
-- `size` is proto.Size of a message; the claims of a token that verifies are an argument.
use pokemon_violet.Base.{
  ℕ, Bool, true, false, ◌&&◌, ◌||◌, Option, none, some, List, [], ◌∷◌, if◌then◌else◌, ◌==◌, nat_eq,
  bytes_eq, exists,
}
use pokemon_violet.Base.Dict.{Dict, lookup}
use pokemon_violet.Base.Int.{ℤ, int_eq}
use pokemon_violet.Base.Result.{Code, plain, unauthenticated, Result, err, ok, ◌>>◌, guard}
use pokemon_violet.Base.Text.{Bytes, text}
use pokemon_violet.Ranked.Store.{RankedStore, File}
use pokemon_violet.Delivery.Queue.{GamesyncDelivery, send_message}
use pokemon_violet.TradeBox.Server.{last_resource_segment}
use pokemon_violet.Session.Message.{Value}
use pokemon_violet.Session.Matchmaker.{Matchmaker}
use pokemon_violet.Documents.Message.{Document, Deferment, GamesyncSession}

pub data TargetType : Type 0 where
  documents_target : List Bytes → TargetType
  collection_target : Bytes → TargetType
  empty_target : TargetType

pub record Target : Type 0 where
  pub name : Bytes
  pub target_type : TargetType

pub data TargetChangeType : Type 0 where
  target_updated target_listed target_deleted : TargetChangeType

-- The text of an echo; the target of a change, with its document or the deleted document's name.
pub data KeepUserSessionResponse : Type 0 where
  echo : Bytes → KeepUserSessionResponse
  target_change : Bytes → TargetChangeType → KeepUserSessionResponse
  document_exist document_updated : Bytes → Document → KeepUserSessionResponse
  document_deleted : Bytes → Bytes → KeepUserSessionResponse

pub record GamesyncSubscriber : Type 0 where
  pub stream : GamesyncDelivery KeepUserSessionResponse
  pub targets : Dict Bytes Target

-- The maps of maps: a game session that is missing reads as an empty map. Subscribers and timers
-- are pointers, numbered here; `next_timer` numbers the next timer.
pub record GamesyncServer : Type 0 where
  pub registry : Matchmaker
  pub ranked : Option RankedStore
  pub file : File
  pub next_sequence : Dict Bytes ℤ
  pub owners : Dict Bytes (Dict Bytes Bytes)
  pub stream_counts : Dict Bytes ℤ
  pub disconnect_timers : Dict Bytes ℕ
  pub sessions : Dict Bytes GamesyncSession
  pub deferments : Dict Bytes (Dict Bytes Deferment)
  pub documents : Dict Bytes (Dict Bytes Document)
  pub global_values : Dict Bytes (Dict Bytes Value)
  pub subscribers : Dict Bytes (Dict ℕ GamesyncSubscriber)
  pub next_timer : ℕ

abbrev pub map_at {ℓ} : {A : Type ℓ} → Bytes → Dict Bytes (List A) → List A
map_at key m = elim (lookup key m) [ none ↦ [] | some inner ↦ inner ]

-- What authorizedSession reads of the claims of verifyGamesyncAccessToken.
pub record AccessClaims : Type 0 where
  pub subject : Bytes
  pub game_session : Bytes
  pub user_session : Bytes

abbrev claims_match : AccessClaims → GamesyncSession → Bool
claims_match claims session =
    session.uid == claims.subject
    && session.game_session == claims.game_session
    && last_resource_segment session.user_session == last_resource_segment claims.user_session

abbrev request_matches : AccessClaims → Bytes → Bool
request_matches claims request_name =
    request_name == []
    || request_name == text "userSessions/current"
    || request_name == claims.user_session
    || last_resource_segment request_name == last_resource_segment claims.user_session

-- `caller` is none when there is no token or it does not verify.
unfoldable pub authorized_session :
    GamesyncServer → Option AccessClaims → Bytes → Result GamesyncSession
authorized_session g none request_name = err plain
authorized_session g (some claims) request_name =
    elim (lookup (last_resource_segment claims.user_session) g.sessions) [
      | none ↦ err plain
      | some session ↦
          guard (claims_match claims session) plain
          >> guard (request_matches claims request_name) plain
          >> ok session
    ]

-- The handlers' reply to an error of authorizedSession.
abbrev pub authenticated : Result GamesyncSession → Result GamesyncSession
authenticated (ok session) = ok session
authenticated (err _) = err unauthenticated

-- documentName[:strings.LastIndexByte(documentName, '/')], or the whole without a slash.
unfoldable pub parent_of : Bytes → Bytes
parent_of [] = []
parent_of (c ∷ s) =
    let rest = parent_of s in
    if exists (λ b. b == b'/') s then c ∷ rest else if c == b'/' then [] else c ∷ rest

unfoldable pub target_matches_document : Target → Bytes → Bool
target_matches_document target document_name = elim target.target_type [
  | documents_target names ↦ exists (λ name. name == document_name) names
  | collection_target collection ↦ collection == parent_of document_name
  | empty_target ↦ false
]

-- All subscribers change alike.
unfoldable pub map_values {ℓ κ} : {K : Type ℓ} {V : Type κ} → (V → V) → Dict K V → Dict K V
map_values change [] = []
map_values change ((k, v) ∷ m) = (k, change v) ∷ map_values change m

module _ (size : KeepUserSessionResponse → ℕ) where
  -- The loop of publish and publishDeleted over the targets; it ends at the first error.
  unfoldable pub publish_targets :
      (Bytes → KeepUserSessionResponse)
      → Bytes
      → Dict Bytes Target
      → GamesyncDelivery KeepUserSessionResponse
      → GamesyncDelivery KeepUserSessionResponse × Option Code
  publish_targets response name [] stream = (stream, none)
  publish_targets response name ((target_id, target) ∷ targets) stream =
      elim (target_matches_document target name) [
        | false ↦ publish_targets response name targets stream
        | true ↦ elim (send_message size stream (response target_id)).1 [
          | some c ↦ ((send_message size stream (response target_id)).0, some c)
          | none ↦
              publish_targets response name targets
                (send_message size stream (response target_id)).0
        ]
      ]

  -- The error is dropped by every caller.
  unfoldable pub publish : Document → GamesyncSubscriber → GamesyncSubscriber
  publish document s = record s {
    stream =
        (publish_targets (λ target_id. document_updated target_id document) document.name s.targets
          s.stream).0;
  }

  unfoldable pub publish_deleted : Bytes → GamesyncSubscriber → GamesyncSubscriber
  publish_deleted name s = record s {
    stream =
        (publish_targets (λ target_id. document_deleted target_id name) name s.targets s.stream).0;
  }

  -- The round of the publishing loop for one name.
  unfoldable pub publish_name :
      Dict Bytes Document → Bytes → Dict ℕ GamesyncSubscriber → Dict ℕ GamesyncSubscriber
  publish_name docs name subscribers = elim (lookup name docs) [
    | some doc ↦ map_values (publish doc) subscribers
    | none ↦ map_values (publish_deleted name) subscribers
  ]

  unfoldable pub publish_names :
      Dict Bytes Document → List Bytes → Dict ℕ GamesyncSubscriber → Dict ℕ GamesyncSubscriber
  publish_names docs [] subscribers = subscribers
  publish_names docs (name ∷ names) subscribers =
      publish_names docs names (publish_name docs name subscribers)
