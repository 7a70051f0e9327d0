-- ===== src/Documents/Watch.antt =====
-- gamesync.go: the targets of a subscriber, and KeepUserSession as a step for each request.
use pokemon_violet.Base.{
  ℕ, Option, none, some, List, [], ◌∷◌, ◌++◌, map, if◌then◌else◌, ◌==◌, nat_eq, bytes_eq, length,
}
use pokemon_violet.Base.Dict.{lookup, delete, insert}
use pokemon_violet.Base.Int.{int_eq}
use pokemon_violet.Base.Result.{Code, unauthenticated, Result, err, ok}
use pokemon_violet.Base.Text.{Bytes}
use pokemon_violet.TradeBox.Server.{last_resource_segment}
use pokemon_violet.Delivery.Queue.{GamesyncDelivery, new_gamesync_delivery, send_message}
use pokemon_violet.Documents.Message.{Document, GamesyncSession}
use pokemon_violet.Documents.Server.{
  GamesyncServer, Target, target_updated, target_listed, target_deleted, KeepUserSessionResponse,
  echo, target_change, document_exist, GamesyncSubscriber, map_at, AccessClaims, authorized_session,
}
use pokemon_violet.Documents.Expire.{stream_started, stream_ended}
use pokemon_violet.Documents.Reads.{committed_snapshot}

unfoldable pub new_gamesync_subscriber : GamesyncSubscriber
new_gamesync_subscriber = record { stream = new_gamesync_delivery; targets = [] }

-- The pointer of a subscriber is its number.
unfoldable pub add_subscriber : Bytes → ℕ → GamesyncSubscriber → GamesyncServer → GamesyncServer
add_subscriber game number subscriber g = record g {
  subscribers = insert game (insert number subscriber (map_at game g.subscribers)) g.subscribers;
}

-- A room without subscribers has no map of them.
unfoldable pub remove_subscriber : Bytes → ℕ → GamesyncServer → GamesyncServer
remove_subscriber game number g =
    let rest = delete number (map_at game g.subscribers) in
    record g {
      subscribers =
          if length rest == 0 then delete game g.subscribers else insert game rest g.subscribers;
    }

module _ (size : KeepUserSessionResponse → ℕ) where
  -- stream.Send, one message after the other, up to the first error.
  unfoldable pub send_all :
      List KeepUserSessionResponse
      → GamesyncDelivery KeepUserSessionResponse
      → GamesyncDelivery KeepUserSessionResponse × Option Code
  send_all [] stream = (stream, none)
  send_all (message ∷ messages) stream = elim (send_message size stream message).1 [
    | some c ↦ ((send_message size stream message).0, some c)
    | none ↦ send_all messages (send_message size stream message).0
  ]

  abbrev pub installed_messages : Bytes → List Document → List KeepUserSessionResponse
  installed_messages target_id documents =
      target_change target_id target_updated
      ∷ (map (λ (d : Document). document_exist target_id d) documents
          ++ (target_change target_id target_listed ∷ []))

  unfoldable pub install_target :
      Target → List Document → GamesyncSubscriber → GamesyncSubscriber × Option Code
  install_target target documents s =
      let target_id = last_resource_segment target.name in
      let (stream, error) = send_all (installed_messages target_id documents) s.stream in
      (record { stream = stream; targets = insert target_id target s.targets }, error)

  unfoldable pub delete_target : Bytes → GamesyncSubscriber → GamesyncSubscriber × Option Code
  delete_target target_name s =
      let target_id = last_resource_segment target_name in
      let (stream, error) = send_message size s.stream (target_change target_id target_deleted) in
      (record { stream = stream; targets = delete target_id s.targets }, error)

  abbrev pub send_echo : Bytes → GamesyncSubscriber → GamesyncSubscriber × Option Code
  send_echo words s =
      let (stream, error) = send_message size s.stream (echo words) in
      (record s { stream = stream }, error)

pub data RequestType : Type 0 where
  echo_request : Bytes → RequestType
  update_target_request : Option Target → RequestType
  delete_target_request : Bytes → RequestType
  empty_request : RequestType

pub record KeepUserSessionRequest : Type 0 where
  pub name : Bytes
  pub request_type : RequestType

-- An open stream: the room where its subscriber is registered, its number, and the session.
pub record OpenStream : Type 0 where
  pub game : Bytes
  pub number : ℕ
  pub user_session_id : Bytes

module _ (size : KeepUserSessionResponse → ℕ) where
  -- The change of the subscriber of a stream, and the error of the change.
  abbrev pub change_subscriber :
      OpenStream
      → (GamesyncSubscriber → GamesyncSubscriber × Option Code)
      → GamesyncServer
      → GamesyncServer × Option Code
  change_subscriber s change g = elim (lookup s.number (map_at s.game g.subscribers)) [
    | none ↦ (g, none)
    | some subscriber ↦
        let (changed, error) = change subscriber in
        (add_subscriber s.game s.number changed g, error)
  ]

  -- One branch of the loop; a request that asks for nothing does nothing.
  abbrev pub serve_request :
      OpenStream → GamesyncSession → RequestType → GamesyncServer → GamesyncServer × Option Code
  serve_request s session (echo_request words) g =
      if words == [] then (g, none) else change_subscriber s (send_echo size words) g
  serve_request s session (update_target_request (some target)) g =
      change_subscriber s (install_target size target (committed_snapshot g session target)) g
  serve_request s session (delete_target_request name) g =
      change_subscriber s (delete_target size name) g
  serve_request s session _ g = (g, none)

  -- One round of the loop of KeepUserSession; an error ends the stream.
  unfoldable pub keep_user_session_step :
      OpenStream
      → Option AccessClaims
      → KeepUserSessionRequest
      → GamesyncServer
      → GamesyncServer × Option Code
  keep_user_session_step s caller request g = elim (authorized_session g caller request.name) [
    | err c ↦ (g, some unauthenticated)
    | ok session ↦ serve_request s session request.request_type g
  ]

-- The start of KeepUserSession, with a number for the new subscriber.
unfoldable pub keep_user_session_open :
    ℕ → Option AccessClaims → GamesyncServer → GamesyncServer × Result OpenStream
keep_user_session_open number caller g = elim (authorized_session g caller []) [
  | err c ↦ (g, err unauthenticated)
  | ok session ↦
      let id = last_resource_segment session.user_session in
      (
        stream_started id (add_subscriber session.game_session number new_gamesync_subscriber g),
        ok (record { game = session.game_session; number = number; user_session_id = id }),
      )
]

-- The deferred calls when KeepUserSession returns.
unfoldable pub keep_user_session_close : OpenStream → GamesyncServer → GamesyncServer
keep_user_session_close s g = remove_subscriber s.game s.number (stream_ended s.user_session_id g)
