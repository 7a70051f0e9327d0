-- ===== src/Session/Service.antt =====
-- session_service.go: reading a room and joining it by name, after authentication.
use pokemon_violet.Base.{
  ℕ, Bool, false, ◌&&◌, ◌||◌, not, Option, none, some, List, [], ◌∷◌, ◌++◌, map, if◌then◌else◌,
  ◌==◌, nat_eq, bytes_eq, set, keep,
}
use pokemon_violet.Base.Dict.{lookup}
use pokemon_violet.Base.Int.{ltb_ℤ, int_eq}
use pokemon_violet.Base.Result.{
  invalid_argument, not_found, permission_denied, resource_exhausted, Result, err, ok,
}
use pokemon_violet.Base.Text.{Bytes, text}
use pokemon_violet.TradeBox.Message.{Time}
use pokemon_violet.TradeBox.Server.{last_resource_segment}
use pokemon_violet.Session.Message.{
  UserDefinition, UserSession, GameSession, MatchedUserSession, ticket_unspecified,
  MatchmakingTicket, is_game_active,
}
use pokemon_violet.Session.Config.{
  user_path, user_id_from_path, validate_caller_definitions, include_matchmaking_id_token,
  valid_session_name,
}
use pokemon_violet.Session.Room.{
  Mint, session_has_uid, new_user_session, int32_length, add_public_match_members,
}
use pokemon_violet.Session.Matchmaker.{Settings, Matchmaker, room_at, put_room}
use pokemon_violet.Session.Registry.{game_of}

pub data GameSessionView : Type 0 where
  unspecified_view basic_view full_view : GameSessionView

unfoldable pub safe_session_view : GameSession → GameSessionView → GameSession
safe_session_view gs unspecified_view = record gs { password = [] }
safe_session_view gs full_view = record gs { password = [] }
safe_session_view gs basic_view = record gs { password = []; user_sessions = [] }

unfoldable pub room_visible : GameSession → Bytes → Bool
room_visible gs uid =
    if not (is_game_active gs.state) then false else gs.is_public || session_has_uid gs uid

unfoldable pub get_game_session : Matchmaker → Bytes → Bytes → GameSessionView → Result GameSession
get_game_session m uid name view =
    let found : Result GameSession = elim (game_of m name) [
      | none ↦ err not_found
      | some (g, gs) ↦
          if not (room_visible gs uid) then err not_found else ok (safe_session_view gs view)
    ] in
    if not (valid_session_name name) then err invalid_argument else found

abbrev definition_of_session : UserSession → UserDefinition
definition_of_session u = record {
  user = u.user;
  attributes = u.attributes;
  latency_data = u.latency_data;
  team = u.team;
}

unfoldable pub matched_for_caller :
    Mint → GameSession → Bytes → List Bytes → List MatchedUserSession
matched_for_caller mint gs uid include_users =
    map
      (λ (u : UserSession). record {
        user_definition = definition_of_session u;
        user_session = u.name;
        matchmaking_id_token =
            if include_matchmaking_id_token include_users u.user uid
            then mint uid (definition_of_session u) u.name
            else [];
      })
      (keep (λ (u : UserSession). user_id_from_path u.user == uid) gs.user_sessions)

pub record JoinGameSessionRequest : Type 0 where
  pub name : Bytes
  pub user_definitions : List UserDefinition
  pub password : Bytes
  pub include_id_token_users : List Bytes

-- The ticket that a join hands to addPublicMatchMembers.
abbrev join_ticket : UserDefinition → MatchmakingTicket
join_ticket d = record {
  name = [];
  matchmaking_config = [];
  user_definitions = d ∷ [];
  state = ticket_unspecified;
  matched_user_sessions = [];
  game_session = none;
}

-- What a new member changes: a pooled room takes it as a match does, another room by itself, with
-- the clock's part of the name as `stamp`.
unfoldable pub admit_join :
    Settings
    → Matchmaker
    → ℕ
    → GameSession
    → UserDefinition
    → Bytes
    → Bytes
    → List (Option Bytes)
    → Time
    → Matchmaker
admit_join e m g gs d uid stamp ids now =
    let name = gs.name ++ (text "/userSessions/us-" ++ stamp) in
    let users = gs.user_sessions ++ (new_user_session d name now ∷ []) in
    let alone : Matchmaker = record m {
      games =
          set m.games g
            (record gs { user_sessions = users; current_participant_count = int32_length users });
    } in
    elim (lookup (last_resource_segment gs.name) m.pooled) [
      | none ↦ alone
      | some p ↦ elim (room_at m p) [
        | none ↦ alone
        | some (session, pooled_game) ↦ put_room m p session (
            add_public_match_members e.mint (join_ticket d) uid ids now
              (record { members = session.members; game = pooled_game }))
      ]
    ]

-- The reply reads the room as it is after the join.
abbrev pub join_reply :
    Settings
    → Matchmaker
    → Bytes
    → Bytes
    → List Bytes
    → Result (GameSession × List MatchedUserSession)
join_reply e m name uid include_users = elim (game_of m name) [
  | none ↦ err not_found
  | some (g, gs) ↦
      ok (safe_session_view gs full_view, matched_for_caller e.mint gs uid include_users)
]

abbrev first_definition : List UserDefinition → Bytes → UserDefinition
first_definition [] uid = record {
  user = user_path uid;
  attributes = [];
  latency_data = none;
  team = [];
}
first_definition (d ∷ ds) uid = record d { user = user_path uid }

unfoldable pub join_game_session :
    Settings
    → Matchmaker
    → Bytes
    → JoinGameSessionRequest
    → Bytes
    → List (Option Bytes)
    → Time
    → Matchmaker × Result (GameSession × List MatchedUserSession)
join_game_session e m uid req stamp ids now =
    let found : Matchmaker × Result (GameSession × List MatchedUserSession) =
      elim (game_of m req.name) [
        | none ↦ (m, err not_found)
        | some (g, gs) ↦
            let n =
              admit_join e m g gs (first_definition req.user_definitions uid) uid stamp ids now in
            if not (is_game_active gs.state)
            then (m, err not_found)
            else if session_has_uid gs uid
            then (m, join_reply e m req.name uid req.include_id_token_users)
            else if not (gs.password == []) && not (gs.password == req.password)
            then (m, err permission_denied)
            else if not gs.can_participate
                || not (ltb_ℤ gs.current_participant_count gs.max_participant_count)
            then (m, err resource_exhausted)
            else (n, join_reply e n req.name uid req.include_id_token_users)
      ] in
    if not (valid_session_name req.name)
    then (m, err invalid_argument)
    else elim (validate_caller_definitions req.user_definitions uid) [
      | err c ↦ (m, err c)
      | ok _ ↦ found
    ]
