-- ===== src/Session/Ticket.antt =====
-- matchmaking.go: the life of a matchmaking ticket.
use pokemon_violet.Base.{
  ℕ, false, ◌||◌, not, Option, none, some, List, [], ◌∷◌, map, if◌then◌else◌, ◌==◌, nat_eq,
  bytes_eq, keep,
}
use pokemon_violet.Base.Dict.{lookup, delete, insert}
use pokemon_violet.Base.Int.{ltb_ℤ, int_eq}
use pokemon_violet.Base.Result.{permission_denied, Result, err, ok}
use pokemon_violet.Base.Text.{Bytes, text}
use pokemon_violet.TradeBox.Message.{Time}
use pokemon_violet.TradeBox.Server.{last_resource_segment}
use pokemon_violet.Session.Message.{
  UserDefinition, GameSession, MatchedUserSession, searching, succeeded, MatchmakingTicket,
  is_game_active,
}
use pokemon_violet.Session.Config.{
  user_id_from_path, violet_coded_config, ticket_owned_by, public_match_capacity,
  include_matchmaking_id_token,
}
use pokemon_violet.Session.Room.{
  PublicMatchMember, public_match_has_uid, add_public_match_members, release,
}
use pokemon_violet.Session.Matchmaker.{Matchmaker, Settings, room_at, put_room}
use pokemon_violet.Session.Raid.{select_public_match_session}

abbrev pub pending : MatchmakingTicket → MatchmakingTicket
pending t = record t { state = searching; game_session = none; matched_user_sessions = [] }

abbrev pub matched : List Bytes → Bytes → PublicMatchMember → MatchedUserSession
matched include_users caller_uid member = record {
  user_definition = member.definition;
  user_session = member.user_session;
  matchmaking_id_token =
      if include_matchmaking_id_token include_users member.definition.user caller_uid
      then member.match_token
      else [];
}

unfoldable pub public_match_response :
    MatchmakingTicket
    → List PublicMatchMember
    → GameSession
    → Bytes
    → List Bytes
    → MatchmakingTicket
public_match_response stored members gs caller_uid include_users = record stored {
  state = succeeded;
  game_session = some gs;
  matched_user_sessions =
      map (matched include_users caller_uid) (
        keep (λ (m : PublicMatchMember). user_id_from_path m.definition.user == caller_uid)
          members);
}

-- uidFromCtx, or the first definition of the ticket
abbrev pub caller_or_first : Bytes → List UserDefinition → Bytes
caller_or_first [] [] = []
caller_or_first [] (d ∷ ds) = user_id_from_path d.user
caller_or_first (c ∷ uid) ds = c ∷ uid

-- The end of completeMatchmakingTicket, for the session at a position.
unfoldable pub answer_ticket :
    Settings
    → Matchmaker
    → MatchmakingTicket
    → ℕ
    → Bytes
    → List Bytes
    → Matchmaker × Option MatchmakingTicket
answer_ticket e m stored p uid include_users = elim (room_at m p) [
  | none ↦ (m, none)
  | some (session, gs) ↦
      let closed = record gs { can_participate = false } in
      if not (violet_coded_config stored.matchmaking_config)
      then (m, some (public_match_response stored session.members gs uid include_users))
      else if ltb_ℤ gs.current_participant_count
          (public_match_capacity e.max_participants stored.matchmaking_config)
      then (m, some (pending stored))
      else (
        put_room m p session (record { members = session.members; game = closed }),
        some (public_match_response stored session.members closed uid include_users),
      )
]

-- A ticket without a session yet: it gets one and its users join.
unfoldable pub place_ticket :
    Settings
    → Matchmaker
    → Bytes
    → MatchmakingTicket
    → Bytes
    → Option Bytes
    → List (Option Bytes)
    → Time
    → List Bytes
    → Matchmaker × Option MatchmakingTicket
place_ticket e m id stored uid fresh ids now include_users =
    let (n, found) = select_public_match_session e m stored uid fresh now in
    elim found [
      | none ↦ (
        n,
        if last_resource_segment stored.matchmaking_config == text "RaidPublic"
            then some (pending stored)
            else none,
      )
      | some p ↦ elim (room_at n p) [
        | none ↦ (n, none)
        | some (session, gs) ↦
            let r =
              add_public_match_members e.mint stored uid ids now
                (record { members = session.members; game = gs }) in
            let placed = put_room n p session r in
            answer_ticket e (record placed { ticket_sessions = insert id p placed.ticket_sessions })
              stored p uid include_users
      ]
    ]

unfoldable pub complete_matchmaking_ticket :
    Settings
    → Matchmaker
    → Bytes
    → Bytes
    → Option Bytes
    → List (Option Bytes)
    → Time
    → List Bytes
    → Matchmaker × Option MatchmakingTicket
complete_matchmaking_ticket e m context_uid name fresh ids now include_users =
    let id = last_resource_segment name in
    elim (lookup id m.tickets) [
      | none ↦ (m, none)
      | some stored ↦
          let uid = caller_or_first context_uid stored.user_definitions in
          let joined : Matchmaker × Option MatchmakingTicket = elim (lookup id m.ticket_sessions) [
            | none ↦ place_ticket e m id stored uid fresh ids now include_users
            | some p ↦ elim (room_at m p) [
              | none ↦ (m, none)
              | some (session, gs) ↦
                  if not (public_match_has_uid session.members uid) || not (is_game_active gs.state)
                  then (m, none)
                  else answer_ticket e m stored p uid include_users
            ]
          ] in
          if uid == [] then (m, none) else joined
    ]

-- cancelPendingCodedMatchLocked
unfoldable pub cancel_pending : Settings → Matchmaker → Bytes → Matchmaker
cancel_pending e m id = elim (lookup id m.tickets) [
  | none ↦ m
  | some t ↦ elim (lookup id m.ticket_sessions) [
    | none ↦ m
    | some p ↦ elim (room_at m p) [
      | none ↦ m
      | some (session, gs) ↦
          let uid = caller_or_first [] t.user_definitions in
          let out =
            put_room m p session (release uid (record { members = session.members; game = gs })) in
          if not (violet_coded_config t.matchmaking_config)
            || not (
                ltb_ℤ gs.current_participant_count
                  (public_match_capacity e.max_participants t.matchmaking_config))
          then m
          else record out {
            ticket_sessions = delete id out.ticket_sessions;
            tickets = delete id out.tickets;
          }
    ]
  ]
]

-- CancelMatchmakingTicket after authentication
unfoldable pub cancel_matchmaking_ticket :
    Settings → Matchmaker → Bytes → Bytes → Matchmaker × Result (Unit {0})
cancel_matchmaking_ticket e m uid name =
    let id = last_resource_segment name in
    elim (lookup id m.tickets) [
      | none ↦ (m, ok tt)
      | some t ↦
          if not (ticket_owned_by t.user_definitions uid)
          then (m, err permission_denied)
          else let out = cancel_pending e m id in
            (record out { tickets = delete id out.tickets }, ok tt)
    ]

-- The deferred clean-up of TrackMatchmakingTicket.
unfoldable pub stop_tracking : Settings → Matchmaker → Bytes → Matchmaker
stop_tracking e m name =
    let id = last_resource_segment name in
    let out = cancel_pending e m id in
    elim (lookup id out.tickets) [
      | none ↦ out
      | some t ↦ elim (lookup id out.ticket_sessions) [
        | some p ↦ out
        | none ↦
            if last_resource_segment t.matchmaking_config == text "RaidPublic"
            then record out { tickets = delete id out.tickets }
            else out
      ]
    ]
