-- ===== src/Tests/RoomRuns.antt =====
-- Runs and witnesses of aliases, reads and joins of the room "r", where ann is.
use pokemon_violet.Base.{
  ℕ, ◌≡◌, refl, subst, ◌⊎◌, true, false, Option, none, some, List, [], ◌∷◌, ◌++◌, nat_eq, bytes_beq,
  bytes_eq, get_elem?,
}
use pokemon_violet.Base.Dict.{lookup}
use pokemon_violet.Base.Int.{ℤ, pos, ◌+ℤ◌, ltb_ℤ, int_eq, wrap32}
use pokemon_violet.Base.Result.{Result}
use pokemon_violet.Base.Text.{Bytes, text}
use pokemon_violet.TradeBox.Message.{Time}
use pokemon_violet.TradeBox.Server.{last_resource_segment}
use pokemon_violet.Session.Message.{
  user_active, game_active, GameSession, is_game_active, MatchmakingTicket, searching,
}
use pokemon_violet.Session.Config.{npln_tenant, valid_session_name, validate_caller_definitions}
use pokemon_violet.Session.Room.{session_has_uid}
use pokemon_violet.Session.Matchmaker.{Matchmaker, Settings, PublicMatchSession, room_at}
use pokemon_violet.Session.Registry.{game_of}
use pokemon_violet.Session.Service.{join_game_session, JoinGameSessionRequest, admit_join}
use pokemon_violet.Session.Access.{join_changes_guarded}
use pokemon_violet.Session.AliasCalls.{AliasCall, creates, gets}
use pokemon_violet.Session.Host.{raid_joins_host, PooledRight, Joinable}
use pokemon_violet.Session.Raid.{select_raid, raid_open, raid_matches_selection, pool_room}
use pokemon_violet.Session.RoomCode.{
  violet_room_code, xor_bits, hash_byte, hash_bytes, code_chars, GameSessionShortAlias, alias_path,
  Aliases, create_short_alias,
}

abbrev noon : Time
noon = record { seconds = pos 1700000000; nanos = 0 }

abbrev room_name : Bytes
room_name = npln_tenant ++ text "/gameSessions/r"

abbrev room_game : GameSession
room_game = record {
  name = room_name;
  max_participant_count = pos 4;
  current_participant_count = pos 1;
  can_participate = true;
  is_public = true;
  password = [];
  state = game_active;
  host = [];
  port = pos 443;
  create_time = noon;
  properties = [];
  user_sessions =
      record {
        name = text "u";
        user = text "ann";
        latency_data = none;
        create_time = noon;
        state = user_active;
        team = text "owner";
        attributes = [];
      }
      ∷ [];
}

abbrev with_room : Matchmaker
with_room = record {
  games = room_game ∷ [];
  publics = [];
  sessions = (text "r", 0) ∷ [];
  pooled = [];
  configs = [];
  tickets = [];
  ticket_sessions = [];
  sessions_by_pool = [];
  next_ticket_id = 0;
  next_session_id = 0;
}

abbrev alias_given : Aliases × Result GameSessionShortAlias
alias_given = create_short_alias with_room [] (text "ann") room_name noon

abbrev given_alias : GameSessionShortAlias
given_alias = record {
  name = alias_path (violet_room_code room_name);
  game_session = room_name;
  expire_time = record { seconds = pos 1700003600; nanos = 0 };
}

code_of_room : violet_room_code (text "r") ≡ text "XGDEAD"
unfolding violet_room_code hash_bytes hash_byte xor_bits code_chars last_resource_segment
code_of_room = refl

-- Another room and its code.
abbrev other_name : Bytes
other_name = npln_tenant ++ text "/gameSessions/s"

abbrev other_game : GameSession
other_game = record room_game { name = other_name }

abbrev with_other : Matchmaker
with_other = record with_room {
  games = room_game ∷ other_game ∷ [];
  sessions = (text "r", 0) ∷ (text "s", 1) ∷ [];
}

abbrev name_found : Option (ℕ × GameSession) → Bytes
name_found none = []
name_found (some (g, gs)) = gs.name

abbrev alias_calls : List AliasCall
alias_calls =
    creates with_other (text "ann") other_name noon ∷ gets with_room given_alias.name noon ∷ []

abbrev raid_session : PublicMatchSession
raid_session = record { pool_key = text "raid"; game_session = 0; members = [] }

abbrev with_raid : Matchmaker
with_raid = record with_room {
  publics = raid_session ∷ [];
  pooled = (text "r", 0) ∷ [];
  configs = (room_name, text "RaidPublic") ∷ [];
}

abbrev raid_settings : Settings
raid_settings = record {
  max_participants = pos 0;
  host = text "host";
  port = pos 443;
  decimal = λ n. [];
  mint = λ uid d name. uid;
  proto_equal = λ want actual. false;
}

abbrev raid_ticket : MatchmakingTicket
raid_ticket = record {
  name = [];
  matchmaking_config = text "RaidPublic";
  user_definitions =
      record { user = text "bob"; attributes = []; latency_data = none; team = [] } ∷ [];
  state = searching;
  matched_user_sessions = [];
  game_session = none;
}

-- The search finds the raid room of ann.
raid_found :
    select_raid raid_settings with_raid raid_ticket (text "bob") with_raid.sessions
    ≡ (with_raid, some 0)
unfolding select_raid raid_open raid_matches_selection pool_room session_has_uid
    last_resource_segment lookup bytes_beq wrap32 ◌+ℤ◌
raid_found = refl

raid_pooled : PooledRight with_raid with_raid.sessions
unfolding lookup bytes_beq
raid_pooled = (
  (λ p pooled.
      let same : 0 ≡ p = cc in
      (
        raid_session,
        subst (λ q. get_elem? with_raid.publics q ≡ some raid_session) same refl,
        refl,
      )),
  tt,
)

raid_joins_host_example :
    let (n, found) =
      select_raid raid_settings with_raid raid_ticket (text "bob") with_raid.sessions in
    (n.games ≡ with_raid.games)
    × (n.tickets ≡ with_raid.tickets)
    × (n.sessions ≡ with_raid.sessions)
    × (((found ≡ none) × (n ≡ with_raid))
        ⊎ ((p : ℕ) × (session : PublicMatchSession) × (gs : GameSession) × (found ≡ some p)
            × (room_at n p ≡ some (session, gs))
            × Joinable raid_settings with_raid raid_ticket (text "bob") gs))
raid_joins_host_example =
    raid_joins_host raid_settings with_raid raid_ticket (text "bob") with_raid.sessions raid_pooled

abbrev bob_request : JoinGameSessionRequest
bob_request = record {
  name = room_name;
  user_definitions =
      record { user = text "bob"; attributes = []; latency_data = none; team = [] } ∷ [];
  password = [];
  include_id_token_users = [];
}

abbrev room_settings : Settings
room_settings = record {
  max_participants = pos 0;
  host = [];
  port = pos 443;
  decimal = λ n. [];
  mint = λ uid d name. uid;
  proto_equal = λ want actual. false;
}

abbrev count_in : Matchmaker → ℤ
count_in m = elim (get_elem? m.games 0) [ none ↦ pos 0 | some gs ↦ gs.current_participant_count ]

bob_counted :
    count_in (join_game_session room_settings with_room (text "bob") bob_request [] [] noon).0
    ≡ pos 2
unfolding join_game_session admit_join validate_caller_definitions session_has_uid
    valid_session_name game_of last_resource_segment lookup bytes_beq wrap32
bob_counted = refl

join_changes_guarded_example :
    ((join_game_session room_settings with_room (text "bob") bob_request [] [] noon).0 ≡ with_room)
    ⊎ ((g : ℕ) × (gs : GameSession) × (game_of with_room room_name ≡ some (g, gs))
        × (is_game_active gs.state ≡ true)
        × (session_has_uid gs (text "bob") ≡ false)
        × ((gs.password ≡ []) ⊎ (gs.password ≡ []))
        × (gs.can_participate ≡ true)
        × (ltb_ℤ gs.current_participant_count gs.max_participant_count ≡ true))
join_changes_guarded_example =
    join_changes_guarded room_settings with_room (text "bob") bob_request [] [] noon
