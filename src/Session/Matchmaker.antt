-- ===== src/Session/Matchmaker.antt =====
-- matchmaking.go: the matchmaker under the registry's lock. Game sessions and pooled sessions are
-- shared by several maps, so each kind lives in a heap and the maps hold positions.
use pokemon_violet.Base.{
  ℕ, ◌+◌, ◌%◌, ◌^◌, Bool, true, false, ◌&&◌, ◌||◌, not, Option, none, some, List, [], ◌∷◌, ◌++◌,
  map, if◌then◌else◌, nat_eq, bytes_eq, length, get_elem?, set,
}
use pokemon_violet.Base.Dict.{Dict, lookup, insert}
use pokemon_violet.Base.Int.{ℤ, pos, ◌+ℤ◌, ltb_ℤ, int_eq, wrap32}
use pokemon_violet.Base.Result.{invalid_argument, Result, err, ok, ◌>>◌, guard}
use pokemon_violet.Base.Text.{Bytes, text}
use pokemon_violet.TradeBox.Message.{Time}
use pokemon_violet.TradeBox.Server.{last_resource_segment}
use pokemon_violet.Session.Message.{
  Value, string_value, UserDefinition, game_active, GameSession, searching, MatchmakingTicket,
  is_game_active,
}
use pokemon_violet.Session.Config.{
  user_path, npln_tenant, concrete_resource, violet_coded_config,
  validate_violet_matchmaking_config, validate_caller_definitions, public_match_pool_key,
  public_match_capacity,
}
use pokemon_violet.Session.Room.{Room, Mint, PublicMatchMember, public_match_has_uid, int32_length}

pub record PublicMatchSession : Type 0 where
  pub pool_key : Bytes
  pub game_session : ℕ
  pub members : List PublicMatchMember

pub record Matchmaker : Type 0 where
  pub games : List GameSession
  pub publics : List PublicMatchSession
  pub sessions : Dict Bytes ℕ
  pub pooled : Dict Bytes ℕ
  pub configs : Dict Bytes Bytes
  pub tickets : Dict Bytes MatchmakingTicket
  pub ticket_sessions : Dict Bytes ℕ
  pub sessions_by_pool : Dict Bytes (List ℕ)
  pub next_ticket_id : ℕ  -- uint64
  pub next_session_id : ℕ  -- uint64

-- The settings that the process reads from its environment.
pub record Settings : Type 0 where
  pub max_participants : ℤ
  pub host : Bytes
  pub port : ℤ
  pub decimal : ℤ → Bytes
  pub mint : Mint
  -- proto.Equal of two values, of which either may be nil
  pub proto_equal : Value → Option Value → Bool

unfoldable pub new_matchmaker : Matchmaker
new_matchmaker = record {
  games = [];
  publics = [];
  sessions = [];
  pooled = [];
  configs = [];
  tickets = [];
  ticket_sessions = [];
  sessions_by_pool = [];
  next_ticket_id = 0;
  next_session_id = 0;
}

-- The pooled session at a position with its game session.
unfoldable pub room_at : Matchmaker → ℕ → Option (PublicMatchSession × GameSession)
room_at m p = elim (get_elem? m.publics p) [
  | none ↦ none
  | some session ↦ elim (get_elem? m.games session.game_session) [
    | none ↦ none
    | some gs ↦ some (session, gs)
  ]
]

unfoldable pub put_room : Matchmaker → ℕ → PublicMatchSession → Room → Matchmaker
put_room m p session r = record m {
  publics = set m.publics p (record session { members = r.members });
  games = set m.games session.game_session r.game;
}

abbrev pub config_of : Matchmaker → GameSession → Bytes
config_of m gs = elim (lookup gs.name m.configs) [ none ↦ [] | some c ↦ c ]

-- The checks of CreateMatchmakingTicket on a ticket whose configuration is concrete.
abbrev is_string : Option Value → Bool
is_string none = true
is_string (some (string_value s)) = true
is_string (some _) = false

unfoldable pub check_ticket : MatchmakingTicket → Bytes → Result (Unit {0})
check_ticket t uid =
    validate_violet_matchmaking_config t.matchmaking_config
    >> (validate_caller_definitions t.user_definitions uid >> elim t.user_definitions [
      | [] ↦ guard (not (violet_coded_config t.matchmaking_config)) invalid_argument
      | d ∷ ds ↦
          guard
            (not (violet_coded_config t.matchmaking_config)
              || is_string (lookup (text "password") d.attributes))
            invalid_argument
    ])

-- CreateMatchmakingTicket after authentication; `stamp` is the clock's part of the ticket's name.
unfoldable pub create_matchmaking_ticket :
    Settings
    → Matchmaker
    → Bytes
    → Bytes
    → MatchmakingTicket
    → Matchmaker × Result MatchmakingTicket
create_matchmaking_ticket e m uid stamp supplied =
    let asked = record supplied {
      matchmaking_config =
          concrete_resource (text "matchmakingConfigs") supplied.matchmaking_config;
    } in
    let next = (m.next_ticket_id + 1) % 2 ^ 64 in
    let id = text "ticket-" ++ (stamp ++ (b'-' ∷ e.decimal (pos next))) in
    let t = record asked {
      user_definitions =
          map (λ (d : UserDefinition). record d { user = user_path uid }) asked.user_definitions;
      state = searching;
      name = npln_tenant ++ (text "/matchmakingTickets/" ++ id);
    } in
    elim (check_ticket asked uid) [
      | err c ↦ (m, err c)
      | ok _ ↦ (
        record m {
          next_ticket_id = next;
          tickets = insert (last_resource_segment t.name) t m.tickets;
        },
        ok t,
      )
    ]

abbrev pub pool_of : Bytes → Matchmaker → List ℕ
pool_of key m = elim (lookup key m.sessions_by_pool) [ none ↦ [] | some ps ↦ ps ]

-- newPublicMatchSessionLocked, with the position of the new session
unfoldable pub new_public_match_session :
    Settings → Matchmaker → MatchmakingTicket → Bytes → Option Bytes → Time → Matchmaker × Option ℕ
new_public_match_session e m t key none now =
    (record m { next_session_id = (m.next_session_id + 1) % 2 ^ 64 }, none)
new_public_match_session e m t key (some id) now =
    let name = npln_tenant ++ (text "/gameSessions/" ++ id) in
    let p = length m.publics in
    (
      record m {
        next_session_id = (m.next_session_id + 1) % 2 ^ 64;
        games =
            m.games
            ++ (record {
              name = name;
              max_participant_count = public_match_capacity e.max_participants t.matchmaking_config;
              current_participant_count = pos 0;
              can_participate = true;
              is_public = true;
              password = [];
              state = game_active;
              host = e.host;
              port = wrap32 e.port;
              create_time = now;
              properties = [];
              user_sessions = [];
            }
                ∷ []);
        publics =
            m.publics
            ++ (record { pool_key = key; game_session = length m.games; members = [] } ∷ []);
        sessions_by_pool = insert key (pool_of key m ++ (p ∷ [])) m.sessions_by_pool;
        sessions = insert (last_resource_segment name) (length m.games) m.sessions;
        pooled = insert (last_resource_segment name) p m.pooled;
        configs = insert name (last_resource_segment t.matchmaking_config) m.configs;
      },
      some p,
    )

-- CurrentParticipantCount + required <= MaxParticipantCount, in int32
abbrev pub has_vacancy : ℤ → GameSession → Bool
has_vacancy required gs =
    not (ltb_ℤ gs.max_participant_count (wrap32 (gs.current_participant_count +ℤ required)))

-- The two loops over the sessions of a pool.
unfoldable pub find_session :
    Matchmaker → (PublicMatchSession → GameSession → Bool) → List ℕ → Option ℕ
find_session m good [] = none
find_session m good (p ∷ ps) =
    let rest = find_session m good ps in
    elim (room_at m p) [
      | none ↦ rest
      | some (session, gs) ↦ if good session gs then some p else rest
    ]

abbrev pub required_of : MatchmakingTicket → ℤ
required_of t = let n = int32_length t.user_definitions in if ltb_ℤ n (pos 1) then pos 1 else n

unfoldable pub select_pool_session : Settings → Matchmaker → MatchmakingTicket → Bytes → Option ℕ
select_pool_session e m t caller_uid =
    let ps = pool_of (public_match_pool_key e.decimal t) m in
    let open_room = λ (gs : GameSession). is_game_active gs.state && gs.can_participate in
    elim (find_session m
      (λ session gs. open_room gs && public_match_has_uid session.members caller_uid) ps) [
        | some p ↦ some p
        | none ↦ find_session m (λ session gs. open_room gs && has_vacancy (required_of t) gs) ps
      ]
