-- ===== src/Tests/SessionRuns.antt =====
-- Runs and witnesses of matchmaking: ann and bob search a coded trade with no password.
use pokemon_violet.Base.{
  ℕ, ◌≡◌, refl, ◌≢◌, ◌⊎◌, true, false, Option, none, some, List, [], ◌∷◌, ◌++◌, map, arith, ==_iff,
  nat_eq, bytes_beq, bytes_eq,
}
use pokemon_violet.Base.Dict.{lookup, insert}
use pokemon_violet.Base.Int.{pos, pos_part, ◌+ℤ◌, int_eq, wrap32}
use pokemon_violet.Base.Result.{permission_denied, err, ok}
use pokemon_violet.Base.Text.{Bytes, text, Lacks}
use pokemon_violet.TradeBox.Message.{Time}
use pokemon_violet.TradeBox.Server.{last_resource_segment}
use pokemon_violet.Session.Message.{
  game_terminated, UserDefinition, TicketState, ticket_unspecified, searching, succeeded,
  MatchmakingTicket, game_active, GameSession, is_game_active,
}
use pokemon_violet.Session.Config.{
  user_path, concrete_resource, violet_pair_config, violet_coded_config,
  validate_violet_matchmaking_config, validate_caller_definitions, public_match_pool_key,
  public_match_capacity,
}
use pokemon_violet.Session.Room.{
  public_match_has_uid, admit_all, add_public_match_members, Room, int32_length, release,
}
use pokemon_violet.Session.Matchmaker.{
  Settings, Matchmaker, new_matchmaker, room_at, put_room, check_ticket, create_matchmaking_ticket,
  new_public_match_session, find_session, select_pool_session, PublicMatchSession, has_vacancy,
  required_of,
}
use pokemon_violet.Session.Ticket.{
  public_match_response, answer_ticket, place_ticket, complete_matchmaking_ticket,
  cancel_matchmaking_ticket,
}
use pokemon_violet.Session.Raid.{select_public_match_session}
use pokemon_violet.Session.Aligned.{RoomStep, adds, releases, room_run, member_name, session_name}
use pokemon_violet.Session.Choice.{selected_open}
use pokemon_violet.Session.Complete.{ClosedFull, coded_success_closes}
use pokemon_violet.Session.Leave.{
  release_exact, cancel_ticket_final, of_user, member_uid, session_uid, SoleUser,
}
use pokemon_violet.Session.Members.{Distinct, room_members_sound}

abbrev test_settings : Settings
test_settings = record {
  max_participants = pos 0;
  host = text "host";
  port = pos 443;
  decimal = λ n. pos_part n ∷ [];
  mint = λ uid d name. uid;
  proto_equal = λ want actual. false;
}

abbrev ann : Bytes
ann = 97 ∷ []

abbrev bob : Bytes
bob = 98 ∷ []

abbrev start_time : Time
start_time = record { seconds = pos 1700000000; nanos = 0 }

abbrev definition_of : Bytes → UserDefinition
definition_of uid = record { user = uid; attributes = []; latency_data = none; team = [] }

abbrev ticket_of : Bytes → MatchmakingTicket
ticket_of uid = record {
  name = [];
  matchmaking_config = text "BoxTrade";
  user_definitions = definition_of uid ∷ [];
  state = ticket_unspecified;
  matched_user_sessions = [];
  game_session = none;
}

abbrev searching_both : Matchmaker
searching_both =
    let first =
      (create_matchmaking_ticket test_settings new_matchmaker ann (48 ∷ []) (ticket_of ann)).0 in
    (create_matchmaking_ticket test_settings first bob (48 ∷ []) (ticket_of bob)).0

abbrev ann_ticket : Bytes
ann_ticket = text "ticket-0-" ++ (1 ∷ [])

abbrev bob_ticket : Bytes
bob_ticket = text "ticket-0-" ++ (2 ∷ [])

abbrev ann_waits : Matchmaker × Option MatchmakingTicket
ann_waits =
    complete_matchmaking_ticket test_settings searching_both ann ann_ticket (some (120 ∷ []))
      (some (121 ∷ []) ∷ []) start_time []

abbrev bob_joins : Matchmaker × Option MatchmakingTicket
bob_joins =
    complete_matchmaking_ticket test_settings ann_waits.0 bob bob_ticket (some (122 ∷ []))
      (some (123 ∷ []) ∷ []) start_time []

abbrev state_of : Option MatchmakingTicket → TicketState
state_of none = ticket_unspecified
state_of (some t) = t.state

ann_is_pending : state_of ann_waits.1 ≡ searching
unfolding complete_matchmaking_ticket place_ticket answer_ticket select_public_match_session
    select_pool_session new_public_match_session find_session room_at put_room
    add_public_match_members admit_all create_matchmaking_ticket check_ticket
    validate_violet_matchmaking_config validate_caller_definitions violet_coded_config
    violet_pair_config public_match_capacity public_match_pool_key public_match_has_uid
    concrete_resource user_path last_resource_segment new_matchmaker lookup insert bytes_beq
    public_match_response wrap32 ◌+ℤ◌
ann_is_pending = refl

bob_succeeds : state_of bob_joins.1 ≡ succeeded
unfolding complete_matchmaking_ticket place_ticket answer_ticket select_public_match_session
    select_pool_session new_public_match_session find_session room_at put_room
    add_public_match_members admit_all create_matchmaking_ticket check_ticket
    validate_violet_matchmaking_config validate_caller_definitions violet_coded_config
    violet_pair_config public_match_capacity public_match_pool_key public_match_has_uid
    concrete_resource user_path last_resource_segment new_matchmaker lookup insert bytes_beq
    public_match_response wrap32 ◌+ℤ◌
bob_succeeds = refl

abbrev or_blank : Option MatchmakingTicket → MatchmakingTicket
or_blank none = ticket_of []
or_blank (some t) = t

bob_answered :
    complete_matchmaking_ticket test_settings ann_waits.0 bob bob_ticket
      (some (122 ∷ []))
      (some (123 ∷ []) ∷ [])
      start_time
      []
    ≡ (bob_joins.0, some (or_blank bob_joins.1))
unfolding complete_matchmaking_ticket place_ticket answer_ticket select_public_match_session
    select_pool_session new_public_match_session find_session room_at put_room
    add_public_match_members admit_all create_matchmaking_ticket check_ticket
    validate_violet_matchmaking_config validate_caller_definitions violet_coded_config
    violet_pair_config public_match_capacity public_match_pool_key public_match_has_uid
    concrete_resource user_path last_resource_segment new_matchmaker lookup insert bytes_beq
    public_match_response wrap32 ◌+ℤ◌
bob_answered = refl

bob_response_done : (or_blank bob_joins.1).state ≡ succeeded
unfolding complete_matchmaking_ticket place_ticket answer_ticket select_public_match_session
    select_pool_session new_public_match_session find_session room_at put_room
    add_public_match_members admit_all create_matchmaking_ticket check_ticket
    validate_violet_matchmaking_config validate_caller_definitions violet_coded_config
    violet_pair_config public_match_capacity public_match_pool_key public_match_has_uid
    concrete_resource user_path last_resource_segment new_matchmaker lookup insert bytes_beq
    public_match_response wrap32 ◌+ℤ◌
bob_response_done = refl

abbrev bob_stored : MatchmakingTicket
bob_stored = or_blank (lookup bob_ticket ann_waits.0.tickets)

bob_has_ticket : lookup (last_resource_segment bob_ticket) ann_waits.0.tickets ≡ some bob_stored
unfolding complete_matchmaking_ticket place_ticket answer_ticket select_public_match_session
    select_pool_session new_public_match_session find_session room_at put_room
    add_public_match_members admit_all create_matchmaking_ticket check_ticket
    validate_violet_matchmaking_config validate_caller_definitions violet_coded_config
    violet_pair_config public_match_capacity public_match_pool_key public_match_has_uid
    concrete_resource user_path last_resource_segment new_matchmaker lookup insert bytes_beq
    public_match_response wrap32 ◌+ℤ◌
bob_has_ticket = refl

bob_coded : violet_coded_config bob_stored.matchmaking_config ≡ true
unfolding complete_matchmaking_ticket place_ticket answer_ticket select_public_match_session
    select_pool_session new_public_match_session find_session room_at put_room
    add_public_match_members admit_all create_matchmaking_ticket check_ticket
    validate_violet_matchmaking_config validate_caller_definitions violet_coded_config
    violet_pair_config public_match_capacity public_match_pool_key public_match_has_uid
    concrete_resource user_path last_resource_segment new_matchmaker lookup insert bytes_beq
    public_match_response wrap32 ◌+ℤ◌
bob_coded = refl

coded_success_closes_example :
    (p : ℕ) × (lookup (last_resource_segment bob_ticket) bob_joins.0.ticket_sessions ≡ some p)
    × ClosedFull test_settings bob_joins.0 bob_stored p
coded_success_closes_example =
    coded_success_closes test_settings ann_waits.0 bob bob_ticket (some (122 ∷ []))
      (some (123 ∷ []) ∷ []) start_time [] bob_stored bob_joins.0 (or_blank bob_joins.1)
      bob_has_ticket bob_coded bob_answered bob_response_done

bob_selects : select_pool_session test_settings ann_waits.0 bob_stored bob ≡ some 0
unfolding complete_matchmaking_ticket place_ticket answer_ticket select_public_match_session
    select_pool_session new_public_match_session find_session room_at put_room
    add_public_match_members admit_all create_matchmaking_ticket check_ticket
    validate_violet_matchmaking_config validate_caller_definitions violet_coded_config
    violet_pair_config public_match_capacity public_match_pool_key public_match_has_uid
    concrete_resource user_path last_resource_segment new_matchmaker lookup insert bytes_beq
    public_match_response wrap32 ◌+ℤ◌
bob_selects = refl

selected_open_example :
    (session : PublicMatchSession) × (gs : GameSession) × (room_at ann_waits.0 0
      ≡ some (session, gs))
    × (is_game_active gs.state ≡ true)
    × (gs.can_participate ≡ true)
    × ((public_match_has_uid session.members bob ≡ true)
        ⊎ (has_vacancy (required_of bob_stored) gs ≡ true))
selected_open_example = selected_open test_settings ann_waits.0 bob_stored bob 0 bob_selects

abbrev empty_game : GameSession
empty_game = record {
  name = text "g";
  max_participant_count = pos 2;
  current_participant_count = pos 0;
  can_participate = true;
  is_public = true;
  password = [];
  state = game_active;
  host = [];
  port = pos 443;
  create_time = start_time;
  properties = [];
  user_sessions = [];
}

abbrev both_join : List RoomStep
both_join =
    adds (ticket_of ann) ann (some (120 ∷ []) ∷ []) start_time
    ∷ adds (ticket_of bob) bob (some (121 ∷ []) ∷ []) start_time
    ∷ releases ann
    ∷ []

clean_name : (c : ℕ) → c ≢ 47 → Lacks 47 (c ∷ [])
clean_name c other = (other, tt)

room_members_sound_example :
    let r = room_run test_settings.mint (record { members = []; game = empty_game }) both_join in
    (map member_name r.members ≡ map session_name r.game.user_sessions) × Distinct r.members
room_members_sound_example =
    room_members_sound test_settings.mint empty_game both_join refl
      (clean_name 97 (λ e. omega arith), (clean_name 98 (λ e. omega arith), (tt, tt)))

abbrev joined_room : Room
joined_room =
    add_public_match_members test_settings.mint (ticket_of bob) bob (some (121 ∷ []) ∷ [])
      start_time (record { members = []; game = empty_game })

ann_not_bob : ann ≢ bob
unfolding bytes_beq
ann_not_bob e = let same : bytes_beq ann bob ≡ true = (==_iff ann bob).1 e in cc

release_exact_example :
    let out = release ann joined_room in
    (of_user member_uid ann out.members ≡ [])
    × (of_user member_uid bob out.members ≡ of_user member_uid bob joined_room.members)
    × (of_user session_uid ann out.game.user_sessions ≡ [])
    × (of_user session_uid bob out.game.user_sessions
        ≡ of_user session_uid bob joined_room.game.user_sessions)
    × (out.game.current_participant_count ≡ int32_length out.game.user_sessions)
    × (out.game.user_sessions ≡ []
        → (out.game.state ≡ game_terminated) × (out.game.can_participate ≡ false))
    × (out.game.user_sessions ≢ []
        → (out.game.state ≡ joined_room.game.state)
          × (out.game.can_participate ≡ joined_room.game.can_participate))
release_exact_example = release_exact ann bob joined_room ann_not_bob

cancel_ticket_final_example :
    let (n, reply) = cancel_matchmaking_ticket test_settings ann_waits.0 ann ann_ticket in
    let id = last_resource_segment ann_ticket in
    ((reply ≡ ok tt)
      × (((lookup id ann_waits.0.tickets ≡ none) × (n ≡ ann_waits.0))
          ⊎ ((t : MatchmakingTicket) × (lookup id ann_waits.0.tickets ≡ some t) × SoleUser ann t))
      × (lookup id n.tickets ≡ none)
      × (cancel_matchmaking_ticket test_settings n ann ann_ticket ≡ (n, ok tt)))
    ⊎ ((reply ≡ err permission_denied)
        × (n ≡ ann_waits.0)
        × ((t : MatchmakingTicket) × (lookup id ann_waits.0.tickets ≡ some t) × ¬ SoleUser ann t))
cancel_ticket_final_example = cancel_ticket_final test_settings ann_waits.0 ann ann_ticket
