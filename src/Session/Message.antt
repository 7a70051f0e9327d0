-- ===== src/Session/Message.antt =====
-- The messages of matchmaking that the handlers read and write, with the fields that they touch.
use pokemon_violet.Base.{ℕ, Bool, true, false, Option, List}
use pokemon_violet.Base.Dict.{Dict}
use pokemon_violet.Base.Int.{ℤ}
use pokemon_violet.Base.Text.{Bytes}
use pokemon_violet.TradeBox.Message.{Time}

-- The oneof of commonpb.Value. Floating-point numbers are their bits; `unset` has no case set.
mutual
  pub data Value : Type 0 where
    unset null_value : Value
    boolean_value : Bool → Value
    integer_value : ℤ → Value
    float_value double_value : ℕ → Value
    timestamp_value : Time → Value
    string_value bytes_value reference_value : Bytes → Value
    array_value : Values → Value
    map_value : Fields → Value

  pub data Values : Type 0 where
    no_values : Values
    more_values : Value → Values → Values

  pub data Fields : Type 0 where
    no_fields : Fields
    more_fields : Bytes → Value → Fields → Fields

-- A MapValue; nil and empty read alike.
abbrev pub MapValue : Type 0
MapValue = Dict Bytes Value

-- Latencies are passed on only.
pub record UserDefinition : Type 0 where
  pub user : Bytes
  pub attributes : MapValue
  pub latency_data : Option Bytes
  pub team : Bytes

pub data UserState : Type 0 where
  user_unspecified user_reserved user_active : UserState

pub record UserSession : Type 0 where
  pub name : Bytes
  pub user : Bytes
  pub latency_data : Option Bytes
  pub create_time : Time
  pub state : UserState
  pub team : Bytes
  pub attributes : MapValue

pub data GameState : Type 0 where
  game_unspecified game_creating game_active game_terminating game_terminated : GameState

-- Counts and the port are int32.
pub record GameSession : Type 0 where
  pub name : Bytes
  pub max_participant_count : ℤ
  pub current_participant_count : ℤ
  pub can_participate : Bool
  pub is_public : Bool
  pub password : Bytes
  pub state : GameState
  pub host : Bytes
  pub port : ℤ
  pub create_time : Time
  pub properties : MapValue
  pub user_sessions : List UserSession

pub record MatchedUserSession : Type 0 where
  pub user_definition : UserDefinition
  pub user_session : Bytes
  pub matchmaking_id_token : Bytes

pub data TicketState : Type 0 where
  ticket_unspecified searching placing succeeded timed_out : TicketState
  ticket_failed ticket_cancelled requiring_acceptance declined : TicketState

pub record MatchmakingTicket : Type 0 where
  pub name : Bytes
  pub matchmaking_config : Bytes
  pub user_definitions : List UserDefinition
  pub state : TicketState
  pub matched_user_sessions : List MatchedUserSession
  pub game_session : Option GameSession

abbrev pub is_user_active : UserState → Bool
is_user_active user_active = true
is_user_active _ = false

abbrev pub is_game_active : GameState → Bool
is_game_active game_active = true
is_game_active _ = false
