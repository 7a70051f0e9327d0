-- ===== src/Tests/ToyRoom.antt =====
-- A document server for the tests: the room "r" of the user sessions "a" and "b".
use pokemon_violet.Base.{ℕ, ◌+◌, true, none, some, [], ◌∷◌}
use pokemon_violet.Base.Int.{ℤ, pos, negsuc}
use pokemon_violet.Base.Text.{Bytes, text}
use pokemon_violet.TradeBox.Message.{Time}
use pokemon_violet.Ranked.Store.{File}
use pokemon_violet.Session.Message.{MapValue, boolean_value, integer_value, string_value}
use pokemon_violet.Documents.Message.{Document, GamesyncSession}
use pokemon_violet.Documents.Server.{GamesyncServer, KeepUserSessionResponse}

abbrev pub noon : Time
noon = record { seconds = pos 1700000000; nanos = 0 }

abbrev pub later : Time
later = record { seconds = pos 1700000060; nanos = 0 }

abbrev pub member_of_room : Bytes → Bytes → ℤ → GamesyncSession
member_of_room uid id sequence = record {
  uid = uid;
  app_id = [];
  ip = [];
  game_session = text "r";
  user_session = id;
  team = text "main";
  sequence = sequence;
  connection = sequence;
  attributes = [];
  latency_json = [];
  created_at = some noon;
}

abbrev pub ann : GamesyncSession
ann = member_of_room (text "ann") (text "a") (pos 1)

abbrev pub bob : GamesyncSession
bob = member_of_room (text "bob") (text "b") (pos 2)

abbrev pub stored_document : Bytes → MapValue → Bytes × Document
stored_document name content =
    (name, record { name = name; fields = content; create_time = noon; update_time = noon })

abbrev pub presence : MapValue
presence =
    (text "uid", string_value (text "ann"))
    ∷ (text "ussid", integer_value (pos 1))
    ∷ (text "ucsid", integer_value (pos 1))
    ∷ []

abbrev pub control : MapValue
control = (text "cp", boolean_value true) ∷ []

abbrev pub room_server : GamesyncServer
room_server = record {
  registry = record {
    games = [];
    publics = [];
    sessions = [];
    pooled = [];
    configs = [];
    tickets = [];
    ticket_sessions = [];
    sessions_by_pool = [];
    next_ticket_id = 0;
    next_session_id = 0;
  };
  ranked = none;
  next_sequence = (text "r", pos 2) ∷ [];
  file = File.missing;
  owners = (text "r", (text "docs/__gs/m", text "a") ∷ (text "docs/__pus/a", text "a") ∷ []) ∷ [];
  stream_counts = (text "a", pos 0) ∷ [];
  disconnect_timers = (text "a", 5) ∷ [];
  sessions = (text "a", ann) ∷ (text "b", bob) ∷ [];
  deferments = [];
  documents =
      (
        text "r",
        stored_document (text "docs/__gs/m") control
            ∷ stored_document (text "docs/__pus/a") presence
            ∷ stored_document (text "docs/__us/a") []
            ∷ stored_document (text "docs/__us/b") []
            ∷ [],
      )
      ∷ [];
  global_values = [];
  subscribers = [];
  next_timer = 6;
}

abbrev pub message_size : KeepUserSessionResponse → ℕ
message_size message = 1

-- The digit of a sequence number below ten.
abbrev pub digit : ℤ → Bytes
digit (pos n) = (48 + n) ∷ []
digit (negsuc n) = []

abbrev pub bare_server : GamesyncServer
bare_server = record room_server { documents = []; owners = [] }
