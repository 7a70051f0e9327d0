-- ===== src/Documents/Writable.antt =====
-- gamesync_store.go: which documents a user session may write, and with which fields.
use pokemon_violet.Base.{
  Bool, true, false, ◌&&◌, ◌||◌, not, Option, none, some, List, [], ◌∷◌, ◌++◌, ltb, if◌then◌else◌,
  ◌==◌, nat_eq, bytes_eq, length, exists,
}
use pokemon_violet.Base.Dict.{Dict, lookup}
use pokemon_violet.Base.Int.{ℤ, int_eq}
use pokemon_violet.Base.Result.{
  invalid_argument, permission_denied, unimplemented, Result, err, ok, ◌>>◌, guard,
}
use pokemon_violet.Base.Text.{Bytes, text}
use pokemon_violet.Session.Message.{MapValue, Value, integer_value, string_value}
use pokemon_violet.TradeBox.Server.{last_resource_segment}
use pokemon_violet.Documents.Message.{Document, GamesyncSession}
use pokemon_violet.Documents.Battle.{
  as_array, as_map, as_integer, as_bytes, as_boolean, validate_ranked_battle_start,
  validate_ranked_battle_report,
}
use pokemon_violet.Documents.Path.{document_path}

abbrev pub observed_string_value : Option Value → Bytes → Bool
observed_string_value (some (string_value s)) expected = s == expected
observed_string_value _ expected = false

abbrev pub observed_integer_value : Option Value → ℤ → Bool
observed_integer_value (some (integer_value z)) expected = z == expected
observed_integer_value _ expected = false

-- owners[name], which is the empty string for a missing key.
abbrev pub owner_of : Dict Bytes Bytes → Bytes → Bytes
owner_of owners name = elim (lookup name owners) [ none ↦ [] | some owner ↦ owner ]

abbrev pub deny : Bool → Result (Unit {0})
deny allowed = guard allowed permission_denied

abbrev pub is_some {ℓ} : {A : Type ℓ} → Option A → Bool
is_some none = false
is_some (some a) = true

unfoldable pub all_hold {ℓ} : {A : Type ℓ} → (A → Result (Unit {0})) → List A → Result (Unit {0})
all_hold check [] = ok tt
all_hold check (a ∷ rest) = check a >> all_hold check rest

abbrev is_peer : GamesyncSession → Option Value → Bytes × GamesyncSession → Bool
is_peer session ru (_, candidate) =
    candidate.game_session == session.game_session && observed_string_value ru candidate.uid

abbrev metrics_fields :
    GamesyncSession → Dict Bytes GamesyncSession → Option MapValue → Result (Unit {0})
metrics_fields session sessions none = err invalid_argument
metrics_fields session sessions (some f) =
    guard (length f == 5) invalid_argument
    >> deny (observed_string_value (lookup (text "lu") f) session.uid)
    >> deny (exists (is_peer session (lookup (text "ru") f)) sessions)
    >> guard (observed_string_value (lookup (text "p2p") f) (text "nn::pia::npln::NplnPlugin"))
        invalid_argument
    >> guard (is_some (as_integer (lookup (text "rc") f))) invalid_argument
    >> guard (is_some (as_boolean (lookup (text "re") f))) invalid_argument

-- One round of the loop over the array "a".
pub metrics_entry : GamesyncSession → Dict Bytes GamesyncSession → Value → Result (Unit {0})
metrics_entry session sessions entry = metrics_fields session sessions (as_map (some entry))

metrics_array :
    GamesyncSession → Dict Bytes GamesyncSession → Option (List Value) → Result (Unit {0})
metrics_array session sessions none = err invalid_argument
metrics_array session sessions (some entries) =
    guard (not (length entries == 0 || ltb 16 (length entries))) invalid_argument
    >> all_hold (metrics_entry session sessions) entries

-- case "__mt"
unfoldable pub writable_metrics :
    Bytes
    → Option MapValue
    → GamesyncSession
    → Bool
    → Dict Bytes GamesyncSession
    → Result (Unit {0})
unfolding metrics_array
writable_metrics id content session owned sessions =
    guard (id == text "nat_traversal") unimplemented >> elim content [
      | none ↦ deny owned
      | some f ↦
          guard (length f == 1) invalid_argument
          >> metrics_array session sessions (as_array (lookup (text "a") f))
    ]

abbrev pub control_key : Bytes → Bool
control_key key = key == text "cp" || key == text "ebf" || key == text "ip"

unfoldable pub control_field : Bytes × Value → Result (Unit {0})
control_field (key, value) =
    guard (control_key key) invalid_argument
    >> guard (is_some (as_boolean (some value))) invalid_argument

-- case "__gs"
unfoldable pub writable_control : Bytes → Option MapValue → Bool → Result (Unit {0})
writable_control id none owned = err permission_denied
writable_control id (some f) owned = deny (id == text "m" && owned) >> all_hold control_field f

-- case "__pus"
unfoldable pub writable_presence :
    Bytes → Option MapValue → GamesyncSession → Bytes → Result (Unit {0})
writable_presence id content session owner = deny (id == owner) >> elim content [
  | none ↦ ok tt
  | some f ↦
      deny (observed_string_value (lookup (text "uid") f) session.uid)
      >> deny (
          observed_integer_value (lookup (text "ussid") f) session.sequence
          && observed_integer_value (lookup (text "ucsid") f) session.connection)
]

abbrev in_game : Bytes → Option GamesyncSession → Bool
in_game game none = false
in_game game (some recipient) = recipient.game_session == game

-- The mailbox: a user session of the same room, or the group of all.
abbrev pub mailbox :
    Bytes → Bytes → GamesyncSession → Dict Bytes GamesyncSession → Result (Unit {0})
mailbox collection id session sessions =
    if collection == text "__stu"
    then deny (in_game session.game_session (lookup id sessions))
    else guard (id == text "All") unimplemented

abbrev pub signal_fields : MapValue → GamesyncSession → Bytes → Result (Unit {0})
signal_fields f session owner =
    guard (is_some (as_integer (lookup (text "suscid") f))) invalid_argument
    >> deny (
        observed_string_value (lookup (text "suid") f) session.uid
        && observed_string_value (lookup (text "susid") f) owner
        && observed_integer_value (lookup (text "sussid") f) session.sequence)
    >> guard (is_some (as_bytes (lookup (text "pl") f))) invalid_argument
    >> guard (not (is_some (lookup (text "mp") f)) || is_some (as_map (lookup (text "mp") f)))
        invalid_argument

-- case "__stu", "__stg"
unfoldable pub writable_signal :
    Bytes
    → Bytes
    → Option MapValue
    → GamesyncSession
    → Bytes
    → Bool
    → Dict Bytes GamesyncSession
    → Result (Unit {0})
writable_signal collection id content session owner owned sessions =
    mailbox collection id session sessions
    >> elim content [ none ↦ deny owned | some f ↦ signal_fields f session owner ]

-- The common end of the two ranked families.
abbrev pub writable_battle :
    Option MapValue → Bool → Bool → (MapValue → Result (Unit {0})) → Result (Unit {0})
writable_battle none owned existing validate = deny owned
writable_battle (some f) owned existing validate = deny (not existing || owned) >> validate f

-- `decimal` is fmt's "%d".
unfoldable pub writable_document :
    (ℤ → Bytes)
    → Bytes
    → Option MapValue
    → GamesyncSession
    → Dict Bytes Bytes
    → Option Document
    → Dict Bytes GamesyncSession
    → Result (Unit {0})
writable_document decimal name content session owners existing sessions =
    elim (document_path name) [
      | none ↦ err invalid_argument
      | some (collection, id) ↦
          let owner = last_resource_segment session.user_session in
          let owned = owner_of owners name == owner in
          if collection == text "__mt"
          then writable_metrics id content session owned sessions
          else if collection == text "__gs"
          then writable_control id content owned
          else if collection == text "__pus"
          then writable_presence id content session owner
          else if collection == text "__stu" || collection == text "__stg"
          then writable_signal collection id content session owner owned sessions
          else if collection == text "@@battleStart"
          then guard (id == text "id") unimplemented
            >> writable_battle content owned (is_some existing) validate_ranked_battle_start
          else if collection == text "@@battleReport"
          then deny (id == text "id/users/" ++ decimal session.sequence)
            >> writable_battle content owned (is_some existing) validate_ranked_battle_report
          else err unimplemented
    ]
