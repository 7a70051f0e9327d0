-- ===== src/Session/Registry.antt =====
-- session_registry.go: what the game-sync streams do to the rooms.
use pokemon_violet.Base.{
  ℕ, Bool, false, ◌&&◌, not, Option, none, some, List, [], ◌∷◌, if◌then◌else◌, ◌==◌, nat_eq,
  bytes_eq, get_elem?, set,
}
use pokemon_violet.Base.Dict.{lookup}
use pokemon_violet.Base.Int.{int_eq}
use pokemon_violet.Base.Text.{Bytes, text}
use pokemon_violet.TradeBox.Server.{last_resource_segment}
use pokemon_violet.Session.Message.{
  MapValue, UserSession, GameSession, is_user_active, is_game_active,
}
use pokemon_violet.Session.Config.{user_id_from_path}
use pokemon_violet.Session.Room.{depart_game, depart_members, control_game}
use pokemon_violet.Session.Matchmaker.{Matchmaker, PublicMatchSession, config_of}

-- The game session of a name, with its position.
unfoldable pub game_of : Matchmaker → Bytes → Option (ℕ × GameSession)
game_of m name = elim (lookup (last_resource_segment name) m.sessions) [
  | none ↦ none
  | some g ↦ elim (get_elem? m.games g) [ none ↦ none | some gs ↦ some (g, gs) ]
]

-- member: the room and the active user session of the user, if both names fit.
find_member : Bytes → Bytes → List UserSession → Option UserSession
find_member user_session uid [] = none
find_member user_session uid (u ∷ us) =
    if last_resource_segment u.name == last_resource_segment user_session
      && user_id_from_path u.user == uid
      && is_user_active u.state
    then some u
    else find_member user_session uid us

unfoldable pub member : Matchmaker → Bytes → Bytes → Bytes → Option (GameSession × UserSession)
unfolding find_member
member m game_session user_session uid = elim (game_of m game_session) [
  | none ↦ none
  | some (g, gs) ↦ elim (find_member user_session uid gs.user_sessions) [
    | none ↦ none
    | some u ↦ some (gs, u)
  ]
]

depart_pooled : Bytes → Bytes → Matchmaker → List PublicMatchSession
depart_pooled id user_session m = elim (lookup id m.pooled) [
  | none ↦ m.publics
  | some p ↦ elim (get_elem? m.publics p) [
    | none ↦ m.publics
    | some session ↦
        set m.publics p (record session { members = depart_members user_session session.members })
  ]
]

unfoldable pub depart : Matchmaker → Bytes → Bytes → Matchmaker
unfolding depart_pooled
depart m game_session user_session =
    let id = last_resource_segment game_session in
    elim (game_of m game_session) [
      | none ↦ m
      | some (g, gs) ↦ record m {
        games = set m.games g (depart_game (config_of m gs == text "RaidPublic") user_session gs);
        publics = depart_pooled id user_session m;
      }
    ]

abbrev one_owner : List UserSession → Bool
one_owner (u ∷ []) = u.team == text "owner"
one_owner _ = false

unfoldable pub raid_needs_reopen : Matchmaker → Bytes → Bool
raid_needs_reopen m game_session = elim (game_of m game_session) [
  | none ↦ false
  | some (g, gs) ↦
      config_of m gs == text "RaidPublic"
      && is_game_active gs.state
      && one_owner gs.user_sessions
      && not gs.can_participate
]

unfoldable pub update_room_control : Matchmaker → Bytes → MapValue → Matchmaker
update_room_control m name controls = elim (game_of m name) [
  | none ↦ m
  | some (g, gs) ↦ record m { games = set m.games g (control_game controls gs) }
]
