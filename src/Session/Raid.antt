-- ===== src/Session/Raid.antt =====
-- matchmaking.go: the open room that a ticket is offered.
use pokemon_violet.Base.{
  ℕ, Bool, true, false, ◌&&◌, not, Option, none, some, List, [], ◌∷◌, ◌++◌, map, if◌then◌else◌,
  ◌==◌, nat_eq, bytes_eq, length, get_elem?, exists,
}
use pokemon_violet.Base.Dict.{lookup, insert}
use pokemon_violet.Base.Int.{ℤ, ltb_ℤ, int_eq}
use pokemon_violet.Base.Text.{Bytes, text}
use pokemon_violet.TradeBox.Message.{Time}
use pokemon_violet.TradeBox.Server.{last_resource_segment}
use pokemon_violet.Session.Message.{
  Value, integer_value, UserSession, GameSession, MatchmakingTicket, is_user_active, is_game_active,
}
use pokemon_violet.Session.Config.{public_match_pool_key}
use pokemon_violet.Session.Room.{PublicMatchMember, session_has_uid}
use pokemon_violet.Session.Matchmaker.{
  Matchmaker, Settings, config_of, new_public_match_session, has_vacancy, required_of,
  select_pool_session,
}

abbrev raid_keys : List Bytes
raid_keys =
    text "difficulty"
    ∷ text "fieldId"
    ∷ text "form_no"
    ∷ text "gem_type"
    ∷ text "is_distributed"
    ∷ text "is_kiwami"
    ∷ text "mons_no"
    ∷ text "raid_table_id"
    ∷ text "rom_version"
    ∷ text "sex"
    ∷ []

-- An exact property: absent, or equal to the room's.
abbrev exact_ok : Settings → Option Value → Option Value → Bool
exact_ok e none actual = true
exact_ok e (some want) actual = e.proto_equal want actual

-- A bound: absent, or both integers and in order.
abbrev bound_ok : (ℤ → ℤ → Bool) → Option Value → Option Value → Bool
bound_ok below none actual = true
bound_ok below (some (integer_value limit)) (some (integer_value n)) = below limit n
bound_ok below (some _) _ = false

-- The ceiling `progress` on the room's difficulty, where that is an integer.
abbrev progress_ok : Option Value → Option Value → Bool
progress_ok none difficulty = true
progress_ok (some (integer_value ceiling)) (some (integer_value n)) = not (ltb_ℤ ceiling n)
progress_ok (some (integer_value ceiling)) _ = true
progress_ok (some _) difficulty = false

abbrev pub all_of {ℓ} : {A : Type ℓ} → (A → Bool) → List A → Bool
all_of p [] = true
all_of p (x ∷ xs) = if p x then all_of p xs else false

unfoldable pub raid_matches_selection : Settings → MatchmakingTicket → GameSession → Bool
raid_matches_selection e t gs = elim t.user_definitions [
  | [] ↦ false
  | d ∷ ds ↦
      all_of
        (λ key.
          let actual = lookup key gs.properties in
          exact_ok e (lookup key d.attributes) actual
          && bound_ok (λ limit n. not (ltb_ℤ n limit)) (lookup (key ++ text "_min") d.attributes)
              actual
          && bound_ok (λ limit n. not (ltb_ℤ limit n)) (lookup (key ++ text "_max") d.attributes)
              actual)
        raid_keys
      && progress_ok (lookup (text "progress") d.attributes)
          (lookup (text "difficulty") gs.properties)
]

abbrev has_owner : GameSession → Bool
has_owner gs =
    exists (λ (u : UserSession). is_user_active u.state && u.team == text "owner") gs.user_sessions

unfoldable pub raid_open : Settings → Matchmaker → MatchmakingTicket → Bytes → GameSession → Bool
raid_open e m t caller_uid gs =
    config_of m gs == text "RaidPublic"
    && gs.is_public
    && is_game_active gs.state
    && gs.can_participate
    && has_vacancy (required_of t) gs
    && not (session_has_uid gs caller_uid)
    && has_owner gs
    && raid_matches_selection e t gs

-- The member that stands for a user session of a room that was not pooled yet.
abbrev pub member_of : UserSession → PublicMatchMember
member_of u = record {
  definition = record {
    user = u.user;
    attributes = u.attributes;
    latency_data = u.latency_data;
    team = u.team;
  };
  user_session = u.name;
  match_token = [];
}

-- The pooled session of a room, which is made on the first match.
unfoldable pub pool_room : Matchmaker → Bytes → Bytes → ℕ → GameSession → Matchmaker × Option ℕ
pool_room m key id g gs = elim (lookup id m.pooled) [
  | some p ↦ (m, some p)
  | none ↦ (
    record m {
      publics =
          m.publics
          ++ (record { pool_key = key; game_session = g; members = map member_of gs.user_sessions }
              ∷ []);
      pooled = insert id (length m.publics) m.pooled;
    },
    some (length m.publics),
  )
]

-- The loop over the registry's sessions.
unfoldable pub select_raid :
    Settings → Matchmaker → MatchmakingTicket → Bytes → List (Bytes × ℕ) → Matchmaker × Option ℕ
select_raid e m t caller_uid [] = (m, none)
select_raid e m t caller_uid ((id, g) ∷ rest) =
    let later = select_raid e m t caller_uid rest in
    elim (get_elem? m.games g) [
      | none ↦ later
      | some gs ↦
          if raid_open e m t caller_uid gs
          then pool_room m (public_match_pool_key e.decimal t) id g gs
          else later
    ]

unfoldable pub select_public_match_session :
    Settings → Matchmaker → MatchmakingTicket → Bytes → Option Bytes → Time → Matchmaker × Option ℕ
select_public_match_session e m t caller_uid fresh now =
    let created = new_public_match_session e m t (public_match_pool_key e.decimal t) fresh now in
    let pooled : Matchmaker × Option ℕ = elim (select_pool_session e m t caller_uid) [
      | some p ↦ (m, some p)
      | none ↦ created
    ] in
    if last_resource_segment t.matchmaking_config == text "RaidPublic"
    then select_raid e m t caller_uid m.sessions
    else pooled
