-- ===== src/Session/Room.antt =====
-- matchmaking.go and session_registry.go: one room, that is a game session with its pooled members.
-- Tokens are minted outside (`mint`, of the user, its definition and the user session's name), and
-- fresh identifiers are a list of answers of the random source, `none` where it fails.
use pokemon_violet.Base.{
  Bool, true, false, ◌&&◌, ◌||◌, not, Option, none, some, List, [], ◌∷◌, ◌++◌, if◌then◌else◌, ◌==◌,
  nat_eq, bytes_eq, length, keep, exists,
}
use pokemon_violet.Base.Dict.{lookup}
use pokemon_violet.Base.Int.{ℤ, pos, ltb_ℤ, int_eq, wrap32}
use pokemon_violet.Base.Text.{Bytes, text}
use pokemon_violet.TradeBox.Message.{Time}
use pokemon_violet.TradeBox.Server.{last_resource_segment}
use pokemon_violet.Session.Message.{
  Value, boolean_value, MapValue, UserDefinition, user_active, UserSession, game_terminated,
  GameSession, MatchmakingTicket, is_user_active, is_game_active,
}
use pokemon_violet.Session.Config.{user_path, user_id_from_path}

-- mintGssMatchTokenForApp for one application
abbrev pub Mint : Type 0
Mint = Bytes → UserDefinition → Bytes → Bytes

pub record PublicMatchMember : Type 0 where
  pub definition : UserDefinition
  pub user_session : Bytes
  pub match_token : Bytes

-- A publicMatchSession with the game session that it points to.
pub record Room : Type 0 where
  pub members : List PublicMatchMember
  pub game : GameSession

unfoldable pub session_has_uid : GameSession → Bytes → Bool
session_has_uid gs uid =
    exists (λ (u : UserSession). user_id_from_path u.user == uid && is_user_active u.state)
      gs.user_sessions

unfoldable pub public_match_has_uid : List PublicMatchMember → Bytes → Bool
public_match_has_uid members uid =
    exists (λ (m : PublicMatchMember). user_id_from_path m.definition.user == uid) members

-- A user without a name is the caller.
abbrev pub named : UserDefinition → Bytes → UserDefinition
named d caller_uid =
    if user_id_from_path d.user == [] then record d { user = user_path caller_uid } else d

-- uid after the defaulting of an empty one
abbrev pub uid_or : UserDefinition → Bytes → Bytes
uid_or d caller_uid =
    if user_id_from_path d.user == [] then caller_uid else user_id_from_path d.user

abbrev pub new_user_session : UserDefinition → Bytes → Time → UserSession
new_user_session d name now = record {
  name = name;
  user = d.user;
  latency_data = d.latency_data;
  create_time = now;
  state = user_active;
  team = d.team;
  attributes = d.attributes;
}

abbrev pub admit : Mint → Bytes → UserDefinition → Bytes → Time → Room → Room
admit mint uid d id now r =
    let name = r.game.name ++ (text "/userSessions/" ++ id) in
    record {
      members =
          r.members
          ++ (record { definition = d; user_session = name; match_token = mint uid d name } ∷ []);
      game = record (r.game) {
        user_sessions = r.game.user_sessions ++ (new_user_session d name now ∷ []);
      };
    }

-- The loop over the definitions; `false` is its early return.
unfoldable pub admit_all :
    Mint → List UserDefinition → List (Option Bytes) → Bytes → Time → Room → Room × Bool
admit_all mint [] ids caller_uid now r = (r, true)
admit_all mint (d ∷ ds) [] caller_uid now r =
    let rest = admit_all mint ds [] caller_uid now r in
    if public_match_has_uid r.members (uid_or d caller_uid) then rest else (r, false)
admit_all mint (d ∷ ds) (none ∷ ids) caller_uid now r =
    let rest = admit_all mint ds (none ∷ ids) caller_uid now r in
    if public_match_has_uid r.members (uid_or d caller_uid) then rest else (r, false)
admit_all mint (d ∷ ds) (some id ∷ ids) caller_uid now r =
    let skipped = admit_all mint ds (some id ∷ ids) caller_uid now r in
    let rest =
      admit_all mint ds ids caller_uid now
        (admit mint (uid_or d caller_uid) (named d caller_uid) id now r) in
    if public_match_has_uid r.members (uid_or d caller_uid) then skipped else rest

-- int32(len(...))
abbrev pub int32_length {ℓ} : {A : Type ℓ} → List A → ℤ
int32_length xs = wrap32 (pos (length xs))

abbrev pub count_members : Room → Room
count_members r =
    let count = int32_length r.members in
    record r {
      game = record (r.game) {
        max_participant_count =
            if ltb_ℤ r.game.max_participant_count count
            then count
            else r.game.max_participant_count;
        current_participant_count = count;
      };
    }

abbrev pub or_caller : List UserDefinition → Bytes → List UserDefinition
or_caller [] caller_uid =
    record { user = user_path caller_uid; attributes = []; latency_data = none; team = [] } ∷ []
or_caller (d ∷ ds) caller_uid = d ∷ ds

unfoldable pub add_public_match_members :
    Mint → MatchmakingTicket → Bytes → List (Option Bytes) → Time → Room → Room
add_public_match_members mint t caller_uid ids now r =
    let (out, finished) =
      admit_all mint (or_caller t.user_definitions caller_uid) ids caller_uid now r in
    if public_match_has_uid r.members caller_uid
    then r
    else if finished
    then count_members out
    else out

abbrev pub terminate : GameSession → GameSession
terminate gs = record gs { can_participate = false; state = game_terminated }

abbrev is_empty {ℓ} : {A : Type ℓ} → List A → Bool
is_empty [] = true
is_empty (x ∷ xs) = false

-- The part of cancelPendingCodedMatchLocked that changes the session.
unfoldable pub release : Bytes → Room → Room
release uid r =
    let users =
      keep (λ (u : UserSession). not (user_id_from_path u.user == uid)) r.game.user_sessions in
    let gs = record (r.game) {
      user_sessions = users;
      current_participant_count = int32_length users;
    } in
    record {
      members =
          keep (λ (m : PublicMatchMember). not (user_id_from_path m.definition.user == uid))
            r.members;
      game = if is_empty users then terminate gs else gs;
    }

abbrev same_user_session : Bytes → Bytes → Bool
same_user_session user_session name =
    last_resource_segment name == last_resource_segment user_session

-- The game session's part of depart; `raid` says that its configuration is RaidPublic.
unfoldable pub depart_game : Bool → Bytes → GameSession → GameSession
depart_game raid user_session gs =
    let users =
      keep (λ (u : UserSession). not (same_user_session user_session u.name)) gs.user_sessions in
    let host_departed =
      exists (λ (u : UserSession). same_user_session user_session u.name && u.team == text "owner")
        gs.user_sessions in
    let out = record gs { user_sessions = users; current_participant_count = int32_length users } in
    if is_empty users || (host_departed && raid) then terminate out else out

unfoldable pub depart_members : Bytes → List PublicMatchMember → List PublicMatchMember
depart_members user_session members =
    keep (λ (m : PublicMatchMember). not (same_user_session user_session m.user_session)) members

-- A field of the control document counts only if it is a Boolean.
abbrev boolean_or : Option Value → Bool → Bool
boolean_or (some (boolean_value b)) old = b
boolean_or _ old = old

unfoldable pub control_game : MapValue → GameSession → GameSession
control_game controls gs =
    if is_game_active gs.state
    then record gs {
      can_participate = boolean_or (lookup (text "cp") controls) gs.can_participate;
      is_public = boolean_or (lookup (text "ip") controls) gs.is_public;
    }
    else gs
