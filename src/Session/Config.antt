-- ===== src/Session/Config.antt =====
-- matchmaking.go and session_service.go: resource names, configurations, pools and capacities.
use pokemon_violet.Base.{
  Bool, false, ◌&&◌, ◌||◌, not, Option, some, List, [], ◌∷◌, ◌++◌, if◌then◌else◌, ◌==◌, nat_eq,
  bytes_eq, length, drop, exists,
}
use pokemon_violet.Base.Dict.{lookup}
use pokemon_violet.Base.Int.{ℤ, pos, ltb_ℤ, int_eq, wrap32}
use pokemon_violet.Base.Result.{invalid_argument, permission_denied, unimplemented, Result, err, ok}
use pokemon_violet.Base.Text.{Bytes, text, has_prefix}
use pokemon_violet.TradeBox.Server.{last_resource_segment, npln_tenant_id}
use pokemon_violet.Session.Message.{
  Value, UserDefinition, MatchmakingTicket, integer_value, string_value,
}

abbrev pub npln_tenant : Bytes
npln_tenant = text "tenants/" ++ npln_tenant_id

unfoldable pub concrete_resource : Bytes → Bytes → Bytes
concrete_resource collection name =
    if name == []
    then []
    else npln_tenant ++ (47 ∷ (collection ++ (47 ∷ last_resource_segment name)))

-- nplnTenant + "/users/" + uid
unfoldable pub user_path : Bytes → Bytes
user_path uid = npln_tenant ++ (text "/users/" ++ uid)

abbrev pub user_id_from_path : Bytes → Bytes
user_id_from_path = last_resource_segment

unfoldable pub violet_pair_config : Bytes → Bool
violet_pair_config config =
    let name = last_resource_segment config in
    name == text "BoxTrade"
    || name == text "NbrSingle"
    || name == text "CasualBattle"
    || name == text "RankBattle"
    || name == text "Competition"

unfoldable pub violet_coded_config : Bytes → Bool
violet_coded_config config =
    violet_pair_config config || last_resource_segment config == text "NbrMulti"

unfoldable pub validate_violet_matchmaking_config : Bytes → Result (Unit {0})
validate_violet_matchmaking_config config =
    let name = last_resource_segment config in
    if not (name == text "TeamCircle")
      && not (name == text "RaidPublic")
      && not (name == text "RaidPrivate")
      && not (violet_coded_config config)
    then err unimplemented
    else ok tt

unfoldable pub validate_caller_definitions : List UserDefinition → Bytes → Result (Unit {0})
validate_caller_definitions (d ∷ []) uid =
    let u = last_resource_segment d.user in
    if not (u == []) && not (u == text "current") && not (u == uid)
    then err permission_denied
    else ok tt
validate_caller_definitions _ uid = err invalid_argument

unfoldable pub ticket_owned_by : List UserDefinition → Bytes → Bool
ticket_owned_by (d ∷ []) uid = last_resource_segment d.user == uid
ticket_owned_by _ uid = false

-- GetStringValue and GetIntegerValue of a field that may be missing.
abbrev string_of : Option Value → Bytes
string_of (some (string_value s)) = s
string_of _ = []

abbrev integer_of : Option Value → ℤ
integer_of (some (integer_value n)) = n
integer_of _ = pos 0

-- `decimal` is fmt's "%d".
unfoldable pub public_match_pool_key : (ℤ → Bytes) → MatchmakingTicket → Bytes
public_match_pool_key decimal t = elim t.user_definitions [
  | [] ↦ t.matchmaking_config
  | d ∷ rest ↦
      if last_resource_segment t.matchmaking_config == text "CasualBattle"
      then t.matchmaking_config
        ++ (0 ∷ (text "mode=" ++ decimal (integer_of (lookup (text "mode") d.attributes))))
      else if violet_coded_config t.matchmaking_config
      then t.matchmaking_config ++ (0 ∷ string_of (lookup (text "password") d.attributes))
      else t.matchmaking_config
]

-- `configured` is NPLN_MATCH_MAX_PARTICIPANTS as envInt reads it, 0 without a positive number.
unfoldable pub public_match_capacity : ℤ → Bytes → ℤ
public_match_capacity configured config =
    if last_resource_segment config == text "NbrMulti"
    then pos 4
    else if violet_pair_config config
    then pos 2
    else if ltb_ℤ (pos 0) configured
    then wrap32 configured
    else pos 4

unfoldable pub include_matchmaking_id_token : List Bytes → Bytes → Bytes → Bool
include_matchmaking_id_token include_users definition_user caller_uid =
    exists
      (λ include_user.
        include_user == definition_user
        || last_resource_segment include_user == user_id_from_path definition_user
        || (last_resource_segment include_user == text "current"
            && user_id_from_path definition_user == caller_uid))
      include_users

-- validSessionName
abbrev valid_id : Bytes → Bool
valid_id id =
    not (id == [])
    && not (id == text ".")
    && not (id == text "..")
    && not (exists (λ c. c == 47) id)

unfoldable pub valid_session_name : Bytes → Bool
valid_session_name name =
    let canonical = npln_tenant ++ text "/gameSessions/" in
    let current = text "tenants/current/gameSessions/" in
    if has_prefix name canonical
    then valid_id (drop (length canonical) name)
    else if has_prefix name current
    then valid_id (drop (length current) name)
    else false
