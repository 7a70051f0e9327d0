-- ===== src/Documents/Token.antt =====
-- gamesync.go and gamesync_store.go: IssueToken. The claims of a match token whose signature
-- verifies and whose payload decodes, the random seed, the peer's address, the latencies in JSON
-- and the signed access token are arguments. The panic of remember_session is `none`.
use pokemon_violet.Base.{
  ℕ, Bool, false, ◌&&◌, ◌||◌, not, Option, none, some, [], ◌∷◌, ◌++◌, if◌then◌else◌, ◌==◌, nat_eq,
  bytes_eq,
}
use pokemon_violet.Base.Dict.{Dict, lookup, insert}
use pokemon_violet.Base.Int.{ℤ, pos, ltb_ℤ, int_eq}
use pokemon_violet.Base.Result.{
  plain, invalid_argument, permission_denied, internal, unauthenticated, Result, err, ok, ◌>>◌,
  guard,
}
use pokemon_violet.Base.Text.{Bytes, text}
use pokemon_violet.TradeBox.Message.{Time}
use pokemon_violet.TradeBox.Server.{last_resource_segment, npln_tenant_id}
use pokemon_violet.Session.Message.{
  MapValue, GameSession, boolean_value, integer_value, string_value, bytes_value, UserSession,
}
use pokemon_violet.Session.Config.{npln_tenant}
use pokemon_violet.Session.Registry.{member}
use pokemon_violet.Session.Matchmaker.{config_of}
use pokemon_violet.Documents.Message.{Document, GamesyncSession}
use pokemon_violet.Documents.Writable.{is_some}
use pokemon_violet.Documents.Expire.{schedule_disconnect}
use pokemon_violet.Documents.Commit.{control_name}
use pokemon_violet.Documents.Server.{GamesyncServer, map_at, KeepUserSessionResponse}
use pokemon_violet.Documents.Join.{remember_session}

pub record GssMatchClaims : Type 0 where
  pub expires : ℤ
  pub issuer : Bytes
  pub subject : Bytes
  pub app_id : Bytes
  pub game_session_id : Bytes
  pub user_session_id : Bytes
  pub tenant_id : Bytes
  pub user_id : Bytes
  pub team : Bytes

-- The checks of verifyGssMatchToken on the claims.
unfoldable pub verify_gss_match_token : Time → Option GssMatchClaims → Result GssMatchClaims
verify_gss_match_token now none = err plain
verify_gss_match_token now (some claims) =
    guard (claims.issuer == text "gss") plain
    >> guard (ltb_ℤ now.seconds claims.expires) plain
    >> guard (not (claims.subject == []) && claims.user_id == claims.subject) plain
    >> guard
        (claims.tenant_id == npln_tenant_id
          && not (claims.game_session_id == [])
          && not (claims.user_session_id == []))
        plain
    >> ok claims

abbrev pub fixed_name : Bytes
fixed_name = text "docs/__gs/f"

abbrev union_circle_or : Bytes → Bytes
union_circle_or config = if config == [] then text "TeamCircle" else config

abbrev fixed_fields : Bytes → GameSession → Bytes → MapValue
fixed_fields config gs seed =
    (text "gsid", string_value (last_resource_segment gs.name))
    ∷ (text "addr", string_value gs.host)
    ∷ (text "p", integer_value gs.port)
    ∷ (text "mcn", string_value config)
    ∷ (text "maxu", integer_value gs.max_participant_count)
    ∷ (text "rs", bytes_value seed)
    ∷ []

abbrev control_fields : GameSession → MapValue
control_fields gs =
    (text "cp", boolean_value gs.can_participate)
    ∷ (text "ip", boolean_value gs.is_public)
    ∷ (text "ebf", boolean_value false)
    ∷ []

abbrev new_document : Bytes → MapValue → Time → Document
new_document name content now = record {
  name = name;
  fields = content;
  create_time = now;
  update_time = now;
}

-- The owner of the control document is the first member, if there is one.
abbrev own_control : GameSession → Dict Bytes Bytes → Dict Bytes Bytes
own_control gs owners = elim gs.user_sessions [
  | [] ↦ owners
  | u ∷ rest ↦ insert control_name (last_resource_segment u.name) owners
]

abbrev pub with_fixed_data : GameSession → Bytes → Time → GamesyncServer → GamesyncServer
with_fixed_data gs seed now g =
    let config = union_circle_or (config_of g.registry gs) in
    record g {
      documents =
          insert gs.name
            (insert fixed_name (new_document fixed_name (fixed_fields config gs seed) now) (
              insert control_name (new_document control_name (control_fields gs) now)
                (map_at gs.name g.documents)))
            g.documents;
      owners = insert gs.name (own_control gs (map_at gs.name g.owners)) g.owners;
    }

-- `seed_size` is the setting of the environment; `seed` is what rand.Read gives for a size, none
-- if it fails.
unfoldable pub initialize_fixed_data :
    ℤ → (ℤ → Option Bytes) → GameSession → Time → GamesyncServer → Result GamesyncServer
initialize_fixed_data seed_size seed gs now g =
    if is_some (lookup fixed_name (map_at gs.name g.documents))
    then ok g
    else if ltb_ℤ seed_size (pos 16) || ltb_ℤ (pos 64) seed_size
    then err plain
    else elim (seed seed_size) [
      | none ↦ err plain
      | some bytes ↦ ok (with_fixed_data gs bytes now g)
    ]

-- dashboardAppID: older match tokens omit the application.
abbrev dashboard_app_id : Bytes → Bytes
dashboard_app_id app_id =
    if app_id == text "0100A3D008C5C000" then app_id else text "01008F6008C5E000"

abbrev pub game_path : GssMatchClaims → Bytes
game_path claims = npln_tenant ++ (text "/gameSessions/" ++ claims.game_session_id)

abbrev pub short_path : GssMatchClaims → Bytes
short_path claims = text "userSessions/" ++ claims.user_session_id

abbrev pub requested_fits : GssMatchClaims → Bytes → Bool
requested_fits claims requested =
    requested == game_path claims ++ (text "/userSessions/" ++ claims.user_session_id)
    || requested == short_path claims

-- The time to live is a constant.
pub record Token : Type 0 where
  pub user_session : Bytes
  pub access_token : Bytes
  pub refresh_token : Bytes

module _ (size : KeepUserSessionResponse → ℕ)
    (mint_session_token : Bytes → Bytes → Bytes → Bytes → Bytes → Bytes)
    (latency_json : Option Bytes → Bytes) (seed_size : ℤ) (seed : ℤ → Option Bytes)
    (ip : Bytes) where
  abbrev joining : GssMatchClaims → Bytes → UserSession → GamesyncSession
  joining claims requested u = record {
    uid = claims.subject;
    app_id = dashboard_app_id claims.app_id;
    ip = ip;
    game_session = game_path claims;
    user_session = requested;
    team = claims.team;
    sequence = pos 0;
    connection = pos 0;
    attributes = u.attributes;
    latency_json = latency_json u.latency_data;
    created_at = none;
  }

  abbrev issued : GssMatchClaims → Bytes → Token
  issued claims requested =
      let token =
        mint_session_token claims.subject npln_tenant (game_path claims) requested claims.app_id in
      record { user_session = requested; access_token = token; refresh_token = token }

  -- From rememberSession on.
  abbrev finish_issue :
      GssMatchClaims → Bytes → Option GamesyncServer → Option (GamesyncServer × Result Token)
  finish_issue claims requested none = none
  finish_issue claims requested (some g) =
      some (schedule_disconnect (last_resource_segment requested) g, ok (issued claims requested))

  -- From the lookup of the membership on.
  abbrev issue_to_member :
      Time → GssMatchClaims → Bytes → GamesyncServer → Option (GamesyncServer × Result Token)
  issue_to_member now claims requested g =
      elim (member g.registry (game_path claims) requested claims.subject) [
        | none ↦ some (g, err permission_denied)
        | some (gs, u) ↦ elim (initialize_fixed_data seed_size seed gs now g) [
          | err c ↦ some (g, err internal)
          | ok with_data ↦
              finish_issue claims requested
                (remember_session size now (joining claims requested u) with_data)
        ]
      ]

  unfoldable pub issue_token :
      Time → Option GssMatchClaims → Bytes → GamesyncServer → Option (GamesyncServer × Result Token)
  issue_token now token requested g = elim (verify_gss_match_token now token) [
    | err c ↦ some (g, err unauthenticated)
    | ok claims ↦
        if requested_fits claims requested
        then issue_to_member now claims requested g
        else some (g, err invalid_argument)
  ]
