-- ===== src/Session/RoomCode.antt =====
-- session_alias.go: the six-character codes of Union Circle rooms. Names are ASCII, where
-- strings.ToUpper maps a to z.
use pokemon_violet.Base.{
  ℕ, zero, suc, ◌+◌, ◌-◌, ◌*◌, ◌/◌, ◌%◌, ◌^◌, Bool, true, ◌&&◌, ◌||◌, not, none, some, [], ◌∷◌,
  ◌++◌, map, ltb, leb, if◌then◌else◌, ◌==◌, nat_eq, bytes_eq, length, get_or, exists,
}
use pokemon_violet.Base.Dict.{Dict, lookup, delete, insert}
use pokemon_violet.Base.Int.{pos, ◌+ℤ◌, ltb_ℤ, int_eq}
use pokemon_violet.Base.Result.{invalid_argument, not_found, permission_denied, Result, err, ok}
use pokemon_violet.Base.Text.{Bytes, text}
use pokemon_violet.TradeBox.Message.{Time}
use pokemon_violet.TradeBox.Server.{last_resource_segment}
use pokemon_violet.Session.Message.{is_game_active}
use pokemon_violet.Session.Config.{npln_tenant, valid_session_name}
use pokemon_violet.Session.Room.{session_has_uid}
use pokemon_violet.Session.Matchmaker.{Matchmaker}
use pokemon_violet.Session.Registry.{game_of}

abbrev pub violet_alias_alphabet : Bytes
violet_alias_alphabet = text "ABCDEFGHJKLMNPQRSTUVWXYZ23456789"

-- a ^ b on as many bits as the first argument says
unfoldable pub xor_bits : ℕ → ℕ → ℕ → ℕ
xor_bits zero a b = 0
xor_bits (suc k) a b = (a % 2 + b % 2) % 2 + 2 * xor_bits k (a / 2) (b / 2)

-- One round of the hash, in uint64.
unfoldable pub hash_byte : ℕ → ℕ → ℕ
hash_byte hash b = (xor_bits 64 hash b * 1099511628211) % 2 ^ 64

unfoldable pub hash_bytes : ℕ → Bytes → ℕ
hash_bytes hash [] = hash
hash_bytes hash (b ∷ s) = hash_bytes (hash_byte hash b) s

unfoldable pub code_chars : ℕ → ℕ → Bytes
code_chars zero hash = []
code_chars (suc n) hash = get_or violet_alias_alphabet (hash % 32) 0 ∷ code_chars n (hash / 32)

unfoldable pub violet_room_code : Bytes → Bytes
violet_room_code game_session =
    code_chars 6 (hash_bytes 14695981039346656037 (last_resource_segment game_session))

abbrev pub in_alphabet : ℕ → Bool
in_alphabet c = exists (λ b. b == c) violet_alias_alphabet

unfoldable pub all_in_alphabet : Bytes → Bool
all_in_alphabet [] = true
all_in_alphabet (c ∷ s) = in_alphabet c && all_in_alphabet s

unfoldable pub valid_violet_room_code : Bytes → Bool
valid_violet_room_code code = length code == 6 && all_in_alphabet code

pub record GameSessionShortAlias : Type 0 where
  pub name : Bytes
  pub game_session : Bytes
  pub expire_time : Time

abbrev pub to_upper : ℕ → ℕ
to_upper c = if leb b'a' c && leb c b'z' then c - 32 else c

-- t.Before(u)
abbrev pub before_time : Time → Time → Bool
before_time t u = ltb_ℤ t.seconds u.seconds || (t.seconds == u.seconds && ltb t.nanos u.nanos)

abbrev pub alias_path : Bytes → Bytes
alias_path code = npln_tenant ++ (text "/GameSessionShortAliases/" ++ code)

abbrev pub Aliases : Type 0
Aliases = Dict Bytes GameSessionShortAlias

-- CreateGameSessionShortAlias after authentication; the matchmaker holds the registry.
unfoldable pub create_short_alias :
    Matchmaker → Aliases → Bytes → Bytes → Time → Aliases × Result GameSessionShortAlias
create_short_alias m aliases uid game_session now = elim (game_of m game_session) [
  | none ↦ (
    aliases,
    err (if valid_session_name game_session then permission_denied else invalid_argument),
  )
  | some (g, gs) ↦
      let code = violet_room_code gs.name in
      let alias : GameSessionShortAlias = record {
        name = alias_path code;
        game_session = gs.name;
        expire_time = record now { seconds = now.seconds +ℤ pos 3600 };
      } in
      if not (valid_session_name game_session)
      then (aliases, err invalid_argument)
      else if not (session_has_uid gs uid)
      then (aliases, err permission_denied)
      else (insert code alias aliases, ok alias)
]

-- GetGameSessionShortAlias after authentication
unfoldable pub get_short_alias :
    Matchmaker → Aliases → Bytes → Time → Aliases × Result GameSessionShortAlias
get_short_alias m aliases name now =
    let code = map to_upper (last_resource_segment name) in
    let found : Aliases × Result GameSessionShortAlias = elim (lookup code aliases) [
      | none ↦ (delete code aliases, err not_found)
      | some alias ↦
          let opened : Aliases × Result GameSessionShortAlias =
            elim (game_of m alias.game_session) [
              | none ↦ (delete code aliases, err not_found)
              | some (g, gs) ↦
                  if is_game_active gs.state
                  then (aliases, ok alias)
                  else (delete code aliases, err not_found)
            ] in
          if before_time alias.expire_time now then (delete code aliases, err not_found) else opened
    ] in
    if not (valid_violet_room_code code) then (aliases, err invalid_argument) else found
