-- ===== src/Session/AliasCalls.antt =====
-- session_alias.go: what the calls of the two handlers leave of an alias.
use pokemon_violet.Base.{
  ℕ, ◌≡◌, refl, ap, ◌∙◌, ◌≢◌, ◌⊎◌, inl, inr, true, false, some, List, [], ◌∷◌, map, arith,
  Bool-cases, Option-cases, ◌==◌, ==_iff, nat_eq, bytes_eq,
}
use pokemon_violet.Base.Dict.{lookup, delete, lookup-insert_ne, lookup-delete_ne}
use pokemon_violet.Base.Int.{int_eq}
use pokemon_violet.Base.Result.{Result, ok}
use pokemon_violet.Base.Text.{Bytes}
use pokemon_violet.TradeBox.Message.{Time}
use pokemon_violet.TradeBox.Server.{last_resource_segment}
use pokemon_violet.Session.Message.{is_game_active, GameSession}
use pokemon_violet.Session.Config.{valid_session_name}
use pokemon_violet.Session.Room.{session_has_uid}
use pokemon_violet.Session.Matchmaker.{Matchmaker}
use pokemon_violet.Session.Registry.{game_of}
use pokemon_violet.Session.RoomCode.{
  violet_room_code, valid_violet_room_code, GameSessionShortAlias, to_upper, before_time, Aliases,
  create_short_alias, get_short_alias,
}

bytes-cases : (a b : Bytes) → (a ≡ b) ⊎ (a ≢ b)
bytes-cases a b = elim (Bool-cases (a == b)) [
  | inl same ↦ inl ((==_iff a b).0 same)
  | inr other ↦ inr (λ e. let here = (==_iff a b).1 e in ground (arith, here, other))
]

-- The calls of the two handlers, each with the matchmaker and the time that it meets.
pub data AliasCall : Type 0 where
  creates : Matchmaker → Bytes → Bytes → Time → AliasCall
  gets : Matchmaker → Bytes → Time → AliasCall

unfoldable pub alias_step : AliasCall → Aliases → Aliases
alias_step (creates m uid game_session now) aliases =
    (create_short_alias m aliases uid game_session now).0
alias_step (gets m name now) aliases = (get_short_alias m aliases name now).0

unfoldable pub alias_run : List AliasCall → Aliases → Aliases
alias_run [] aliases = aliases
alias_run (call ∷ calls) aliases = alias_run calls (alias_step call aliases)

-- The alias has not expired and its room is active.
abbrev pub Open : GameSessionShortAlias → Matchmaker → Time → Type 0
Open alias m now =
    (before_time alias.expire_time now ≡ false)
    × ((g : ℕ) × (gs : GameSession) × (game_of m alias.game_session ≡ some (g, gs))
        × (is_game_active gs.state ≡ true))

-- A create for a room with another code, and a lookup of another code or of an open alias.
abbrev pub Spares : GameSessionShortAlias → AliasCall → Type 0
Spares alias (creates m uid game_session now) =
    (g : ℕ) (gs : GameSession)
    → game_of m game_session ≡ some (g, gs)
    → violet_room_code gs.name ≢ violet_room_code alias.game_session
Spares alias (gets m name now) =
    (map to_upper (last_resource_segment name) ≢ violet_room_code alias.game_session)
    ⊎ Open alias m now

abbrev pub AllSpare : GameSessionShortAlias → List AliasCall → Type 0
AllSpare alias [] = Unit
AllSpare alias (call ∷ calls) = Spares alias call × AllSpare alias calls

-- A create writes at most the entry of its room's code.
create-other :
    (m : Matchmaker) (aliases : Aliases) (uid game_session : Bytes) (now : Time) (code : Bytes)
    → ((g : ℕ) (gs : GameSession)
        → game_of m game_session ≡ some (g, gs)
        → violet_room_code gs.name ≢ code)
    → lookup code (create_short_alias m aliases uid game_session now).0 ≡ lookup code aliases
unfolding create_short_alias
create-other m aliases uid game_session now code other =
    elim (Option-cases (game_of m game_session)) [
      | inl missing ↦ rw (missing, create_short_alias) refl
      | inr ((g, gs), there) ↦ elim (Bool-cases (valid_session_name game_session)) [
        | inr bad ↦ rw (there, create_short_alias) (rw bad refl)
        | inl named_well ↦ elim (Bool-cases (session_has_uid gs uid)) [
          | inr stranger ↦ rw (there, create_short_alias) (rw named_well (rw stranger refl))
          | inl inside ↦
              rw (there, create_short_alias)
                (rw named_well (
                  rw inside (
                    lookup-insert_ne (violet_room_code gs.name) code _ aliases (other g gs there))))
        ]
      ]
    ]

-- A lookup drops at most the entry of its code.
get-other :
    (m : Matchmaker) (aliases : Aliases) (name : Bytes) (now : Time) (code : Bytes)
    → map to_upper (last_resource_segment name) ≢ code
    → lookup code (get_short_alias m aliases name now).0 ≡ lookup code aliases
unfolding get_short_alias
get-other m aliases name now code other =
    let mine = map to_upper (last_resource_segment name) in
    let dropped : lookup code (delete mine aliases) ≡ lookup code aliases =
      lookup-delete_ne mine code aliases other in
    elim (Bool-cases (valid_violet_room_code mine)) [
      | inr bad ↦ rw (bad, get_short_alias) refl
      | inl good ↦ elim (Option-cases (lookup mine aliases)) [
        | inl none_there ↦ rw (good, get_short_alias) (rw none_there dropped)
        | inr (alias, found) ↦ elim (Bool-cases (before_time alias.expire_time now)) [
          | inl late ↦ rw (good, get_short_alias) (rw found (rw late dropped))
          | inr fresh ↦ elim (Option-cases (game_of m alias.game_session)) [
            | inl gone ↦ rw (good, get_short_alias) (rw found (rw fresh (rw gone dropped)))
            | inr ((g, gs), there) ↦ elim (Bool-cases (is_game_active gs.state)) [
              | inl active ↦
                  rw (good, get_short_alias) (rw found (rw fresh (rw there (rw active refl))))
              | inr over ↦
                  rw (good, get_short_alias) (rw found (rw fresh (rw there (rw over dropped))))
            ]
          ]
        ]
      ]
    ]

-- A lookup of the code of an open alias gives it and changes nothing.
pub get-Open :
    (m : Matchmaker) (aliases : Aliases) (name : Bytes) (now : Time) (code : Bytes)
    (alias : GameSessionShortAlias)
    → map to_upper (last_resource_segment name) ≡ code
    → valid_violet_room_code code ≡ true
    → lookup code aliases ≡ some alias
    → Open alias m now
    → get_short_alias m aliases name now ≡ (aliases, ok alias)
unfolding get_short_alias
get-Open m aliases name now code alias upper good found (fresh, (g, gs, there, active)) =
    rw (upper, get_short_alias) (rw good (rw found (rw fresh (rw there (rw active refl)))))

pub spared :
    (calls : List AliasCall) (aliases : Aliases) (alias : GameSessionShortAlias)
    → valid_violet_room_code (violet_room_code alias.game_session) ≡ true
    → AllSpare alias calls
    → lookup (violet_room_code alias.game_session) aliases ≡ some alias
    → lookup (violet_room_code alias.game_session) (alias_run calls aliases) ≡ some alias
unfolding alias_run alias_step
spared [] aliases alias good all found = found
spared (creates m uid game_session now ∷ calls) aliases alias good (spare, all) found =
    spared calls _ alias good all (
      create-other m aliases uid game_session now (violet_room_code alias.game_session) spare
      ∙ found)
spared (gets m name now ∷ calls) aliases alias good (inl other, all) found =
    spared calls _ alias good all
      (get-other m aliases name now (violet_room_code alias.game_session) other ∙ found)
spared (gets m name now ∷ calls) aliases alias good (inr open_one, all) found =
    let code = violet_room_code alias.game_session in
    elim (bytes-cases (map to_upper (last_resource_segment name)) code) [
      | inr other ↦ spared calls _ alias good all (get-other m aliases name now code other ∙ found)
      | inl same ↦
          let got = get-Open m aliases name now code alias same good found open_one in
          spared calls _ alias good all
            (ap (λ (x : Aliases × Result GameSessionShortAlias). lookup code x.0) got ∙ found)
    ]
