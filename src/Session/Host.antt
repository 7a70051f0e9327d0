-- ===== src/Session/Host.antt =====
-- matchmaking.go: the raid room that a ticket joins.
use pokemon_violet.Base.{
  ℕ, suc, ◌≡◌, refl, ap, ◌∙◌, ◌⊎◌, inl, inr, true, false, ◌&&◌, none, some, List, [], ◌∷◌, map,
  arith, Bool-cases, Option-cases, ◌==◌, ==_iff, nat_eq, bytes_eq, length, get_elem?, exists,
  get_elem?-append_last,
}
use pokemon_violet.Base.Dict.{lookup}
use pokemon_violet.Base.Int.{◌+ℤ◌, ltb_ℤ, int_eq, wrap32}
use pokemon_violet.Base.Text.{Bytes, text}
use pokemon_violet.Session.Config.{public_match_pool_key}
use pokemon_violet.Session.Message.{
  GameSession, UserSession, MatchmakingTicket, is_user_active, is_game_active,
}
use pokemon_violet.Session.Room.{session_has_uid}
use pokemon_violet.Session.Matchmaker.{
  Matchmaker, PublicMatchSession, Settings, room_at, config_of, required_of,
}
use pokemon_violet.Session.Raid.{
  raid_open, pool_room, select_raid, raid_matches_selection, member_of,
}

-- Where a listed room is pooled, its pooled session stands for that room.
abbrev pub PooledRight : Matchmaker → List (Bytes × ℕ) → Type 0
PooledRight m [] = Unit
PooledRight m ((id, g) ∷ rest) =
    ((p : ℕ)
      → lookup id m.pooled ≡ some p
      → (session : PublicMatchSession) × (get_elem? m.publics p ≡ some session)
        × (session.game_session ≡ g))
    × PooledRight m rest

-- An active user session of the team "owner".
abbrev pub Hosted : GameSession → Type 0
Hosted gs =
    (i : ℕ) × (u : UserSession) × (get_elem? gs.user_sessions i ≡ some u)
    × (is_user_active u.state ≡ true)
    × (u.team ≡ text "owner")

-- What a raid room must be for the ticket and its caller.
abbrev pub Joinable : Settings → Matchmaker → MatchmakingTicket → Bytes → GameSession → Type 0
Joinable e m t caller_uid gs =
    (config_of m gs ≡ text "RaidPublic")
    × (gs.is_public ≡ true)
    × (is_game_active gs.state ≡ true)
    × (gs.can_participate ≡ true)
    × (ltb_ℤ gs.max_participant_count (wrap32 (gs.current_participant_count +ℤ required_of t))
        ≡ false)
    × (session_has_uid gs caller_uid ≡ false)
    × Hosted gs
    × (raid_matches_selection e t gs ≡ true)

found_owner :
    (us : List UserSession)
    → exists (λ (u : UserSession). is_user_active u.state && u.team == text "owner") us ≡ true
    → (i : ℕ) × (u : UserSession) × (get_elem? us i ≡ some u)
      × (is_user_active u.state ≡ true)
      × (u.team ≡ text "owner")
found_owner [] found = cc
found_owner (u ∷ us) found = elim (Bool-cases (is_user_active u.state && u.team == text "owner")) [
  | inl host ↦
      (0, u, refl, ground (arith, host), (==_iff u.team (text "owner")).0 (ground (arith, host)))
  | inr guest ↦
      let (i, w, at, live, team) = found_owner us (ground (arith, found, guest)) in
      (suc i, w, at, live, team)
]

raid_open-Joinable :
    (e : Settings) (m : Matchmaker) (t : MatchmakingTicket) (caller_uid : Bytes) (gs : GameSession)
    → raid_open e m t caller_uid gs ≡ true
    → Joinable e m t caller_uid gs
unfolding raid_open
raid_open-Joinable e m t caller_uid gs good = (
  (==_iff (config_of m gs) (text "RaidPublic")).0 (ground (arith, good)),
  ground (arith, good),
  ground (arith, good),
  ground (arith, good),
  ground (arith, good),
  ground (arith, good),
  found_owner gs.user_sessions (ground (arith, good)),
  ground (arith, good),
)

-- The pooled session that a chosen room gets leads to that room, in the same game sessions.
pool_room-leads :
    (m : Matchmaker) (key id : Bytes) (g : ℕ) (gs : GameSession)
    → ((p : ℕ)
        → lookup id m.pooled ≡ some p
        → (session : PublicMatchSession) × (get_elem? m.publics p ≡ some session)
          × (session.game_session ≡ g))
    → get_elem? m.games g ≡ some gs
    → let (n, found) = pool_room m key id g gs in
      (n.games ≡ m.games)
      × (n.tickets ≡ m.tickets)
      × (n.sessions ≡ m.sessions)
      × ((p : ℕ) × (session : PublicMatchSession) × (found ≡ some p)
          × (room_at n p ≡ some (session, gs)))
unfolding pool_room room_at
pool_room-leads m key id g gs right there = elim (Option-cases (lookup id m.pooled)) [
  | inr (p, pooled) ↦
      let (session, at, same) = right p pooled in
      let here : get_elem? m.games session.game_session ≡ some gs =
        ap (get_elem? m.games) same ∙ there in
      rw (pooled, pool_room) (refl, refl, refl, (p, session, refl, rw (at, room_at) (rw here refl)))
  | inl unpooled ↦
      let made : PublicMatchSession = record {
        pool_key = key;
        game_session = g;
        members = map member_of gs.user_sessions;
      } in
      rw (unpooled, pool_room)
        (
          refl,
          refl,
          refl,
          (
            length m.publics,
            made,
            refl,
            rw (get_elem?-append_last m.publics made, room_at) (rw there refl),
          ),
        )
]

-- A search for a raid changes no game session and no ticket, and either finds nothing and changes
-- nothing, or finds a pooled session that leads to a public, active and open raid room, with an
-- active host, with vacancy for the ticket's users, without the caller, and within the ticket's
-- selection. The pooled sessions of the listed rooms are taken to stand for those rooms.
pub raid_joins_host :
    (e : Settings) (m : Matchmaker) (t : MatchmakingTicket) (caller_uid : Bytes)
    (rooms : List (Bytes × ℕ))
    → PooledRight m rooms
    → let (n, found) = select_raid e m t caller_uid rooms in
      (n.games ≡ m.games)
      × (n.tickets ≡ m.tickets)
      × (n.sessions ≡ m.sessions)
      × (((found ≡ none) × (n ≡ m))
          ⊎ ((p : ℕ) × (session : PublicMatchSession) × (gs : GameSession) × (found ≡ some p)
              × (room_at n p ≡ some (session, gs))
              × Joinable e m t caller_uid gs))
unfolding select_raid
raid_joins_host e m t caller_uid [] right = (refl, refl, refl, inl (refl, refl))
raid_joins_host e m t caller_uid ((id, g) ∷ rest) (right, others) =
    let later = raid_joins_host e m t caller_uid rest others in
    elim (Option-cases (get_elem? m.games g)) [
      | inl dangling ↦ rw (dangling, select_raid) later
      | inr (gs, there) ↦ elim (Bool-cases (raid_open e m t caller_uid gs)) [
        | inr shut ↦ rw (there, select_raid) (rw shut later)
        | inl chosen ↦
            let (games, tickets, sessions, (p, session, found, leads)) =
              pool_room-leads m (public_match_pool_key e.decimal t) id g gs right there in
            rw (there, select_raid)
              (rw chosen (
                games,
                tickets,
                sessions,
                inr (p, session, gs, found, leads, raid_open-Joinable e m t caller_uid gs chosen),
              ))
      ]
    ]
