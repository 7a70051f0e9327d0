-- ===== src/Session/Choice.antt =====
-- matchmaking.go: which room a ticket gets.
use pokemon_violet.Base.{
  ℕ, ◌≡◌, refl, sym, ◌∙◌, ◌⊎◌, inl, inr, Bool, true, ◌&&◌, some, List, [], ◌∷◌, arith, Bool-cases,
  Option-cases,
}
use pokemon_violet.Base.Text.{Bytes}
use pokemon_violet.Session.Message.{GameSession, MatchmakingTicket, is_game_active}
use pokemon_violet.Session.Config.{public_match_pool_key}
use pokemon_violet.Session.Room.{public_match_has_uid}
use pokemon_violet.Session.Matchmaker.{
  Matchmaker, Matchmaker, PublicMatchSession, Settings, room_at, pool_of, has_vacancy, find_session,
  required_of, select_pool_session,
}

-- A search that finds a position found a room there that passes the test.
find_session-good :
    (m : Matchmaker) (good : PublicMatchSession → GameSession → Bool) (ps : List ℕ) (p : ℕ)
    → find_session m good ps ≡ some p
    → (session : PublicMatchSession) × (gs : GameSession) × (room_at m p ≡ some (session, gs))
      × (good session gs ≡ true)
unfolding find_session
find_session-good m good [] p found = cc
find_session-good m good (q ∷ ps) p found = elim (Option-cases (room_at m q)) [
  | inl dangling ↦ find_session-good m good ps p (
      sym (
        let e : find_session m good (q ∷ ps) ≡ find_session m good ps =
          rw (dangling, find_session) refl in
        e)
      ∙ found)
  | inr ((session, gs), there) ↦ elim (Bool-cases (good session gs)) [
    | inl passes ↦
        let e : find_session m good (q ∷ ps) ≡ some q = rw (there, find_session) (rw passes refl) in
        let same : q ≡ p = let e' : some q ≡ some p = sym e ∙ found in cc in
        (session, gs, rw⁻¹ same there, passes)
    | inr fails ↦
        let e : find_session m good (q ∷ ps) ≡ find_session m good ps =
          rw (there, find_session) (rw fails refl) in
        find_session-good m good ps p (sym e ∙ found)
  ]
]

-- A session that is chosen from a pool is active and open, and either the caller is in it already
-- or it has room for the ticket's users.
pub selected_open :
    (e : Settings) (m : Matchmaker) (t : MatchmakingTicket) (caller_uid : Bytes) (p : ℕ)
    → select_pool_session e m t caller_uid ≡ some p
    → (session : PublicMatchSession) × (gs : GameSession) × (room_at m p ≡ some (session, gs))
      × (is_game_active gs.state ≡ true)
      × (gs.can_participate ≡ true)
      × ((public_match_has_uid session.members caller_uid ≡ true)
          ⊎ (has_vacancy (required_of t) gs ≡ true))
unfolding select_pool_session
selected_open e m t caller_uid p found =
    let ps = pool_of (public_match_pool_key e.decimal t) m in
    let open_room : GameSession → Bool = λ gs. is_game_active gs.state && gs.can_participate in
    let mine : PublicMatchSession → GameSession → Bool =
      λ session gs. open_room gs && public_match_has_uid session.members caller_uid in
    elim (Option-cases (find_session m mine ps)) [
      | inr (q, there) ↦
          let step : select_pool_session e m t caller_uid ≡ some q =
            rw (there, select_pool_session) refl in
          let same : q ≡ p = let e' : some q ≡ some p = sym step ∙ found in cc in
          let (session, gs, at, good) = find_session-good m mine ps q there in
          (
            session,
            gs,
            rw⁻¹ same at,
            ground (arith, good),
            ground (arith, good),
            inl (ground (arith, good)),
          )
      | inl none_mine ↦
          let fits : PublicMatchSession → GameSession → Bool =
            λ session gs. open_room gs && has_vacancy (required_of t) gs in
          let step : select_pool_session e m t caller_uid ≡ find_session m fits ps =
            rw (none_mine, select_pool_session) refl in
          let (session, gs, at, good) = find_session-good m fits ps p (sym step ∙ found) in
          (session, gs, at, ground (arith, good), ground (arith, good), inr (ground (arith, good)))
    ]
