-- ===== src/Session/Access.antt =====
-- session_service.go: who may read a room and who may join it.
use pokemon_violet.Base.{
  ℕ, ◌≡◌, refl, ◌⊎◌, inl, inr, true, false, ◌&&◌, ◌||◌, not, Option, some, List, [], arith,
  Bool-cases, Option-cases, ◌==◌, ==_iff, nat_eq, bytes_eq,
}
use pokemon_violet.Base.Int.{ltb_ℤ, int_eq}
use pokemon_violet.Base.Result.{Result-cases}
use pokemon_violet.Base.Text.{Bytes}
use pokemon_violet.TradeBox.Message.{Time}
use pokemon_violet.Session.Message.{GameSession, is_game_active}
use pokemon_violet.Session.Config.{valid_session_name, validate_caller_definitions}
use pokemon_violet.Session.Room.{session_has_uid}
use pokemon_violet.Session.Matchmaker.{Settings, Matchmaker}
use pokemon_violet.Session.Registry.{game_of}
use pokemon_violet.Session.Service.{JoinGameSessionRequest, join_game_session}

password_fits :
    (own given : Bytes)
    → (not (own == []) && not (own == given)) ≡ false
    → (own ≡ []) ⊎ (own ≡ given)
password_fits own given right = elim (Bool-cases (own == [])) [
  | inl empty ↦ inl ((==_iff own []).0 empty)
  | inr locked ↦
      let fits : (own == given) ≡ true = ground (arith, locked, right) in
      inr ((==_iff own given).0 fits)
]

-- A join changes the server only if the room is there, active, open and not full, the caller is not
-- an active member already, and the password is the room's, where it has one.
pub join_changes_guarded :
    (e : Settings) (m : Matchmaker) (uid : Bytes) (req : JoinGameSessionRequest) (stamp : Bytes)
    (ids : List (Option Bytes)) (now : Time)
    → ((join_game_session e m uid req stamp ids now).0 ≡ m)
      ⊎ ((g : ℕ) × (gs : GameSession) × (game_of m req.name ≡ some (g, gs))
          × (is_game_active gs.state ≡ true)
          × (session_has_uid gs uid ≡ false)
          × ((gs.password ≡ []) ⊎ (gs.password ≡ req.password))
          × (gs.can_participate ≡ true)
          × (ltb_ℤ gs.current_participant_count gs.max_participant_count ≡ true))
unfolding join_game_session
join_changes_guarded e m uid req stamp ids now = elim (Bool-cases (valid_session_name req.name)) [
  | inr bad ↦ inl (rw bad refl)
  | inl fine ↦ elim (Result-cases (validate_caller_definitions req.user_definitions uid)) [
    | inl (c, foreign) ↦ inl (rw (foreign, join_game_session) (rw fine refl))
    | inr (u, own) ↦ elim (Option-cases (game_of m req.name)) [
      | inl missing ↦
          inl (rw (own, join_game_session) (rw fine (rw (missing, join_game_session) refl)))
      | inr ((g, gs), there) ↦ elim (Bool-cases (is_game_active gs.state)) [
        | inr over ↦ inl (rw (own, join_game_session) (rw fine (rw there (rw over refl))))
        | inl active ↦ elim (Bool-cases (session_has_uid gs uid)) [
          | inl inside ↦
              inl (rw (own, join_game_session) (rw fine (rw there (rw active (rw inside refl)))))
          | inr outside ↦
              elim (Bool-cases (not (gs.password == []) && not (gs.password == req.password))) [
                | inl wrong ↦ inl (
                    rw (own, join_game_session)
                      (rw fine (rw there (rw active (rw outside (rw wrong refl))))))
                | inr right ↦
                    elim (Bool-cases (
                      not gs.can_participate
                      || not (ltb_ℤ gs.current_participant_count gs.max_participant_count))) [
                        | inl shut ↦ inl (
                            rw (own, join_game_session)
                              (rw fine
                                (rw there (rw active (rw outside (rw right (rw shut refl)))))))
                        | inr free ↦ inr (
                          g,
                          gs,
                          there,
                          active,
                          outside,
                          password_fits gs.password req.password right,
                          ground (arith, free),
                          ground (arith, free),
                        )
                      ]
              ]
        ]
      ]
    ]
  ]
]
