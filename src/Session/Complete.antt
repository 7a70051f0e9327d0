-- ===== src/Session/Complete.antt =====
-- matchmaking.go: what completeMatchmakingTicket answers.
use pokemon_violet.Base.{
  ℕ, zero, suc, ◌≡◌, refl, sym, ap, ◌∙◌, ◌≢◌, inl, inr, true, false, ◌||◌, not, Option, none, some,
  List, [], ◌∷◌, arith, Bool-cases, Option-cases, ◌==◌, nat_eq, bytes_eq, get_elem?, set,
}
use pokemon_violet.Base.Dict.{lookup, insert, lookup-insert_self}
use pokemon_violet.Base.Int.{ltb_ℤ, int_eq}
use pokemon_violet.Base.Text.{Bytes, text}
use pokemon_violet.TradeBox.Message.{Time}
use pokemon_violet.TradeBox.Server.{last_resource_segment}
use pokemon_violet.Session.Message.{
  GameSession, succeeded, MatchmakingTicket, searching, is_game_active,
}
use pokemon_violet.Session.Config.{violet_coded_config, public_match_capacity}
use pokemon_violet.Session.Room.{Room, add_public_match_members, public_match_has_uid}
use pokemon_violet.Session.Matchmaker.{Settings, PublicMatchSession, Matchmaker, room_at, put_room}
use pokemon_violet.Session.Ticket.{
  pending, public_match_response, answer_ticket, place_ticket, caller_or_first,
  complete_matchmaking_ticket,
}
use pokemon_violet.Session.Raid.{select_public_match_session}

set_there {ℓ} :
    {A : Type ℓ} (xs : List A) (i : ℕ) (x v : A)
    → get_elem? xs i ≡ some x
    → get_elem? (set xs i v) i ≡ some v
set_there [] i x v at = cc
set_there (y ∷ xs) zero x v at = refl
set_there (y ∷ xs) (suc i) x v at = set_there xs i x v at

room_at-parts :
    (m : Matchmaker) (p : ℕ) (session : PublicMatchSession) (gs : GameSession)
    → room_at m p ≡ some (session, gs)
    → (get_elem? m.publics p ≡ some session) × (get_elem? m.games session.game_session ≡ some gs)
unfolding room_at
room_at-parts m p session gs there = elim (Option-cases (get_elem? m.publics p)) [
  | inl missing ↦ ground arith
  | inr (s, at) ↦ elim (Option-cases (get_elem? m.games s.game_session)) [
    | inl missing ↦ ground arith
    | inr (g, at') ↦
        let e : room_at m p ≡ some (s, g) = rw (at, room_at) (rw at' refl) in
        let q : some (s, g) ≡ some (session, gs) = sym e ∙ there in
        let same : s ≡ session = cc in
        let same' : g ≡ gs = cc in (rw⁻¹ same at, rw⁻¹ same (rw⁻¹ same' at'))
  ]
]

room_at-put :
    (m : Matchmaker) (p : ℕ) (session : PublicMatchSession) (gs : GameSession) (r : Room)
    → room_at m p ≡ some (session, gs)
    → room_at (put_room m p session r) p ≡ some (record session { members = r.members }, r.game)
unfolding room_at put_room
room_at-put m p session gs r there =
    let (at, at') = room_at-parts m p session gs there in
    let at_p : get_elem? (set m.publics p (record session { members = r.members })) p
        ≡ some (record session { members = r.members }) =
      set_there m.publics p session _ at in
    let at_g : get_elem? (set m.games session.game_session r.game) session.game_session
        ≡ some r.game =
      set_there m.games session.game_session gs _ at' in
    rw (at_p, room_at) (rw at_g refl)

-- The ticket's room is full and closed.
abbrev pub ClosedFull : Settings → Matchmaker → MatchmakingTicket → ℕ → Type 0
ClosedFull e m stored p =
    (session : PublicMatchSession) × (gs : GameSession) × (room_at m p ≡ some (session, gs))
    × (gs.can_participate ≡ false)
    × (ltb_ℤ gs.current_participant_count
          (public_match_capacity e.max_participants stored.matchmaking_config)
        ≡ false)

pending-unfinished :
    (m n : Matchmaker) (stored resp : MatchmakingTicket)
    → ◌≡◌ {A = Matchmaker × Option MatchmakingTicket} (m, some (pending stored)) (n, some resp)
    → resp.state ≢ succeeded
pending-unfinished m n stored resp q done =
    let same : some (pending stored) ≡ some resp =
      ap (λ (x : Matchmaker × Option MatchmakingTicket). x.1) q in
    let same' : pending stored ≡ resp = cc in
    let still : searching ≡ succeeded = ap (λ (x : MatchmakingTicket). x.state) same' ∙ done in cc

answer-closed :
    (e : Settings) (m : Matchmaker) (stored : MatchmakingTicket) (p : ℕ) (uid : Bytes)
    (include_users : List Bytes) (n : Matchmaker) (resp : MatchmakingTicket)
    → violet_coded_config stored.matchmaking_config ≡ true
    → answer_ticket e m stored p uid include_users ≡ (n, some resp)
    → resp.state ≡ succeeded
    → ClosedFull e n stored p × (n.ticket_sessions ≡ m.ticket_sessions)
unfolding answer_ticket put_room
answer-closed e m stored p uid include_users n resp coded answered done =
    elim (Option-cases (room_at m p)) [
      | inl missing ↦
          let nothing : answer_ticket e m stored p uid include_users ≡ (m, none) =
            rw (missing, answer_ticket) refl in
          ground (arith, nothing, answered)
      | inr ((session, gs), there) ↦
          elim (Bool-cases (
            ltb_ℤ gs.current_participant_count
              (public_match_capacity e.max_participants stored.matchmaking_config))) [
                | inl few ↦
                    let waits : answer_ticket e m stored p uid include_users
                        ≡ (m, some (pending stored)) =
                      rw (there, answer_ticket) (rw coded (rw few refl)) in
                    absurd (pending-unfinished m n stored resp (sym waits ∙ answered) done)
                | inr full ↦
                    let closed = record gs { can_participate = false } in
                    let r : Room = record { members = session.members; game = closed } in
                    let now_closed : answer_ticket e m stored p uid include_users ≡ (
                      put_room m p session r,
                      some (public_match_response stored session.members closed uid include_users),
                    ) =
                      rw (there, answer_ticket) (rw coded (rw full refl)) in
                    let same : put_room m p session r ≡ n =
                      ap (λ (x : Matchmaker × Option MatchmakingTicket). x.0)
                        (sym now_closed ∙ answered) in
                    rw⁻¹ same (
                      (
                        record session { members = session.members },
                        closed,
                        room_at-put m p session gs r there,
                        refl,
                        full,
                      ),
                      refl,
                    )
              ]
    ]

place-closed :
    (e : Settings) (m : Matchmaker) (id : Bytes) (stored : MatchmakingTicket) (uid : Bytes)
    (fresh : Option Bytes) (ids : List (Option Bytes)) (now : Time) (include_users : List Bytes)
    (n : Matchmaker) (resp : MatchmakingTicket)
    → violet_coded_config stored.matchmaking_config ≡ true
    → place_ticket e m id stored uid fresh ids now include_users ≡ (n, some resp)
    → resp.state ≡ succeeded
    → (p : ℕ) × (lookup id n.ticket_sessions ≡ some p) × ClosedFull e n stored p
unfolding place_ticket
place-closed e m id stored uid fresh ids now include_users n resp coded answered done =
    let sel = select_public_match_session e m stored uid fresh now in
    elim (Option-cases sel.1) [
      | inl nobody ↦
          elim (Bool-cases (last_resource_segment stored.matchmaking_config == text "RaidPublic")) [
            | inl raid ↦
                let waits : place_ticket e m id stored uid fresh ids now include_users
                    ≡ (sel.0, some (pending stored)) =
                  rw (nobody, place_ticket) (rw raid refl) in
                absurd (pending-unfinished sel.0 n stored resp (sym waits ∙ answered) done)
            | inr other ↦
                let nothing : place_ticket e m id stored uid fresh ids now include_users
                    ≡ (sel.0, none) =
                  rw (nobody, place_ticket) (rw other refl) in
                ground (arith, nothing, answered)
          ]
      | inr (p, found) ↦ elim (Option-cases (room_at sel.0 p)) [
        | inl missing ↦
            let nothing : place_ticket e m id stored uid fresh ids now include_users
                ≡ (sel.0, none) =
              rw (found, place_ticket) (rw missing refl) in
            ground (arith, nothing, answered)
        | inr ((session, gs), there) ↦
            let r =
              add_public_match_members e.mint stored uid ids now
                (record { members = session.members; game = gs }) in
            let placed = put_room sel.0 p session r in
            let joined : Matchmaker = record placed {
              ticket_sessions = insert id p placed.ticket_sessions;
            } in
            let step : place_ticket e m id stored uid fresh ids now include_users
                ≡ answer_ticket e joined stored p uid include_users =
              rw (found, place_ticket) (rw there refl) in
            let (closed, same) =
              answer-closed e joined stored p uid include_users n resp coded (sym step ∙ answered)
                done in
            (p, ap (lookup id) same ∙ lookup-insert_self id p placed.ticket_sessions, closed)
      ]
    ]

-- A ticket for a coded match that is answered with success has a room, which is full and closed
-- afterwards; `stored` is the ticket of the name.
pub coded_success_closes :
    (e : Settings) (m : Matchmaker) (context_uid name : Bytes) (fresh : Option Bytes)
    (ids : List (Option Bytes)) (now : Time) (include_users : List Bytes)
    (stored : MatchmakingTicket) (n : Matchmaker) (resp : MatchmakingTicket)
    → lookup (last_resource_segment name) m.tickets ≡ some stored
    → violet_coded_config stored.matchmaking_config ≡ true
    → complete_matchmaking_ticket e m context_uid name fresh ids now include_users ≡ (n, some resp)
    → resp.state ≡ succeeded
    → (p : ℕ) × (lookup (last_resource_segment name) n.ticket_sessions ≡ some p)
      × ClosedFull e n stored p
unfolding complete_matchmaking_ticket
coded_success_closes e m context_uid name fresh ids now include_users stored n resp has coded
      answered done =
    let id = last_resource_segment name in
    let uid = caller_or_first context_uid stored.user_definitions in
    let run = complete_matchmaking_ticket e m context_uid name fresh ids now include_users in
    elim (Bool-cases (uid == [])) [
      | inl nobody ↦
          let nothing : run ≡ (m, none) = rw (has, complete_matchmaking_ticket) (rw nobody refl) in
          ground (arith, nothing, answered)
      | inr somebody ↦ elim (Option-cases (lookup id m.ticket_sessions)) [
        | inl unplaced ↦
            let step : run ≡ place_ticket e m id stored uid fresh ids now include_users =
              rw (has, complete_matchmaking_ticket) (rw somebody (rw (unplaced) refl)) in
            place-closed e m id stored uid fresh ids now include_users n resp coded
              (sym step ∙ answered) done
        | inr (p, at) ↦ elim (Option-cases (room_at m p)) [
          | inl missing ↦
              let nothing : run ≡ (m, none) =
                rw (has, complete_matchmaking_ticket) (rw somebody (rw at (rw missing refl))) in
              ground (arith, nothing, answered)
          | inr ((session, gs), there) ↦
              elim (Bool-cases
                (not (public_match_has_uid session.members uid) || not (is_game_active gs.state))) [
                  | inl left ↦
                      let nothing : run ≡ (m, none) =
                        rw (has, complete_matchmaking_ticket)
                          (rw somebody (rw at (rw there (rw left refl)))) in
                      ground (arith, nothing, answered)
                  | inr member_still ↦
                      let step : run ≡ answer_ticket e m stored p uid include_users =
                        rw (has, complete_matchmaking_ticket)
                          (rw somebody (rw at (rw there (rw member_still refl)))) in
                      let (closed, same) =
                        answer-closed e m stored p uid include_users n resp coded
                          (sym step ∙ answered) done in
                      (p, ap (lookup id) same ∙ at, closed)
                ]
        ]
      ]
    ]
