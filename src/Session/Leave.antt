-- ===== src/Session/Leave.antt =====
-- matchmaking.go: a room after somebody leaves it, and a ticket after its cancellation.
use pokemon_violet.Base.{
  ◌≡◌, refl, sym, ◌∙◌, subst, ◌≢◌, ◌⊎◌, inl, inr, true, false, not, none, some, List, [], ◌∷◌,
  arith, Bool-cases, Option-cases, ◌==◌, ==_iff, ==_ne, nat_eq, bytes_eq, keep,
}
use pokemon_violet.Base.Dict.{lookup, delete, lookup-delete_self}
use pokemon_violet.Base.Int.{int_eq}
use pokemon_violet.Base.Result.{permission_denied, err, ok}
use pokemon_violet.Base.Text.{Bytes}
use pokemon_violet.TradeBox.Server.{last_resource_segment}
use pokemon_violet.Session.Message.{UserSession, MatchmakingTicket, UserDefinition, game_terminated}
use pokemon_violet.Session.Config.{user_id_from_path, ticket_owned_by}
use pokemon_violet.Session.Room.{Room, PublicMatchMember, int32_length, release}
use pokemon_violet.Session.Matchmaker.{Matchmaker, Matchmaker, Settings}
use pokemon_violet.Session.Ticket.{cancel_pending, cancel_matchmaking_ticket}

-- The user of a member and of a user session.
abbrev pub member_uid : PublicMatchMember → Bytes
member_uid m = user_id_from_path m.definition.user

abbrev pub session_uid : UserSession → Bytes
session_uid u = user_id_from_path u.user

module _ {ℓ} {A : Type ℓ} (who : A → Bytes) where
  -- The elements of one user, in order.
  abbrev pub of_user : Bytes → List A → List A
  of_user uid = keep (λ x. who x == uid)

  abbrev others : Bytes → List A → List A
  others uid = keep (λ x. not (who x == uid))

  others_self : (uid : Bytes) (xs : List A) → of_user uid (others uid xs) ≡ []
  others_self uid [] = refl
  others_self uid (x ∷ xs) = elim (Bool-cases (who x == uid)) [
    | inl same ↦ rw same (others_self uid xs)
    | inr other ↦ rw other (rw other (others_self uid xs))
  ]

  others_other :
      (uid uid' : Bytes) (xs : List A) → uid ≢ uid' → of_user uid' (others uid xs) ≡ of_user uid' xs
  others_other uid uid' [] apart = refl
  others_other uid uid' (x ∷ xs) apart =
      let later = others_other uid uid' xs apart in
      elim (Bool-cases (who x == uid)) [
        | inl same ↦
            let mine : who x ≡ uid = (==_iff (who x) uid).0 same in
            let other : (who x == uid') ≡ false = ==_ne (who x) uid' (λ e. apart (sym mine ∙ e)) in
            rw same (rw other later)
        | inr other ↦ rw other (ground (arith, later))
      ]

empty_or_not {ℓ} :
    {A : Type ℓ} (xs : List A) → (xs ≡ []) ⊎ ((y : A) × (ys : List A) × (xs ≡ y ∷ ys))
empty_or_not [] = inl refl
empty_or_not (x ∷ xs) = inr (x, xs, refl)

-- Releasing a user removes that user's members and user sessions and nobody else's: those of any
-- other user are the same list as before. The count is that of the user sessions that are left, and
-- the game session is terminated and shut if none is left, and otherwise as open as before.
pub release_exact :
    (uid uid' : Bytes) (r : Room)
    → uid ≢ uid'
    → let out = release uid r in
      (of_user member_uid uid out.members ≡ [])
      × (of_user member_uid uid' out.members ≡ of_user member_uid uid' r.members)
      × (of_user session_uid uid out.game.user_sessions ≡ [])
      × (of_user session_uid uid' out.game.user_sessions
          ≡ of_user session_uid uid' r.game.user_sessions)
      × (out.game.current_participant_count ≡ int32_length out.game.user_sessions)
      × (out.game.user_sessions ≡ []
          → (out.game.state ≡ game_terminated) × (out.game.can_participate ≡ false))
      × (out.game.user_sessions ≢ []
          → (out.game.state ≡ r.game.state) × (out.game.can_participate ≡ r.game.can_participate))
unfolding release
release_exact uid uid' r apart =
    let users = others session_uid uid r.game.user_sessions in
    let same_before = of_user session_uid uid' r.game.user_sessions in
    let gone = others_self session_uid uid r.game.user_sessions in
    let stay = others_other session_uid uid uid' r.game.user_sessions apart in
    elim (empty_or_not users) [
      | inl none_left ↦ (
        others_self member_uid uid r.members,
        others_other member_uid uid uid' r.members apart,
        rw none_left (subst (λ xs. of_user session_uid uid xs ≡ []) none_left gone),
        rw none_left (subst (λ xs. of_user session_uid uid' xs ≡ same_before) none_left stay),
        rw none_left refl,
        (λ e. rw none_left (refl, refl)),
        (λ some_left. absurd (some_left (rw none_left refl))),
      )
      | inr (u, us, left) ↦ (
        others_self member_uid uid r.members,
        others_other member_uid uid uid' r.members apart,
        rw left (subst (λ xs. of_user session_uid uid xs ≡ []) left gone),
        rw left (subst (λ xs. of_user session_uid uid' xs ≡ same_before) left stay),
        rw left refl,
        (λ e. absurd (ground (arith, e, left))),
        (λ some_left. rw left (refl, refl)),
      )
    ]

-- The ticket has one user definition, which is the user's.
abbrev pub SoleUser : Bytes → MatchmakingTicket → Type 0
SoleUser uid t =
    (d : UserDefinition) × (t.user_definitions ≡ d ∷ []) × (user_id_from_path d.user ≡ uid)

owned_by-SoleUser :
    (uid : Bytes) (t : MatchmakingTicket)
    → (ticket_owned_by t.user_definitions uid ≡ true → SoleUser uid t)
      × (SoleUser uid t → ticket_owned_by t.user_definitions uid ≡ true)
unfolding ticket_owned_by
owned_by-SoleUser uid t = (
  owner t.user_definitions,
  (λ (d, alone, same). rw alone ((==_iff (user_id_from_path d.user) uid).1 same)),
)
  where
    owner :
        (ds : List UserDefinition)
        → ticket_owned_by ds uid ≡ true
        → (d : UserDefinition) × (ds ≡ d ∷ []) × (user_id_from_path d.user ≡ uid)
    owner [] own = cc
    owner (d ∷ []) own = (d, refl, (==_iff (user_id_from_path d.user) uid).0 own)
    owner (d ∷ d' ∷ ds) own = cc

-- A cancel of a ticket has one of two outcomes. It succeeds: either no such ticket existed and the
-- matchmaker is the same, or its only user definition is the caller's and it is gone afterwards;
-- and canceling again succeeds and changes nothing. Or it is refused with the matchmaker
-- unchanged, and then the ticket exists and its only user definition is not the caller's.
pub cancel_ticket_final :
    (e : Settings) (m : Matchmaker) (uid name : Bytes)
    → let (n, reply) = cancel_matchmaking_ticket e m uid name in
      let id = last_resource_segment name in
      ((reply ≡ ok tt)
        × (((lookup id m.tickets ≡ none) × (n ≡ m))
            ⊎ ((t : MatchmakingTicket) × (lookup id m.tickets ≡ some t) × SoleUser uid t))
        × (lookup id n.tickets ≡ none)
        × (cancel_matchmaking_ticket e n uid name ≡ (n, ok tt)))
      ⊎ ((reply ≡ err permission_denied)
          × (n ≡ m)
          × ((t : MatchmakingTicket) × (lookup id m.tickets ≡ some t) × ¬ SoleUser uid t))
unfolding cancel_matchmaking_ticket
cancel_ticket_final e m uid name =
    let id = last_resource_segment name in
    elim (Option-cases (lookup id m.tickets)) [
      | inl missing ↦
          let gone : cancel_matchmaking_ticket e m uid name ≡ (m, ok tt) =
            rw (missing, cancel_matchmaking_ticket) refl in
          rw gone (inl (refl, inl (missing, refl), missing, gone))
      | inr (t, there) ↦ elim (Bool-cases (ticket_owned_by t.user_definitions uid)) [
        | inr foreign ↦
            let refused : cancel_matchmaking_ticket e m uid name ≡ (m, err permission_denied) =
              rw (there, cancel_matchmaking_ticket) (rw foreign refl) in
            let stranger : ¬ SoleUser uid t =
              λ mine. absurd (let owned = (owned_by-SoleUser uid t).1 mine in cc) in
            rw refused (inr (refl, refl, (t, there, stranger)))
        | inl own ↦
            let out = cancel_pending e m id in
            let n : Matchmaker = record out { tickets = delete id out.tickets } in
            let missing : lookup id n.tickets ≡ none = lookup-delete_self id out.tickets in
            let again : cancel_matchmaking_ticket e n uid name ≡ (n, ok tt) =
              rw (missing, cancel_matchmaking_ticket) refl in
            let done : cancel_matchmaking_ticket e m uid name ≡ (n, ok tt) =
              rw (there, cancel_matchmaking_ticket) (rw own refl) in
            rw done (inl (refl, inr (t, there, (owned_by-SoleUser uid t).0 own), missing, again))
      ]
    ]
