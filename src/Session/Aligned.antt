-- ===== src/Session/Aligned.antt =====
-- matchmaking.go and session_registry.go: a room through any sequence of joins, cancellations, departures and control documents.
use pokemon_violet.Base.{
  ◌≡◌, refl, sym, ap, ◌∙◌, inl, inr, Bool, true, false, not, Option, none, some, List, [], ◌∷◌,
  ◌++◌, map, if◌then◌else◌, Bool-cases, ◌==◌, nat_eq, bytes_eq, keep,
}
use pokemon_violet.Base.Int.{int_eq}
use pokemon_violet.Base.Text.{Bytes}
use pokemon_violet.TradeBox.Message.{Time}
use pokemon_violet.Session.Message.{
  MapValue, UserSession, MatchmakingTicket, UserDefinition, GameSession, is_game_active,
}
use pokemon_violet.Session.Room.{
  Room, Mint, PublicMatchMember, add_public_match_members, release, depart_game, depart_members,
  control_game, public_match_has_uid, named, uid_or, admit, admit_all, or_caller, terminate,
}
use pokemon_violet.Session.Config.{user_id_from_path}
use pokemon_violet.TradeBox.Server.{last_resource_segment}

pub data RoomStep : Type 0 where
  adds : MatchmakingTicket → Bytes → List (Option Bytes) → Time → RoomStep
  releases : Bytes → RoomStep
  departs : Bool → Bytes → RoomStep
  controls : MapValue → RoomStep

module _ (mint : Mint) where
  unfoldable pub room_step : Room → RoomStep → Room
  room_step r (adds t caller_uid ids now) = add_public_match_members mint t caller_uid ids now r
  room_step r (releases uid) = release uid r
  room_step r (departs raid user_session) = record {
    members = depart_members user_session r.members;
    game = depart_game raid user_session r.game;
  }
  room_step r (controls document) = record r { game = control_game document r.game }

  unfoldable pub room_run : Room → List RoomStep → Room
  room_run r [] = r
  room_run r (s ∷ ss) = room_run (room_step r s) ss

abbrev pub member_name : PublicMatchMember → Bytes × Bytes
member_name m = (m.user_session, m.definition.user)

abbrev pub session_name : UserSession → Bytes × Bytes
session_name u = (u.name, u.user)

-- The pooled members and the user sessions of the game are the same users, in the same order.
abbrev pub Aligned : Room → Type 0
Aligned r = map member_name r.members ≡ map session_name r.game.user_sessions

pub map-keep :
    {A B C : Type 0} (f : A → C) (g : B → C) (p : C → Bool) (xs : List A) (ys : List B)
    → map f xs ≡ map g ys
    → map f (keep (λ x. p (f x)) xs) ≡ map g (keep (λ y. p (g y)) ys)
map-keep f g p [] [] same = refl
map-keep f g p [] (y ∷ ys) same = cc
map-keep f g p (x ∷ xs) [] same = cc
map-keep f g p (x ∷ xs) (y ∷ ys) same =
    let head_same : f x ≡ g y = cc in
    let rest = map-keep f g p xs ys (let tail_same : map f xs ≡ map g ys = cc in tail_same) in
    elim (Bool-cases (p (g y))) [
      | inl kept ↦ rw head_same (rw kept (cc (rest, head_same)))
      | inr gone ↦ rw head_same (rw gone rest)
    ]

pub map-append {ℓ κ} :
    {A : Type ℓ} {B : Type κ} (f : A → B) (xs ys : List A) → map f (xs ++ ys) ≡ map f xs ++ map f ys
map-append f [] ys = refl
map-append f (x ∷ xs) ys = cc (map-append f xs ys)

admit-Aligned :
    (mint : Mint) (uid : Bytes) (d : UserDefinition) (id : Bytes) (now : Time) (r : Room)
    → Aligned r
    → Aligned (admit mint uid d id now r)
admit-Aligned mint uid d id now r same =
    map-append member_name r.members _
    ∙ rw same refl
    ∙ sym (map-append session_name r.game.user_sessions _)

pub admit_all-Aligned :
    (mint : Mint) (ds : List UserDefinition) (ids : List (Option Bytes)) (caller_uid : Bytes)
    (now : Time) (r : Room)
    → Aligned r
    → Aligned (admit_all mint ds ids caller_uid now r).0
unfolding admit_all
admit_all-Aligned mint [] ids caller_uid now r same = same
admit_all-Aligned mint (d ∷ ds) [] caller_uid now r same =
    elim (Bool-cases (public_match_has_uid r.members (uid_or d caller_uid))) [
      | inl there ↦ rw there (admit_all-Aligned mint ds [] caller_uid now r same)
      | inr apart ↦ rw apart same
    ]
admit_all-Aligned mint (d ∷ ds) (none ∷ ids) caller_uid now r same =
    elim (Bool-cases (public_match_has_uid r.members (uid_or d caller_uid))) [
      | inl there ↦ rw there (admit_all-Aligned mint ds (none ∷ ids) caller_uid now r same)
      | inr apart ↦ rw apart same
    ]
admit_all-Aligned mint (d ∷ ds) (some id ∷ ids) caller_uid now r same =
    elim (Bool-cases (public_match_has_uid r.members (uid_or d caller_uid))) [
      | inl there ↦ rw there (admit_all-Aligned mint ds (some id ∷ ids) caller_uid now r same)
      | inr apart ↦ rw apart (
          admit_all-Aligned mint ds ids caller_uid now
            (admit mint (uid_or d caller_uid) (named d caller_uid) id now r)
            (admit-Aligned mint (uid_or d caller_uid) (named d caller_uid) id now r same))
    ]

pub terminate_if-users :
    (b : Bool) (gs : GameSession)
    → (if b then terminate gs else gs).user_sessions ≡ gs.user_sessions
terminate_if-users true gs = refl
terminate_if-users false gs = refl

pub room_step-Aligned :
    (mint : Mint) (r : Room) (s : RoomStep) → Aligned r → Aligned (room_step mint r s)
unfolding room_step add_public_match_members release depart_members depart_game control_game
room_step-Aligned mint r (adds t caller_uid ids now) same =
    let ds = or_caller t.user_definitions caller_uid in
    let kept = admit_all-Aligned mint ds ids caller_uid now r same in
    elim (Bool-cases (public_match_has_uid r.members caller_uid)) [
      | inl there ↦ rw there same
      | inr apart ↦ elim (Bool-cases (admit_all mint ds ids caller_uid now r).1) [
        | inl finished ↦ rw apart (rw finished kept)
        | inr stopped ↦ rw apart (rw stopped kept)
      ]
    ]
room_step-Aligned mint r (releases uid) same =
    map-keep member_name session_name
      (λ (name : Bytes × Bytes). not (user_id_from_path name.1 == uid)) r.members
      r.game.user_sessions same
    ∙ ap (map session_name) (sym (terminate_if-users _ _))
room_step-Aligned mint r (departs raid user_session) same =
    map-keep member_name session_name
      (λ (name : Bytes × Bytes).
        not (last_resource_segment name.0 == last_resource_segment user_session))
      r.members r.game.user_sessions same
    ∙ ap (map session_name) (sym (terminate_if-users _ _))
room_step-Aligned mint r (controls document) same =
    elim (Bool-cases (is_game_active r.game.state)) [
      | inl active ↦ rw active same
      | inr over ↦ rw over same
    ]
