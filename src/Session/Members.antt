-- ===== src/Session/Members.antt =====
-- matchmaking.go: who the members of a room are.
use pokemon_violet.Base.{
  ◌≡◌, refl, sym, subst, inl, inr, Bool, true, false, Option, none, some, List, [], ◌∷◌, ◌++◌, map,
  arith, Bool-cases, ◌==◌, ==_iff, ==_ne, nat_eq, bytes_eq, keep, exists,
}
use pokemon_violet.Base.Int.{int_eq}
use pokemon_violet.Base.Text.{Bytes, text, Lacks}
use pokemon_violet.TradeBox.Message.{Time}
use pokemon_violet.TradeBox.Server.{last_resource_segment}
use pokemon_violet.Session.Message.{UserDefinition, GameSession}
use pokemon_violet.Session.Config.{user_path, npln_tenant, user_id_from_path}
use pokemon_violet.Session.Room.{
  Room, PublicMatchMember, public_match_has_uid, named, uid_or, Mint, admit, admit_all, or_caller,
  add_public_match_members, release, depart_members,
}
use pokemon_violet.Session.Aligned.{
  Aligned, RoomStep, adds, releases, departs, controls, room_step, room_run, member_name,
  session_name, room_step-Aligned,
}

abbrev pub member_uid : PublicMatchMember → Bytes
member_uid m = user_id_from_path m.definition.user

abbrev pub Distinct : List PublicMatchMember → Type 0
Distinct [] = Unit {0}
Distinct (m ∷ ms) = (public_match_has_uid ms (member_uid m) ≡ false) × Distinct ms

slash_inside : (p s : Bytes) → exists (λ b. b == 47) (p ++ (47 ∷ s)) ≡ true
slash_inside [] s = refl
slash_inside (c ∷ p) s = ground (arith, slash_inside p s)

no_slash : (s : Bytes) → Lacks 47 s → exists (λ b. b == 47) s ≡ false
no_slash [] clean = refl
no_slash (c ∷ s) clean = ground (arith, no_slash s clean.1, clean.0)

segment_clean : (s : Bytes) → Lacks 47 s → last_resource_segment s ≡ s
unfolding last_resource_segment
segment_clean [] clean = refl
segment_clean (c ∷ s) clean = rw (no_slash (c ∷ s) clean) refl

pub segment_last : (p s : Bytes) → Lacks 47 s → last_resource_segment (p ++ (47 ∷ s)) ≡ s
unfolding last_resource_segment
segment_last [] s clean = segment_clean s clean
segment_last (c ∷ p) s clean = rw (slash_inside (c ∷ p) s) (segment_last p s clean)

-- The user of a path that the server builds.
pub user_path_id : (uid : Bytes) → Lacks 47 uid → user_id_from_path (user_path uid) ≡ uid
unfolding user_path
user_path_id uid clean = segment_last (npln_tenant ++ text "/users") uid clean

named_uid :
    (d : UserDefinition) (caller_uid : Bytes)
    → Lacks 47 caller_uid
    → user_id_from_path (named d caller_uid).user ≡ uid_or d caller_uid
named_uid d caller_uid clean = elim (Bool-cases (user_id_from_path d.user == [])) [
  | inl nameless ↦ rw nameless (user_path_id caller_uid clean)
  | inr own ↦ rw own refl
]

has_uid-append :
    (ms : List PublicMatchMember) (m : PublicMatchMember) (uid : Bytes)
    → public_match_has_uid ms uid ≡ false
    → (member_uid m == uid) ≡ false
    → public_match_has_uid (ms ++ (m ∷ [])) uid ≡ false
unfolding public_match_has_uid
has_uid-append [] m uid none_there other = rw other refl
has_uid-append (x ∷ ms) m uid none_there other =
    ground (arith, has_uid-append ms m uid, none_there, other)

Distinct-append :
    (ms : List PublicMatchMember) (m : PublicMatchMember)
    → Distinct ms
    → public_match_has_uid ms (member_uid m) ≡ false
    → Distinct (ms ++ (m ∷ []))
unfolding public_match_has_uid
Distinct-append [] m distinct apart = (refl, tt)
Distinct-append (x ∷ ms) m distinct apart = elim (Bool-cases (member_uid x == member_uid m)) [
  | inl same ↦ ground (arith, same, apart)
  | inr other ↦
      let later : public_match_has_uid ms (member_uid m) ≡ false = ground (arith, other, apart) in
      let back : (member_uid m == member_uid x) ≡ false =
        ==_ne (member_uid m) (member_uid x) (λ (e : member_uid m ≡ member_uid x).
          ground (arith, other, (==_iff (member_uid x) (member_uid m)).1 (sym e))) in
      (has_uid-append ms m (member_uid x) distinct.0 back, Distinct-append ms m distinct.1 later)
]

has_uid-keep :
    (p : PublicMatchMember → Bool) (ms : List PublicMatchMember) (uid : Bytes)
    → public_match_has_uid ms uid ≡ false
    → public_match_has_uid (keep p ms) uid ≡ false
unfolding public_match_has_uid
has_uid-keep p [] uid none_there = refl
has_uid-keep p (x ∷ ms) uid none_there = elim (Bool-cases (p x)) [
  | inl kept ↦ rw kept (ground (arith, has_uid-keep p ms uid, none_there))
  | inr gone ↦ rw gone (ground (arith, has_uid-keep p ms uid, none_there))
]

Distinct-keep :
    (p : PublicMatchMember → Bool) (ms : List PublicMatchMember)
    → Distinct ms
    → Distinct (keep p ms)
Distinct-keep p [] distinct = tt
Distinct-keep p (x ∷ ms) distinct = elim (Bool-cases (p x)) [
  | inl kept ↦ rw kept (has_uid-keep p ms (member_uid x) distinct.0, Distinct-keep p ms distinct.1)
  | inr gone ↦ rw gone (Distinct-keep p ms distinct.1)
]

admit_all-Distinct :
    (mint : Mint) (ds : List UserDefinition) (ids : List (Option Bytes)) (caller_uid : Bytes)
    (now : Time) (r : Room)
    → Lacks 47 caller_uid
    → Distinct r.members
    → Distinct (admit_all mint ds ids caller_uid now r).0.members
unfolding admit_all
admit_all-Distinct mint [] ids caller_uid now r clean distinct = distinct
admit_all-Distinct mint (d ∷ ds) [] caller_uid now r clean distinct =
    elim (Bool-cases (public_match_has_uid r.members (uid_or d caller_uid))) [
      | inl there ↦ rw there (admit_all-Distinct mint ds [] caller_uid now r clean distinct)
      | inr apart ↦ rw apart distinct
    ]
admit_all-Distinct mint (d ∷ ds) (none ∷ ids) caller_uid now r clean distinct =
    elim (Bool-cases (public_match_has_uid r.members (uid_or d caller_uid))) [
      | inl there ↦
          rw there (admit_all-Distinct mint ds (none ∷ ids) caller_uid now r clean distinct)
      | inr apart ↦ rw apart distinct
    ]
admit_all-Distinct mint (d ∷ ds) (some id ∷ ids) caller_uid now r clean distinct =
    elim (Bool-cases (public_match_has_uid r.members (uid_or d caller_uid))) [
      | inl there ↦
          rw there (admit_all-Distinct mint ds (some id ∷ ids) caller_uid now r clean distinct)
      | inr apart ↦ rw apart (
          admit_all-Distinct mint ds ids caller_uid now
            (admit mint (uid_or d caller_uid) (named d caller_uid) id now r) clean
            (Distinct-append r.members _ distinct (
              subst (λ u. public_match_has_uid r.members u ≡ false)
                (sym (named_uid d caller_uid clean)) apart)))
    ]

-- The caller of a join; the others do not name one.
abbrev pub CleanStep : RoomStep → Type 0
CleanStep (adds t caller_uid ids now) = Lacks 47 caller_uid
CleanStep _ = Unit {0}

room_step-Distinct :
    (mint : Mint) (r : Room) (s : RoomStep)
    → CleanStep s
    → Distinct r.members
    → Distinct (room_step mint r s).members
unfolding room_step add_public_match_members release depart_members
room_step-Distinct mint r (adds t caller_uid ids now) clean distinct =
    let ds = or_caller t.user_definitions caller_uid in
    let kept = admit_all-Distinct mint ds ids caller_uid now r clean distinct in
    elim (Bool-cases (public_match_has_uid r.members caller_uid)) [
      | inl there ↦ rw there distinct
      | inr apart ↦ elim (Bool-cases (admit_all mint ds ids caller_uid now r).1) [
        | inl finished ↦ rw apart (rw finished kept)
        | inr stopped ↦ rw apart (rw stopped kept)
      ]
    ]
room_step-Distinct mint r (releases uid) clean distinct = Distinct-keep _ r.members distinct
room_step-Distinct mint r (departs raid user_session) clean distinct =
    Distinct-keep _ r.members distinct
room_step-Distinct mint r (controls document) clean distinct = distinct

abbrev pub AllCleanSteps : List RoomStep → Type 0
AllCleanSteps [] = Unit {0}
AllCleanSteps (s ∷ ss) = CleanStep s × AllCleanSteps ss

-- Through any joins, cancellations, departures and control documents, a room that starts without
-- members keeps its two member lists in step, name for name and user for user, and nobody is in it
-- twice; callers' names hold no slash.
pub room_members_sound :
    (mint : Mint) (game : GameSession) (ss : List RoomStep)
    → game.user_sessions ≡ []
    → AllCleanSteps ss
    → let r = room_run mint (record { members = []; game = game }) ss in
      (map member_name r.members ≡ map session_name r.game.user_sessions) × Distinct r.members
unfolding room_run
room_members_sound mint game ss empty clean =
    runs (record { members = []; game = game }) ss clean (rw empty refl) tt
  where
    runs :
        (r : Room) (ss : List RoomStep)
        → AllCleanSteps ss
        → Aligned r
        → Distinct r.members
        → Aligned (room_run mint r ss) × Distinct (room_run mint r ss).members
    runs r [] clean same distinct = (same, distinct)
    runs r (s ∷ ss) clean same distinct =
        runs (room_step mint r s) ss clean.1 (room_step-Aligned mint r s same)
          (room_step-Distinct mint r s clean.0 distinct)
