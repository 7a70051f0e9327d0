-- ===== src/Documents/Steps.antt =====
-- gamesync.go and gamesync_store.go: the operations of the server as steps.
use pokemon_violet.Base.{
  ℕ, ◌+◌, ◌<◌, ◌≡◌, refl, sym, ap, ◌∙◌, subst, inl, inr, Option, none, some, [], arith,
  Option-cases, some-inj, nat_eq, bytes_eq,
}
use pokemon_violet.Base.Dict.{lookup, insert}
use pokemon_violet.Base.Int.{ℤ, pos, ◌+ℤ◌, int_eq, wrap64, wrap64_id}
use pokemon_violet.Base.Result.{ok}
use pokemon_violet.Base.Text.{Bytes, before}
use pokemon_violet.TradeBox.Message.{Time}
use pokemon_violet.TradeBox.Server.{last_resource_segment}
use pokemon_violet.Ranked.Store.{Fault}
use pokemon_violet.Session.Message.{GameSession}
use pokemon_violet.Documents.Message.{Document, GamesyncSession}
use pokemon_violet.Documents.Server.{GamesyncServer, KeepUserSessionResponse, AccessClaims}
use pokemon_violet.Documents.Commit.{commit_documents, WriteDocumentsRequest}
use pokemon_violet.Documents.Expire.{expire_session, schedule_disconnect, left, own_record}
use pokemon_violet.Documents.Join.{
  remember_session, observed_user_session_document, next_of, bound_session, next_sequences,
  announce_join, stored_session,
}
use pokemon_violet.Documents.Token.{initialize_fixed_data}
use pokemon_violet.Documents.Watch.{
  keep_user_session_step, KeepUserSessionRequest, OpenStream, keep_user_session_open,
  keep_user_session_close,
}
use pokemon_violet.Documents.Sequence.{
  Numbers, numbers_of, counter, Numbered, gone-Numbered, joined_again-Numbered, joined_new-Numbered,
}
use pokemon_violet.Documents.Life.{commit-numbers, expire-numbers}
use pokemon_violet.Documents.Quiet.{
  prepares-numbers, schedule-numbers, open-numbers, close-numbers, step-numbers,
}

-- A session that is known already comes back to its room.
abbrev pub SameRoom : GamesyncSession → GamesyncServer → Type 0
SameRoom session g =
    (previous : GamesyncSession)
    → lookup (last_resource_segment session.user_session) g.sessions ≡ some previous
    → session.game_session ≡ previous.game_session

-- The counter of the room has not reached the largest int64.
abbrev pub CounterLeft : GamesyncSession → GamesyncServer → Type 0
CounterLeft session g =
    (c : ℕ) × (counter session.game_session (numbers_of g) ≡ pos c) × (c < 9223372036854775807)

pub data ServerStep (size : KeepUserSessionResponse → ℕ)
    : GamesyncServer → GamesyncServer → Type 0 where
  joins :
      {g after : GamesyncServer} (now : Time) (session : GamesyncSession)
      → SameRoom session g
      → CounterLeft session g
      → remember_session size now session g ≡ some after
      → ServerStep size g after
  prepares :
      {g after : GamesyncServer} (seed_size : ℤ) (seed : ℤ → Option Bytes) (gs : GameSession)
      (now : Time)
      → initialize_fixed_data seed_size seed gs now g ≡ ok after
      → ServerStep size g after
  commits :
      {g : GamesyncServer} (decimal : ℤ → Bytes) (fault : Fault) (session : GamesyncSession)
      (now : Time) (request : WriteDocumentsRequest)
      → ServerStep size g (commit_documents size decimal fault g session now request).0
  expires :
      {g : GamesyncServer} (id : Bytes) (timer : ℕ) (now : Time)
      → ServerStep size g (expire_session size id timer now g)
  schedules : {g : GamesyncServer} (id : Bytes) → ServerStep size g (schedule_disconnect id g)
  opens :
      {g : GamesyncServer} (number : ℕ) (caller : Option AccessClaims)
      → ServerStep size g (keep_user_session_open number caller g).0
  asks :
      {g : GamesyncServer} (s : OpenStream) (caller : Option AccessClaims)
      (request : KeepUserSessionRequest)
      → ServerStep size g (keep_user_session_step size s caller request g).0
  closes : {g : GamesyncServer} (s : OpenStream) → ServerStep size g (keep_user_session_close s g)

-- The servers that the operations lead to from one without sessions.
pub data Reachable (size : KeepUserSessionResponse → ℕ) : GamesyncServer → Type 0 where
  starts : {g : GamesyncServer} → g.sessions ≡ [] → Reachable size g
  goes_on :
      {g after : GamesyncServer} → Reachable size g → ServerStep size g after → Reachable size after

-- The numbers after a join, from what was known of the session.
abbrev joined : Time → GamesyncSession → Option GamesyncSession → GamesyncServer → Numbers
joined now session previous g = record {
  sessions =
      insert (last_resource_segment session.user_session)
        (bound_session now session previous (next_of session.game_session g)) g.sessions;
  next_sequence = next_sequences session.game_session previous g;
}

announce-numbers :
    (size : KeepUserSessionResponse → ℕ) (game : Bytes) (document : Document)
    (previous : Option GamesyncSession) (g : GamesyncServer)
    → numbers_of (announce_join size game document previous g) ≡ numbers_of g
announce-numbers size game document none g = refl
announce-numbers size game document (some previous) g = refl

remember-numbers :
    (size : KeepUserSessionResponse → ℕ) (now : Time) (session : GamesyncSession)
    (g after : GamesyncServer)
    → remember_session size now session g ≡ some after
    → numbers_of after
      ≡ joined now session (lookup (last_resource_segment session.user_session) g.sessions) g
unfolding remember_session
remember-numbers size now session g after done =
    let id = last_resource_segment session.user_session in
    let previous = lookup id g.sessions in
    let bound = bound_session now session previous (next_of session.game_session g) in
    elim (Option-cases (observed_user_session_document now (own_record id) bound)) [
      | inl nil ↦
          let step : remember_session size now session g ≡ none = rw (nil, remember_session) refl in
          cc
      | inr (document, made) ↦
          let stored = stored_session size session.game_session id bound document previous g in
          let step : remember_session size now session g
              ≡ some (announce_join size session.game_session document previous stored) =
            rw (made, remember_session) refl in
          let same : announce_join size session.game_session document previous stored ≡ after =
            some-inj (sym step ∙ done) in
          sym (ap numbers_of same)
          ∙ announce-numbers size session.game_session document previous stored
    ]

next_of-counter :
    (game : Bytes) (g : GamesyncServer) (c : ℕ)
    → counter game (numbers_of g) ≡ pos c
    → c < 9223372036854775807
    → next_of game g ≡ pos (c + 1)
unfolding ◌+ℤ◌
next_of-counter game g c last left =
    ap (λ z. wrap64 (z +ℤ pos 1)) last ∙ wrap64_id (pos c +ℤ pos 1) (ground arith) ∙ ground arith

joined-Numbered :
    (now : Time) (session : GamesyncSession) (previous : Option GamesyncSession)
    (g : GamesyncServer)
    → lookup (last_resource_segment session.user_session) g.sessions ≡ previous
    → SameRoom session g
    → CounterLeft session g
    → Numbered (numbers_of g)
    → Numbered (joined now session previous g)
unfolding bound_session next_sequences
joined-Numbered now session (some previous) g known room left numbered =
    joined_again-Numbered (last_resource_segment session.user_session)
      (bound_session now session (some previous) (next_of session.game_session g)) previous
      (numbers_of g) known (room previous known) refl numbered
joined-Numbered now session none g fresh room (c, last, left) numbered =
    let next = next_of-counter session.game_session g c last left in
    let bound = bound_session now session none (next_of session.game_session g) in
    subst Numbered
      (ap
        (λ z. record {
          sessions = insert (last_resource_segment session.user_session) bound g.sessions;
          next_sequence = insert session.game_session z g.next_sequence;
        })
        (sym next))
      (joined_new-Numbered (last_resource_segment session.user_session) bound c (numbers_of g) fresh
        last next numbered)

step-Numbered :
    (size : KeepUserSessionResponse → ℕ) {g after : GamesyncServer}
    → ServerStep size g after
    → Numbered (numbers_of g)
    → Numbered (numbers_of after)
step-Numbered size {g} (joins {after = after} now session room left done) numbered =
    subst Numbered (sym (remember-numbers size now session g after done)) (
      joined-Numbered now session (lookup (last_resource_segment session.user_session) g.sessions) g
        refl room left numbered)
step-Numbered size {g} (prepares {after = after} seed_size seed gs now done) numbered =
    subst Numbered (sym (prepares-numbers seed_size seed gs now g after done)) numbered
step-Numbered size {g} (commits decimal fault session now request) numbered =
    subst Numbered (sym (commit-numbers size decimal fault g session now request)) numbered
step-Numbered size {g} (expires id timer now) numbered = elim (expire-numbers size id timer now g) [
  | inl same ↦ subst Numbered (sym same) numbered
  | inr left ↦ subst Numbered (sym left) (gone-Numbered id (numbers_of g) numbered)
]
step-Numbered size {g} (schedules id) numbered =
    subst Numbered (sym (schedule-numbers id g)) numbered
step-Numbered size {g} (opens number caller) numbered =
    subst Numbered (sym (open-numbers number caller g)) numbered
step-Numbered size {g} (asks s caller request) numbered =
    subst Numbered (sym (step-numbers size s caller request g)) numbered
step-Numbered size {g} (closes s) numbered = subst Numbered (sym (close-numbers s g)) numbered

-- Whatever operations lead to a server from one without sessions, and whichever way they
-- interleave, two of its user sessions in one room never have the same sequence number, every
-- number is positive, and none is above the counter of its room. A session that comes back comes
-- back to its room, and no room counts beyond the largest int64.
pub Reachable-Numbered :
    (size : KeepUserSessionResponse → ℕ) {g : GamesyncServer}
    → Reachable size g
    → Numbered (numbers_of g)
unfolding lookup
Reachable-Numbered size {g} (starts nobody) =
    let absent : (id : Bytes) → lookup id g.sessions ≡ none = λ id. ap (lookup id) nobody in
    (
      λ id s found. absurd (ground (arith, absent id, found)),
      λ i j s t left right room number. absurd (ground (arith, absent i, left)),
    )
Reachable-Numbered size (goes_on before step) =
    step-Numbered size step (Reachable-Numbered size before)
