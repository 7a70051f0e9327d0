-- ===== src/Documents/Sequence.antt =====
-- gamesync.go and gamesync_store.go: the sequence numbers of the user sessions of a room.
use pokemon_violet.Base.{
  ℕ, ◌+◌, ◌≤◌, ◌≡◌, refl, sym, ap, ◌∙◌, subst, ◌≢◌, ◌⊎◌, inl, inr, none, some, arith, Bool-cases,
  ◌==◌, ==_iff, nat_eq, bytes_eq,
}
use pokemon_violet.Base.Dict.{
  Dict, lookup, delete, insert, lookup-insert, lookup-delete, lookup-insert_self, lookup-insert_ne,
}
use pokemon_violet.Base.Int.{ℤ, pos, int_eq}
use pokemon_violet.Base.Text.{Bytes}
use pokemon_violet.Documents.Message.{GamesyncSession}
use pokemon_violet.Documents.Server.{GamesyncServer}

-- The sessions and the counters of a server, which the numbers depend on.
pub record Numbers : Type 0 where
  pub sessions : Dict Bytes GamesyncSession
  pub next_sequence : Dict Bytes ℤ

abbrev pub numbers_of : GamesyncServer → Numbers
numbers_of g = record { sessions = g.sessions; next_sequence = g.next_sequence }

-- The number of a known session is positive and at most the counter of its room.
abbrev pub Counted : Numbers → Type 0
Counted n =
    (id : Bytes) (s : GamesyncSession)
    → lookup id n.sessions ≡ some s
    → (c : ℕ) × (k : ℕ) × (lookup s.game_session n.next_sequence ≡ some (pos c))
      × (s.sequence ≡ pos k)
      × (1 ≤ k)
      × (k ≤ c)

-- Two known sessions of a room have the same number only if they are one.
abbrev pub DistinctSequences : Numbers → Type 0
DistinctSequences n =
    (i j : Bytes) (s t : GamesyncSession)
    → lookup i n.sessions ≡ some s
    → lookup j n.sessions ≡ some t
    → s.game_session ≡ t.game_session
    → s.sequence ≡ t.sequence
    → i ≡ j

abbrev pub Numbered : Numbers → Type 0
Numbered n = Counted n × DistinctSequences n

-- A new session in a room whose counter is still below the largest int64.
abbrev pub joined_new : Bytes → GamesyncSession → ℕ → Numbers → Numbers
joined_new id session c n = record {
  sessions = insert id session n.sessions;
  next_sequence = insert session.game_session (pos c) n.next_sequence;
}

abbrev pub joined_again : Bytes → GamesyncSession → Numbers → Numbers
joined_again id session n = record n { sessions = insert id session n.sessions }

abbrev pub gone : Bytes → Numbers → Numbers
gone id n = record n { sessions = delete id n.sessions }

gone-found :
    (id j : Bytes) (n : Numbers) (s : GamesyncSession)
    → lookup j (gone id n).sessions ≡ some s
    → lookup j n.sessions ≡ some s
gone-found id j n s found = ground (arith, found, lookup-delete id j n.sessions)

pub gone-Numbered : (id : Bytes) (n : Numbers) → Numbered n → Numbered (gone id n)
gone-Numbered id n (counted, distinct) = (
  λ j s found. counted j s (gone-found id j n s found),
  λ i j s t left right. distinct i j s t (gone-found id i n s left) (gone-found id j n t right),
)

-- Where a session stands after an insertion: it is the new one, or it was there.
inserted-found :
    (id j : Bytes) (session s : GamesyncSession) (m : Dict Bytes GamesyncSession)
    → lookup j (insert id session m) ≡ some s
    → ((id ≡ j) × (session ≡ s)) ⊎ ((id ≢ j) × (lookup j m ≡ some s))
inserted-found id j session s m found = elim (Bool-cases (id == j)) [
  | inl same ↦
      let mine : some session ≡ some s =
        sym (lookup-insert id j session m ∙ rw same refl) ∙ found in
      inl ((==_iff id j).0 same, cc)
  | inr other ↦
      let ne : id ≢ j = λ e. absurd (ground (arith, other, (==_iff id j).1 e)) in
      inr (ne, sym (lookup-insert_ne id j session m ne) ∙ found)
]

-- A session after a second token stood there before, with the same room and number.
again-found :
    (id j : Bytes) (session previous s : GamesyncSession) (n : Numbers)
    → lookup id n.sessions ≡ some previous
    → session.game_session ≡ previous.game_session
    → session.sequence ≡ previous.sequence
    → lookup j (joined_again id session n).sessions ≡ some s
    → (old : GamesyncSession) × (lookup j n.sessions ≡ some old)
      × (s.game_session ≡ old.game_session)
      × (s.sequence ≡ old.sequence)
again-found id j session previous s n known room number found =
    elim (inserted-found id j session s n.sessions found) [
      | inl (same, new) ↦ (
        previous,
        subst (λ x. lookup x n.sessions ≡ some previous) same known,
        subst (λ (x : GamesyncSession). x.game_session ≡ previous.game_session) new room,
        subst (λ (x : GamesyncSession). x.sequence ≡ previous.sequence) new number,
      )
      | inr (ne, old) ↦ (s, old, refl, refl)
    ]

pub joined_again-Numbered :
    (id : Bytes) (session previous : GamesyncSession) (n : Numbers)
    → lookup id n.sessions ≡ some previous
    → session.game_session ≡ previous.game_session
    → session.sequence ≡ previous.sequence
    → Numbered n
    → Numbered (joined_again id session n)
joined_again-Numbered id session previous n known room number (counted, distinct) = (
  λ j s found.
      let (old, there, game, sequence) =
        again-found id j session previous s n known room number found in
      let (c, k, counter, mine, low, high) = counted j old there in
      (c, k, ap (λ x. lookup x n.next_sequence) game ∙ counter, sequence ∙ mine, low, high),
  λ i j s t left right game sequence.
      let (s0, at_i, game_s, sequence_s) =
        again-found id i session previous s n known room number left in
      let (t0, at_j, game_t, sequence_t) =
        again-found id j session previous t n known room number right in
      distinct i j s0 t0 at_i at_j (sym game_s ∙ game ∙ game_t)
        (sym sequence_s ∙ sequence ∙ sequence_t),
)

-- The counter of a room before its next session.
abbrev pub counter : Bytes → Numbers → ℤ
counter game n = elim (lookup game n.next_sequence) [ none ↦ pos 0 | some c ↦ c ]

counter-some :
    (game : Bytes) (n : Numbers) (d : ℕ)
    → lookup game n.next_sequence ≡ some (pos d)
    → counter game n ≡ pos d
counter-some game n d found = rw (found, counter) refl

-- The sessions that are there have numbers up to the counter.
below_counter :
    (game : Bytes) (c : ℕ) (n : Numbers)
    → counter game n ≡ pos c
    → Counted n
    → (j : Bytes) (s : GamesyncSession) → lookup j n.sessions ≡ some s
    → s.game_session ≡ game
    → (k : ℕ) × (s.sequence ≡ pos k) × (1 ≤ k) × (k ≤ c)
below_counter game c n last counted j s there room =
    let (d, k, held, mine, low, high) = counted j s there in
    let same : pos d ≡ pos c =
      sym (counter-some game n d (subst (λ x. lookup x n.next_sequence ≡ some (pos d)) room held))
      ∙ last in
    let d_is_c : d ≡ c = cc in (k, mine, low, omega (arith, d_is_c, high))

not_again : (c k : ℕ) (s t : ℤ) → s ≡ pos (c + 1) → t ≡ pos k → k ≤ c → s ≢ t
not_again c k s t new old high same =
    let numbers : pos (c + 1) ≡ pos k = sym new ∙ same ∙ old in
    let equal : c + 1 ≡ k = cc in absurd (omega (arith, equal, high))

pub joined_new-Numbered :
    (id : Bytes) (session : GamesyncSession) (c : ℕ) (n : Numbers)
    → lookup id n.sessions ≡ none
    → counter session.game_session n ≡ pos c
    → session.sequence ≡ pos (c + 1)
    → Numbered n
    → Numbered (joined_new id session (c + 1) n)
joined_new-Numbered id session c n fresh last number (counted, distinct) = (
  λ j s found. elim (inserted-found id j session s n.sessions found) [
    | inl (same, new) ↦ (
      c + 1,
      c + 1,
      ap
            (λ (x : GamesyncSession).
              lookup x.game_session (joined_new id session (c + 1) n).next_sequence)
            (sym new)
          ∙ lookup-insert_self session.game_session (pos (c + 1)) n.next_sequence,
      ap (λ (x : GamesyncSession). x.sequence) (sym new) ∙ number,
      omega arith,
      omega arith,
    )
    | inr (ne, old) ↦
        let (d, k, held, mine, low, high) = counted j s old in
        elim (Bool-cases (session.game_session == s.game_session)) [
          | inl room ↦
              let same = (==_iff session.game_session s.game_session).0 room in
              let (l, its, some_low, under) =
                below_counter session.game_session c n last counted j s old (sym same) in
              (
                c + 1,
                l,
                subst
                    (λ x.
                      lookup x (insert session.game_session (pos (c + 1)) n.next_sequence)
                      ≡ some (pos (c + 1)))
                    same (lookup-insert_self session.game_session (pos (c + 1)) n.next_sequence),
                its,
                some_low,
                omega (arith, under),
              )
          | inr other ↦
              let apart : session.game_session ≢ s.game_session = λ e.
                absurd (ground (arith, other, (==_iff session.game_session s.game_session).1 e)) in
              (
                d,
                k,
                lookup-insert_ne session.game_session s.game_session (pos (c + 1)) n.next_sequence
                      apart
                    ∙ held,
                mine,
                low,
                high,
              )
        ]
  ],
  λ i j s t left right game sequence. elim (inserted-found id i session s n.sessions left) [
    | inl (i_id, s_new) ↦ elim (inserted-found id j session t n.sessions right) [
      | inl (j_id, t_new) ↦ sym i_id ∙ j_id
      | inr (ne, t_old) ↦
          let (k, its, _, under) =
            below_counter session.game_session c n last counted j t t_old
              (sym game ∙ ap (λ (x : GamesyncSession). x.game_session) (sym s_new)) in
          absurd (
            not_again c k s.sequence t.sequence
              (ap (λ (x : GamesyncSession). x.sequence) (sym s_new) ∙ number) its under sequence)
    ]
    | inr (ne, s_old) ↦ elim (inserted-found id j session t n.sessions right) [
      | inl (j_id, t_new) ↦
          let (k, its, _, under) =
            below_counter session.game_session c n last counted i s s_old
              (game ∙ ap (λ (x : GamesyncSession). x.game_session) (sym t_new)) in
          absurd (
            not_again c k t.sequence s.sequence
              (ap (λ (x : GamesyncSession). x.sequence) (sym t_new) ∙ number) its under
              (sym sequence))
      | inr (_, t_old) ↦ distinct i j s t s_old t_old game sequence
    ]
  ],
)
