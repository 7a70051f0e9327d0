-- ===== src/TradeBox/Pairing.antt =====
-- trade_box.go: the search for a partner among the waiting boxes.
use pokemon_violet.Base.{
  ℕ, ◌≡◌, refl, sym, ap, ◌∙◌, subst, ◌≢◌, inl, inr, true, false, none, some, List, [], ◌∷◌, ◌++◌,
  arith, Bool-cases, Option-cases, ◌==◌, ==_iff, nat_eq, bytes_eq, get_elem?, set, get_elem?-set_ne,
}
use pokemon_violet.Base.Dict.{Dict}
use pokemon_violet.Base.Int.{int_eq}
use pokemon_violet.Base.Text.{Bytes}
use pokemon_violet.TradeBox.Message.{Time}
use pokemon_violet.TradeBox.Server.{Entry, entry_at, is_dead, pair_entry, pair_waiting, Pairing}
use pokemon_violet.TradeBox.Heap.{Grows-refl, Grows-trans, Grows-set, get_elem?-set_at}
use pokemon_violet.TradeBox.Invariant.{key_owner, AllOwnedBy}
use pokemon_violet.TradeBox.Ready.{
  Sound-set, pair_entry-Keeps, some_injective, live_parts, AllOwnedBy-append, Ready, Among,
  owner_of_Among, Leaves,
}

-- The ways through one round of the loop.
module _ (boxes : Dict Bytes ℕ) (heap : List Entry) (key : Bytes) (mine : ℕ) (me : Entry)
    (now : Time) (k : Bytes) (rest : List Bytes) where
  pair_waiting_gone :
      entry_at k boxes heap ≡ none
      → pair_waiting me.owner boxes heap key mine me now (k ∷ rest)
        ≡ pair_waiting me.owner boxes heap key mine me now rest
  unfolding pair_waiting
  pair_waiting_gone gone = rw (gone, pair_waiting)

  pair_waiting_dead :
      (p : ℕ) (e : Entry)
      → entry_at k boxes heap ≡ some (p, e)
      → is_dead e ≡ true
      → pair_waiting me.owner boxes heap key mine me now (k ∷ rest)
        ≡ pair_waiting me.owner boxes heap key mine me now rest
  unfolding pair_waiting
  pair_waiting_dead p e found dead = rw (found, pair_waiting) (rw dead)

  pair_waiting_own :
      (p : ℕ) (e : Entry)
      → entry_at k boxes heap ≡ some (p, e)
      → is_dead e ≡ false
      → (e.owner == me.owner) ≡ true
      → pair_waiting me.owner boxes heap key mine me now (k ∷ rest)
        ≡ record { heap = heap; waiting = rest ++ (k ∷ key ∷ []); paired = false }
  unfolding pair_waiting
  pair_waiting_own p e found live same = rw (found, pair_waiting) (rw (live, same))

  pair_waiting_match :
      (p : ℕ) (e : Entry)
      → entry_at k boxes heap ≡ some (p, e)
      → is_dead e ≡ false
      → (e.owner == me.owner) ≡ false
      → pair_waiting me.owner boxes heap key mine me now (k ∷ rest) ≡ record {
        heap = set (set heap p (pair_entry e me.box now)) mine (pair_entry me e.box now);
        waiting = rest;
        paired = true;
      }
  unfolding pair_waiting
  pair_waiting_match p e found live foreign = rw (found, pair_waiting) (rw (live, foreign))

module _ (boxes : Dict Bytes ℕ) (heap : List Entry) (key : Bytes) (mine : ℕ) (me : Entry)
    (now : Time) (ready : Ready boxes heap key mine me) where
  -- The new box and a live one of another owner were paired: each result is its own box with the
  -- payload and signature of the other.
  abbrev pub Paired : Pairing → Type 0
  Paired out =
      (q : ℕ) × (c : Entry) × (get_elem? heap q ≡ some c)
      × (is_dead c ≡ false)
      × (c.owner ≢ me.owner)
      × (out.paired ≡ true)
      × (out.heap ≡ set (set heap q (pair_entry c me.box now)) mine (pair_entry me c.box now))

  matched-Leaves :
      (o : Bytes) (p : ℕ) (candidate : Entry) (rest : List Bytes)
      → AllOwnedBy o rest
      → get_elem? heap p ≡ some candidate
      → is_dead candidate ≡ false
      → candidate.owner ≢ me.owner
      → Leaves heap
          (set
            (set heap p (pair_entry candidate me.box now))
            mine
            (pair_entry me candidate.box now))
          rest
  matched-Leaves o p candidate rest own at live foreign =
      let (made, _, open_c) = live_parts candidate live in
      let apart : p ≢ mine = λ same. foreign (
        ap (λ (x : Entry). x.owner)
          (some_injective (sym at ∙ ap (get_elem? heap) same ∙ ready.here))) in
      let first = set heap p (pair_entry candidate me.box now) in
      let still : get_elem? first mine ≡ some me =
        get_elem?-set_ne heap (pair_entry candidate me.box now) apart ∙ ready.here in
      record {
        grows =
            Grows-trans heap first _
              (Grows-set heap p candidate _ at (pair_entry-Keeps candidate me.box now open_c))
              (Grows-set first mine me _ still
                (pair_entry-Keeps me candidate.box now ready.single_use));
        sound = Sound-set first mine _ (Sound-set heap p _ ready.sound made) ready.made;
        single = (o, own);
      }

  pub pair_waiting-Leaves :
      (o : Bytes) (waiting : List Bytes)
      → AllOwnedBy o waiting
      → Leaves heap
          (pair_waiting me.owner boxes heap key mine me now waiting).heap
          (pair_waiting me.owner boxes heap key mine me now waiting).waiting
  unfolding pair_waiting
  pair_waiting-Leaves o [] own = record {
    grows = Grows-refl heap;
    sound = ready.sound;
    single = (key_owner key, (refl, tt));
  }
  pair_waiting-Leaves o (k ∷ rest) own = elim (Option-cases (entry_at k boxes heap)) [
    | inl gone ↦
        back (pair_waiting_gone boxes heap key mine me now k rest gone)
          (pair_waiting-Leaves o rest own.1)
    | inr ((p, e), found) ↦ elim (Bool-cases (is_dead e)) [
      | inl dead ↦
          back (pair_waiting_dead boxes heap key mine me now k rest p e found dead)
            (pair_waiting-Leaves o rest own.1)
      | inr live ↦ elim (Bool-cases (e.owner == me.owner)) [
        | inl same ↦
            back (pair_waiting_own boxes heap key mine me now k rest p e found live same) (record {
              grows = Grows-refl heap;
              sound = ready.sound;
              single = (
                o,
                AllOwnedBy-append o rest (k ∷ key ∷ []) own.1 (
                  own.0,
                  (
                    sym ready.mine_owner
                        ∙ sym ((==_iff e.owner me.owner).0 same)
                        ∙ (ready.placed k p e found).1
                        ∙ own.0,
                    tt,
                  ),
                ),
              );
            })
        | inr foreign ↦
            back (pair_waiting_match boxes heap key mine me now k rest p e found live foreign) (
              matched-Leaves o p e rest own.1 (ready.placed k p e found).0 live
                (λ q. cc ((==_iff e.owner me.owner).1 q)))
      ]
    ]
  ]
    where
      back : {r t : Pairing} → r ≡ t → Leaves heap t.heap t.waiting → Leaves heap r.heap r.waiting
      back {r} {t} e l = subst (λ (x : Pairing). Leaves heap x.heap x.waiting) (sym e) l

  -- Where a live box of another owner waits anywhere in the list, the new box is paired with one.
  pub pair_waiting-pairs :
      (o : Bytes) (waiting : List Bytes) (k : Bytes) (p : ℕ) (e : Entry)
      → AllOwnedBy o waiting
      → Among k waiting
      → entry_at k boxes heap ≡ some (p, e)
      → is_dead e ≡ false
      → e.owner ≢ me.owner
      → Paired (pair_waiting me.owner boxes heap key mine me now waiting)
  unfolding pair_waiting
  pair_waiting-pairs o [] k p e own here found live foreign = absurd here
  pair_waiting-pairs o (x ∷ rest) k p e own here found live foreign =
      elim (Option-cases (entry_at x boxes heap)) [
        | inl gone ↦
            back (pair_waiting_gone boxes heap key mine me now x rest gone)
              (pair_waiting-pairs o rest k p e own.1 (later here (λ same. cc)) found live foreign)
        | inr ((q, f), found') ↦ elim (Bool-cases (is_dead f)) [
          | inl dead ↦ back (pair_waiting_dead boxes heap key mine me now x rest q f found' dead) (
              pair_waiting-pairs o rest k p e own.1 (later here (λ same. ground arith)) found live
                foreign)
          | inr live' ↦ elim (Bool-cases (f.owner == me.owner)) [
            | inl same ↦ absurd (
                foreign (
                  (ready.placed k p e found).1
                  ∙ owner_of_Among o k (x ∷ rest) own here
                  ∙ sym own.0
                  ∙ sym (ready.placed x q f found').1
                  ∙ (==_iff f.owner me.owner).0 same))
            | inr apart ↦
                back (pair_waiting_match boxes heap key mine me now x rest q f found' live' apart) (
                  q,
                  f,
                  (ready.placed x q f found').0,
                  live',
                  (λ s. cc ((==_iff f.owner me.owner).1 s)),
                  refl,
                  refl,
                )
          ]
        ]
      ]
    where
      later : Among k (x ∷ rest) → (x ≢ k) → Among k rest
      later (inl same) no_such = absurd (no_such same)
      later (inr there) no_such = there

      back : {r t : Pairing} → r ≡ t → Paired t → Paired r
      back {r} {t} e l = subst Paired (sym e) l

  -- What stands at the two positions afterwards.
  pub Paired-entries :
      (out : Pairing) (paired : Paired out)
      → (get_elem? out.heap mine ≡ some (pair_entry me paired.1.box now))
        × (get_elem? out.heap paired.0 ≡ some (pair_entry paired.1 me.box now))
  Paired-entries out (q, c, at, live, foreign, _, e) =
      let apart : q ≢ mine = λ same. foreign (
        ap (λ (x : Entry). x.owner)
          (some_injective (sym at ∙ ap (get_elem? heap) same ∙ ready.here))) in
      let first = set heap q (pair_entry c me.box now) in
      let still : get_elem? first mine ≡ some me =
        get_elem?-set_ne heap (pair_entry c me.box now) apart ∙ ready.here in
      rw e (
        get_elem?-set_at first mine me (pair_entry me c.box now) still,
        get_elem?-set_ne first (pair_entry me c.box now) (λ same. apart (sym same))
            ∙ get_elem?-set_at heap q c (pair_entry c me.box now) at,
      )
