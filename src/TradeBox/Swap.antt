-- ===== src/TradeBox/Swap.antt =====
-- trade_box.go: what a placement that pairs two boxes leaves in the heap.
use pokemon_violet.Base.{
  ℕ, zero, suc, ◌≡◌, refl, sym, ap, ◌∙◌, subst, ◌≢◌, ◌⊎◌, inl, inr, true, false, ◌||◌, some, List,
  [], ◌∷◌, ◌++◌, arith, Bool-cases, Option-cases, nat_eq, bytes_eq, length, get_elem?, set,
  get_elem?-set_ne,
}
use pokemon_violet.Base.Dict.{Dict, lookup, insert, lookup-insert_ne}
use pokemon_violet.Base.Int.{int_eq}
use pokemon_violet.Base.Result.{already_exists, Result, err, ok}
use pokemon_violet.Base.Text.{Bytes}
use pokemon_violet.TradeBox.Message.{Time, TimberTradeBox, zero_box, trade_box_traded}
use pokemon_violet.TradeBox.Server.{
  Entry, entry_at, is_dead, traded, pair_entry, pair_waiting, Server, fill_entry, empty_entry,
  place_box,
}
use pokemon_violet.TradeBox.Pairing.{Paired, Paired-entries, pair_waiting-pairs}
use pokemon_violet.TradeBox.Ready.{Ready, get_elem?-set_inv, some_injective, Among, live_parts}
use pokemon_violet.TradeBox.Heap.{get_elem?-append}
use pokemon_violet.TradeBox.Invariant.{key_owner, Inv, entry_at-found, owner_of_entry}
use pokemon_violet.TradeBox.Placing.{placed_new, placed_old}

-- In the new heap the box stands matched, with the payload and signature of a box that stood live
-- in the old heap, of another owner; and that box is matched at its place with the payload and
-- signature of the new one.
abbrev pub Swapped : List Entry → List Entry → Bytes → TimberTradeBox → Time → Type 0
Swapped old_heap new_heap owner box now =
    (mine : ℕ) × (me : Entry) × (q : ℕ) × (c : Entry) × (d : Entry) × (get_elem? new_heap mine
      ≡ some me)
    × (me.owner ≡ owner)
    × (me.matched ≡ true)
    × (me.box ≡ box)
    × (me.result ≡ record box {
      state = trade_box_traded;
      timestamp = now;
      payload = c.box.payload;
      signature = c.box.signature;
    })
    × (get_elem? old_heap q ≡ some c)
    × (is_dead c ≡ false)
    × (c.owner ≢ owner)
    × (get_elem? new_heap q ≡ some d)
    × (d.matched ≡ true)
    × (d.result ≡ record (c.box) {
      state = trade_box_traded;
      timestamp = now;
      payload = box.payload;
      signature = box.signature;
    })
    × (d.notify ≡ true)
    × (d.created ≡ true)

entry_at_of :
    (key : Bytes) (boxes : Dict Bytes ℕ) (heap : List Entry) (p : ℕ) (e : Entry)
    → lookup key boxes ≡ some p
    → get_elem? heap p ≡ some e
    → entry_at key boxes heap ≡ some (p, e)
unfolding entry_at
entry_at_of key boxes heap p e at at' = rw (at, entry_at) (rw at')

Swapped-of :
    (boxes : Dict Bytes ℕ) (old_heap heap : List Entry) (key owner : Bytes) (mine : ℕ) (me : Entry)
    (box : TimberTradeBox) (now : Time) (ready : Ready boxes heap key mine me)
    (waiting : List Bytes)
    → me.owner ≡ owner
    → me.box ≡ box
    → ((q : ℕ) (c : Entry)
        → get_elem? heap q ≡ some c
        → c.owner ≢ owner
        → get_elem? old_heap q ≡ some c)
    → Paired boxes heap key mine me now ready
        (pair_waiting me.owner boxes heap key mine me now waiting)
    → Swapped old_heap (pair_waiting owner boxes heap key mine me now waiting).heap owner box now
unfolding traded
Swapped-of boxes old_heap heap key owner mine me box now ready waiting own is_box from paired =
    let (at_me, at_c) =
      Paired-entries boxes heap key mine me now ready
        (pair_waiting me.owner boxes heap key mine me now waiting) paired in
    let c = paired.1 in
    let foreign : c.owner ≢ owner = λ e. paired.4 (e ∙ sym own) in
    subst
      (λ (o : Bytes).
        Swapped old_heap (pair_waiting o boxes heap key mine me now waiting).heap owner box now)
      own
      (
        mine,
        pair_entry me c.box now,
        paired.0,
        c,
        pair_entry c me.box now,
        at_me,
        own,
        refl,
        is_box,
        ap (λ (b : TimberTradeBox). traded b c.box now) is_box,
        from paired.0 c paired.2 foreign,
        paired.3,
        foreign,
        at_c,
        refl,
        ap (λ (b : TimberTradeBox). traded c.box b now) is_box,
        refl,
        (live_parts c paired.3).0,
      )

get_elem?-append_inv :
    (h : List Entry) (x : Entry) (q : ℕ) (c : Entry)
    → get_elem? (h ++ (x ∷ [])) q ≡ some c
    → (x ≡ c) ⊎ (get_elem? h q ≡ some c)
get_elem?-append_inv [] x zero c at = inl cc
get_elem?-append_inv [] x (suc q) c at = cc
get_elem?-append_inv (y ∷ h) x zero c at = inr at
get_elem?-append_inv (y ∷ h) x (suc q) c at = get_elem?-append_inv h x q c at

module _ (s : Server) (owner app_id key : Bytes) (box : TimberTradeBox) (now : Time) (v : Inv s)
    (own : owner ≡ key_owner key) (k : Bytes) (p : ℕ) (e : Entry) (here : Among k s.waiting)
    (found : entry_at k s.boxes s.heap ≡ some (p, e)) (live : is_dead e ≡ false)
    (foreign : e.owner ≢ owner) where
  other_key : key ≢ k
  other_key same = foreign (owner_of_entry s v k p e found ∙ sym (ap key_owner same) ∙ sym own)

  place_new_swaps :
      let me = fill_entry (empty_entry owner app_id zero_box) box in
      Swapped s.heap
        (pair_waiting owner
          (insert key (length s.heap) s.boxes)
          (s.heap ++ (me ∷ []))
          key
          (length s.heap)
          me
          now
          s.waiting).heap
        owner
        box
        now
  place_new_swaps =
      let me = fill_entry (empty_entry owner app_id zero_box) box in
      let boxes = insert key (length s.heap) s.boxes in
      let heap = s.heap ++ (me ∷ []) in
      let ready = placed_new s owner app_id key box v own in
      let (at, at') = entry_at-found s k p e found in
      let found' =
        entry_at_of k boxes heap p e (lookup-insert_ne key k (length s.heap) s.boxes other_key ∙ at)
          (get_elem?-append s.heap (me ∷ []) p e at') in
      Swapped-of boxes s.heap heap key owner (length s.heap) me box now ready s.waiting refl refl
        (λ q c at'' apart. elim (get_elem?-append_inv s.heap me q c at'') [
          | inl same ↦ absurd (apart (ap (λ (x : Entry). x.owner) (sym same)))
          | inr old ↦ old
        ])
        (pair_waiting-pairs boxes heap key (length s.heap) me now ready v.single.0 s.waiting k p e
          v.single.1 here found' live foreign)

  place_old_swaps :
      (mine : ℕ) (f : Entry)
      → entry_at key s.boxes s.heap ≡ some (mine, f)
      → f.created ≡ false
      → Swapped s.heap
          (pair_waiting owner s.boxes
            (set s.heap mine (fill_entry f box))
            key
            mine
            (fill_entry f box)
            now
            s.waiting).heap
          owner
          box
          now
  place_old_swaps mine f found_f fresh =
      let me = fill_entry f box in
      let heap = set s.heap mine me in
      let ready = (placed_old s key mine f box v found_f fresh).0 in
      let (at, at') = entry_at-found s k p e found in
      let (_, at_f) = entry_at-found s key mine f found_f in
      let own_f : f.owner ≡ owner = owner_of_entry s v key mine f found_f ∙ sym own in
      let apart : mine ≢ p = λ same. foreign (
        ap (λ (x : Entry). x.owner)
          (some_injective (sym at' ∙ ap (get_elem? s.heap) (sym same) ∙ at_f))
        ∙ own_f) in
      let found' = entry_at_of k s.boxes heap p e at (get_elem?-set_ne s.heap me apart ∙ at') in
      Swapped-of s.boxes s.heap heap key owner mine me box now ready s.waiting own_f refl
        (λ q c at'' other. elim (get_elem?-set_inv s.heap mine q me c at'') [
          | inl same ↦ absurd (other (ap (λ (x : Entry). x.owner) (sym same) ∙ own_f))
          | inr old ↦ old
        ])
        (pair_waiting-pairs s.boxes heap key mine me now ready v.single.0 s.waiting k p e v.single.1
          here found' live (λ same. foreign (same ∙ own_f)))

  pub place_box_swaps :
      (t : Server) (b : TimberTradeBox)
      → place_box s owner app_id key box now ≡ (t, ok b)
      → (b ≡ box) × Swapped s.heap t.heap owner box now
  unfolding place_box
  place_box_swaps t b done = elim (Option-cases (entry_at key s.boxes s.heap)) [
    | inl missing ↦
        finish t b
          (let me = fill_entry (empty_entry owner app_id zero_box) box in
            let out =
              pair_waiting owner (insert key (length s.heap) s.boxes) (s.heap ++ (me ∷ [])) key
                (length s.heap) me now s.waiting in
            record {
              heap = out.heap;
              boxes = insert key (length s.heap) s.boxes;
              waiting = out.waiting;
            })
          (rw (missing, place_box)) place_new_swaps done
    | inr ((mine, f), found_f) ↦ elim (Bool-cases (f.created || f.canceled)) [
      | inl taken ↦
          let failed : place_box s owner app_id key box now ≡ (s, err already_exists) =
            rw (found_f, place_box) (rw taken) in
          ground (arith, failed)
      | inr free ↦
          finish t b
            (let out =
                pair_waiting owner s.boxes (set s.heap mine (fill_entry f box)) key mine
                  (fill_entry f box) now s.waiting in
              record { heap = out.heap; boxes = s.boxes; waiting = out.waiting })
            (rw (found_f, place_box) (rw free)) (place_old_swaps mine f found_f (ground arith)) done
    ]
  ]
    where
      finish :
          (t : Server) (b : TimberTradeBox) (u : Server)
          → place_box s owner app_id key box now ≡ (u, ok box)
          → Swapped s.heap u.heap owner box now
          → place_box s owner app_id key box now ≡ (t, ok b)
          → (b ≡ box) × Swapped s.heap t.heap owner box now
      finish t b u e' swapped done' =
          let q : ◌≡◌ {A = Server × Result TimberTradeBox} (u, ok box) (t, ok b) = sym e' ∙ done' in
          let same : ok box ≡ ok b = ap (λ (x : Server × Result TimberTradeBox). x.1) q in
          (
            cc,
            subst (λ (x : Server). Swapped s.heap x.heap owner box now)
                (ap (λ (x : Server × Result TimberTradeBox). x.0) q) swapped,
          )
