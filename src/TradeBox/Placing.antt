-- ===== src/TradeBox/Placing.antt =====
-- trade_box.go: placing a box keeps the invariant of the server.
use pokemon_violet.Base.{
  ℕ, ◌≡◌, refl, sym, ◌∙◌, subst, inl, inr, true, false, ◌||◌, some, List, [], ◌∷◌, ◌++◌, arith,
  Bool-cases, Option-cases, ◌==◌, ==_iff, nat_eq, bytes_eq, length, get_elem?, set,
  get_elem?-append_last,
}
use pokemon_violet.Base.Dict.{Dict, lookup, delete, insert, lookup-insert, lookup-delete}
use pokemon_violet.Base.Int.{int_eq}
use pokemon_violet.Base.Text.{Bytes, Lacks, before-append}
use pokemon_violet.TradeBox.Message.{Time, TimberTradeBox, zero_box}
use pokemon_violet.TradeBox.Server.{
  Entry, Server, entry_at, trade_box_storage_key_for_app, pair_waiting, fill_entry, empty_entry,
  place_box,
}
use pokemon_violet.TradeBox.Heap.{
  Keeps, Grows, Grows-refl, Grows-trans, get_elem?-set_at, Grows-set, Grows-append,
}
use pokemon_violet.TradeBox.Invariant.{key_owner, Inv, entry_at-found}
use pokemon_violet.TradeBox.Pairing.{pair_waiting-Leaves}
use pokemon_violet.TradeBox.Ready.{Leaves, Sound, Ready, Sound-set, Sound-append}

-- A call keeps the invariant, and every entry of the heap keeps its place and what is settled.
pub record Good (s t : Server) : Type 0 where
  pub inv : Inv t
  pub grows : Grows s.heap t.heap

pub Good-refl : (s : Server) → Inv s → Good s s
Good-refl s v = record { inv = v; grows = Grows-refl s.heap }

pub key_owner-storage_key :
    (owner app_id id : Bytes)
    → Lacks 0 owner
    → key_owner (trade_box_storage_key_for_app owner app_id id) ≡ owner
unfolding trade_box_storage_key_for_app
key_owner-storage_key owner app_id id clean = before-append 0 owner (app_id ++ (0 ∷ id)) clean

-- The map's part of the invariant, for a map and a heap.
abbrev Placed : Dict Bytes ℕ → List Entry → Type 0
Placed boxes heap =
    (key : Bytes) (p : ℕ)
    → lookup key boxes ≡ some p
    → (e : Entry) × (get_elem? heap p ≡ some e) × (e.owner ≡ key_owner key)

pub Placed-Grows :
    (boxes : Dict Bytes ℕ) (h k : List Entry) → Grows h k → Placed boxes h → Placed boxes k
Placed-Grows boxes h k grows placed key p at =
    let (e, at', own) = placed key p at in
    let (f, at'', kept) = grows p e at' in (f, at'', kept.owner_kept ∙ own)

pub Placed-insert :
    (boxes : Dict Bytes ℕ) (h : List Entry) (key : Bytes) (p : ℕ) (e : Entry)
    → get_elem? h p ≡ some e
    → e.owner ≡ key_owner key
    → Placed boxes h
    → Placed (insert key p boxes) h
Placed-insert boxes h key p e at own placed k q there = elim (Bool-cases (key == k)) [
  | inl same ↦
      let here : key ≡ k = (==_iff key k).0 same in
      let one : p ≡ q = ground (arith, lookup-insert key k p boxes) in
      (
        e,
        subst (λ (i : ℕ). get_elem? h i ≡ some e) one at,
        subst (λ (b : Bytes). e.owner ≡ key_owner b) here own,
      )
  | inr other ↦ placed k q (ground (arith, lookup-insert key k p boxes))
]

pub Placed-delete :
    (boxes : Dict Bytes ℕ) (h : List Entry) (key : Bytes)
    → Placed boxes h
    → Placed (delete key boxes) h
Placed-delete boxes h key placed k q there = placed k q (ground (arith, lookup-delete key k boxes))

Ready-of :
    (boxes : Dict Bytes ℕ) (heap : List Entry) (waiting : List Bytes) (key : Bytes) (mine : ℕ)
    (me : Entry)
    → Placed boxes heap
    → get_elem? heap mine ≡ some me
    → me.owner ≡ key_owner key
    → me.created ≡ true
    → me.matched ≡ false
    → Sound heap
    → Ready boxes heap key mine me
Ready-of boxes heap waiting key mine me placed here own made unused sound = record {
  placed = λ k p e found.
      let (at, at') =
        entry_at-found (record { heap = heap; boxes = boxes; waiting = waiting }) k p e found in
      let (f, at'', own') = placed k p at in
      let same : f ≡ e = let q : some f ≡ some e = sym at'' ∙ at' in cc in
      (at', subst (λ (x : Entry). x.owner ≡ key_owner k) same own');
  here = here;
  mine_owner = own;
  made = made;
  single_use = unused;
  sound = sound;
}

fill_entry-Keeps :
    (e : Entry) (box : TimberTradeBox)
    → e.created ≡ false
    → e.matched ≡ false
    → Keeps e (fill_entry e box)
fill_entry-Keeps e box fresh open_e = record {
  owner_kept = refl;
  app_kept = refl;
  created_kept = λ h. cc;
  matched_kept = λ h. cc;
  canceled_kept = λ h. h;
}

-- What `place_box` starts from: the heap and the map with the new entry filled in.
pub placed_new :
    (s : Server) (owner app_id key : Bytes) (box : TimberTradeBox)
    → Inv s
    → owner ≡ key_owner key
    → let me = fill_entry (empty_entry owner app_id zero_box) box in
      Ready (insert key (length s.heap) s.boxes) (s.heap ++ (me ∷ [])) key (length s.heap) me
placed_new s owner app_id key box v own =
    let me = fill_entry (empty_entry owner app_id zero_box) box in
    let heap = s.heap ++ (me ∷ []) in
    let here = get_elem?-append_last s.heap me in
    Ready-of (insert key (length s.heap) s.boxes) heap s.waiting key (length s.heap) me
      (Placed-insert s.boxes heap key (length s.heap) me here own
        (Placed-Grows s.boxes s.heap heap (Grows-append s.heap (me ∷ [])) v.placed))
      here own refl refl (Sound-append s.heap me v.sound (λ m. refl))

pub placed_old :
    (s : Server) (key : Bytes) (mine : ℕ) (e : Entry) (box : TimberTradeBox)
    → Inv s
    → entry_at key s.boxes s.heap ≡ some (mine, e)
    → e.created ≡ false
    → Ready s.boxes (set s.heap mine (fill_entry e box)) key mine (fill_entry e box)
      × Grows s.heap (set s.heap mine (fill_entry e box))
placed_old s key mine e box v found fresh =
    let me = fill_entry e box in
    let heap = set s.heap mine me in
    let (at, at') = entry_at-found s key mine e found in
    let (f, at'', own) = v.placed key mine at in
    let same : f ≡ e = let q : some f ≡ some e = sym at'' ∙ at' in cc in
    let unused : e.matched ≡ false = elim (Bool-cases e.matched) [
      | inl used ↦ let made = v.sound mine e at' used in cc
      | inr unused ↦ unused
    ] in
    let grows = Grows-set s.heap mine e me at' (fill_entry-Keeps e box fresh unused) in
    (
      Ready-of s.boxes heap s.waiting key mine me (Placed-Grows s.boxes s.heap heap grows v.placed)
          (get_elem?-set_at s.heap mine e me at')
          (subst (λ (x : Entry). x.owner ≡ key_owner key) same own) refl unused
          (Sound-set s.heap mine me v.sound refl),
      grows,
    )

leaves-Good :
    (s : Server) (owner : Bytes) (boxes : Dict Bytes ℕ) (heap : List Entry) (key : Bytes) (mine : ℕ)
    (me : Entry) (now : Time)
    → Inv s
    → owner ≡ key_owner key
    → Ready boxes heap key mine me
    → Placed boxes heap
    → Grows s.heap heap
    → let out = pair_waiting owner boxes heap key mine me now s.waiting in
      Good s (record { heap = out.heap; boxes = boxes; waiting = out.waiting })
leaves-Good s owner boxes heap key mine me now v own ready placed grows =
    let left =
      subst
        (λ (o : Bytes).
          Leaves heap (pair_waiting o boxes heap key mine me now s.waiting).heap
            (pair_waiting o boxes heap key mine me now s.waiting).waiting)
        (ready.mine_owner ∙ sym own)
        (pair_waiting-Leaves boxes heap key mine me now ready v.single.0 s.waiting v.single.1) in
    record {
      inv = record {
        placed = Placed-Grows boxes heap _ left.grows placed;
        sound = left.sound;
        single = left.single;
      };
      grows = Grows-trans s.heap heap _ grows left.grows;
    }

pub place_box-Good :
    (s : Server) (owner app_id key : Bytes) (box : TimberTradeBox) (now : Time)
    → Inv s
    → owner ≡ key_owner key
    → Good s (place_box s owner app_id key box now).0
unfolding place_box
place_box-Good s owner app_id key box now v own =
    elim (Option-cases (entry_at key s.boxes s.heap)) [
      | inl missing ↦
          let me = fill_entry (empty_entry owner app_id zero_box) box in
          rw (missing, place_box)
            (leaves-Good s owner (insert key (length s.heap) s.boxes) (s.heap ++ (me ∷ [])) key
              (length s.heap) me now v own (placed_new s owner app_id key box v own)
              (Placed-insert s.boxes (s.heap ++ (me ∷ [])) key (length s.heap) me
                (get_elem?-append_last s.heap me) own
                (Placed-Grows s.boxes s.heap _ (Grows-append s.heap (me ∷ [])) v.placed))
              (Grows-append s.heap (me ∷ [])))
      | inr ((mine, e), found) ↦ elim (Bool-cases (e.created || e.canceled)) [
        | inl taken ↦ rw (found, place_box) (rw taken (Good-refl s v))
        | inr free ↦
            let ready = placed_old s key mine e box v found (ground arith) in
            rw (found, place_box)
              (rw free (
                leaves-Good s owner s.boxes (set s.heap mine (fill_entry e box)) key mine
                  (fill_entry e box) now v own ready.0
                  (Placed-Grows s.boxes s.heap _ ready.1 v.placed) ready.1))
      ]
    ]
