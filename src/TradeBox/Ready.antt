-- ===== src/TradeBox/Ready.antt =====
-- trade_box.go: a heap and an entry that are ready for a pairing, and what a pairing leaves.
use pokemon_violet.Base.{
  ℕ, zero, suc, ◌≡◌, refl, sym, subst, ◌⊎◌, inl, inr, true, false, some, List, [], ◌∷◌, ◌++◌, arith,
  get_elem?, set,
}
use pokemon_violet.Base.Dict.{Dict}
use pokemon_violet.Base.Text.{Bytes}
use pokemon_violet.TradeBox.Message.{Time, TimberTradeBox}
use pokemon_violet.TradeBox.Server.{Entry, entry_at, is_dead, pair_entry}
use pokemon_violet.TradeBox.Heap.{Keeps, Grows}
use pokemon_violet.TradeBox.Invariant.{key_owner, AllOwnedBy}

-- Only created boxes are matched.
abbrev pub Sound : List Entry → Type 0
Sound h = (p : ℕ) (e : Entry) → get_elem? h p ≡ some e → e.matched ≡ true → e.created ≡ true

pub get_elem?-set_inv :
    (h : List Entry) (p q : ℕ) (f g : Entry)
    → get_elem? (set h p f) q ≡ some g
    → (f ≡ g) ⊎ (get_elem? h q ≡ some g)
get_elem?-set_inv [] p q f g at = cc
get_elem?-set_inv (x ∷ h) zero zero f g at = inl cc
get_elem?-set_inv (x ∷ h) zero (suc q) f g at = inr at
get_elem?-set_inv (x ∷ h) (suc p) zero f g at = inr at
get_elem?-set_inv (x ∷ h) (suc p) (suc q) f g at = get_elem?-set_inv h p q f g at

pub Sound-set :
    (h : List Entry) (p : ℕ) (f : Entry) → Sound h → f.created ≡ true → Sound (set h p f)
Sound-set h p f sound made q g at m = elim (get_elem?-set_inv h p q f g at) [
  | inl same ↦ subst (λ (x : Entry). x.created ≡ true) same made
  | inr old ↦ sound q g old m
]

pub Sound-append :
    (h : List Entry) (f : Entry)
    → Sound h
    → (f.matched ≡ true → f.created ≡ true)
    → Sound (h ++ (f ∷ []))
Sound-append [] f sound ok_f zero g at m =
    let same : f ≡ g = cc in
    subst (λ (x : Entry). x.created ≡ true) same
      (ok_f (subst (λ (x : Entry). x.matched ≡ true) (sym same) m))
Sound-append [] f sound ok_f (suc q) g at m = cc
Sound-append (x ∷ h) f sound ok_f zero g at m = sound zero g at m
Sound-append (x ∷ h) f sound ok_f (suc q) g at m =
    Sound-append h f (λ p e. sound (suc p) e) ok_f q g at m

pub pair_entry-Keeps :
    (e : Entry) (other : TimberTradeBox) (now : Time)
    → e.matched ≡ false
    → Keeps e (pair_entry e other now)
pair_entry-Keeps e other now open_e = record {
  owner_kept = refl;
  app_kept = refl;
  created_kept = λ h. (h, refl);
  matched_kept = λ h. cc;
  canceled_kept = λ h. h;
}

pub some_injective : {a b : Entry} → some a ≡ some b → a ≡ b
some_injective h = cc

pub live_parts :
    (e : Entry)
    → is_dead e ≡ false
    → (e.created ≡ true) × (e.canceled ≡ false) × (e.matched ≡ false)
live_parts e live = ground arith

pub AllOwnedBy-append :
    (o : Bytes) (ks js : List Bytes) → AllOwnedBy o ks → AllOwnedBy o js → AllOwnedBy o (ks ++ js)
AllOwnedBy-append o [] js a b = b
AllOwnedBy-append o (k ∷ ks) js a b = (a.0, AllOwnedBy-append o ks js a.1 b)

-- What the loop is given: the map leads to entries of the owners that the keys name, and the new
-- entry stands at its position, created and not matched.
pub record Ready (boxes : Dict Bytes ℕ) (heap : List Entry) (key : Bytes) (mine : ℕ) (me : Entry)
    : Type 0 where
  pub placed :
      (k : Bytes) (p : ℕ) (e : Entry)
      → entry_at k boxes heap ≡ some (p, e)
      → (get_elem? heap p ≡ some e) × (e.owner ≡ key_owner k)
  pub here : get_elem? heap mine ≡ some me
  pub mine_owner : me.owner ≡ key_owner key
  pub made : me.created ≡ true
  pub single_use : me.matched ≡ false
  pub sound : Sound heap

abbrev pub Among : Bytes → List Bytes → Type 0
Among k [] = ⊥
Among k (x ∷ ks) = (x ≡ k) ⊎ Among k ks

pub owner_of_Among :
    (o k : Bytes) (waiting : List Bytes) → AllOwnedBy o waiting → Among k waiting → key_owner k ≡ o
owner_of_Among o k [] own here = absurd here
owner_of_Among o k (x ∷ waiting) own (inl same) = subst (λ (y : Bytes). key_owner y ≡ o) same own.0
owner_of_Among o k (x ∷ waiting) own (inr later) = owner_of_Among o k waiting own.1 later

-- What the loop leaves behind.
pub record Leaves (heap : List Entry) (out_heap : List Entry) (waiting : List Bytes) : Type 0 where
  pub grows : Grows heap out_heap
  pub sound : Sound out_heap
  pub single : (o : Bytes) × AllOwnedBy o waiting
