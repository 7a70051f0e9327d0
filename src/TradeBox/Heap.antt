-- ===== src/TradeBox/Heap.antt =====
-- trade_box.go: how the heap of entries changes.
use pokemon_violet.Base.{
  ℕ, zero, suc, ◌<◌, ◌≡◌, refl, ◌∙◌, subst, inl, inr, true, some, List, [], ◌∷◌, ◌++◌, arith,
  Bool-cases, ◌==◌, ==_iff, nat_eq, bytes_eq, length, get_elem?, set, get_elem?-set_self,
  get_elem?-set_ne,
}
use pokemon_violet.Base.Int.{int_eq}
use pokemon_violet.TradeBox.Server.{Entry}

-- An entry keeps its owner and application; a created one keeps its box, a matched one its result,
-- and a canceled one stays canceled.
pub record Keeps (e f : Entry) : Type 0 where
  pub owner_kept : f.owner ≡ e.owner
  pub app_kept : f.app_id ≡ e.app_id
  pub created_kept : e.created ≡ true → (f.created ≡ true) × (f.box ≡ e.box)
  pub matched_kept : e.matched ≡ true → (f.matched ≡ true) × (f.result ≡ e.result)
  pub canceled_kept : e.canceled ≡ true → f.canceled ≡ true

pub Keeps-refl : (e : Entry) → Keeps e e
Keeps-refl e = record {
  owner_kept = refl;
  app_kept = refl;
  created_kept = λ h. (h, refl);
  matched_kept = λ h. (h, refl);
  canceled_kept = λ h. h;
}

pub Keeps-trans : (e f g : Entry) → Keeps e f → Keeps f g → Keeps e g
Keeps-trans e f g a b = record {
  owner_kept = b.owner_kept ∙ a.owner_kept;
  app_kept = b.app_kept ∙ a.app_kept;
  created_kept =
      λ h. let (h', q) = a.created_kept h in let (h'', q') = b.created_kept h' in (h'', q' ∙ q);
  matched_kept =
      λ h. let (h', q) = a.matched_kept h in let (h'', q') = b.matched_kept h' in (h'', q' ∙ q);
  canceled_kept = λ h. b.canceled_kept (a.canceled_kept h);
}

-- Every entry of the old heap stands at its position in the new one, with what it keeps.
abbrev pub Grows : List Entry → List Entry → Type 0
Grows h k =
    (p : ℕ) (e : Entry)
    → get_elem? h p ≡ some e
    → (f : Entry) × (get_elem? k p ≡ some f) × Keeps e f

pub Grows-refl : (h : List Entry) → Grows h h
Grows-refl h p e at = (e, at, Keeps-refl e)

pub Grows-trans : (h k l : List Entry) → Grows h k → Grows k l → Grows h l
Grows-trans h k l a b p e at =
    let (f, at', kept) = a p e at in
    let (g, at'', kept') = b p f at' in (g, at'', Keeps-trans e f g kept kept')

get_elem?-lt : (h : List Entry) (p : ℕ) (e : Entry) → get_elem? h p ≡ some e → p < length h
get_elem?-lt [] p e at = cc
get_elem?-lt (x ∷ h) zero e at = omega arith
get_elem?-lt (x ∷ h) (suc p) e at = omega (arith, get_elem?-lt h p e at)

pub get_elem?-set_at :
    (h : List Entry) (p : ℕ) (e f : Entry)
    → get_elem? h p ≡ some e
    → get_elem? (set h p f) p ≡ some f
get_elem?-set_at h p e f at = get_elem?-set_self h p f (get_elem?-lt h p e at)

-- A write that keeps what the old entry settled.
pub Grows-set :
    (h : List Entry) (p : ℕ) (e f : Entry)
    → get_elem? h p ≡ some e
    → Keeps e f
    → Grows h (set h p f)
Grows-set h p e f at kept q g at' = elim (Bool-cases (p == q)) [
  | inl same ↦
      let here : p ≡ q = (==_iff p q).0 same in
      let one : e ≡ g = cc in
      (
        f,
        subst (λ (i : ℕ). get_elem? (set h p f) i ≡ some f) here (get_elem?-set_at h p e f at),
        subst (λ (x : Entry). Keeps x f) one kept,
      )
  | inr other ↦ (g, get_elem?-set_ne h f (λ (s : p ≡ q). cc ((==_iff p q).1 s)) ∙ at', Keeps-refl g)
]

pub get_elem?-append :
    (h k : List Entry) (p : ℕ) (e : Entry) → get_elem? h p ≡ some e → get_elem? (h ++ k) p ≡ some e
get_elem?-append [] k p e at = cc
get_elem?-append (x ∷ h) k zero e at = at
get_elem?-append (x ∷ h) k (suc p) e at = get_elem?-append h k p e at

pub Grows-append : (h k : List Entry) → Grows h (h ++ k)
Grows-append h k p e at = (e, get_elem?-append h k p e at, Keeps-refl e)
