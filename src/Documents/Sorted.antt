-- ===== src/Documents/Sorted.antt =====
-- The byte order of Go strings, and sort.Strings.
use pokemon_violet.Base.{
  ◌≡◌, refl, sym, ap, ◌∙◌, ◌≢◌, inl, inr, Bool, true, false, not, List, [], ◌∷◌, arith, nat_beq,
  if◌then◌else◌, Bool-cases, nat_beq_iff, ◌==◌, ==_iff, nat_eq, bytes_eq, keep,
}
use pokemon_violet.Base.Int.{int_eq}
use pokemon_violet.Base.Text.{Bytes}
use pokemon_violet.Documents.Order.{bytes_ltb, insert_sorted, sort_strings}

pub bytes_ltb_irrefl : (a : Bytes) → bytes_ltb a a ≡ false
unfolding bytes_ltb
bytes_ltb_irrefl [] = refl
bytes_ltb_irrefl (x ∷ a) = ground (arith, bytes_ltb_irrefl a)

pub bytes_ltb_trans :
    (a b c : Bytes) → bytes_ltb a b ≡ true → bytes_ltb b c ≡ true → bytes_ltb a c ≡ true
unfolding bytes_ltb
bytes_ltb_trans [] [] c ab bc = cc
bytes_ltb_trans (x ∷ a) [] c ab bc = cc
bytes_ltb_trans a (y ∷ b) [] ab bc = cc
bytes_ltb_trans [] (y ∷ b) (z ∷ c) ab bc = refl
bytes_ltb_trans (x ∷ a) (y ∷ b) (z ∷ c) ab bc = ground (arith, ab, bc, bytes_ltb_trans a b c)

pub bytes_ltb_total : (a b : Bytes) → bytes_ltb a b ≡ false → a ≢ b → bytes_ltb b a ≡ true
unfolding bytes_ltb
bytes_ltb_total [] [] ab ne = absurd (ne refl)
bytes_ltb_total [] (y ∷ b) ab ne = cc
bytes_ltb_total (x ∷ a) [] ab ne = refl
bytes_ltb_total (x ∷ a) (y ∷ b) ab ne = elim (Bool-cases (nat_beq x y)) [
  | inl same ↦
      let head : x ≡ y = (nat_beq_iff x y).0 same in
      let rest : bytes_ltb a b ≡ false = ground (arith, ab, same) in
      let later = bytes_ltb_total a b rest (λ e. ne (cc)) in ground (arith, head, later)
  | inr differ ↦ ground (arith, ab, differ)
]

-- Every element passes the test.
abbrev pub All {ℓ} : {A : Type ℓ} → (A → Bool) → List A → Type 0
All p [] = Unit {0}
All p (a ∷ rest) = (p a ≡ true) × All p rest

pub All-keep {ℓ} : {A : Type ℓ} (p q : A → Bool) (xs : List A) → All q xs → All q (keep p xs)
All-keep p q [] all = tt
All-keep p q (a ∷ xs) all = elim (Bool-cases (p a)) [
  | inl kept ↦ rw kept (all.0, All-keep p q xs all.1)
  | inr gone ↦ rw gone (All-keep p q xs all.1)
]

pub All-keep_self {ℓ} : {A : Type ℓ} (p : A → Bool) (xs : List A) → All p (keep p xs)
All-keep_self p [] = tt
All-keep_self p (a ∷ xs) = elim (Bool-cases (p a)) [
  | inl kept ↦ rw kept (kept, All-keep_self p xs)
  | inr gone ↦ rw gone (All-keep_self p xs)
]

-- Each element is below all that follow it.
abbrev pub Ascending : List Bytes → Type 0
Ascending [] = Unit {0}
Ascending (a ∷ rest) = All (bytes_ltb a) rest × Ascending rest

insert_sorted-All :
    (p : Bytes → Bool) (a : Bytes) (xs : List Bytes)
    → p a ≡ true
    → All p xs
    → All p (insert_sorted a xs)
unfolding insert_sorted
insert_sorted-All p a [] here all = (here, tt)
insert_sorted-All p a (b ∷ xs) here all = elim (Bool-cases (bytes_ltb b a)) [
  | inl below ↦ rw below (all.0, insert_sorted-All p a xs here all.1)
  | inr above ↦ rw above (here, all)
]

pub All-weaken {ℓ} :
    {A : Type ℓ} (p q : A → Bool) (xs : List A)
    → ((x : A) → p x ≡ true → q x ≡ true)
    → All p xs
    → All q xs
All-weaken p q [] more all = tt
All-weaken p q (x ∷ xs) more all = (more x all.0, All-weaken p q xs more all.1)

-- No element is the name.
abbrev pub Without : Bytes → List Bytes → Type 0
Without a xs = All (λ x. not (a == x)) xs

abbrev pub ApartAll : List Bytes → Type 0
ApartAll [] = Unit {0}
ApartAll (a ∷ xs) = Without a xs × ApartAll xs

insert_sorted-Ascending :
    (a : Bytes) (xs : List Bytes) → Without a xs → Ascending xs → Ascending (insert_sorted a xs)
unfolding insert_sorted
insert_sorted-Ascending a [] apart up = (tt, tt)
insert_sorted-Ascending a (b ∷ xs) apart up = elim (Bool-cases (bytes_ltb b a)) [
  | inl below ↦
      rw below
        (insert_sorted-All (bytes_ltb b) a xs below up.0, insert_sorted-Ascending a xs apart.1 up.1)
  | inr not_below ↦
      let ne : b ≢ a = λ e. absurd (ground (arith, apart.0, (==_iff a b).1 (sym e))) in
      let above : bytes_ltb a b ≡ true = bytes_ltb_total b a not_below ne in
      rw not_below (
        (above, All-weaken (bytes_ltb b) (bytes_ltb a) xs (λ x. bytes_ltb_trans a b x above) up.0),
        up,
      )
]

pub sort_strings-All : (p : Bytes → Bool) (xs : List Bytes) → All p xs → All p (sort_strings xs)
unfolding sort_strings
sort_strings-All p [] all = tt
sort_strings-All p (a ∷ xs) all =
    insert_sorted-All p a (sort_strings xs) all.0 (sort_strings-All p xs all.1)

pub sort_strings-Ascending : (xs : List Bytes) → ApartAll xs → Ascending (sort_strings xs)
unfolding sort_strings
sort_strings-Ascending [] apart = tt
sort_strings-Ascending (a ∷ xs) apart =
    insert_sorted-Ascending a (sort_strings xs) (sort_strings-All (λ x. not (a == x)) xs apart.0)
      (sort_strings-Ascending xs apart.1)

insert_sorted_front :
    (a : Bytes) (xs : List Bytes) → All (λ x. not (bytes_ltb x a)) xs → insert_sorted a xs ≡ a ∷ xs
unfolding insert_sorted
insert_sorted_front a [] all = refl
insert_sorted_front a (b ∷ xs) all =
    let above : bytes_ltb b a ≡ false = ground (arith, all.0) in rw above refl

not_below :
    (a b : Bytes)
    → bytes_ltb b a ≡ false
    → (x : Bytes) → bytes_ltb b x ≡ true
    → not (bytes_ltb x a) ≡ true
not_below a b above x later = elim (Bool-cases (bytes_ltb x a)) [
  | inl under ↦ ground (arith, above, bytes_ltb_trans b x a later under)
  | inr fine ↦ rw fine refl
]

keep-insert_sorted :
    (p : Bytes → Bool) (a : Bytes) (xs : List Bytes)
    → Ascending xs
    → keep p (insert_sorted a xs) ≡ (if p a then insert_sorted a (keep p xs) else keep p xs)
unfolding insert_sorted
keep-insert_sorted p a [] up = refl
keep-insert_sorted p a (b ∷ xs) up = elim (Bool-cases (bytes_ltb b a)) [
  | inl below ↦ ground (arith, below, keep-insert_sorted p a xs up.1)
  | inr above ↦
      let later : All (λ x. not (bytes_ltb x a)) (b ∷ xs) = (
        ground (arith, above),
        All-weaken (bytes_ltb b) (λ x. not (bytes_ltb x a)) xs (not_below a b above) up.0,
      ) in
      let front =
        insert_sorted_front a (keep p (b ∷ xs))
          (All-keep p (λ x. not (bytes_ltb x a)) (b ∷ xs) later) in
      elim (Bool-cases (p a)) [
        | inl kept ↦ rw above (rw kept (sym front))
        | inr gone ↦ rw above (rw gone refl)
      ]
]

-- Sorting commutes with a filter.
pub keep-sort_strings :
    (p : Bytes → Bool) (xs : List Bytes)
    → ApartAll xs
    → keep p (sort_strings xs) ≡ sort_strings (keep p xs)
unfolding sort_strings
keep-sort_strings p [] apart = refl
keep-sort_strings p (a ∷ xs) apart =
    keep-insert_sorted p a (sort_strings xs) (sort_strings-Ascending xs apart.1)
    ∙ elim (Bool-cases (p a)) [
      | inl kept ↦ rw kept (ap (insert_sorted a) (keep-sort_strings p xs apart.1))
      | inr gone ↦ rw gone (keep-sort_strings p xs apart.1)
    ]
