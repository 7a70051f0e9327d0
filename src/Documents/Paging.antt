-- ===== src/Documents/Paging.antt =====
-- gamesync_reads.go: the pages of ListDocuments, which a client follows by their tokens.
use pokemon_violet.Base.{
  ℕ, zero, suc, ◌≤◌, ◌<◌, ◌≡◌, refl, sym, ◌⊎◌, inl, inr, Bool, true, false, ◌&&◌, not, Option, none,
  List, [], ◌∷◌, ◌++◌, arith, Bool-cases, ◌==◌, ==_iff, ==_ne, nat_eq, bytes_eq, length, take, drop,
  keep,
}
use pokemon_violet.Base.Dict.{Dict, lookup, UniqueKeys}
use pokemon_violet.Base.Int.{int_eq}
use pokemon_violet.Base.Result.{Result, ok, ◌>>=◌, Result-cases}
use pokemon_violet.Base.Text.{Bytes, before}
use pokemon_violet.Documents.Message.{Document}
use pokemon_violet.Documents.Order.{bytes_ltb}
use pokemon_violet.Documents.Reads.{collect, ListDocumentsResponse, names_of, masked_at, list_page}
use pokemon_violet.Documents.Sorted.{
  Ascending, bytes_ltb_irrefl, bytes_ltb_trans, All, All-keep, Without, ApartAll,
}

-- The token after the page that takes `left` names: the last name taken, if any is left over.
abbrev pub next_token : ℕ → Bytes → List Bytes → Bytes
next_token left last [] = []
next_token zero last (x ∷ xs) = last
next_token (suc left) last (x ∷ xs) = next_token left x xs

pub next_token-All :
    (p : Bytes → Bool) (left : ℕ) (last : Bytes) (xs : List Bytes)
    → p last ≡ true
    → All p xs
    → left < length xs
    → p (next_token left last xs) ≡ true
next_token-All p left last [] here all more = absurd (omega arith)
next_token-All p zero last (x ∷ xs) here all more = here
next_token-All p (suc left) last (x ∷ xs) here all more =
    next_token-All p left x xs all.0 all.1 (omega arith)

pub next_token-end :
    (left : ℕ) (last : Bytes) (xs : List Bytes) → length xs ≤ left → next_token left last xs ≡ []
next_token-end left last [] few = refl
next_token-end zero last (x ∷ xs) few = absurd (omega arith)
next_token-end (suc left) last (x ∷ xs) few = next_token-end left x xs (omega arith)

keep-All {ℓ} : {A : Type ℓ} (p : A → Bool) (xs : List A) → All p xs → keep p xs ≡ xs
keep-All p [] all = refl
keep-All p (x ∷ xs) all = rw (all.0, keep-All p xs all.1) refl

-- The names after the token are those that the page leaves over.
pub keep-next_token :
    (left : ℕ) (last : Bytes) (xs : List Bytes)
    → Ascending (last ∷ xs)
    → left < length xs
    → (keep (bytes_ltb (next_token left last xs)) xs ≡ drop left xs)
      × ((next_token left last xs ≡ last) ⊎ (bytes_ltb last (next_token left last xs) ≡ true))
keep-next_token left last [] up more = absurd (omega arith)
keep-next_token zero last (x ∷ xs) up more = (keep-All (bytes_ltb last) (x ∷ xs) up.0, inl refl)
keep-next_token (suc left) last (x ∷ xs) up more =
    let token = next_token left x xs in
    let (same, order) = keep-next_token left x xs up.1 (omega arith) in
    let past : bytes_ltb token x ≡ false = elim order [
      | inl e ↦ rw e (bytes_ltb_irrefl x)
      | inr under ↦ elim (Bool-cases (bytes_ltb token x)) [
        | inl over ↦ ground (arith, bytes_ltb_irrefl x, bytes_ltb_trans x token x under over)
        | inr fine ↦ fine
      ]
    ] in
    (
      rw past same,
      inr (elim order [
        | inl e ↦ rw e up.0.0
        | inr under ↦ bytes_ltb_trans last x token up.0.0 under
      ]),
    )

pub collect-append {ℓ κ} :
    {A : Type ℓ} {B : Type κ} (visit : A → Result B) (xs ys : List A)
    → collect visit (xs ++ ys)
      ≡ (collect visit xs >>= λ bs. collect visit ys >>= λ cs. ok (bs ++ cs))
unfolding collect
collect-append visit [] ys = elim (Result-cases (collect visit ys)) [
  | inl (c, failed) ↦ rw failed refl
  | inr (cs, fine) ↦ rw fine refl
]
collect-append visit (x ∷ xs) ys = elim (Result-cases (visit x)) [
  | inl (c, failed) ↦ rw failed refl
  | inr (b, seen) ↦ rw seen (
      rw (collect-append visit xs ys) (elim (Result-cases (collect visit xs)) [
        | inl (c, failed) ↦ rw failed refl
        | inr (bs, fine) ↦ rw fine (elim (Result-cases (collect visit ys)) [
          | inl (c, failed) ↦ rw failed refl
          | inr (cs, done) ↦ rw done refl
        ])
      ]))
]

abbrev pub page_of : ℕ → Bytes → List Bytes → List Document → ListDocumentsResponse
page_of left last xs ds = record { documents = ds; next_page_token = next_token left last xs }

-- One page: the documents of the first names, and the token of the rest.
pub list_page_lem :
    (docs : Dict Bytes Document) (mask : Option (List Bytes)) (left : ℕ) (last : Bytes)
    (xs : List Bytes)
    → list_page docs mask left last xs
      ≡ (collect (masked_at docs mask) (take left xs) >>= λ ds. ok (page_of left last xs ds))
unfolding list_page collect
list_page_lem docs mask zero last [] = refl
list_page_lem docs mask (suc left) last [] = refl
list_page_lem docs mask zero last (x ∷ xs) = refl
list_page_lem docs mask (suc left) last (x ∷ xs) = elim (Result-cases (masked_at docs mask x)) [
  | inl (c, failed) ↦ rw failed refl
  | inr (d, seen) ↦ rw seen (
      rw (list_page_lem docs mask left x xs)
        (elim (Result-cases (collect (masked_at docs mask) (take left xs))) [
          | inl (c, failed) ↦ rw failed refl
          | inr (ds, fine) ↦ rw fine refl
        ]))
]

-- The names of a map, whose keys are distinct.
names-Without :
    (k : Bytes) (docs : Dict Bytes Document) → lookup k docs ≡ none → Without k (names_of docs)
unfolding lookup
names-Without k [] free = tt
names-Without k ((j, d) ∷ docs) free = elim (Bool-cases (j == k)) [
  | inl same ↦ ground (arith, same, free)
  | inr other ↦
      let back : (k == j) ≡ false =
        ==_ne k j (λ e. absurd (ground (arith, other, (==_iff j k).1 (sym e)))) in
      (rw back refl, names-Without k docs (ground (arith, other, free)))
]

pub names-ApartAll : (docs : Dict Bytes Document) → UniqueKeys docs → ApartAll (names_of docs)
names-ApartAll [] unique = tt
names-ApartAll ((k, d) ∷ docs) unique =
    (names-Without k docs unique.0, names-ApartAll docs unique.1)

pub keep-ApartAll : (p : Bytes → Bool) (xs : List Bytes) → ApartAll xs → ApartAll (keep p xs)
keep-ApartAll p [] apart = tt
keep-ApartAll p (x ∷ xs) apart = elim (Bool-cases (p x)) [
  | inl kept ↦ rw kept (All-keep p (λ y. not (x == y)) xs apart.0, keep-ApartAll p xs apart.1)
  | inr gone ↦ rw gone (keep-ApartAll p xs apart.1)
]

-- Filtering again by a later token is filtering by that token.
pub keep_later :
    (coll : Bytes → Bool) (t u : Bytes) (xs : List Bytes)
    → bytes_ltb t u ≡ true
    → keep (bytes_ltb u) (keep (λ x. coll x && bytes_ltb t x) xs)
      ≡ keep (λ x. coll x && bytes_ltb u x) xs
keep_later coll t u [] before = refl
keep_later coll t u (x ∷ xs) before =
    ground (arith, bytes_ltb_trans t u x before, keep_later coll t u xs before)
