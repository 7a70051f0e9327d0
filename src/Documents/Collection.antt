-- ===== src/Documents/Collection.antt =====
-- gamesync_reads.go: the names that ListDocuments lists.
use pokemon_violet.Base.{
  suc, ◌≤◌, ◌≡◌, refl, ap, ◌∙◌, Bool, true, false, ◌&&◌, List, [], ◌∷◌, arith, ◌==◌, nat_eq,
  bytes_beq, bytes_eq, length, keep, length-keep-le,
}
use pokemon_violet.Base.Dict.{Dict, UniqueKeys}
use pokemon_violet.Base.Int.{int_eq}
use pokemon_violet.Base.Text.{Bytes, has_prefix, before}
use pokemon_violet.Documents.Message.{Document}
use pokemon_violet.Documents.Order.{bytes_ltb, sort_strings, insert_sorted}
use pokemon_violet.Documents.Reads.{folder, in_collection, names_of, listed_names}
use pokemon_violet.Documents.Sorted.{
  Ascending, All, All-keep_self, ApartAll, sort_strings-All, sort_strings-Ascending,
  keep-sort_strings,
}
use pokemon_violet.Documents.Paging.{names-ApartAll, keep-ApartAll, keep_later}

module _ (docs : Dict Bytes Document) (parent token : Bytes) where
  abbrev pub wanted : Bytes → Bool
  wanted name = in_collection parent name && bytes_ltb token name

  abbrev pub found : List Bytes
  found = keep wanted (names_of docs)

  pub found-ApartAll : UniqueKeys docs → ApartAll found
  found-ApartAll unique = keep-ApartAll wanted (names_of docs) (names-ApartAll docs unique)

  pub listed-Ascending : UniqueKeys docs → Ascending (listed_names docs parent token)
  unfolding listed_names
  listed-Ascending unique = sort_strings-Ascending found (found-ApartAll unique)

  pub listed-All : All wanted (listed_names docs parent token)
  unfolding listed_names
  listed-All = sort_strings-All wanted found (All-keep_self wanted (names_of docs))

  pub listed_later :
      (later : Bytes)
      → UniqueKeys docs
      → bytes_ltb token later ≡ true
      → keep (bytes_ltb later) (listed_names docs parent token) ≡ listed_names docs parent later
  unfolding listed_names
  listed_later later unique before =
      keep-sort_strings (bytes_ltb later) found (found-ApartAll unique)
      ∙ ap sort_strings (keep_later (in_collection parent) token later (names_of docs) before)

pub length-insert_sorted :
    (a : Bytes) (xs : List Bytes) → length (insert_sorted a xs) ≡ suc (length xs)
unfolding insert_sorted
length-insert_sorted a [] = refl
length-insert_sorted a (b ∷ xs) = ground (arith, length-insert_sorted a xs)

pub length-sort_strings : (xs : List Bytes) → length (sort_strings xs) ≡ length xs
unfolding sort_strings
length-sort_strings [] = refl
length-sort_strings (a ∷ xs) =
    length-insert_sorted a (sort_strings xs) ∙ ap suc (length-sort_strings xs)

pub length-names_of : (docs : Dict Bytes Document) → length (names_of docs) ≡ length docs
length-names_of [] = refl
length-names_of ((k, d) ∷ docs) = ap suc (length-names_of docs)

pub listed-length :
    (docs : Dict Bytes Document) (parent token : Bytes)
    → length (listed_names docs parent token) ≤ length docs
unfolding listed_names
listed-length docs parent token = omega (
  arith,
  length-sort_strings (found docs parent token),
  length-keep-le (wanted docs parent token) (names_of docs),
  length-names_of docs,
)

-- Without a token no name of the collection is left out.
pub in_collection_pos :
    (parent name : Bytes)
    → (in_collection parent name && bytes_ltb [] name) ≡ in_collection parent name
unfolding bytes_ltb
in_collection_pos [] [] = refl
in_collection_pos (c ∷ parent) [] = refl
in_collection_pos parent (x ∷ name) = ground arith

pub keep-cong {ℓ} :
    {A : Type ℓ} (p q : A → Bool) (xs : List A) → ((x : A) → p x ≡ q x) → keep p xs ≡ keep q xs
keep-cong p q [] same = refl
keep-cong p q (x ∷ xs) same = rw (same x, keep-cong p q xs same) refl

pub listed_first :
    (docs : Dict Bytes Document) (parent : Bytes)
    → listed_names docs parent [] ≡ sort_strings (keep (in_collection parent) (names_of docs))
unfolding listed_names
listed_first docs parent = ap sort_strings (
    keep-cong (wanted docs parent []) (in_collection parent) (names_of docs)
      (in_collection_pos parent))

-- No name of a collection is empty.
pub folder_nonempty :
    (parent token : Bytes) → has_prefix token (folder parent) ≡ true → (token == []) ≡ false
unfolding bytes_beq
folder_nonempty [] [] inside = cc
folder_nonempty (c ∷ parent) [] inside = cc
folder_nonempty parent (x ∷ token) inside = refl

pub bytes_ltb_least : (a b : Bytes) → bytes_ltb a b ≡ true → bytes_ltb [] b ≡ true
unfolding bytes_ltb
bytes_ltb_least [] b before = before
bytes_ltb_least (x ∷ a) [] before = cc
bytes_ltb_least (x ∷ a) (y ∷ b) before = refl
