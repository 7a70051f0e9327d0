-- ===== src/Documents/Order.antt =====
-- sort.Strings on the names of documents: Go compares strings by their bytes.
use pokemon_violet.Base.{Bool, true, false, ◌&&◌, ◌||◌, List, [], ◌∷◌, ltb, nat_beq, if◌then◌else◌}
use pokemon_violet.Base.Text.{Bytes}

-- a < b
unfoldable pub bytes_ltb : Bytes → Bytes → Bool
bytes_ltb [] [] = false
bytes_ltb [] (y ∷ ys) = true
bytes_ltb (x ∷ xs) [] = false
bytes_ltb (x ∷ xs) (y ∷ ys) = ltb x y || (nat_beq x y && bytes_ltb xs ys)

unfoldable pub insert_sorted : Bytes → List Bytes → List Bytes
insert_sorted a [] = a ∷ []
insert_sorted a (b ∷ bs) = if bytes_ltb b a then b ∷ insert_sorted a bs else a ∷ b ∷ bs

unfoldable pub sort_strings : List Bytes → List Bytes
sort_strings [] = []
sort_strings (a ∷ rest) = insert_sorted a (sort_strings rest)
