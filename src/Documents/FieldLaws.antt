-- ===== src/Documents/FieldLaws.antt =====
-- gamesync_store.go: what setField changes, read by readField.
use pokemon_violet.Base.{
  ◌≡◌, refl, ap, ◌∙◌, subst, ◌≢◌, ◌⊎◌, inl, inr, Option, none, some, List, [], ◌∷◌, arith,
  Bool-cases, ◌==◌, ==_iff, nat_eq, bytes_eq,
}
use pokemon_violet.Base.Dict.{
  lookup, insert, lookup-insert_self, lookup-insert_ne, lookup-delete_self, lookup-delete_ne,
}
use pokemon_violet.Base.Int.{int_eq}
use pokemon_violet.Base.Text.{Bytes}
use pokemon_violet.Session.Message.{MapValue, Value, map_value}
use pokemon_violet.Documents.Field.{read_field, dict_of, fields_of, get_map_value, put, set_field}

pub dict_of-fields_of : (content : MapValue) → dict_of (fields_of content) ≡ content
unfolding dict_of fields_of
dict_of-fields_of [] = refl
dict_of-fields_of ((key, value) ∷ rest) = ap (◌∷◌ (key, value)) (dict_of-fields_of rest)

-- The paths part at some key.
abbrev pub Apart : List Bytes → List Bytes → Type 0
Apart (k ∷ p) (j ∷ q) = (k ≢ j) ⊎ Apart p q
Apart [] (j ∷ q) = ⊥
Apart (k ∷ p) [] = ⊥
Apart [] [] = ⊥

-- Reading at a key that the write does not touch, and below one that it replaces by a map.
read_other :
    (k j : Bytes) (q : List Bytes) (content changed : MapValue)
    → lookup j changed ≡ lookup j content
    → read_field changed (j ∷ q) ≡ read_field content (j ∷ q)
unfolding read_field
read_other k j [] content changed same = same
read_other k j (i ∷ q) content changed same =
    ap (λ (v : Option Value). read_field (get_map_value v) (i ∷ q)) same

lookup-put_self :
    (k : Bytes) (value : Option Value) (content : MapValue) → lookup k (put k value content) ≡ value
lookup-put_self k none content = lookup-delete_self k content
lookup-put_self k (some v) content = lookup-insert_self k v content

lookup-put_ne :
    (k j : Bytes) (value : Option Value) (content : MapValue)
    → k ≢ j
    → lookup j (put k value content) ≡ lookup j content
lookup-put_ne k j none content apart = lookup-delete_ne k j content apart
lookup-put_ne k j (some v) content apart = lookup-insert_ne k j v content apart

read_inside :
    (k j : Bytes) (q : List Bytes) (content inner : MapValue)
    → read_field (insert k (map_value (fields_of inner)) content) (k ∷ j ∷ q)
      ≡ read_field inner (j ∷ q)
unfolding read_field
read_inside k j q content inner =
    rw (lookup-insert_self k (map_value (fields_of inner)) content)
      (rw (dict_of-fields_of inner) refl)

read-set_field :
    (path : List Bytes) (content : MapValue) (value : Option Value)
    → path ≢ []
    → read_field (set_field content path value) path ≡ value
unfolding read_field set_field
read-set_field [] content value nonempty = absurd (nonempty refl)
read-set_field (k ∷ []) content value nonempty = lookup-put_self k value content
read-set_field (k ∷ j ∷ path) content value nonempty =
    let inner = set_field (get_map_value (lookup k content)) (j ∷ path) value in
    read_inside k j path content inner
    ∙ read-set_field (j ∷ path) (get_map_value (lookup k content)) value (λ e. cc)

read-set-Apart :
    (p q : List Bytes) (content : MapValue) (value : Option Value)
    → Apart p q
    → read_field (set_field content p value) q ≡ read_field content q
unfolding read_field set_field
read-set-Apart [] [] content value apart = elim apart [ ]
read-set-Apart [] (j ∷ q) content value apart = elim apart [ ]
read-set-Apart (k ∷ p) [] content value apart = elim apart [ ]
read-set-Apart (k ∷ []) (j ∷ []) content value (inl ne) = lookup-put_ne k j value content ne
read-set-Apart (k ∷ []) (j ∷ l ∷ q) content value (inl ne) =
    read_other k j (l ∷ q) content (put k value content) (lookup-put_ne k j value content ne)
read-set-Apart (k ∷ []) (j ∷ []) content value (inr apart) = elim apart [ ]
read-set-Apart (k ∷ []) (j ∷ l ∷ q) content value (inr apart) = elim apart [ ]
read-set-Apart (k ∷ i ∷ p) (j ∷ q) content value (inl ne) =
    let inner = set_field (get_map_value (lookup k content)) (i ∷ p) value in
    read_other k j q content (insert k (map_value (fields_of inner)) content)
      (lookup-insert_ne k j (map_value (fields_of inner)) content ne)
read-set-Apart (k ∷ i ∷ p) (j ∷ []) content value (inr apart) = elim apart [ ]
read-set-Apart (k ∷ i ∷ p) (j ∷ l ∷ q) content value (inr apart) =
    let inner = set_field (get_map_value (lookup k content)) (i ∷ p) value in
    let before = get_map_value (lookup k content) in
    elim (Bool-cases (k == j)) [
      | inl same ↦
          let e : k ≡ j = (==_iff k j).0 same in
          subst
            (λ (x : Bytes).
              read_field (insert k (map_value (fields_of inner)) content) (x ∷ l ∷ q)
              ≡ read_field content (x ∷ l ∷ q))
            e (read_inside k l q content inner ∙ read-set-Apart (i ∷ p) (l ∷ q) before value apart)
      | inr differ ↦
          read_other k j (l ∷ q) content (insert k (map_value (fields_of inner)) content) (
            lookup-insert_ne k j (map_value (fields_of inner)) content
              (λ e. absurd (ground (arith, differ, (==_iff k j).1 e))))
    ]

-- After a write at a path that is not empty, the path reads as the value written (or as missing
-- after a deletion), and every path that parts from it reads as before.
pub set_field_lem :
    (path : List Bytes) (content : MapValue) (value : Option Value)
    → path ≢ []
    → (read_field (set_field content path value) path ≡ value)
      × ((q : List Bytes)
          → Apart path q
          → read_field (set_field content path value) q ≡ read_field content q)
set_field_lem path content value nonempty = (
  read-set_field path content value nonempty,
  λ q apart. read-set-Apart path q content value apart,
)
