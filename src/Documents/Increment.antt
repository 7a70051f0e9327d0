-- ===== src/Documents/Increment.antt =====
-- gamesync_store.go: the increment of a field, in int64.
use pokemon_violet.Base.{ℕ, ◌≡◌, refl, ◌⊎◌, inl, inr, true, false, some, List, arith}
use pokemon_violet.Base.Dict.{Dict}
use pokemon_violet.Base.Int.{
  ℤ, pos, negsuc, ◌+ℤ◌, ◌-ℤ◌, +ℤ_parts, -ℤ_parts, wrap64, In64, wrap64_id,
}
use pokemon_violet.Base.Result.{out_of_range, err, ok}
use pokemon_violet.Base.Text.{Bytes}
use pokemon_violet.Documents.Transform.{
  max_int64, min_int64, sum_overflows, integer, add_int64, transform_value, FieldTransformed,
  apply_field_transform,
}
use pokemon_violet.Documents.Field.{field_path, read_field, set_field}
use pokemon_violet.Documents.Message.{increment_by, FieldTransform}
use pokemon_violet.Session.Message.{Value, integer_value, MapValue}
use pokemon_violet.TradeBox.Message.{Time}

-- The bounds that the test subtracts from are in int64 on the side where they are read.
upper_bound : (n : ℕ) → In64 (pos n) → wrap64 (max_int64 -ℤ pos n) ≡ max_int64 -ℤ pos n
upper_bound n h = wrap64_id (max_int64 -ℤ pos n) (unfold ◌-ℤ◌ in ground arith)

lower_bound : (n : ℕ) → In64 (negsuc n) → wrap64 (min_int64 -ℤ negsuc n) ≡ min_int64 -ℤ negsuc n
lower_bound n h = wrap64_id (min_int64 -ℤ negsuc n) (unfold ◌-ℤ◌ in ground arith)

overflows_up :
    (a : ℤ) (n : ℕ)
    → In64 a
    → In64 (pos n)
    → ((sum_overflows a (pos n) ≡ false) × In64 (a +ℤ pos n))
      ⊎ ((sum_overflows a (pos n) ≡ true) × (¬ In64 (a +ℤ pos n)))
unfolding sum_overflows
overflows_up a n ha hb =
    rw (upper_bound n hb) (ground (arith, +ℤ_parts a (pos n), -ℤ_parts max_int64 (pos n)))

overflows_down :
    (a : ℤ) (n : ℕ)
    → In64 a
    → In64 (negsuc n)
    → ((sum_overflows a (negsuc n) ≡ false) × In64 (a +ℤ negsuc n))
      ⊎ ((sum_overflows a (negsuc n) ≡ true) × (¬ In64 (a +ℤ negsuc n)))
unfolding sum_overflows
overflows_down a n ha hb =
    rw (lower_bound n hb) (ground (arith, +ℤ_parts a (negsuc n), -ℤ_parts min_int64 (negsuc n)))

sum_overflows_exact :
    (a b : ℤ)
    → In64 a
    → In64 b
    → ((sum_overflows a b ≡ false) × In64 (a +ℤ b))
      ⊎ ((sum_overflows a b ≡ true) × (¬ In64 (a +ℤ b)))
sum_overflows_exact a (pos n) ha hb = overflows_up a n ha hb
sum_overflows_exact a (negsuc n) ha hb = overflows_down a n ha hb

add_int64_exact :
    (a b : ℤ)
    → In64 a
    → In64 b
    → (In64 (a +ℤ b) × (add_int64 a b ≡ ok (a +ℤ b)))
      ⊎ ((¬ In64 (a +ℤ b)) × (add_int64 a b ≡ err out_of_range))
unfolding add_int64
add_int64_exact a b ha hb = elim (sum_overflows_exact a b ha hb) [
  | inl (fits, inside) ↦ inl (inside, rw (fits, wrap64_id (a +ℤ b) inside) refl)
  | inr (over, outside) ↦ inr (outside, rw over refl)
]

-- What an increment leaves at the field.
abbrev pub incremented : MapValue → List Bytes → Dict Bytes Value → ℤ → FieldTransformed
incremented content path globals z = record {
  fields = set_field content path (some (integer_value z));
  globals = globals;
  value = integer_value z;
}

-- An increment of a field that holds an int64, or is missing and counts as 0, by an int64 stores
-- and returns the exact sum if that is an int64; otherwise it is refused as out of range.
pub increment_exact :
    (content : MapValue) (t : FieldTransform) (globals : Dict Bytes Value) (now : Time)
    (path : List Bytes) (a b : ℤ)
    → field_path t.field_path ≡ ok path
    → integer (read_field content path) ≡ ok a
    → t.transform_type ≡ increment_by (some (integer_value b))
    → In64 a
    → In64 b
    → (In64 (a +ℤ b)
        × (apply_field_transform content t globals now
            ≡ ok (incremented content path globals (a +ℤ b))))
      ⊎ ((¬ In64 (a +ℤ b)) × (apply_field_transform content t globals now ≡ err out_of_range))
unfolding apply_field_transform transform_value
increment_exact content t globals now path a b parsed held kind ha hb =
    elim (add_int64_exact a b ha hb) [
      | inl (inside, sum) ↦ inl (inside, rw (parsed, kind) (rw held (rw sum refl)))
      | inr (outside, over) ↦ inr (outside, rw (parsed, kind) (rw held (rw over refl)))
    ]
