-- ===== src/Documents/Transform.antt =====
-- gamesync_store.go: the transforms of a field and the globals of a game session.
use pokemon_violet.Base.{
  Bool, ◌&&◌, ◌||◌, Option, none, some, List, if◌then◌else◌, ◌==◌, nat_eq, bytes_eq,
}
use pokemon_violet.Base.Dict.{Dict, lookup, delete, insert}
use pokemon_violet.Base.Int.{ℤ, pos, negsuc, ◌+ℤ◌, ◌-ℤ◌, ltb_ℤ, int_eq, wrap64}
use pokemon_violet.Base.Result.{
  invalid_argument, failed_precondition, out_of_range, unimplemented, Result, err, ok, ◌>>=◌, ◌>>◌,
  guard,
}
use pokemon_violet.Base.Text.{Bytes, text}
use pokemon_violet.TradeBox.Message.{Time}
use pokemon_violet.Session.Message.{MapValue, Value, integer_value, timestamp_value}
use pokemon_violet.Documents.Message.{
  TransformType, load_global_value, store_global_value, clear_global_value, increment_by, maximum,
  minimum, set_server_value, empty_transform, FieldTransform,
}
use pokemon_violet.Documents.Field.{field_path, read_field, set_field}

abbrev pub max_int64 : ℤ
max_int64 = pos 9223372036854775807

abbrev pub min_int64 : ℤ
min_int64 = negsuc 9223372036854775807

-- The closure `integer`.
abbrev pub integer : Option Value → Result ℤ
integer none = ok (pos 0)
integer (some (integer_value z)) = ok z
integer (some _) = err invalid_argument

-- The closure `global`.
abbrev pub global : Bytes → Result (Unit {0})
global name = guard (name == text "__upcsidn") unimplemented

-- (b > 0 && a > math.MaxInt64-b) || (b < 0 && a < math.MinInt64-b), in int64.
unfoldable pub sum_overflows : ℤ → ℤ → Bool
sum_overflows a b =
    (ltb_ℤ (pos 0) b && ltb_ℤ (wrap64 (max_int64 -ℤ b)) a)
    || (ltb_ℤ b (pos 0) && ltb_ℤ a (wrap64 (min_int64 -ℤ b)))

unfoldable pub add_int64 : ℤ → ℤ → Result ℤ
add_int64 a b = if sum_overflows a b then err out_of_range else ok (wrap64 (a +ℤ b))

-- The value of a field after the transform, which the source calls `current`, and the globals.
pub record Transformed : Type 0 where
  pub current : Option Value
  pub globals : Dict Bytes Value

abbrev number_result : Dict Bytes Value → ℤ → Result Transformed
number_result globals z = ok (record { current = some (integer_value z); globals = globals })

-- case LoadGlobalValue
abbrev load_global : Bytes → Option Value → Dict Bytes Value → Transformed
load_global name current globals = elim (lookup name globals) [
  | some v ↦ record { current = some v; globals = globals }
  | none ↦ elim current [
    | none ↦ record { current = some (integer_value (pos 0)); globals = globals }
    | some v ↦ record { current = some v; globals = globals }
  ]
]

-- case StoreGlobalValue
abbrev store_global : Bytes → Option Value → Dict Bytes Value → Result Transformed
store_global name none globals = err failed_precondition
store_global name (some v) globals =
    ok (record { current = some v; globals = insert name v globals })

unfoldable pub transform_value :
    TransformType → Option Value → Dict Bytes Value → Time → Result Transformed
transform_value (load_global_value name) current globals now =
    global name >> ok (load_global name current globals)
transform_value (store_global_value name) current globals now =
    global name >> store_global name current globals
transform_value (clear_global_value name) current globals now =
    global name >> ok (record { current = current; globals = delete name globals })
transform_value (increment_by value) current globals now =
    integer current >>= λ a. integer value >>= λ b. add_int64 a b >>= number_result globals
transform_value (maximum value) current globals now = integer current >>= λ a.
    integer value >>= λ b. number_result globals (if ltb_ℤ a b then b else a)
transform_value (minimum value) current globals now = integer current >>= λ a.
    integer value >>= λ b. number_result globals (if ltb_ℤ b a then b else a)
transform_value (set_server_value kind) current globals now =
    guard (kind == pos 1) invalid_argument
    >> ok (record { current = some (timestamp_value now); globals = globals })
transform_value empty_transform current globals now = err unimplemented

-- The document's fields and the globals after a transform, and the value that it returns.
pub record FieldTransformed : Type 0 where
  pub fields : MapValue
  pub globals : Dict Bytes Value
  pub value : Value

store_transformed : MapValue → List Bytes → Transformed → Result FieldTransformed
store_transformed content path t = elim t.current [
  | none ↦ err failed_precondition
  | some v ↦
      ok (record { fields = set_field content path (some v); globals = t.globals; value = v })
]

unfoldable pub apply_field_transform :
    MapValue → FieldTransform → Dict Bytes Value → Time → Result FieldTransformed
unfolding store_transformed
apply_field_transform content t globals now = field_path t.field_path >>= λ path.
    transform_value t.transform_type (read_field content path) globals now
    >>= store_transformed content path
