-- ===== src/Tests/FieldRuns.antt =====
-- Runs and witnesses of the fields of documents.
use pokemon_violet.Base.{
  ◌≡◌, refl, ◌≢◌, ◌⊎◌, true, some, List, [], ◌∷◌, arith, nat_eq, bytes_beq, bytes_eq,
}
use pokemon_violet.Base.Dict.{lookup, insert}
use pokemon_violet.Base.Int.{pos, ◌+ℤ◌, int_eq, In64}
use pokemon_violet.Base.Result.{out_of_range, err, ok}
use pokemon_violet.Base.Text.{Bytes, text}
use pokemon_violet.Session.Message.{
  MapValue, boolean_value, integer_value, map_value, no_fields, more_fields,
}
use pokemon_violet.Documents.Message.{increment_by, FieldTransform}
use pokemon_violet.Documents.Field.{
  set_field, dict_of, fields_of, scan_rune, scan_path, field_path, read_field,
}
use pokemon_violet.Documents.FieldLaws.{set_field_lem, Apart}
use pokemon_violet.Documents.Transform.{apply_field_transform, integer}
use pokemon_violet.Documents.Increment.{increment_exact, incremented}
use pokemon_violet.Tests.ToyRoom.{noon}

abbrev nested : MapValue
nested = (text "n", integer_value (pos 7)) ∷ (text "m", map_value no_fields) ∷ []

abbrev deep_path : List Bytes
deep_path = text "m" ∷ text "x" ∷ []

deep_write :
    set_field nested deep_path (some (boolean_value true))
    ≡ (text "n", integer_value (pos 7))
      ∷ (text "m", map_value (more_fields (text "x") (boolean_value true) no_fields))
      ∷ []
unfolding set_field insert lookup dict_of fields_of bytes_beq
deep_write = refl

deep_nonempty : deep_path ≢ []
deep_nonempty e = cc

set_field_lem_example :
    (read_field (set_field nested deep_path (some (boolean_value true))) deep_path
      ≡ some (boolean_value true))
    × ((q : List Bytes)
        → Apart deep_path q
        → read_field (set_field nested deep_path (some (boolean_value true))) q
          ≡ read_field nested q)
set_field_lem_example = set_field_lem deep_path nested (some (boolean_value true)) deep_nonempty

abbrev add_max : FieldTransform
add_max = record {
  field_path = text "n";
  transform_type = increment_by (some (integer_value (pos 9223372036854775807)));
}

n_path : field_path add_max.field_path ≡ ok (text "n" ∷ [])
unfolding field_path scan_path scan_rune bytes_beq
n_path = refl

n_held : integer (read_field nested (text "n" ∷ [])) ≡ ok (pos 7)
unfolding read_field lookup bytes_beq
n_held = refl

increment_exact_example :
    (In64 (pos 7 +ℤ pos 9223372036854775807)
      × (apply_field_transform nested add_max [] noon
          ≡ ok (incremented nested (text "n" ∷ []) [] (pos 7 +ℤ pos 9223372036854775807))))
    ⊎ ((¬ In64 (pos 7 +ℤ pos 9223372036854775807))
        × (apply_field_transform nested add_max [] noon ≡ err out_of_range))
increment_exact_example =
    increment_exact nested add_max [] noon (text "n" ∷ []) (pos 7) (pos 9223372036854775807) n_path
      n_held refl (ground arith) (ground arith)
