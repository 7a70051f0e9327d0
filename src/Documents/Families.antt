-- ===== src/Documents/Families.antt =====
-- gamesync_store.go: the fields of the documents of each family, and the readers that check them.
use pokemon_violet.Base.{
  ◌≡◌, refl, ◌⊎◌, inl, inr, Bool, true, ◌||◌, not, Option, none, some, [], ◌∷◌, arith, Bool-cases,
  ◌==◌, ==_iff, nat_eq, bytes_eq,
}
use pokemon_violet.Base.Dict.{lookup}
use pokemon_violet.Base.Int.{ℤ, int_eq}
use pokemon_violet.Base.Result.{invalid_argument, ok, ◌>>◌, guard, >>-eq-ok, guard-eq-ok}
use pokemon_violet.Base.Text.{Bytes, text}
use pokemon_violet.Session.Message.{
  MapValue, Value, boolean_value, integer_value, string_value, bytes_value, map_value, Fields,
}
use pokemon_violet.Documents.Message.{Document}
use pokemon_violet.Documents.Path.{document_path}
use pokemon_violet.Documents.Battle.{as_integer, as_map, as_bytes, as_boolean}
use pokemon_violet.Documents.Writable.{
  observed_string_value, observed_integer_value, is_some, control_key, all_hold, control_field,
}
use pokemon_violet.Documents.View.{Store}
use pokemon_violet.Documents.Refusal.{InFamily}
use pokemon_violet.Documents.Typed.{ReportSchema, StringField}

-- Each field is one of three flags.
abbrev pub ControlSchema : MapValue → Type 0
ControlSchema [] = Unit {0}
ControlSchema ((key, value) ∷ f) =
    ((key ≡ text "cp") ⊎ ((key ≡ text "ebf") ⊎ (key ≡ text "ip")))
    × ((b : Bool) × (value ≡ boolean_value b))
    × ControlSchema f

abbrev AnyInteger : Bytes → MapValue → Type 0
AnyInteger key f = (z : ℤ) × (lookup key f ≡ some (integer_value z))

-- The user and its two sequence numbers.
abbrev pub PresenceSchema : MapValue → Type 0
PresenceSchema f =
    StringField (text "uid") f × AnyInteger (text "ussid") f × AnyInteger (text "ucsid") f

abbrev AnyBytes : Bytes → MapValue → Type 0
AnyBytes key f = (b : Bytes) × (lookup key f ≡ some (bytes_value b))

-- A signalling envelope: its sender, the payload, and metadata that is a map if present.
abbrev pub SignalSchema : MapValue → Type 0
SignalSchema f =
    AnyInteger (text "suscid") f
    × StringField (text "suid") f
    × StringField (text "susid") f
    × AnyInteger (text "sussid") f
    × AnyBytes (text "pl") f
    × ((lookup (text "mp") f ≡ none)
        ⊎ ((fs : Fields) × (lookup (text "mp") f ≡ some (map_value fs))))

-- The fields that a document of the name has, for the families with a schema.
abbrev pub TypedAs : Bytes → MapValue → Type 0
TypedAs name f =
    (document_path name ≡ some (text "__gs", text "m") → ControlSchema f)
    × (InFamily (text "__pus") name → PresenceSchema f)
    × (InFamily (text "__stu") name ⊎ InFamily (text "__stg") name → SignalSchema f)
    × (InFamily (text "@@battleReport") name → ReportSchema f)

abbrev pub WellTyped : Store → Type 0
WellTyped s = (name : Bytes) (d : Document) → s.document_at name ≡ some d → TypedAs name d.fields

pub observed_string-StringField :
    (v : Option Value) (expected : Bytes)
    → observed_string_value v expected ≡ true
    → (s : Bytes) × (v ≡ some (string_value s))
observed_string-StringField (some (string_value s)) expected good = (s, refl)
observed_string-StringField none expected good = cc
observed_string-StringField (some v) expected good = cc

pub observed_integer-AnyInteger :
    (v : Option Value) (expected : ℤ)
    → observed_integer_value v expected ≡ true
    → (z : ℤ) × (v ≡ some (integer_value z))
observed_integer-AnyInteger (some (integer_value z)) expected good = (z, refl)
observed_integer-AnyInteger none expected good = cc
observed_integer-AnyInteger (some v) expected good = cc

pub as_integer-AnyInteger :
    (v : Option Value) → is_some (as_integer v) ≡ true → (z : ℤ) × (v ≡ some (integer_value z))
as_integer-AnyInteger (some (integer_value z)) good = (z, refl)
as_integer-AnyInteger none good = cc
as_integer-AnyInteger (some v) good = cc

pub as_bytes-AnyBytes :
    (v : Option Value) → is_some (as_bytes v) ≡ true → (b : Bytes) × (v ≡ some (bytes_value b))
as_bytes-AnyBytes (some (bytes_value b)) good = (b, refl)
as_bytes-AnyBytes none good = cc
as_bytes-AnyBytes (some v) good = cc

as_boolean-eq :
    (v : Value) → is_some (as_boolean (some v)) ≡ true → (b : Bool) × (v ≡ boolean_value b)
as_boolean-eq (boolean_value b) good = (b, refl)
as_boolean-eq v good = cc

pub map_if_present :
    (v : Option Value)
    → (not (is_some v) || is_some (as_map v)) ≡ true
    → (v ≡ none) ⊎ ((fs : Fields) × (v ≡ some (map_value fs)))
map_if_present none good = inl refl
map_if_present (some (map_value fs)) good = inr (fs, refl)
map_if_present (some v) good = cc

control_field-key :
    (key : Bytes)
    → control_key key ≡ true
    → (key ≡ text "cp") ⊎ ((key ≡ text "ebf") ⊎ (key ≡ text "ip"))
control_field-key key good = elim (Bool-cases (key == text "cp")) [
  | inl cp ↦ inl ((==_iff key (text "cp")).0 cp)
  | inr not_cp ↦ elim (Bool-cases (key == text "ebf")) [
    | inl ebf ↦ inr (inl ((==_iff key (text "ebf")).0 ebf))
    | inr not_ebf ↦
        let ip : (key == text "ip") ≡ true = ground (arith, good, not_cp, not_ebf) in
        inr (inr ((==_iff key (text "ip")).0 ip))
  ]
]

pub control-ControlSchema : (f : MapValue) → all_hold control_field f ≡ ok tt → ControlSchema f
unfolding all_hold control_field
control-ControlSchema [] good = tt
control-ControlSchema ((key, value) ∷ f) good =
    let keyed = guard (control_key key) invalid_argument in
    let flag = guard (is_some (as_boolean (some value))) invalid_argument in
    let (here, later) = >>-eq-ok (keyed >> flag) (all_hold control_field f) good in
    let (known, boolean) = >>-eq-ok keyed flag here in
    (
      control_field-key key (guard-eq-ok (control_key key) invalid_argument known),
      as_boolean-eq value
          (guard-eq-ok (is_some (as_boolean (some value))) invalid_argument boolean),
      control-ControlSchema f later,
    )
