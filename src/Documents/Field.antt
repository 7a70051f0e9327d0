-- ===== src/Documents/Field.antt =====
-- gamesync_store.go: field paths, and reading and writing a field of a document.
-- Protobuf strings are valid UTF-8 and the four characters that a path treats apart are ASCII, so
-- the loop over runes is one over bytes. proto.Clone is the identity on values.
use pokemon_violet.Base.{
  ℕ, Bool, true, false, ◌&&◌, ◌||◌, not, Option, none, some, List, [], ◌∷◌, ◌++◌, if◌then◌else◌,
  ◌==◌, nat_eq, bytes_eq,
}
use pokemon_violet.Base.Dict.{lookup, delete, insert}
use pokemon_violet.Base.Int.{int_eq}
use pokemon_violet.Base.Result.{invalid_argument, Result, err, ok, ◌>>=◌}
use pokemon_violet.Base.Text.{Bytes, text}
use pokemon_violet.Session.Message.{MapValue, map_value, no_fields, more_fields, Value, Fields}
use pokemon_violet.Documents.Message.{Document}

-- The map of a map value, and back.
unfoldable pub dict_of : Fields → MapValue
dict_of no_fields = []
dict_of (more_fields key value rest) = (key, value) ∷ dict_of rest

unfoldable pub fields_of : MapValue → Fields
fields_of [] = no_fields
fields_of ((key, value) ∷ rest) = more_fields key value (fields_of rest)

-- value.GetMapValue().GetFields(); every other value reads as the empty map.
abbrev pub get_map_value : Option Value → MapValue
get_map_value (some (map_value content)) = dict_of content
get_map_value _ = []

-- The state of the loop: the parts so far, the part under way, and the two flags.
pub record Scan : Type 0 where
  pub parts : List Bytes
  pub part : Bytes
  pub quoted : Bool
  pub escaped : Bool

abbrev write_rune : ℕ → Scan → Scan
write_rune c s = record s { part = s.part ++ (c ∷ []) }

-- One round of the loop.
unfoldable pub scan_rune : ℕ → Scan → Result Scan
scan_rune c s =
    if s.escaped
    then ok (record (write_rune c s) { escaped = false })
    else if c == b'\\' && s.quoted
    then ok (record s { escaped = true })
    else if c == b'`'
    then ok (record s { quoted = not s.quoted })
    else if c == b'.' && not s.quoted
    then (if s.part == []
        then err invalid_argument
        else ok (record s { parts = s.parts ++ (s.part ∷ []); part = [] }))
    else ok (write_rune c s)

unfoldable pub scan_path : Bytes → Scan → Result Scan
scan_path [] s = ok s
scan_path (c ∷ path) s = scan_rune c s >>= scan_path path

abbrev pub start_scan : Scan
start_scan = record { parts = []; part = []; quoted = false; escaped = false }

abbrev pub end_scan : Bytes → Scan → Result (List Bytes)
end_scan path s =
    if s.quoted || s.escaped || s.part == [] || path == text "*"
    then err invalid_argument
    else ok (s.parts ++ (s.part ∷ []))

unfoldable pub field_path : Bytes → Result (List Bytes)
field_path path = scan_path path start_scan >>= end_scan path

unfoldable pub read_field : MapValue → List Bytes → Option Value
read_field content [] = none
read_field content (k ∷ []) = lookup k content
read_field content (k ∷ j ∷ path) = read_field (get_map_value (lookup k content)) (j ∷ path)

-- delete(fields, k) for a nil value, fields[k] = value for another.
abbrev pub put : Bytes → Option Value → MapValue → MapValue
put k none content = delete k content
put k (some value) content = insert k value content

-- The map on the way is changed in place; a value that is no map gives way to one.
unfoldable pub set_field : MapValue → List Bytes → Option Value → MapValue
set_field content [] value = content
set_field content (k ∷ []) value = put k value content
set_field content (k ∷ j ∷ path) value =
    let inner = set_field (get_map_value (lookup k content)) (j ∷ path) value in
    insert k (map_value (fields_of inner)) content

-- mask == nil || len(mask.Paths) == 1 && mask.Paths[0] == "*"
abbrev pub whole_mask : Option (List Bytes) → Bool
whole_mask none = true
whole_mask (some (path ∷ [])) = path == text "*"
whole_mask (some _) = false

abbrev pub mask_paths : Option (List Bytes) → List Bytes
mask_paths none = []
mask_paths (some paths) = paths

-- The loop over the mask's paths: each field named goes from `source` to `target`.
unfoldable pub copy_masked : List Bytes → MapValue → MapValue → Result MapValue
copy_masked [] source target = ok target
copy_masked (p ∷ paths) source target = field_path p >>= λ path.
    copy_masked paths source (set_field target path (read_field source path))

unfoldable pub masked_document : Document → Option (List Bytes) → Result Document
masked_document document mask =
    if whole_mask mask
    then ok document
    else copy_masked (mask_paths mask) document.fields [] >>= λ content.
        ok (record document { fields = content })
