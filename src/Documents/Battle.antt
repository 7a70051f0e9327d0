-- ===== src/Documents/Battle.antt =====
-- gamesync_store.go: the checks of the documents that a ranked battle writes, and the two reports.
use pokemon_violet.Base.{
  ◌*◌, Bool, false, ◌&&◌, ◌||◌, not, Option, none, some, List, [], ◌∷◌, ◌++◌, ltb, if◌then◌else◌,
  ◌==◌, nat_eq, bytes_eq, length,
}
use pokemon_violet.Base.Dict.{Dict, lookup}
use pokemon_violet.Base.Int.{ℤ, pos, ltb_ℤ, int_eq}
use pokemon_violet.Base.Result.{invalid_argument, Result, err, ok, ◌>>◌, guard}
use pokemon_violet.Base.Text.{Bytes, text}
use pokemon_violet.Session.Message.{
  MapValue, Value, boolean_value, integer_value, string_value, bytes_value, array_value, map_value,
  Values, no_values, more_values,
}
use pokemon_violet.Ranked.Store.{valid_ranked_competition_id_string}
use pokemon_violet.Documents.Message.{Document}
use pokemon_violet.Documents.Field.{get_map_value, dict_of}

-- The getters of a Value, which read a default from a value of another type.
abbrev pub get_string_value : Option Value → Bytes
get_string_value (some (string_value s)) = s
get_string_value _ = []

abbrev pub get_integer_value : Option Value → ℤ
get_integer_value (some (integer_value z)) = z
get_integer_value _ = pos 0

abbrev list_of : Values → List Value
list_of no_values = []
list_of (more_values v rest) = v ∷ list_of rest

-- The type assertions on GetValueType().
abbrev pub as_array : Option Value → Option (List Value)
as_array (some (array_value vs)) = some (list_of vs)
as_array _ = none

abbrev pub as_map : Option Value → Option MapValue
as_map (some (map_value content)) = some (dict_of content)
as_map _ = none

abbrev pub as_integer : Option Value → Option ℤ
as_integer (some (integer_value z)) = some z
as_integer _ = none

abbrev pub as_bytes : Option Value → Option Bytes
as_bytes (some (bytes_value b)) = some b
as_bytes _ = none

abbrev pub as_boolean : Option Value → Option Bool
as_boolean (some (boolean_value b)) = some b
as_boolean _ = none

abbrev pub valid_ranked_competition_id : Option Value → Bool
valid_ranked_competition_id value = valid_ranked_competition_id_string (get_string_value value)

abbrev is_one_two : Option (List Value) → Bool
is_one_two (some (a ∷ b ∷ [])) =
    get_integer_value (some a) == pos 1 && get_integer_value (some b) == pos 2
is_one_two _ = false

unfoldable pub validate_ranked_battle_start : MapValue → Result (Unit {0})
validate_ranked_battle_start f =
    guard (length f == 2 && valid_ranked_competition_id (lookup (text "competitionId") f))
      invalid_argument
    >> guard (is_one_two (as_array (lookup (text "users") f))) invalid_argument

abbrev pub within : ℤ → Option ℤ → Bool
within highest none = false
within highest (some z) = not (ltb_ℤ z (pos 0) || ltb_ℤ highest z)

-- One round of the loop over "behavior" and "result"; a missing key fails `within` too.
unfoldable pub valid_scores : ℤ → Option MapValue → Bool
valid_scores highest none = false
valid_scores highest (some values) =
    length values == 2
    && within highest (as_integer (lookup (text "1") values))
    && within highest (as_integer (lookup (text "2") values))

abbrev pub valid_log : Option Bytes → Bool
valid_log none = false
valid_log (some log) = not (log == [] || ltb (64 * 1024) (length log))

-- Every error has the same code, so that the order of the checks does not show.
unfoldable pub validate_ranked_battle_report : MapValue → Result (Unit {0})
validate_ranked_battle_report f =
    guard (length f == 4 && valid_ranked_competition_id (lookup (text "competitionId") f))
      invalid_argument
    >> guard (valid_scores (pos 4) (as_map (lookup (text "behavior") f))) invalid_argument
    >> guard (valid_scores (pos 3) (as_map (lookup (text "result") f))) invalid_argument
    >> guard (valid_log (as_bytes (lookup (text "log") f))) invalid_argument

-- The competition and the results of the participants 1 and 2.
pub record RankedReport : Type 0 where
  pub competition_id : Bytes
  pub result1 : ℤ
  pub result2 : ℤ

report_of : MapValue → RankedReport
report_of f =
    let values = get_map_value (lookup (text "result") f) in
    record {
      competition_id = get_string_value (lookup (text "competitionId") f);
      result1 = get_integer_value (lookup (text "1") values);
      result2 = get_integer_value (lookup (text "2") values);
    }

unfoldable pub ranked_report_result : Option Document → Option RankedReport
unfolding report_of
ranked_report_result none = none
ranked_report_result (some document) = elim (validate_ranked_battle_report document.fields) [
  | err c ↦ none
  | ok _ ↦ some (report_of document.fields)
]

abbrev same_report : RankedReport → RankedReport → Bool
same_report a b =
    a.competition_id == b.competition_id && a.result1 == b.result1 && a.result2 == b.result2

agreed : Option RankedReport → Option RankedReport → Option RankedReport
agreed (some a) (some b) = if same_report a b then some a else none
agreed _ _ = none

abbrev pub report_name : Bytes → Bytes
report_name sequence = text "docs/@@battleReport/id/users/" ++ sequence

unfoldable pub matching_ranked_reports : Dict Bytes Document → Option RankedReport
unfolding agreed
matching_ranked_reports documents =
    agreed (ranked_report_result (lookup (report_name (text "1")) documents))
      (ranked_report_result (lookup (report_name (text "2")) documents))
