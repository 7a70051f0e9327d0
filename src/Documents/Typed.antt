-- ===== src/Documents/Typed.antt =====
-- gamesync_store.go: the fields that the stored documents of a family have.
use pokemon_violet.Base.{
  ℕ, ◌≤◌, ◌≡◌, refl, sym, ap, ◌∙◌, subst, ◌⊎◌, inl, inr, true, ◌&&◌, ◌||◌, not, Option, none, some,
  [], arith, ltb, Bool-cases, Option-cases, ◌==◌, ==_iff, nat_eq, bytes_beq, bytes_eq, length,
}
use pokemon_violet.Base.Dict.{lookup}
use pokemon_violet.Base.Int.{ℤ, pos, ◌≤ℤ◌, ltb_ℤ, int_eq}
use pokemon_violet.Base.Result.{invalid_argument, ok, ◌>>◌, guard, >>-eq-ok, guard-eq-ok}
use pokemon_violet.Base.Text.{Bytes, text, empty_or_pos}
use pokemon_violet.Session.Message.{
  MapValue, Value, integer_value, string_value, bytes_value, map_value, Fields,
}
use pokemon_violet.Documents.Field.{dict_of}
use pokemon_violet.Ranked.Store.{valid_ranked_competition_id_string}
use pokemon_violet.Documents.Battle.{
  as_integer, within, as_map, as_bytes, valid_ranked_competition_id, valid_scores, valid_log,
  validate_ranked_battle_report,
}

-- The field holds an integer between two bounds; a string; bytes of a length between two bounds.
abbrev pub IntegerField : Bytes → ℤ → ℤ → MapValue → Type 0
IntegerField key low high f =
    (z : ℤ) × (lookup key f ≡ some (integer_value z)) × (low ≤ℤ z) × (z ≤ℤ high)

abbrev pub StringField : Bytes → MapValue → Type 0
StringField key f = (s : Bytes) × (lookup key f ≡ some (string_value s))

abbrev pub BytesField : Bytes → ℕ → ℕ → MapValue → Type 0
BytesField key low high f =
    (b : Bytes) × (lookup key f ≡ some (bytes_value b)) × (low ≤ length b) × (length b ≤ high)

-- A map with a score of each participant.
abbrev pub ScoresField : Bytes → ℤ → MapValue → Type 0
ScoresField key high f =
    (scores : Fields) × (lookup key f ≡ some (map_value scores))
    × IntegerField (text "1") (pos 0) high (dict_of scores)
    × IntegerField (text "2") (pos 0) high (dict_of scores)

-- A competition, the scores of both participants, and a log of 1 to 65536 bytes.
abbrev pub ReportSchema : MapValue → Type 0
ReportSchema f =
    ((id : Bytes) × (lookup (text "competitionId") f ≡ some (string_value id))
      × ((id ≡ text "local-ranked-singles-1") ⊎ (id ≡ text "local-ranked-doubles-1")))
    × ScoresField (text "behavior") (pos 4) f
    × ScoresField (text "result") (pos 3) f
    × BytesField (text "log") 1 65536 f

pub as_integer-some :
    (v : Option Value) (z : ℤ) → as_integer v ≡ some z → v ≡ some (integer_value z)
as_integer-some v z found = ground (arith, found)

within-IntegerField :
    (key : Bytes) (high : ℤ) (f : MapValue)
    → within high (as_integer (lookup key f)) ≡ true
    → IntegerField key (pos 0) high f
within-IntegerField key high f inside = elim (Option-cases (as_integer (lookup key f))) [
  | inl absent ↦ ground (arith, inside, absent)
  | inr (z, found) ↦
      let bounds : not (ltb_ℤ z (pos 0) || ltb_ℤ high z) ≡ true = ground (arith, inside, found) in
      (z, as_integer-some (lookup key f) z found, ground (arith, bounds), ground (arith, bounds))
]

pub as_map-some :
    (v : Option Value) (m : MapValue)
    → as_map v ≡ some m
    → (fs : Fields) × (v ≡ some (map_value fs)) × (m ≡ dict_of fs)
as_map-some none m found = cc
as_map-some (some (map_value fs)) m found = (fs, refl, sym (cc))
as_map-some (some v) m found = cc

pub as_bytes-some : (v : Option Value) (b : Bytes) → as_bytes v ≡ some b → v ≡ some (bytes_value b)
as_bytes-some v b found = ground (arith, found)

valid_log-BytesField :
    (key : Bytes) (f : MapValue)
    → valid_log (as_bytes (lookup key f)) ≡ true
    → BytesField key 1 65536 f
valid_log-BytesField key f good = elim (Option-cases (as_bytes (lookup key f))) [
  | inl absent ↦ ground (arith, good, absent)
  | inr (b, found) ↦
      let bounds : not (b == [] || ltb 65536 (length b)) ≡ true = ground (arith, good, found) in
      (
        b,
        as_bytes-some (lookup key f) b found,
        elim (empty_or_pos b) [ inl bare ↦ ground (arith, bare, bounds) | inr size ↦ size ],
        ground (arith, bounds),
      )
]

valid_scores-ScoresField :
    (key : Bytes) (high : ℤ) (f : MapValue)
    → valid_scores high (as_map (lookup key f)) ≡ true
    → ScoresField key high f
unfolding valid_scores
valid_scores-ScoresField key high f good = elim (Option-cases (as_map (lookup key f))) [
  | inl absent ↦ ground (arith, good, absent)
  | inr (m, found) ↦
      let (fs, at, same) = as_map-some (lookup key f) m found in
      let scores : valid_scores high (some m) ≡ true = sym (ap (valid_scores high) found) ∙ good in
      let own : valid_scores high (some (dict_of fs)) ≡ true =
        subst (λ x. valid_scores high (some x) ≡ true) same scores in
      (
        fs,
        at,
        within-IntegerField (text "1") high (dict_of fs) (ground (arith, own)),
        within-IntegerField (text "2") high (dict_of fs) (ground (arith, own)),
      )
]

known_id_string :
    (id : Bytes)
    → valid_ranked_competition_id_string id ≡ true
    → (id ≡ text "local-ranked-singles-1") ⊎ (id ≡ text "local-ranked-doubles-1")
unfolding valid_ranked_competition_id_string
known_id_string id good = elim (Bool-cases (id == text "local-ranked-singles-1")) [
  | inl single ↦ inl ((==_iff id (text "local-ranked-singles-1")).0 single)
  | inr other ↦
      let double : (id == text "local-ranked-doubles-1") ≡ true = ground (arith, good, other) in
      inr ((==_iff id (text "local-ranked-doubles-1")).0 double)
]

abbrev CompetitionId : Option Value → Type 0
CompetitionId v =
    (id : Bytes) × (v ≡ some (string_value id))
    × ((id ≡ text "local-ranked-singles-1") ⊎ (id ≡ text "local-ranked-doubles-1"))

known_id : (v : Option Value) → valid_ranked_competition_id v ≡ true → CompetitionId v
unfolding valid_ranked_competition_id_string bytes_beq
known_id (some (string_value id)) good = (id, refl, known_id_string id good)
known_id none good = cc
known_id (some v) good = cc

pub validate-ReportSchema :
    (f : MapValue) → validate_ranked_battle_report f ≡ ok tt → ReportSchema f
unfolding validate_ranked_battle_report
validate-ReportSchema f good =
    let g1 =
      guard (length f == 4 && valid_ranked_competition_id (lookup (text "competitionId") f))
        invalid_argument in
    let g2 = guard (valid_scores (pos 4) (as_map (lookup (text "behavior") f))) invalid_argument in
    let g3 = guard (valid_scores (pos 3) (as_map (lookup (text "result") f))) invalid_argument in
    let g4 = guard (valid_log (as_bytes (lookup (text "log") f))) invalid_argument in
    let (all3, logged) = >>-eq-ok (g1 >> g2 >> g3) g4 good in
    let (all2, results) = >>-eq-ok (g1 >> g2) g3 all3 in
    let (all1, behaved) = >>-eq-ok g1 g2 all2 in
    let shaped =
      guard-eq-ok (length f == 4 && valid_ranked_competition_id (lookup (text "competitionId") f))
        invalid_argument all1 in
    (
      known_id (lookup (text "competitionId") f) (ground (arith, shaped)),
      valid_scores-ScoresField (text "behavior") (pos 4) f (
          guard-eq-ok (valid_scores (pos 4) (as_map (lookup (text "behavior") f))) invalid_argument
            behaved),
      valid_scores-ScoresField (text "result") (pos 3) f (
          guard-eq-ok (valid_scores (pos 3) (as_map (lookup (text "result") f))) invalid_argument
            results),
      valid_log-BytesField (text "log") f
          (guard-eq-ok (valid_log (as_bytes (lookup (text "log") f))) invalid_argument logged),
    )
