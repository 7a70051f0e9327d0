-- ===== src/Documents/Schema.antt =====
-- gamesync_store.go: the writes that are accepted keep the fields of their family.
use pokemon_violet.Base.{
  ◌≡◌, refl, sym, ◌∙◌, ◌⊎◌, inl, inr, Bool, ◌&&◌, ◌||◌, not, Option, some, ◌++◌, arith, ◌==◌,
  nat_eq, bytes_beq, bytes_eq,
}
use pokemon_violet.Base.Dict.{Dict, lookup}
use pokemon_violet.Base.Int.{ℤ, int_eq}
use pokemon_violet.Base.Result.{
  invalid_argument, permission_denied, Result, ok, ◌>>◌, guard, >>-eq-ok, guard-eq-ok,
}
use pokemon_violet.Base.Text.{Bytes, text}
use pokemon_violet.Session.Message.{MapValue}
use pokemon_violet.Documents.Message.{Document, GamesyncSession}
use pokemon_violet.Documents.Path.{document_path}
use pokemon_violet.Documents.Battle.{as_integer, as_map, as_bytes, validate_ranked_battle_report}
use pokemon_violet.Documents.Writable.{
  observed_string_value, observed_integer_value, is_some, deny, all_hold, control_field,
  writable_control, writable_presence, mailbox, writable_signal, writable_document, owner_of,
  writable_battle,
}
use pokemon_violet.Documents.Refusal.{verdict, owned, family_control, family_report}
use pokemon_violet.Documents.Typed.{validate-ReportSchema}
use pokemon_violet.Documents.Step.{caller_id}
use pokemon_violet.Documents.Families.{
  ControlSchema, PresenceSchema, SignalSchema, TypedAs, observed_string-StringField,
  observed_integer-AnyInteger, as_integer-AnyInteger, as_bytes-AnyBytes, map_if_present,
  control-ControlSchema,
}

writable-ControlSchema :
    (id : Bytes) (f : MapValue) (owned : Bool)
    → writable_control id (some f) owned ≡ ok tt
    → ControlSchema f
unfolding writable_control
writable-ControlSchema id f owned good =
    control-ControlSchema f
      (>>-eq-ok (deny (id == text "m" && owned)) (all_hold control_field f) good).1

writable-PresenceSchema :
    (id : Bytes) (f : MapValue) (session : GamesyncSession) (owner : Bytes)
    → writable_presence id (some f) session owner ≡ ok tt
    → PresenceSchema f
unfolding writable_presence
writable-PresenceSchema id f session owner good =
    let uid = observed_string_value (lookup (text "uid") f) session.uid in
    let numbers =
      observed_integer_value (lookup (text "ussid") f) session.sequence
      && observed_integer_value (lookup (text "ucsid") f) session.connection in
    let (_, rest) = >>-eq-ok (deny (id == owner)) (deny uid >> deny numbers) good in
    let (named, counted) = >>-eq-ok (deny uid) (deny numbers) rest in
    let both = guard-eq-ok numbers permission_denied counted in
    (
      observed_string-StringField (lookup (text "uid") f) session.uid
          (guard-eq-ok uid permission_denied named),
      observed_integer-AnyInteger (lookup (text "ussid") f) session.sequence (ground (arith, both)),
      observed_integer-AnyInteger (lookup (text "ucsid") f) session.connection
          (ground (arith, both)),
    )

writable-SignalSchema :
    (collection id : Bytes) (f : MapValue) (session : GamesyncSession) (owner : Bytes)
    (owned : Bool) (sessions : Dict Bytes GamesyncSession)
    → writable_signal collection id (some f) session owner owned sessions ≡ ok tt
    → SignalSchema f
unfolding writable_signal
writable-SignalSchema collection id f session owner owned sessions good =
    let sender =
      observed_string_value (lookup (text "suid") f) session.uid
      && observed_string_value (lookup (text "susid") f) owner
      && observed_integer_value (lookup (text "sussid") f) session.sequence in
    let connection = is_some (as_integer (lookup (text "suscid") f)) in
    let payload = is_some (as_bytes (lookup (text "pl") f)) in
    let metadata =
      not (is_some (lookup (text "mp") f)) || is_some (as_map (lookup (text "mp") f)) in
    let g1 = guard connection invalid_argument in
    let g2 = deny sender in
    let g3 = guard payload invalid_argument in
    let g4 = guard metadata invalid_argument in
    let (_, rest) = >>-eq-ok (mailbox collection id session sessions) (g1 >> g2 >> g3 >> g4) good in
    let (all3, described) = >>-eq-ok (g1 >> g2 >> g3) g4 rest in
    let (all2, carried) = >>-eq-ok (g1 >> g2) g3 all3 in
    let (connected, sent_by) = >>-eq-ok g1 g2 all2 in
    let known = guard-eq-ok sender permission_denied sent_by in
    (
      as_integer-AnyInteger (lookup (text "suscid") f)
          (guard-eq-ok connection invalid_argument connected),
      observed_string-StringField (lookup (text "suid") f) session.uid (ground (arith, known)),
      observed_string-StringField (lookup (text "susid") f) owner (ground (arith, known)),
      observed_integer-AnyInteger (lookup (text "sussid") f) session.sequence
          (ground (arith, known)),
      as_bytes-AnyBytes (lookup (text "pl") f) (guard-eq-ok payload invalid_argument carried),
      map_if_present (lookup (text "mp") f) (guard-eq-ok metadata invalid_argument described),
    )

module _ (decimal : ℤ → Bytes) (session : GamesyncSession) (sessions : Dict Bytes GamesyncSession)
    (owners : Dict Bytes Bytes) (existing : Option Document) (f : MapValue) (name : Bytes) where
  abbrev pub accepted : Result (Unit {0})
  accepted = verdict decimal session sessions owners existing (some f) name

  family_presence :
      (id : Bytes)
      → document_path name ≡ some (text "__pus", id)
      → accepted ≡ writable_presence id (some f) session (caller_id session)
  unfolding writable_document bytes_beq
  family_presence id path = rw (path, writable_document) refl

  family_signal :
      (collection id : Bytes)
      → document_path name ≡ some (collection, id)
      → (collection ≡ text "__stu") ⊎ (collection ≡ text "__stg")
      → accepted
        ≡ writable_signal collection id
            (some f)
            session
            (caller_id session)
            (owner_of owners name == caller_id session)
            sessions
  unfolding writable_document bytes_beq
  family_signal collection id path (inl user) = rw (path, writable_document) (rw user refl)
  family_signal collection id path (inr group) = rw (path, writable_document) (rw group refl)

  pub writable-TypedAs : accepted ≡ ok tt → TypedAs name f
  writable-TypedAs good = (
    λ path. writable-ControlSchema (text "m") f (owner_of owners name == caller_id session) (
        sym (family_control decimal session sessions owners existing (some f) name (text "m") path)
        ∙ good),
    λ family.
        writable-PresenceSchema family.0 f session (caller_id session)
          (sym (family_presence family.0 family.1) ∙ good),
    λ family. elim family [
      | inl (id, path) ↦
          writable-SignalSchema (text "__stu") id f session (caller_id session)
            (owner_of owners name == caller_id session) sessions
            (sym (family_signal (text "__stu") id path (inl refl)) ∙ good)
      | inr (id, path) ↦
          writable-SignalSchema (text "__stg") id f session (caller_id session)
            (owner_of owners name == caller_id session) sessions
            (sym (family_signal (text "__stg") id path (inr refl)) ∙ good)
    ],
    λ family.
        let (_, battle) =
          >>-eq-ok (deny (family.0 == text "id/users/" ++ decimal session.sequence))
            (writable_battle (some f) (owner_of owners name == caller_id session) (is_some existing)
              validate_ranked_battle_report)
            (sym (
                family_report decimal session sessions owners existing (some f) name family.0
                  family.1)
              ∙ good) in
        validate-ReportSchema f
          (>>-eq-ok (deny (not (is_some existing) || (owner_of owners name == caller_id session)))
            (validate_ranked_battle_report f) battle).1,
  )
