-- ===== src/Documents/Refusal.antt =====
-- gamesync_store.go: what the validation of a write refuses.
use pokemon_violet.Base.{
  ◌≡◌, refl, sym, ◌∙◌, ◌≢◌, ◌⊎◌, inl, inr, Bool, true, ◌&&◌, ◌||◌, not, Option, none, some, ◌++◌,
  arith, ◌==◌, ==_iff, nat_eq, bytes_beq, bytes_eq,
}
use pokemon_violet.Base.Dict.{Dict, lookup}
use pokemon_violet.Base.Int.{ℤ, int_eq}
use pokemon_violet.Base.Result.{
  permission_denied, unimplemented, Result, err, ok, ◌>>◌, guard, >>-eq-ok, guard-eq-ok,
}
use pokemon_violet.Base.Text.{Bytes, text}
use pokemon_violet.TradeBox.Server.{last_resource_segment}
use pokemon_violet.Session.Message.{MapValue}
use pokemon_violet.Documents.Message.{Document, GamesyncSession}
use pokemon_violet.Documents.Path.{document_path}
use pokemon_violet.Documents.Battle.{validate_ranked_battle_start, validate_ranked_battle_report}
use pokemon_violet.Documents.Writable.{
  writable_document, owner_of, is_some, deny, all_hold, control_field, writable_control,
  writable_battle,
}

-- The name stands for a document of the collection.
abbrev pub InFamily : Bytes → Bytes → Type 0
InFamily collection name = (id : Bytes) × (document_path name ≡ some (collection, id))

-- What the server writes: the records of the user sessions, and the fixed data of the room.
abbrev pub ServerSide : Bytes → Type 0
ServerSide name = InFamily (text "__us") name ⊎ (name ≡ text "docs/__gs/f")

-- What belongs to one member: the room's control document and the documents of a battle.
abbrev pub OneWriter : Bytes → Type 0
OneWriter name =
    InFamily (text "__gs") name
    ⊎ (InFamily (text "@@battleStart") name ⊎ InFamily (text "@@battleReport") name)

-- Out of the caller's reach: the server's, or an existing one of another member.
abbrev pub Protected : Bytes → Dict Bytes Bytes → Dict Bytes Document → Bytes → Type 0
Protected caller owners docs name =
    ServerSide name
    ⊎ (OneWriter name × (owner_of owners name ≢ caller) × (is_some (lookup name docs) ≡ true))

fixed_path : document_path (text "docs/__gs/f") ≡ some (text "__gs", text "f")
unfolding document_path bytes_beq
fixed_path = refl

f_not_m : text "f" ≢ text "m"
unfolding bytes_beq
f_not_m e =
    let same : bytes_beq (text "f") (text "m") ≡ true = (==_iff (text "f") (text "m")).1 e in cc

control_needs :
    (id : Bytes) (content : Option MapValue) (owned : Bool)
    → writable_control id content owned ≡ ok tt
    → (id ≡ text "m") × (owned ≡ true)
unfolding writable_control
control_needs id none owned accepted = cc
control_needs id (some f) owned accepted =
    let (allowed, _) =
      >>-eq-ok (deny (id == text "m" && owned)) (all_hold control_field f) accepted in
    let both = guard-eq-ok (id == text "m" && owned) permission_denied allowed in
    ground (arith, both, ==_iff id (text "m"))

battle_needs :
    (content : Option MapValue) (owned existing : Bool) (validate : MapValue → Result (Unit {0}))
    → writable_battle content owned existing validate ≡ ok tt
    → existing ≡ true
    → owned ≡ true
battle_needs none owned existing validate accepted there =
    guard-eq-ok owned permission_denied accepted
battle_needs (some f) owned existing validate accepted there =
    let (allowed, _) = >>-eq-ok (deny (not existing || owned)) (validate f) accepted in
    ground (arith, there, guard-eq-ok (not existing || owned) permission_denied allowed)

module _ (decimal : ℤ → Bytes) (session : GamesyncSession) (sessions : Dict Bytes GamesyncSession)
    (owners : Dict Bytes Bytes) (existing : Option Document) (content : Option MapValue)
    (name : Bytes) where
  abbrev pub verdict : Result (Unit {0})
  verdict = writable_document decimal name content session owners existing sessions

  abbrev pub owned : Bool
  owned = owner_of owners name == last_resource_segment session.user_session

  pub family_control :
      (id : Bytes)
      → document_path name ≡ some (text "__gs", id)
      → verdict ≡ writable_control id content owned
  unfolding writable_document bytes_beq
  family_control id path = rw (path, writable_document) refl

  family_start :
      (id : Bytes)
      → document_path name ≡ some (text "@@battleStart", id)
      → verdict ≡ (
          guard (id == text "id") unimplemented
          >> writable_battle content owned (is_some existing) validate_ranked_battle_start)
  unfolding writable_document bytes_beq
  family_start id path = rw (path, writable_document) refl

  pub family_report :
      (id : Bytes)
      → document_path name ≡ some (text "@@battleReport", id)
      → verdict ≡ (
          deny (id == text "id/users/" ++ decimal session.sequence)
          >> writable_battle content owned (is_some existing) validate_ranked_battle_report)
  unfolding writable_document bytes_beq
  family_report id path = rw (path, writable_document) refl

  pub server_refused : ServerSide name → verdict ≢ ok tt
  unfolding writable_document bytes_beq
  server_refused (inl (id, path)) accepted =
      let refused : verdict ≡ err unimplemented = rw (path, writable_document) refl in cc
  server_refused (inr fixed) accepted =
      let path : document_path name ≡ some (text "__gs", text "f") = rw fixed fixed_path in
      f_not_m
        (control_needs (text "f") content owned (sym (family_control (text "f") path) ∙ accepted)).0

  pub OneWriter-owns : OneWriter name → is_some existing ≡ true → verdict ≡ ok tt → owned ≡ true
  OneWriter-owns (inl (id, path)) there accepted =
      (control_needs id content owned (sym (family_control id path) ∙ accepted)).1
  OneWriter-owns (inr (inl (id, path))) there accepted =
      let (_, rest) =
        >>-eq-ok (guard (id == text "id") unimplemented)
          (writable_battle content owned (is_some existing) validate_ranked_battle_start)
          (sym (family_start id path) ∙ accepted) in
      battle_needs content owned (is_some existing) validate_ranked_battle_start rest there
  OneWriter-owns (inr (inr (id, path))) there accepted =
      let (_, rest) =
        >>-eq-ok (deny (id == text "id/users/" ++ decimal session.sequence))
          (writable_battle content owned (is_some existing) validate_ranked_battle_report)
          (sym (family_report id path) ∙ accepted) in
      battle_needs content owned (is_some existing) validate_ranked_battle_report rest there
