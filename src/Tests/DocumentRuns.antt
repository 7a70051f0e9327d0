-- ===== src/Tests/DocumentRuns.antt =====
-- Runs and witnesses of the document store.
use pokemon_violet.Base.{
  ◌≡◌, refl, ◌≢◌, ◌⊎◌, inl, inr, true, false, Option, none, some, [], ◌∷◌, arith, ==_iff, nat_eq,
  bytes_beq, bytes_eq, keep,
}
use pokemon_violet.Base.Dict.{Dict, lookup, delete, insert, UniqueKeys}
use pokemon_violet.Base.Int.{pos, ◌+ℤ◌, ◌-ℤ◌, int_eq, wrap64}
use pokemon_violet.Base.Result.{Code, permission_denied, Result, err, ok}
use pokemon_violet.Base.Text.{Bytes, text}
use pokemon_violet.Ranked.Store.{faultless}
use pokemon_violet.Session.Message.{boolean_value, integer_value}
use pokemon_violet.Documents.Message.{
  Document, exists_condition, increment_by, update_document, transform_document, delete_document,
  update_deferment,
}
use pokemon_violet.Documents.Field.{set_field, scan_rune, scan_path, field_path, read_field}
use pokemon_violet.Documents.Transform.{
  apply_field_transform, sum_overflows, add_int64, transform_value,
}
use pokemon_violet.Documents.Server.{
  GamesyncServer, map_at, AccessClaims, authorized_session, map_values, publish_names,
}
use pokemon_violet.Documents.Writable.{
  is_some, owner_of, all_hold, control_field, writable_control, writable_presence,
  writable_document,
}
use pokemon_violet.Documents.Commit.{
  commit_documents, WriteDocumentsRequest, WriteDocumentsResponse, deferment_belongs_to_session,
  deferment_operation, deferment_run, committed, follow_reports, announced, prepare,
}
use pokemon_violet.Documents.Step.{caller_id}
use pokemon_violet.Documents.Refine.{commit_refines}
use pokemon_violet.Documents.View.{write_store_all, view}
use pokemon_violet.Documents.Protect.{commit_protects, Unchanged}
use pokemon_violet.Documents.Refusal.{Protected}
use pokemon_violet.Documents.Path.{document_path}
use pokemon_violet.Documents.Order.{sort_strings, bytes_ltb, insert_sorted}
use pokemon_violet.Documents.Battle.{ranked_report_result, matching_ranked_reports}
use pokemon_violet.Session.Registry.{update_room_control, game_of}
use pokemon_violet.TradeBox.Server.{last_resource_segment}
use pokemon_violet.Documents.Batch.{
  check_precondition, draft, apply_transforms, edit_transform, edit_update, edit, store_edit,
  write_operation, write_operations,
}
use pokemon_violet.Documents.Families.{WellTyped}
use pokemon_violet.Documents.TypeKept.{commit_typed}
use pokemon_violet.Documents.Expiry.{expire_exact, NotControl, expired}
use pokemon_violet.Documents.Expire.{timer_stale, own_record}
use pokemon_violet.Documents.Listing.{pages_list_all, list_all}
use pokemon_violet.Documents.ReadMany.{read_documents_each, as_read, get_request}
use pokemon_violet.Documents.Reads.{
  get_document, ReadDocumentsRequest, collect, read_documents, ListDocumentsRequest,
  check_collection, in_collection, names_of, masked_at,
}
use pokemon_violet.Tests.ToyRoom.{
  bare_server, ann, noon, later, bob, presence, room_server, message_size, digit,
}

-- Ann closes the room and counts up her connection.
abbrev close_room : WriteDocumentsRequest
close_room = record {
  write_operations =
      update_document (text "docs/__gs/m") (some ((text "cp", boolean_value false) ∷ [])) none
        (some (exists_condition true))
      ∷ transform_document (text "docs/__pus/a") (
          record {
            field_path = text "upcsid";
            transform_type = increment_by (some (integer_value (pos 1)));
          }
          ∷ [])
      ∷ [];
  deferment_operations =
      update_deferment (
        some (record {
          name = text "userSessions/current/deferments/d";
          write_operations = delete_document (text "docs/__pus/a") none ∷ [];
        }))
      ∷ [];
}

abbrev closed : GamesyncServer × Result WriteDocumentsResponse
closed = commit_documents message_size digit faultless room_server ann later close_room

abbrev refused : GamesyncServer × Result WriteDocumentsResponse
refused = commit_documents message_size digit faultless room_server bob later close_room

closed_control :
    (view (text "r") closed.0).document_at (text "docs/__gs/m")
    ≡ some (record {
      name = text "docs/__gs/m";
      fields = (text "cp", boolean_value false) ∷ [];
      create_time = noon;
      update_time = later;
    })
unfolding commit_documents prepare announced follow_reports committed write_operations
    write_operation store_edit edit edit_update edit_transform apply_transforms
    apply_field_transform transform_value add_int64 sum_overflows check_precondition draft
    writable_document writable_control writable_presence document_path control_field all_hold
    field_path scan_path scan_rune read_field set_field deferment_run deferment_operation
    deferment_belongs_to_session update_room_control game_of matching_ranked_reports
    ranked_report_result publish_names map_values sort_strings insert_sorted bytes_ltb lookup insert
    delete bytes_beq last_resource_segment wrap64 ◌+ℤ◌ ◌-ℤ◌
closed_control = refl

refused_reply : refused.1 ≡ err permission_denied
unfolding commit_documents prepare announced follow_reports committed write_operations
    write_operation store_edit edit edit_update edit_transform apply_transforms
    apply_field_transform transform_value add_int64 sum_overflows check_precondition draft
    writable_document writable_control writable_presence document_path control_field all_hold
    field_path scan_path scan_rune read_field set_field deferment_run deferment_operation
    deferment_belongs_to_session update_room_control game_of matching_ranked_reports
    ranked_report_result publish_names map_values sort_strings insert_sorted bytes_ltb lookup insert
    delete bytes_beq last_resource_segment wrap64 ◌+ℤ◌ ◌-ℤ◌
refused_reply = refl

commit_refines_example :
    ((c : Code) × (closed ≡ (room_server, err c)))
    ⊎ (((reply : WriteDocumentsResponse) × (closed.1 ≡ ok reply))
        × (is_some (lookup (caller_id ann) room_server.sessions) ≡ true)
        × (view (text "r") closed.0
            ≡ write_store_all later
                (caller_id ann)
                close_room.write_operations
                (view (text "r") room_server))
        × ((other : Bytes) → text "r" ≢ other → view other closed.0 ≡ view other room_server))
commit_refines_example =
    commit_refines message_size digit faultless room_server ann later close_room

abbrev room_documents : Dict Bytes Document
room_documents = map_at (text "r") room_server.documents

abbrev room_owners : Dict Bytes Bytes
room_owners = map_at (text "r") room_server.owners

a_not_b : text "a" ≢ text "b"
unfolding bytes_beq
a_not_b e =
    let same : bytes_beq (text "a") (text "b") ≡ true = (==_iff (text "a") (text "b")).1 e in cc

foreign_control : Protected (caller_id bob) room_owners room_documents (text "docs/__gs/m")
unfolding document_path lookup bytes_beq last_resource_segment
foreign_control = inr (inl (text "m", refl), (λ e. a_not_b e), refl)

commit_protects_example :
    Unchanged (text "docs/__gs/m") (view (text "r") room_server) (view (text "r") refused.0)
commit_protects_example =
    commit_protects message_size digit faultless room_server bob later close_room
      (text "docs/__gs/m") foreign_control

-- Ann publishes her presence into a room without documents.
abbrev publish_presence : WriteDocumentsRequest
publish_presence = record {
  write_operations = update_document (text "docs/__pus/a") (some presence) none none ∷ [];
  deferment_operations = [];
}

bare_typed : WellTyped (view (text "r") bare_server)
unfolding lookup bytes_beq
bare_typed name d found = cc

commit_typed_example : WellTyped (
    view
      (text "r")
      (commit_documents message_size digit faultless bare_server ann later publish_presence).0)
commit_typed_example =
    commit_typed message_size digit faultless bare_server ann later publish_presence bare_typed

abbrev ann_gone : GamesyncServer
ann_gone = expired message_size (text "a") 5 later room_server ann

timer_current : timer_stale (text "a") 5 room_server ≡ false
unfolding lookup bytes_beq
timer_current = refl

ann_known : lookup (text "a") room_server.sessions ≡ some ann
unfolding lookup bytes_beq
ann_known = refl

owners_unique : UniqueKeys room_owners
unfolding lookup bytes_beq
owners_unique = (refl, (refl, tt))

expire_exact_example :
    (lookup (text "a") ann_gone.sessions ≡ none)
    × ((name : Bytes)
        → NotControl name room_documents
        → (name ≡ own_record (text "a")) ⊎ (lookup name room_owners ≡ some (text "a"))
        → ((view (text "r") ann_gone).document_at name ≡ none)
          × ((view (text "r") ann_gone).owner_at name ≡ none))
    × ((name : Bytes)
        → NotControl name room_documents
        → name ≢ own_record (text "a")
        → owner_of room_owners name ≢ text "a"
        → Unchanged name (view (text "r") room_server) (view (text "r") ann_gone))
expire_exact_example =
    expire_exact message_size (text "a") 5 later room_server ann timer_current ann_known
      owners_unique

abbrev bob_claims : Option AccessClaims
bob_claims =
    some (record { subject = text "bob"; game_session = text "r"; user_session = text "b" })

bob_allowed : authorized_session room_server bob_claims [] ≡ ok bob
unfolding authorized_session lookup bytes_beq last_resource_segment
bob_allowed = refl

abbrev one_by_one : ListDocumentsRequest
one_by_one = record {
  parent = text "docs/__us";
  page_size = pos 1;
  page_token = [];
  read_mask = none;
  show_missing = false;
}

one_by_one_fine : check_collection one_by_one ≡ ok tt
one_by_one_fine = refl

documents_unique : UniqueKeys room_documents
unfolding lookup bytes_beq
documents_unique = (refl, (refl, (refl, (refl, tt))))

pages_list_all_example :
    list_all room_server bob_claims one_by_one 5 []
    ≡ collect
        (masked_at room_documents none)
        (sort_strings (keep (in_collection (text "docs/__us")) (names_of room_documents)))
unfolding lookup bytes_beq
pages_list_all_example =
    pages_list_all room_server bob_claims one_by_one bob 5 bob_allowed one_by_one_fine
      documents_unique (omega arith)

abbrev two_reads : ReadDocumentsRequest
two_reads = record {
  documents = text "docs/__gs/m" ∷ text "docs/__pus/b" ∷ [];
  transaction = [];
  read_mask = none;
}

read_documents_each_example :
    read_documents room_server bob_claims two_reads
    ≡ collect
        (λ name. as_read name (get_document room_server bob_claims (get_request two_reads name)))
        two_reads.documents
read_documents_each_example =
    read_documents_each room_server bob_claims two_reads bob bob_allowed refl (omega arith)
