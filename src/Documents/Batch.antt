-- ===== src/Documents/Batch.antt =====
-- gamesync_store.go: the write operations of WriteDocuments, which work on copies of the maps of
-- the caller's game session.
use pokemon_violet.Base.{
  Bool, true, false, ◌&&◌, not, Option, none, some, List, [], ◌∷◌, ◌++◌, if◌then◌else◌, ◌==◌,
  nat_eq, bytes_eq,
}
use pokemon_violet.Base.Dict.{Dict, lookup, delete, insert}
use pokemon_violet.Base.Int.{ℤ, int_eq}
use pokemon_violet.Base.Result.{
  invalid_argument, failed_precondition, unimplemented, Result, err, ok, ◌>>=◌, ◌>>◌, guard,
}
use pokemon_violet.Base.Text.{Bytes, text, has_prefix}
use pokemon_violet.TradeBox.Message.{Time}
use pokemon_violet.TradeBox.Server.{last_resource_segment}
use pokemon_violet.Session.Message.{MapValue, Value}
use pokemon_violet.Documents.Message.{
  Document, Precondition, exists_condition, update_time_condition, empty_condition, FieldTransform,
  WriteOperation, update_document, merge_document, transform_document, delete_document, empty_write,
  WriteResult, update_result, delete_result, transform_result, GamesyncSession,
}
use pokemon_violet.Documents.Field.{whole_mask, mask_paths, copy_masked}
use pokemon_violet.Documents.Transform.{apply_field_transform}
use pokemon_violet.Documents.Writable.{writable_document, is_some}

-- proto.Equal on two timestamps.
abbrev same_time : Time → Time → Bool
same_time a b = a.seconds == b.seconds && a.nanos == b.nanos

update_time_is : Option Time → Option Document → Bool
update_time_is (some t) (some doc) = same_time t doc.update_time
update_time_is _ _ = false

unfoldable pub check_precondition : Option Precondition → Option Document → Result (Unit {0})
unfolding update_time_is
check_precondition none doc = ok tt
check_precondition (some (exists_condition wanted)) doc =
    guard (if wanted then is_some doc else not (is_some doc)) failed_precondition
check_precondition (some (update_time_condition t)) doc =
    guard (update_time_is t doc) failed_precondition
check_precondition (some empty_condition) doc = err invalid_argument

-- The name and the precondition that the first switch reads; no operation is an error.
abbrev pub target_name : WriteOperation → Bytes
target_name (update_document name content mask condition) = name
target_name (merge_document name content) = name
target_name (transform_document name transforms) = name
target_name (delete_document name condition) = name
target_name empty_write = []

abbrev pub precondition : WriteOperation → Option Precondition
precondition (update_document name content mask condition) = condition
precondition (delete_document name condition) = condition
precondition _ = none

abbrev pub no_operation : WriteOperation → Bool
no_operation empty_write = true
no_operation _ = false

abbrev pub is_delete : WriteOperation → Bool
is_delete (delete_document name condition) = true
is_delete _ = false

-- The document that an operation starts from: a copy of the stored one, or a new one.
unfoldable pub draft : Bytes → Option Document → Time → Document
draft name none now = record { name = name; fields = []; create_time = now; update_time = now }
draft name (some doc) now = record doc { update_time = now }

-- The loop over the fields of a merge.
unfoldable pub merge_fields : MapValue → MapValue → MapValue
merge_fields [] target = target
merge_fields ((k, v) ∷ source) target = merge_fields source (insert k v target)

-- What the second switch leaves behind. `written` is what the source calls `fields`.
pub record Edit : Type 0 where
  pub document : Document
  pub globals : Dict Bytes Value
  pub written : Option MapValue
  pub result : WriteResult

abbrev pub edited : Document → Dict Bytes Value → WriteResult → MapValue → Edit
edited doc globals result content = record {
  document = record doc { fields = content };
  globals = globals;
  written = some content;
  result = result;
}

-- The loop over the transforms of one operation.
pub record TransformRun : Type 0 where
  pub fields : MapValue
  pub globals : Dict Bytes Value
  pub transformed : List Value

unfoldable pub apply_transforms : List FieldTransform → Time → TransformRun → Result TransformRun
apply_transforms [] now run = ok run
apply_transforms (t ∷ rest) now run = apply_field_transform run.fields t run.globals now >>= λ r.
    apply_transforms rest now (record {
      fields = r.fields;
      globals = r.globals;
      transformed = run.transformed ++ (r.value ∷ []);
    })

unfoldable pub edit_transform :
    Bytes → List FieldTransform → Option Document → Document → Dict Bytes Value → Time → Result Edit
edit_transform name transforms existing doc globals now =
    guard (is_some existing) failed_precondition
    >> guard (has_prefix name (text "docs/__pus/")) unimplemented
    >> apply_transforms transforms now
        (record { fields = doc.fields; globals = globals; transformed = [] })
    >>= λ run. ok (edited doc run.globals (transform_result run.transformed) run.fields)

unfoldable pub edit_update :
    Option MapValue → Option (List Bytes) → Document → Dict Bytes Value → Result Edit
edit_update none mask doc globals = err invalid_argument
edit_update (some content) mask doc globals =
    if whole_mask mask
    then ok (edited doc globals update_result content)
    else copy_masked (mask_paths mask) content doc.fields >>= λ after.
        ok (edited doc globals update_result after)

unfoldable pub edit_merge : Option MapValue → Document → Dict Bytes Value → Result Edit
edit_merge none doc globals = err invalid_argument
edit_merge (some content) doc globals =
    ok (edited doc globals update_result (merge_fields content doc.fields))

-- The second switch.
unfoldable pub edit :
    WriteOperation → Option Document → Document → Dict Bytes Value → Time → Result Edit
edit (update_document name content mask condition) existing doc globals now =
    edit_update content mask doc globals
edit (merge_document name content) existing doc globals now = edit_merge content doc globals
edit (transform_document name transforms) existing doc globals now =
    edit_transform name transforms existing doc globals now
edit (delete_document name condition) existing doc globals now =
    ok (record { document = doc; globals = globals; written = none; result = delete_result })
edit empty_write existing doc globals now = err invalid_argument

-- The copies that the loop works on.
pub record Batch : Type 0 where
  pub documents : Dict Bytes Document
  pub global_values : Dict Bytes Value
  pub owners : Dict Bytes Bytes
  pub changed : Dict Bytes Bool
  pub results : List WriteResult

unfoldable pub store_edit : WriteOperation → Bytes → Edit → Batch → Batch
store_edit op owner e b = record {
  documents =
      if is_delete op
      then delete (target_name op) b.documents
      else insert (target_name op) e.document b.documents;
  global_values = e.globals;
  owners =
      if is_delete op
      then delete (target_name op) b.owners
      else insert (target_name op) owner b.owners;
  changed = insert (target_name op) true b.changed;
  results = b.results ++ (e.result ∷ []);
}

module _ (decimal : ℤ → Bytes) (session : GamesyncSession) (sessions : Dict Bytes GamesyncSession)
    (now : Time) where
  -- One round of the loop.
  unfoldable pub write_operation : WriteOperation → Batch → Result Batch
  write_operation op b =
      let name = target_name op in
      let existing = lookup name b.documents in
      guard (not (no_operation op)) invalid_argument
      >> check_precondition (precondition op) existing
      >> edit op existing (draft name existing now) b.global_values now
      >>= λ e.
          writable_document decimal name e.written session b.owners existing sessions
          >> ok (store_edit op (last_resource_segment session.user_session) e b)

  unfoldable pub write_operations : List WriteOperation → Batch → Result Batch
  write_operations [] b = ok b
  write_operations (op ∷ ops) b = write_operation op b >>= write_operations ops
