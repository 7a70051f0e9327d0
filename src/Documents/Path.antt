-- ===== src/Documents/Path.antt =====
-- gamesync_store.go: the names of documents.
use pokemon_violet.Base.{
  Bool, ◌&&◌, ◌||◌, not, Option, none, some, List, [], ◌∷◌, if◌then◌else◌, ◌==◌, nat_eq, bytes_eq,
}
use pokemon_violet.Base.Int.{int_eq}
use pokemon_violet.Base.Text.{Bytes, text, split_slash, join_slash}

-- parts[0] to parts[2] of a path with at least three parts.
abbrev good_head : Bytes → Bytes → Bytes → Bool
good_head root collection id =
    root == text "docs"
    && not (collection == [])
    && not (id == [] || id == text "." || id == text "..")

-- The nested family of battle reports.
abbrev report_path : Bytes → Bytes → Bytes → Bytes → Bool
report_path collection id users sequence =
    collection == text "@@battleReport"
    && id == text "id"
    && users == text "users"
    && (sequence == text "1" || sequence == text "2")

path_parts : List Bytes → Option (Bytes × Bytes)
path_parts (root ∷ collection ∷ id ∷ []) =
    if good_head root collection id then some (collection, id) else none
path_parts (root ∷ collection ∷ id ∷ users ∷ sequence ∷ []) =
    if good_head root collection id && report_path collection id users sequence
    then some (collection, join_slash (id ∷ users ∷ sequence ∷ []))
    else none
path_parts _ = none

unfoldable pub document_path : Bytes → Option (Bytes × Bytes)
unfolding path_parts
document_path name = path_parts (split_slash name)
