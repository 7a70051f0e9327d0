-- ===== src/Documents/Reads.antt =====
-- gamesync_store.go and gamesync_reads.go: GetDocument, ReadDocuments, ListDocuments, and the
-- snapshot of a target.
use pokemon_violet.Base.{
  ℕ, zero, suc, Bool, ◌&&◌, ◌||◌, not, Option, none, some, List, [], ◌∷◌, ◌++◌, map, ltb,
  if◌then◌else◌, ◌==◌, nat_eq, bytes_eq, length, keep,
}
use pokemon_violet.Base.Dict.{Dict, lookup}
use pokemon_violet.Base.Int.{ℤ, pos, pos_part, ltb_ℤ, int_eq}
use pokemon_violet.Base.Result.{
  invalid_argument, not_found, resource_exhausted, unimplemented, internal, Result, err, ok, ◌>>=◌,
  ◌>>◌, guard,
}
use pokemon_violet.Base.Text.{Bytes, text, has_prefix}
use pokemon_violet.Documents.Message.{Document, GamesyncSession}
use pokemon_violet.Documents.Path.{document_path}
use pokemon_violet.Documents.Field.{masked_document}
use pokemon_violet.Documents.Writable.{is_some}
use pokemon_violet.Documents.Server.{
  GamesyncServer, Target, map_at, AccessClaims, authorized_session, authenticated,
  target_matches_document,
}
use pokemon_violet.Documents.Order.{sort_strings, bytes_ltb}

pub record GetDocumentRequest : Type 0 where
  pub name : Bytes
  pub transaction : Bytes
  pub read_mask : Option (List Bytes)

abbrev pub find_masked : Option Document → Option (List Bytes) → Result Document
find_masked none mask = err not_found
find_masked (some document) mask = masked_document document mask

unfoldable pub get_document :
    GamesyncServer → Option AccessClaims → GetDocumentRequest → Result Document
get_document g caller request = authenticated (authorized_session g caller []) >>= λ session.
    guard (is_some (document_path request.name)) invalid_argument
    >> guard (request.transaction == []) unimplemented
    >> find_masked (lookup request.name (map_at session.game_session g.documents)) request.read_mask

pub record ReadDocumentsRequest : Type 0 where
  pub documents : List Bytes
  pub transaction : Bytes
  pub read_mask : Option (List Bytes)

pub data ReadResult : Type 0 where
  missing_document : Bytes → ReadResult
  found_document : Document → ReadResult

abbrev pub read_stored : Bytes → Option Document → Option (List Bytes) → Result ReadResult
read_stored name none mask = ok (missing_document name)
read_stored name (some d) mask = masked_document d mask >>= λ masked. ok (found_document masked)

-- One round of the loop.
unfoldable pub read_one : Dict Bytes Document → Option (List Bytes) → Bytes → Result ReadResult
read_one docs mask name =
    guard (is_some (document_path name)) invalid_argument
    >> read_stored name (lookup name docs) mask

unfoldable pub collect {ℓ κ} : {A : Type ℓ} {B : Type κ} → (A → Result B) → List A → Result (List B)
collect visit [] = ok []
collect visit (a ∷ rest) = visit a >>= λ b. collect visit rest >>= λ bs. ok (b ∷ bs)

unfoldable pub read_documents :
    GamesyncServer → Option AccessClaims → ReadDocumentsRequest → Result (List ReadResult)
read_documents g caller request = authenticated (authorized_session g caller []) >>= λ session.
    guard (request.transaction == []) unimplemented
    >> guard (not (ltb 256 (length request.documents))) resource_exhausted
    >> collect (read_one (map_at session.game_session g.documents) request.read_mask)
        request.documents

-- The page size is an int32. A nil request is outside gRPC's calls.
pub record ListDocumentsRequest : Type 0 where
  pub parent : Bytes
  pub page_size : ℤ
  pub page_token : Bytes
  pub read_mask : Option (List Bytes)
  pub show_missing : Bool

pub record ListDocumentsResponse : Type 0 where
  pub documents : List Document
  pub next_page_token : Bytes

-- strings.Count(s, "/")
abbrev pub count_slashes : Bytes → ℕ
count_slashes [] = 0
count_slashes (c ∷ s) = let rest = count_slashes s in if c == b'/' then suc rest else rest

abbrev pub folder : Bytes → Bytes
folder parent = parent ++ text "/"

abbrev pub good_parent : ListDocumentsRequest → Bool
good_parent request =
    has_prefix request.parent (text "docs/")
    && count_slashes request.parent == 1
    && ltb 5 (length request.parent)
    && not (ltb_ℤ request.page_size (pos 0))

abbrev pub check_collection : ListDocumentsRequest → Result (Unit {0})
check_collection request =
    guard (good_parent request) invalid_argument >> guard (not request.show_missing) unimplemented

abbrev pub good_token : ListDocumentsRequest → Bool
good_token request =
    request.page_token == [] || has_prefix request.page_token (folder request.parent)

unfoldable pub check_list : ListDocumentsRequest → Result (Unit {0})
check_list request = check_collection request >> guard (good_token request) invalid_argument

unfoldable pub page_limit : ℤ → ℕ
page_limit page_size =
    if page_size == pos 0 then 20 else if ltb_ℤ (pos 100) page_size then 100 else pos_part page_size

-- The documents directly in the collection.
abbrev pub in_collection : Bytes → Bytes → Bool
in_collection parent name = has_prefix name (folder parent) && count_slashes name == 2

abbrev pub names_of : Dict Bytes Document → List Bytes
names_of docs = map (λ (entry : Bytes × Document). entry.0) docs

-- The loop over the map and the sort.
unfoldable pub listed_names : Dict Bytes Document → Bytes → Bytes → List Bytes
listed_names docs parent token =
    sort_strings (keep (λ name. in_collection parent name && bytes_ltb token name) (names_of docs))

-- The names come from the same map, so that each has its document.
abbrev pub masked_at : Dict Bytes Document → Option (List Bytes) → Bytes → Result Document
masked_at docs mask name = elim (lookup name docs) [
  | none ↦ err internal
  | some d ↦ masked_document d mask
]

-- The loop over the names: `left` more documents fit, and `last` is names[i-1].
unfoldable pub list_page :
    Dict Bytes Document
    → Option (List Bytes)
    → ℕ
    → Bytes
    → List Bytes
    → Result ListDocumentsResponse
list_page docs mask left last [] = ok (record { documents = []; next_page_token = [] })
list_page docs mask zero last (name ∷ names) =
    ok (record { documents = []; next_page_token = last })
list_page docs mask (suc left) last (name ∷ names) = masked_at docs mask name >>= λ d.
    list_page docs mask left name names >>= λ page.
    ok (record page { documents = d ∷ page.documents })

unfoldable pub list_documents :
    GamesyncServer → Option AccessClaims → ListDocumentsRequest → Result ListDocumentsResponse
list_documents g caller request = authenticated (authorized_session g caller []) >>= λ session.
    check_list request
    >> list_page (map_at session.game_session g.documents) request.read_mask
        (page_limit request.page_size) []
        (listed_names (map_at session.game_session g.documents) request.parent request.page_token)

-- documents[name] for each name of the map.
unfoldable pub documents_at : Dict Bytes Document → List Bytes → List Document
documents_at docs [] = []
documents_at docs (name ∷ names) =
    let rest = documents_at docs names in
    elim (lookup name docs) [ none ↦ rest | some d ↦ d ∷ rest ]

unfoldable pub committed_snapshot : GamesyncServer → GamesyncSession → Target → List Document
committed_snapshot g session target =
    let docs = map_at session.game_session g.documents in
    documents_at docs (sort_strings (keep (target_matches_document target) (names_of docs)))
