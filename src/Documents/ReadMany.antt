-- ===== src/Documents/ReadMany.antt =====
-- gamesync_reads.go and gamesync_store.go: ReadDocuments against GetDocument.
use pokemon_violet.Base.{
  ℕ, ◌≤◌, ◌≡◌, refl, sym, inl, inr, true, false, Option, none, some, List, [], ◌∷◌, arith, ltb,
  Bool-cases, ◌==◌, ==_iff, nat_eq, bytes_eq, length,
}
use pokemon_violet.Base.Dict.{Dict, lookup}
use pokemon_violet.Base.Int.{int_eq}
use pokemon_violet.Base.Result.{
  invalid_argument, not_found, unimplemented, Result, err, ok, ◌>>=◌, ◌>>◌, guard, OnlyError,
  >>=-OnlyError,
}
use pokemon_violet.Base.Text.{Bytes}
use pokemon_violet.Session.Message.{MapValue}
use pokemon_violet.Documents.Message.{Document, GamesyncSession}
use pokemon_violet.Documents.Path.{document_path}
use pokemon_violet.Documents.Writable.{is_some}
use pokemon_violet.Documents.Field.{
  masked_document, Scan, scan_rune, scan_path, field_path, read_field, set_field, whole_mask,
  mask_paths, copy_masked, start_scan, end_scan,
}
use pokemon_violet.Documents.Server.{GamesyncServer, map_at, AccessClaims, authorized_session}
use pokemon_violet.Documents.Reads.{
  read_documents, ReadResult, missing_document, found_document, GetDocumentRequest, get_document,
  ReadDocumentsRequest, read_one, collect, find_masked, read_stored,
}

scan_rune-OnlyError : (c : ℕ) (s : Scan) → OnlyError invalid_argument (scan_rune c s)
unfolding scan_rune
scan_rune-OnlyError c s e failed = ground (arith, failed)

scan_path-OnlyError : (path : Bytes) (s : Scan) → OnlyError invalid_argument (scan_path path s)
unfolding scan_path
scan_path-OnlyError [] s = λ e failed. cc
scan_path-OnlyError (c ∷ path) s =
    >>=-OnlyError invalid_argument (scan_rune c s) (scan_path path) (scan_rune-OnlyError c s)
      (scan_path-OnlyError path)

end_scan-OnlyError : (path : Bytes) (s : Scan) → OnlyError invalid_argument (end_scan path s)
end_scan-OnlyError path s e failed = ground (arith, failed)

pub field_path-OnlyError : (path : Bytes) → OnlyError invalid_argument (field_path path)
unfolding field_path
field_path-OnlyError path =
    >>=-OnlyError invalid_argument (scan_path path start_scan) (end_scan path)
      (scan_path-OnlyError path start_scan) (end_scan-OnlyError path)

copy_masked-OnlyError :
    (paths : List Bytes) (source target : MapValue)
    → OnlyError invalid_argument (copy_masked paths source target)
unfolding copy_masked
copy_masked-OnlyError [] source target = λ e failed. cc
copy_masked-OnlyError (p ∷ paths) source target =
    >>=-OnlyError invalid_argument (field_path p)
      (λ path. copy_masked paths source (set_field target path (read_field source path)))
      (field_path-OnlyError p)
      (λ path. copy_masked-OnlyError paths source (set_field target path (read_field source path)))

pub masked_document-OnlyError :
    (document : Document) (mask : Option (List Bytes))
    → OnlyError invalid_argument (masked_document document mask)
unfolding masked_document
masked_document-OnlyError document mask = elim (Bool-cases (whole_mask mask)) [
  | inl whole ↦ λ e failed. ground (arith, whole, failed)
  | inr part ↦ rw part (
      >>=-OnlyError invalid_argument (copy_masked (mask_paths mask) document.fields [])
        (λ content. ok (record document { fields = content }))
        (copy_masked-OnlyError (mask_paths mask) document.fields []) (λ content e failed. cc))
]

-- An answer of GetDocument as the result of ReadDocuments.
abbrev pub as_read : Bytes → Result Document → Result ReadResult
as_read name (ok d) = ok (found_document d)
as_read name (err not_found) = ok (missing_document name)
as_read name (err c) = err c

abbrev pub get_request : ReadDocumentsRequest → Bytes → GetDocumentRequest
get_request request name = record {
  name = name;
  transaction = request.transaction;
  read_mask = request.read_mask;
}

as_read-found :
    (name : Bytes) (r : Result Document)
    → OnlyError invalid_argument r
    → as_read name r ≡ (r >>= λ masked. ok (found_document masked))
as_read-found name (ok d) only = refl
as_read-found name (err c) only = rw (only c refl) refl

module _ (g : GamesyncServer) (caller : Option AccessClaims) (request : ReadDocumentsRequest)
    (session : GamesyncSession) where
  abbrev docs : Dict Bytes Document
  docs = map_at session.game_session g.documents

  get_document_lem :
      (name : Bytes)
      → authorized_session g caller [] ≡ ok session
      → get_document g caller (get_request request name) ≡ (
          guard (is_some (document_path name)) invalid_argument
          >> guard (request.transaction == []) unimplemented
          >> find_masked (lookup name docs) request.read_mask)
  unfolding get_document
  get_document_lem name allowed = rw allowed refl

  find_masked_lem :
      (name : Bytes) (d : Option Document)
      → read_stored name d request.read_mask ≡ as_read name (find_masked d request.read_mask)
  find_masked_lem name none = refl
  find_masked_lem name (some d) = sym (
      as_read-found name (masked_document d request.read_mask)
        (masked_document-OnlyError d request.read_mask))

  read_one_lem :
      (name : Bytes)
      → authorized_session g caller [] ≡ ok session
      → (request.transaction == []) ≡ true
      → read_one docs request.read_mask name
        ≡ as_read name (get_document g caller (get_request request name))
  unfolding read_one
  read_one_lem name allowed whole = rw (get_document_lem name allowed) (
      rw whole (elim (Bool-cases (is_some (document_path name))) [
        | inr bad ↦ rw bad refl
        | inl good ↦ rw good (find_masked_lem name (lookup name docs))
      ]))

  collect-cong {ℓ κ} :
      {A : Type ℓ} {B : Type κ} (f h : A → Result B) (xs : List A)
      → ((x : A) → f x ≡ h x)
      → collect f xs ≡ collect h xs
  unfolding collect
  collect-cong f h [] same = refl
  collect-cong f h (x ∷ xs) same = rw (same x, collect-cong f h xs same) refl

  -- ReadDocuments on at most 256 names, in a known session and with no transaction, answers as
  -- GetDocument would for each name in turn with the same mask: what it finds, that the document is
  -- missing where GetDocument returns not found, and the first other error for the whole request.
  pub read_documents_each :
      authorized_session g caller [] ≡ ok session
      → request.transaction ≡ []
      → length request.documents ≤ 256
      → read_documents g caller request
        ≡ collect
            (λ name. as_read name (get_document g caller (get_request request name)))
            request.documents
  unfolding read_documents
  read_documents_each allowed plain_read few =
      let whole : (request.transaction == []) ≡ true =
        (==_iff request.transaction []).1 plain_read in
      let fits : ltb 256 (length request.documents) ≡ false = ground (arith, few) in
      rw allowed (
        rw whole (
          rw fits (
            collect-cong (read_one docs request.read_mask)
              (λ name. as_read name (get_document g caller (get_request request name)))
              request.documents (λ name. read_one_lem name allowed whole))))
