-- ===== src/Documents/Listing.antt =====
-- gamesync_reads.go: following the pages of ListDocuments lists the whole collection.
use pokemon_violet.Base.{
  ℕ, zero, suc, ◌≤◌, ◌<◌, ◌≡◌, refl, sym, ap, ◌∙◌, ◌⊎◌, inl, inr, Bool, true, false, not, Option,
  List, [], ◌∷◌, ◌++◌, arith, ltb, if◌then◌else◌, Bool-cases, ◌==◌, ==_iff, ==_refl, nat_eq,
  bytes_eq, length, take, drop, keep, length-drop, take-append_drop, take_all,
}
use pokemon_violet.Base.Dict.{Dict, UniqueKeys}
use pokemon_violet.Base.Int.{ℤ, pos, negsuc, ltb_ℤ, int_eq}
use pokemon_violet.Base.Result.{
  Code, invalid_argument, unimplemented, diverges, Result, err, ok, ◌>>=◌, guard, Result-cases,
  >>-eq-ok, guard-eq-ok,
}
use pokemon_violet.Base.Text.{Bytes, has_prefix}
use pokemon_violet.Documents.Message.{Document, GamesyncSession}
use pokemon_violet.Documents.Order.{bytes_ltb, sort_strings}
use pokemon_violet.Documents.Server.{GamesyncServer, AccessClaims, map_at, authorized_session}
use pokemon_violet.Documents.Reads.{
  list_documents, ListDocumentsRequest, folder, check_list, page_limit, in_collection, names_of,
  listed_names, check_collection, good_token, collect, masked_at, good_parent,
  ListDocumentsResponse,
}
use pokemon_violet.Documents.Sorted.{Ascending, All, All-weaken}
use pokemon_violet.Documents.Paging.{
  next_token, page_of, list_page_lem, next_token-All, keep-next_token, next_token-end,
  collect-append,
}
use pokemon_violet.Documents.Collection.{
  wanted, listed-Ascending, listed-All, listed_later, listed-length, listed_first, folder_nonempty,
  bytes_ltb_least,
}

-- The request for the page after a token.
abbrev pub page_request : ListDocumentsRequest → Bytes → ListDocumentsRequest
page_request request token = record request { page_token = token }

check_list-page :
    (request : ListDocumentsRequest) (token : Bytes)
    → check_collection request ≡ ok tt
    → (token == []) ≡ true ⊎ (has_prefix token (folder request.parent) ≡ true)
    → check_list (page_request request token) ≡ ok tt
unfolding check_list
check_list-page request token good (inl none_yet) = rw good (rw none_yet refl)
check_list-page request token good (inr inside) =
    let fine : good_token (page_request request token) ≡ true = ground (arith, inside) in
    rw good (rw fine refl)

page_limit-pos : (size : ℤ) → ltb_ℤ size (pos 0) ≡ false → 1 ≤ page_limit size
unfolding page_limit
page_limit-pos (pos n) good = ground arith
page_limit-pos (negsuc n) bad = ground arith

-- The documents of a page, and of those that its token leads to.
unfoldable pub follow :
    (Bytes → Result (List Document)) → ListDocumentsResponse → Result (List Document)
follow next page =
    if page.next_page_token == []
    then ok page.documents
    else next page.next_page_token >>= λ rest. ok (page.documents ++ rest)

-- A client that asks for page after page until no token is left.
unfoldable pub list_all :
    GamesyncServer → Option AccessClaims → ListDocumentsRequest → ℕ → Bytes → Result (List Document)
list_all g caller request zero token = err diverges
list_all g caller request (suc fuel) token =
    list_documents g caller (page_request request token) >>= follow (list_all g caller request fuel)

cut_fails {ℓ κ} :
    {A : Type ℓ} {B : Type κ} (visit : A → Result B) (n : ℕ) (xs : List A) (c : Code)
    → collect visit (take n xs) ≡ err c
    → collect visit xs ≡ err c
cut_fails visit n xs c failed =
    ap (collect visit) (sym (take-append_drop n xs))
    ∙ collect-append visit (take n xs) (drop n xs)
    ∙ rw failed refl

cut_goes_on {ℓ κ} :
    {A : Type ℓ} {B : Type κ} (visit : A → Result B) (n : ℕ) (xs : List A) (bs : List B)
    → collect visit (take n xs) ≡ ok bs
    → collect visit xs ≡ (collect visit (drop n xs) >>= λ cs. ok (bs ++ cs))
cut_goes_on visit n xs bs done =
    ap (collect visit) (sym (take-append_drop n xs))
    ∙ collect-append visit (take n xs) (drop n xs)
    ∙ rw done refl

follow_last :
    (next : Bytes → Result (List Document)) (page : ListDocumentsResponse)
    → page.next_page_token ≡ []
    → follow next page ≡ ok page.documents
unfolding follow
follow_last next page last =
    let same : (page.next_page_token == []) ≡ true = (==_iff page.next_page_token []).1 last in
    rw same refl

follow_more :
    (next : Bytes → Result (List Document)) (page : ListDocumentsResponse)
    → (page.next_page_token == []) ≡ false
    → follow next page ≡ (next page.next_page_token >>= λ rest. ok (page.documents ++ rest))
unfolding follow
follow_more next page more = rw more refl

first_token-All :
    (p : Bytes → Bool) (n : ℕ) (xs : List Bytes)
    → 1 ≤ n
    → n < length xs
    → All p xs
    → p (next_token n [] xs) ≡ true
first_token-All p zero xs some_room more all = absurd (omega arith)
first_token-All p (suc n) [] some_room more all = absurd (omega arith)
first_token-All p (suc n) (x ∷ xs) some_room more all =
    next_token-All p n x xs all.0 all.1 (omega arith)

module _ (g : GamesyncServer) (caller : Option AccessClaims) (request : ListDocumentsRequest)
    (session : GamesyncSession) where
  abbrev docs : Dict Bytes Document
  docs = map_at session.game_session g.documents

  abbrev after : Bytes → List Bytes
  after token = listed_names docs request.parent token

  abbrev visit : Bytes → Result Document
  visit = masked_at docs request.read_mask

  abbrev limit : ℕ
  limit = page_limit request.page_size

  list_documents_lem :
      (token : Bytes)
      → authorized_session g caller [] ≡ ok session
      → check_list (page_request request token) ≡ ok tt
      → list_documents g caller (page_request request token) ≡ (
          collect visit (take limit (after token)) >>= λ ds. ok (page_of limit [] (after token) ds))
  unfolding list_documents
  list_documents_lem token allowed good =
      rw allowed (rw good (list_page_lem docs request.read_mask limit [] (after token)))

  limit-pos : check_collection request ≡ ok tt → 1 ≤ limit
  limit-pos good =
      let (shape, _) =
        >>-eq-ok (guard (good_parent request) invalid_argument)
          (guard (not request.show_missing) unimplemented) good in
      page_limit-pos request.page_size
        (ground (arith, guard-eq-ok (good_parent request) invalid_argument shape))

  -- The token of a page that leaves names over stands in the collection, after the old token.
  token_inside :
      (token : Bytes)
      → 1 ≤ limit
      → limit < length (after token)
      → wanted docs request.parent token (next_token limit [] (after token)) ≡ true
  token_inside token some_room more =
      first_token-All (wanted docs request.parent token) limit (after token) some_room more
        (listed-All docs request.parent token)

  left_over :
      (token : Bytes)
      → UniqueKeys docs
      → 1 ≤ limit
      → limit < length (after token)
      → after (next_token limit [] (after token)) ≡ drop limit (after token)
  left_over token unique some_room more =
      let next = next_token limit [] (after token) in
      let inside = token_inside token some_room more in
      let up : Ascending ([] ∷ after token) = (
        All-weaken (wanted docs request.parent token) (bytes_ltb []) (after token)
            (λ x good. bytes_ltb_least token x (ground (arith, good)))
            (listed-All docs request.parent token),
        listed-Ascending docs request.parent token unique,
      ) in
      sym (listed_later docs request.parent token next unique (ground (arith, inside)))
      ∙ (keep-next_token limit [] (after token) up more).0

  list_all_from :
      (fuel : ℕ) (token : Bytes)
      → authorized_session g caller [] ≡ ok session
      → check_collection request ≡ ok tt
      → UniqueKeys docs
      → ((token == []) ≡ true) ⊎ (has_prefix token (folder request.parent) ≡ true)
      → length (after token) < fuel
      → list_all g caller request fuel token ≡ collect visit (after token)
  unfolding list_all
  list_all_from zero token allowed good unique fine enough = absurd (omega arith)
  list_all_from (suc fuel) token allowed good unique fine enough =
      let xs = after token in
      let page = list_documents_lem token allowed (check_list-page request token good fine) in
      rw page (elim (Result-cases (collect visit (take limit xs))) [
        | inl (c, failed) ↦ rw failed (sym (cut_fails visit limit xs c failed))
        | inr (ds, done) ↦
            let this_page = page_of limit [] xs ds in
            rw done (elim (Bool-cases (ltb limit (length xs))) [
              | inr few ↦
                  let short : length xs ≤ limit = ground (arith, few) in
                  follow_last (list_all g caller request fuel) this_page
                    (next_token-end limit [] xs short)
                  ∙ sym done
                  ∙ ap (collect visit) (take_all limit xs short)
              | inl more ↦
                  let beyond : limit < length xs = ground (arith, more) in
                  let some_room = limit-pos good in
                  let next = next_token limit [] xs in
                  let inside : has_prefix next (folder request.parent) ≡ true =
                    ground (arith, token_inside token some_room beyond) in
                  let left = left_over token unique some_room beyond in
                  let later =
                    list_all_from fuel next allowed good unique (inr inside)
                      (rw left (omega (arith, length-drop limit xs))) in
                  follow_more (list_all g caller request fuel) this_page
                    (folder_nonempty request.parent next inside)
                  ∙ ap (λ r. r >>= λ rest. ok (ds ++ rest)) (later ∙ ap (collect visit) left)
                  ∙ sym (cut_goes_on visit limit xs ds done)
            ])
      ])

  -- With the token of one page as the token of the next request, the pages of ListDocuments give
  -- every document that stands directly in the collection once, in the byte order of the names and
  -- under the mask, or the first error of the mask, for every page size. The session is known, the
  -- request is one that is not refused, a map holds each name once, and a round more than the room
  -- has documents is enough.
  pub pages_list_all :
      (fuel : ℕ)
      → authorized_session g caller [] ≡ ok session
      → check_collection request ≡ ok tt
      → UniqueKeys docs
      → length docs < fuel
      → list_all g caller request fuel []
        ≡ collect visit (sort_strings (keep (in_collection request.parent) (names_of docs)))
  pages_list_all fuel allowed good unique enough =
      list_all_from fuel [] allowed good unique (inl (==_refl {A = Bytes} []))
        (omega (arith, listed-length docs request.parent [], enough))
      ∙ ap (collect visit) (listed_first docs request.parent)
