-- ===== src/Validation/Reply.antt =====
-- trade_validation.go: what the replies to validation requests vouch for.
use pokemon_violet.Base.{
  ℕ, ◌/◌, ◌%◌, ◌≤◌, ◌≡◌, refl, sym, ap, ◌∙◌, ◌≢◌, ◌⊎◌, inl, inr, Bool, true, false, Option, some,
  [], ◌∷◌, ◌++◌, arith, ltb, Bool-cases, Option-cases, ◌==◌, ==_iff, nat_eq, bytes_eq, length, drop,
}
use pokemon_violet.Base.Int.{int_eq}
use pokemon_violet.Base.Result.{plain, err, ok, Result-cases}
use pokemon_violet.Base.Text.{Bytes}
use pokemon_violet.Validation.{
  TradeValidationRequest, trade_max_request_size, uint16, parse_trade_validation_request,
  key_version, public_key_response, HttpReply, failed_with, client_version, signed_reply,
  validate_request, serve_validate,
}
use pokemon_violet.Validation.Shape.{
  IsRequest, print_request, parse-print_request, print-parse-IsRequest,
}

-- A reply with success answers a posted, well-formed request: either the game's key is not the
-- server's and it is told to fetch the key, or the reply is seven zero bytes and the signature of
-- exactly the party and the context that stand in the body.
pub success_vouches :
    (sign : Bytes → Option Bytes) (version : ℕ) (posted : Bool) (body : Bytes)
    → (serve_validate sign version posted (some body)).status ≡ 200
    → (posted ≡ true)
      × (length body ≤ trade_max_request_size)
      × ((r : TradeValidationRequest) × IsRequest r
          × (print_request r ≡ body)
          × (((client_version r.header ≢ version)
                × ((serve_validate sign version posted (some body)).content ≡ 2 ∷ []))
              ⊎ ((client_version r.header ≡ version)
                  × ((signature : Bytes) × (sign (r.party ++ drop 2 r.header) ≡ some signature)
                      × ((serve_validate sign version posted (some body)).content
                          ≡ 0 ∷ 0 ∷ 0 ∷ 0 ∷ 0 ∷ 0 ∷ 0 ∷ signature)))))
unfolding serve_validate
success_vouches sign version posted body fine = elim (Bool-cases posted) [
  | inr fetched ↦
      let refused : serve_validate sign version posted (some body) ≡ failed_with 405 =
        rw fetched refl in
      ground (arith, ap (λ (x : HttpReply). x.status) refused, fine)
  | inl post ↦ elim (Bool-cases (ltb trade_max_request_size (length body))) [
    | inl large ↦
        let refused : serve_validate sign version posted (some body) ≡ failed_with 400 =
          rw post (rw large refl) in
        ground (arith, ap (λ (x : HttpReply). x.status) refused, fine)
    | inr small ↦ elim (Result-cases (parse_trade_validation_request body)) [
      | inl (c, bad) ↦
          let refused : serve_validate sign version posted (some body) ≡ failed_with 400 =
            rw (bad, serve_validate) (rw post (rw small refl)) in
          ground (arith, ap (λ (x : HttpReply). x.status) refused, fine)
      | inr (r, parsed) ↦
          let reply : serve_validate sign version posted (some body)
              ≡ validate_request sign version r =
            rw (parsed, serve_validate) (rw post (rw small refl)) in
          let (shape, whole) = print-parse-IsRequest body r parsed in
          (
            post,
            ground (arith, small),
            (
              r,
              shape,
              whole,
              elim (Bool-cases (client_version r.header == version)) [
                | inr old ↦
                    let told : validate_request sign version r
                        ≡ record { status = 200; content = 2 ∷ [] } =
                      rw old refl in
                    inl (
                      (λ e. ground (arith, (==_iff (client_version r.header) version).1 e, old)),
                      ap (λ (x : HttpReply). x.content) (reply ∙ told),
                    )
                | inl current ↦ elim (Option-cases (sign (r.party ++ drop 2 r.header))) [
                  | inl unsigned ↦
                      let broken : validate_request sign version r ≡ failed_with 500 =
                        rw current (rw unsigned refl) in
                      let bad : (serve_validate sign version posted (some body)).status ≡ 500 =
                        ap (λ (x : HttpReply). x.status) (reply ∙ broken) in
                      ground (arith, bad, fine)
                  | inr (signature, signed) ↦
                      let given : validate_request sign version r ≡ signed_reply (some signature) =
                        rw current (rw signed refl) in
                      inr (
                        (==_iff (client_version r.header) version).0 current,
                        (signature, signed, ap (λ (x : HttpReply). x.content) (reply ∙ given)),
                      )
                ]
              ],
            ),
          )
    ]
  ]
]

-- A game that fetched the key is not told to fetch it again: where its header starts with the two
-- version bytes of the reply to that fetch, a well-formed request of at most 8 KiB is signed, unless
-- signing fails.
pub fetched_key_signed :
    (sign : Bytes → Option Bytes) (digest encoded fetched context : Bytes) (high low : ℕ)
    (r : TradeValidationRequest) (signature : Bytes)
    → public_key_response (key_version digest) encoded ≡ ok (high ∷ low ∷ fetched)
    → r.header ≡ high ∷ low ∷ context
    → IsRequest r
    → length (print_request r) ≤ trade_max_request_size
    → sign (r.party ++ context) ≡ some signature
    → serve_validate sign (key_version digest) true (some (print_request r))
      ≡ record { status = 200; content = 0 ∷ 0 ∷ 0 ∷ 0 ∷ 0 ∷ 0 ∷ 0 ∷ signature }
unfolding serve_validate public_key_response
fetched_key_signed sign digest encoded fetched context high low r signature got header shape small
      signed =
    elim (Bool-cases (ltb 65535 (length encoded))) [
      | inl large ↦
          let failed : public_key_response (key_version digest) encoded ≡ err plain =
            rw large refl in
          ground (arith, failed, got)
      | inr fits ↦
          let version = key_version digest in
          let sent : public_key_response version encoded
              ≡ ok (version / 256 ∷ version % 256 ∷ (encoded ++ (0 ∷ []))) =
            rw fits refl in
          let q : ok (version / 256 ∷ version % 256 ∷ (encoded ++ (0 ∷ [])))
              ≡ ok (high ∷ low ∷ fetched) =
            sym sent ∙ got in
          let first : version / 256 ≡ high = cc in
          let second : version % 256 ≡ low = cc in
          let current : uint16 high low ≡ version = omega (arith, first, second) in
          let allowed : ltb trade_max_request_size (length (print_request r)) ≡ false =
            ground (arith, small) in
          let known : (uint16 high low == version) ≡ true =
            (==_iff (uint16 high low) version).1 current in
          rw (parse-print_request r shape, serve_validate)
            (rw allowed (rw header (rw known (rw signed refl))))
    ]
