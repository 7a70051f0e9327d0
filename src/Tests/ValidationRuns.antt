-- ===== src/Tests/ValidationRuns.antt =====
-- Runs and witnesses of trade validation: a party of one entry of 328 bytes, signed by a function
-- that returns the first bytes of what it signs.
use pokemon_violet.Base.{
  ◌≤◌, ◌≡◌, refl, ◌≢◌, ◌⊎◌, true, Option, some, [], ◌∷◌, ◌++◌, arith, bytes_beq, length, take, drop,
  replicate,
}
use pokemon_violet.Base.Result.{ok}
use pokemon_violet.Base.Text.{Bytes, text}
use pokemon_violet.Validation.{
  TradeValidationRequest, trade_max_request_size, split_nul, check_party, parse_header,
  parse_trade_validation_request, key_version, public_key_response, client_version, serve_validate,
}
use pokemon_violet.Validation.Shape.{
  IsRequest, print_request, parse-print_request, print-parse-IsRequest,
}
use pokemon_violet.Validation.Reply.{success_vouches, fetched_key_signed}

abbrev party_bytes : Bytes
party_bytes = replicate 328 5

abbrev small_request : TradeValidationRequest
small_request = record {
  prefix = text "id";
  header = 1 ∷ 2 ∷ 3 ∷ 4 ∷ 5 ∷ 6 ∷ [];
  entries = 1;
  party = party_bytes;
}

abbrev test_sign : Bytes → Option Bytes
test_sign message = some (take 3 message)

small_request-IsRequest : IsRequest small_request
small_request-IsRequest = (
  ((λ e. omega arith), ((λ e. omega arith), tt)),
  omega arith,
  refl,
  omega arith,
  omega arith,
  refl,
)

request_small : length (print_request small_request) ≤ trade_max_request_size
request_small = omega arith

request_accepted :
    serve_validate test_sign 258 true (some (print_request small_request))
    ≡ record { status = 200; content = 0 ∷ 0 ∷ 0 ∷ 0 ∷ 0 ∷ 0 ∷ 0 ∷ 5 ∷ 5 ∷ 5 ∷ [] }
unfolding serve_validate parse_trade_validation_request parse_header check_party split_nul bytes_beq
request_accepted = refl

request_fine : (serve_validate test_sign 258 true (some (print_request small_request))).status ≡ 200
unfolding serve_validate parse_trade_validation_request parse_header check_party split_nul bytes_beq
request_fine = refl

key_sent : public_key_response (key_version (1 ∷ 2 ∷ 9 ∷ [])) (65 ∷ []) ≡ ok (1 ∷ 2 ∷ 65 ∷ 0 ∷ [])
unfolding public_key_response key_version
key_sent = refl

parse-print_request_example :
    parse_trade_validation_request (print_request small_request) ≡ ok small_request
parse-print_request_example = parse-print_request small_request small_request-IsRequest

print-parse-IsRequest_example :
    IsRequest small_request × (print_request small_request ≡ print_request small_request)
print-parse-IsRequest_example =
    print-parse-IsRequest (print_request small_request) small_request
      (parse-print_request small_request small_request-IsRequest)

success_vouches_example :
    let reply = serve_validate test_sign 258 true (some (print_request small_request)) in
    (true ≡ true)
    × (length (print_request small_request) ≤ trade_max_request_size)
    × ((r : TradeValidationRequest) × IsRequest r
        × (print_request r ≡ print_request small_request)
        × (((client_version r.header ≢ 258) × (reply.content ≡ 2 ∷ []))
            ⊎ ((client_version r.header ≡ 258)
                × ((signature : Bytes) × (test_sign (r.party ++ drop 2 r.header) ≡ some signature)
                    × (reply.content ≡ 0 ∷ 0 ∷ 0 ∷ 0 ∷ 0 ∷ 0 ∷ 0 ∷ signature)))))
success_vouches_example =
    success_vouches test_sign 258 true (print_request small_request) request_fine

fetched_key_signed_example :
    serve_validate test_sign
      (key_version (1 ∷ 2 ∷ 9 ∷ []))
      true
      (some (print_request small_request))
    ≡ record { status = 200; content = 0 ∷ 0 ∷ 0 ∷ 0 ∷ 0 ∷ 0 ∷ 0 ∷ 5 ∷ 5 ∷ 5 ∷ [] }
fetched_key_signed_example =
    fetched_key_signed test_sign (1 ∷ 2 ∷ 9 ∷ []) (65 ∷ []) (65 ∷ 0 ∷ []) (3 ∷ 4 ∷ 5 ∷ 6 ∷ []) 1 2
      small_request (5 ∷ 5 ∷ 5 ∷ []) key_sent refl small_request-IsRequest request_small refl
