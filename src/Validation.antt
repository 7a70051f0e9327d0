-- ===== src/Validation.antt =====
-- trade_validation.go: the requests that a game sends to have its party signed, and the replies.
-- The key is outside: its public encoding, the digest of that, and the signature are parameters.
pub mod Shape
pub mod Reply
use pokemon_violet.Base.{
  ℕ, ◌+◌, ◌*◌, ◌/◌, ◌%◌, Bool, ◌||◌, not, Option, none, some, [], ◌∷◌, ◌++◌, ltb, if◌then◌else◌,
  ◌==◌, nat_eq, bytes_eq, length, drop,
}
use pokemon_violet.Base.Int.{int_eq}
use pokemon_violet.Base.Result.{plain, Result, err, ok}
use pokemon_violet.Base.Text.{Bytes}

abbrev pub trade_party_entry_size : ℕ
trade_party_entry_size = 328

abbrev pub trade_max_party_size : ℕ
trade_max_party_size = 6

abbrev pub trade_max_request_size : ℕ
trade_max_request_size = 8192

pub record TradeValidationRequest : Type 0 where
  pub prefix : Bytes
  pub header : Bytes
  pub entries : ℕ  -- uint16
  pub party : Bytes

-- binary.BigEndian.Uint16 of two bytes
abbrev pub uint16 : ℕ → ℕ → ℕ
uint16 high low = high * 256 + low

-- The loop that looks for the first NUL byte: what stands before it and after it.
unfoldable pub split_nul : Bytes → Option (Bytes × Bytes)
split_nul [] = none
split_nul (c ∷ s) =
    let rest = split_nul s in
    if c == 0
    then some ([], s)
    else elim rest [ none ↦ none | some (before_nul, after_nul) ↦ some (c ∷ before_nul, after_nul) ]

-- From the check of the party count on; the six header bytes, the count and the party.
unfoldable pub check_party : Bytes → Bytes → ℕ → Bytes → ℕ → Result TradeValidationRequest
check_party prefix header entries party body_length =
    if entries == 0 || ltb trade_max_party_size entries
    then err plain
    else if not (body_length == length prefix + 9 + entries * trade_party_entry_size)
    then err plain
    else ok (record { prefix = prefix; header = header; entries = entries; party = party })

-- After the prefix: a fixed header of eight bytes.
unfoldable pub parse_header : Bytes → Bytes → ℕ → Result TradeValidationRequest
parse_header prefix (a ∷ b ∷ c ∷ d ∷ e ∷ f ∷ high ∷ low ∷ party) body_length =
    check_party prefix (a ∷ b ∷ c ∷ d ∷ e ∷ f ∷ []) (uint16 high low) party body_length
parse_header prefix _ body_length = err plain

unfoldable pub parse_trade_validation_request : Bytes → Result TradeValidationRequest
parse_trade_validation_request body = elim (split_nul body) [
  | none ↦ err plain
  | some (prefix, rest) ↦ if prefix == [] then err plain else parse_header prefix rest (length body)
]

-- newTradeValidationService: the version is the start of the digest of the public key.
unfoldable pub key_version : Bytes → ℕ
key_version (high ∷ low ∷ rest) = if uint16 high low == 0 then 1 else uint16 high low
key_version _ = 1

-- publicKeyResponse, from the Base64 text of the key; the NUL byte is the array's last.
unfoldable pub public_key_response : ℕ → Bytes → Result Bytes
public_key_response version encoded =
    if ltb 65535 (length encoded)
    then err plain
    else ok (version / 256 ∷ version % 256 ∷ (encoded ++ (0 ∷ [])))

pub record HttpReply : Type 0 where
  pub status : ℕ
  pub content : Bytes

abbrev pub failed_with : ℕ → HttpReply
failed_with status = record { status = status; content = [] }

abbrev pub client_version : Bytes → ℕ
client_version (high ∷ low ∷ rest) = uint16 high low
client_version _ = 0

-- The reply to a request whose key version is the server's: `sign` hashes and signs.
abbrev pub signed_reply : Option Bytes → HttpReply
signed_reply none = failed_with 500
signed_reply (some signature) = record {
  status = 200;
  content = 0 ∷ 0 ∷ 0 ∷ 0 ∷ 0 ∷ 0 ∷ 0 ∷ signature;
}

abbrev pub validate_request : (Bytes → Option Bytes) → ℕ → TradeValidationRequest → HttpReply
validate_request sign version r =
    if not (client_version r.header == version)
    then record { status = 200; content = 2 ∷ [] }
    else signed_reply (sign (r.party ++ drop 2 r.header))

-- serveValidate; `body` is `none` where reading it fails.
unfoldable pub serve_validate : (Bytes → Option Bytes) → ℕ → Bool → Option Bytes → HttpReply
serve_validate sign version posted none = if not posted then failed_with 405 else failed_with 400
serve_validate sign version posted (some body) =
    if not posted
    then failed_with 405
    else if ltb trade_max_request_size (length body)
    then failed_with 400
    else elim (parse_trade_validation_request body) [
      | err c ↦ failed_with 400
      | ok r ↦ validate_request sign version r
    ]
