-- ===== src/TradeBox/Parse.antt =====
-- trade_box.go: the parsers, each a run of the field loop over its own cases.
use pokemon_violet.Base.{
  ℕ, ◌%◌, ◌&&◌, ◌||◌, not, [], ltb, leb, if◌then◌else◌, ◌==◌, nat_eq, bytes_eq, length,
}
use pokemon_violet.Base.Int.{ℤ, pos, pos_part, ltb_ℤ, int_eq, signed32, signed64}
use pokemon_violet.Base.Result.{
  invalid_argument, resource_exhausted, Result, ok, err, ◌>>=◌, ◌>>◌, guard,
}
use pokemon_violet.Base.Text.{Bytes}
use pokemon_violet.Wire.{Wire}
use pokemon_violet.Wire.Loop.{parse_fields, skip_proto_field, or_plain, FieldCase}
use pokemon_violet.TradeBox.Message.{
  Time, TimberTradeBox, zero_box, CreateTradeBoxRequest, zero_request, max_trade_box_request,
  max_trade_box_payload, max_trade_box_signature, trade_box_trading,
}

module _ (w : Wire) where
  -- An unknown field leaves the state and skips its value.
  skip_field : {S : Type 0} → FieldCase S
  skip_field s number typ d = do n ← skip_proto_field w number typ d; ok (s, n)

  unfoldable pub name_case : FieldCase Bytes
  unfolding skip_field skip_proto_field
  name_case value number typ d =
      let taken = or_plain (w.consume_string d) in
      if number == 1
      then (if not (typ == w.bytes_type) || not (value == []) then err invalid_argument else taken)
      else skip_field value number typ d

  unfoldable pub parse_proto_string_message : Bytes → Result Bytes
  parse_proto_string_message d = do
    guard (leb (length d) max_trade_box_request) resource_exhausted
    value ← parse_fields w name_case (length d) [] d
    guard (not (value == [] || ltb 512 (length value))) invalid_argument
    ok value

  -- seconds = int64(value), nanos = int32(value)
  set_time : ℤ × ℤ → ℕ → ℕ → ℤ × ℤ
  set_time (seconds, nanos) number value =
      if number == 1
      then (signed64 (value % 18446744073709551616), nanos)
      else (seconds, signed32 (value % 4294967296))

  unfoldable pub timestamp_case : FieldCase (ℤ × ℤ)
  unfolding skip_field set_time skip_proto_field
  timestamp_case t number typ d =
      let taken : Result ((ℤ × ℤ) × ℕ) =
        or_plain (w.consume_varint d) >>= λ r. ok (set_time t number r.0, r.1) in
      if (number == 1 || number == 2) && typ == w.varint_type
      then taken
      else skip_field t number typ d

  unfoldable pub parse_timestamp : Bytes → Result Time
  parse_timestamp d = do
    t ← parse_fields w timestamp_case (length d) (pos 0, pos 0) d
    guard (not (ltb_ℤ t.1 (pos 0) || leb 1000000000 (pos_part t.1))) invalid_argument
    ok (record { seconds = t.0; nanos = pos_part t.1 })

  box_name : TimberTradeBox → Bytes → Result (TimberTradeBox × ℕ)
  box_name box d = or_plain (w.consume_string d) >>= λ r. ok (record box { name = r.0 }, r.1)

  box_state : TimberTradeBox → Bytes → Result (TimberTradeBox × ℕ)
  box_state box d = or_plain (w.consume_varint d) >>= λ r. ok (record box { state = r.0 }, r.1)

  box_timestamp : TimberTradeBox → Bytes → Result (TimberTradeBox × ℕ)
  box_timestamp box d = do
    r ← or_plain (w.consume_bytes d)
    t ← parse_timestamp r.0
    ok (record box { timestamp = t }, r.1)

  box_payload : TimberTradeBox → Bytes → Result (TimberTradeBox × ℕ)
  box_payload box d = or_plain (w.consume_bytes d) >>= λ r. ok (record box { payload = r.0 }, r.1)

  box_signature : TimberTradeBox → Bytes → Result (TimberTradeBox × ℕ)
  box_signature box d =
      or_plain (w.consume_bytes d) >>= λ r. ok (record box { signature = r.0 }, r.1)

  -- The `switch` on the field number; each known field has one wire type.
  unfoldable pub box_case : FieldCase TimberTradeBox
  unfolding skip_field skip_proto_field box_name box_state box_timestamp box_payload box_signature
  box_case box number typ d =
      if number == 1
      then (if typ == w.bytes_type then box_name box d else err invalid_argument)
      else if number == 2
      then (if typ == w.varint_type then box_state box d else err invalid_argument)
      else if number == 3
      then (if typ == w.bytes_type then box_timestamp box d else err invalid_argument)
      else if number == 4
      then (if typ == w.bytes_type then box_payload box d else err invalid_argument)
      else if number == 5
      then (if typ == w.bytes_type then box_signature box d else err invalid_argument)
      else skip_field box number typ d

  unfoldable pub parse_timber_trade_box : Bytes → Result TimberTradeBox
  parse_timber_trade_box d = do
    box ← parse_fields w box_case (length d) zero_box d
    guard
        (not (
          ltb 512 (length box.name)
          || ltb max_trade_box_payload (length box.payload)
          || ltb max_trade_box_signature (length box.signature)))
        resource_exhausted
    ok box

  set_create : CreateTradeBoxRequest → ℕ → Bytes → Result CreateTradeBoxRequest
  set_create req number value =
      if number == 1
      then ok (record req { parent = value })
      else if number == 2
      then (parse_timber_trade_box value >>= λ box. ok (record req { trade_box = box }))
      else ok (record req { trade_box_id = value })

  unfoldable pub create_case : FieldCase CreateTradeBoxRequest
  unfolding skip_field set_create skip_proto_field
  create_case req number typ d =
      let taken : Result (CreateTradeBoxRequest × ℕ) = or_plain (w.consume_bytes d) >>= λ r.
      set_create req number r.0 >>= λ req'. ok (req', r.1) in
      if (number == 1 || number == 2 || number == 3) && typ == w.bytes_type
      then taken
      else skip_field req number typ d

  -- The checks after the loop.
  unfoldable pub check_create : CreateTradeBoxRequest → Result CreateTradeBoxRequest
  check_create req = do
    guard
        (not (req.parent == [] || ltb 512 (length req.parent) || ltb 128 (length req.trade_box_id)))
        invalid_argument
    guard (not (req.trade_box.payload == [] || req.trade_box.signature == [])) invalid_argument
    guard (req.trade_box.state == 0 || req.trade_box.state == trade_box_trading) invalid_argument
    ok req

  unfoldable pub parse_create_trade_box_request : Bytes → Result CreateTradeBoxRequest
  parse_create_trade_box_request d = do
    guard (leb (length d) max_trade_box_request) resource_exhausted
    req ← parse_fields w create_case (length d) zero_request d
    check_create req
