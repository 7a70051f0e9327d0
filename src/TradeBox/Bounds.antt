-- ===== src/TradeBox/Bounds.antt =====
-- trade_box.go: what the parsers accept, and their termination.
use pokemon_violet.Base.{
  ℕ, ◌≤◌, ◌≡◌, ap, ◌≢◌, inl, inr, Bool, true, false, Option, none, some, [], arith, leb,
  Option-cases, length,
}
use pokemon_violet.Base.Int.{ℤ, pos}
use pokemon_violet.Base.Result.{
  Code, resource_exhausted, diverges, Result, ok, err, ◌>>=◌, guard, >>=-eq-ok, Result-cases,
}
use pokemon_violet.Base.Text.{Bytes, empty_or_pos}
use pokemon_violet.Wire.{Wire, WireLaws}
use pokemon_violet.Wire.Loop.{parse_fields, parse_fields-total, parse_fields_inv, or_plain}
use pokemon_violet.TradeBox.Message.{
  TimberTradeBox, zero_box, CreateTradeBoxRequest, zero_request, max_trade_box_request,
  max_trade_box_payload, max_trade_box_signature, trade_box_trading,
}
use pokemon_violet.TradeBox.Parse.{
  name_case, parse_proto_string_message, timestamp_case, parse_timestamp, box_case,
  parse_timber_trade_box, create_case, parse_create_trade_box_request, check_create,
}

bind_safe :
    {A B : Type 0} (m : Result A) (f : A → Result B)
    → m ≢ err diverges
    → ((a : A) → f a ≢ err diverges)
    → (m >>= f) ≢ err diverges
bind_safe (ok a) f h k = k a
bind_safe (err c) f h k = λ e. h (let same : c ≡ diverges = cc in ap err same)

or_plain_safe : {A : Type 0} (o : Option A) → or_plain o ≢ err diverges
or_plain_safe none = λ e. cc
or_plain_safe (some a) = λ e. cc

guard_safe : (b : Bool) (c : Code) → c ≢ diverges → guard b c ≢ err diverges
guard_safe true c h = λ e. cc
guard_safe false c h = λ e. h cc

module _ (w : Wire) (laws : WireLaws w) where
  name_case_safe :
      (s : Bytes) (number typ : ℕ) (d : Bytes) → name_case w s number typ d ≢ err diverges
  unfolding name_case
  name_case_safe s number typ d = λ e. ground arith

  timestamp_case_safe :
      (s : ℤ × ℤ) (number typ : ℕ) (d : Bytes) → timestamp_case w s number typ d ≢ err diverges
  unfolding timestamp_case
  timestamp_case_safe s number typ d = λ e. ground arith

  parse_timestamp_safe : (d : Bytes) → parse_timestamp w d ≢ err diverges
  unfolding parse_timestamp
  parse_timestamp_safe d =
      bind_safe (parse_fields w (timestamp_case w) (length d) (pos 0, pos 0) d) _
        (parse_fields-total w laws (timestamp_case w) timestamp_case_safe (length d) (pos 0, pos 0)
          d (omega arith))
        (λ t e. ground arith)

  box_case_safe :
      (s : TimberTradeBox) (number typ : ℕ) (d : Bytes) → box_case w s number typ d ≢ err diverges
  unfolding box_case
  box_case_safe s number typ d = λ e. elim (Option-cases (w.consume_bytes d)) [
    | inl miss ↦ ground arith
    | inr ((value, k), took) ↦ ground (arith, parse_timestamp_safe value)
  ]

  parse_timber_trade_box_safe : (d : Bytes) → parse_timber_trade_box w d ≢ err diverges
  unfolding parse_timber_trade_box
  parse_timber_trade_box_safe d =
      bind_safe (parse_fields w (box_case w) (length d) zero_box d) _
        (parse_fields-total w laws (box_case w) box_case_safe (length d) zero_box d (omega arith))
        (λ t e. ground arith)

  create_case_safe :
      (s : CreateTradeBoxRequest) (number typ : ℕ) (d : Bytes)
      → create_case w s number typ d ≢ err diverges
  unfolding create_case
  create_case_safe s number typ d = λ e. elim (Option-cases (w.consume_bytes d)) [
    | inl miss ↦ ground arith
    | inr ((value, k), took) ↦ ground (arith, parse_timber_trade_box_safe value)
  ]

  -- Every parser returns on every input, with a value or with an error of the program: the bytes
  -- left are fuel enough for each of the four field loops.
  pub parsers_return :
      (d : Bytes)
      → (parse_proto_string_message w d ≢ err diverges)
        × (parse_timestamp w d ≢ err diverges)
        × (parse_timber_trade_box w d ≢ err diverges)
        × (parse_create_trade_box_request w d ≢ err diverges)
  unfolding parse_proto_string_message parse_create_trade_box_request check_create
  parsers_return d = (
    bind_safe (guard (leb (length d) max_trade_box_request) resource_exhausted) _
        (guard_safe _ resource_exhausted (λ e. cc))
        (λ _.
          bind_safe (parse_fields w (name_case w) (length d) [] d) _
            (parse_fields-total w laws (name_case w) name_case_safe (length d) [] d (omega arith))
            (λ t e. ground arith)),
    parse_timestamp_safe d,
    parse_timber_trade_box_safe d,
    bind_safe (guard (leb (length d) max_trade_box_request) resource_exhausted) _
        (guard_safe _ resource_exhausted (λ e. cc))
        (λ _.
          bind_safe (parse_fields w (create_case w) (length d) zero_request d) _
            (parse_fields-total w laws (create_case w) create_case_safe (length d) zero_request d
              (omega arith))
            (λ t e. ground arith)),
  )

-- The sizes of a parsed box.
abbrev pub IsBoxBounded : TimberTradeBox → Type 0
IsBoxBounded box =
    (length box.name ≤ 512)
    × (length box.payload ≤ max_trade_box_payload)
    × (length box.signature ≤ max_trade_box_signature)

module _ (w : Wire) where
  parse_timber_trade_box_bounds :
      (d : Bytes) (box : TimberTradeBox) → parse_timber_trade_box w d ≡ ok box → IsBoxBounded box
  unfolding parse_timber_trade_box
  parse_timber_trade_box_bounds d box e =
      let (b, _, e') = >>=-eq-ok (parse_fields w (box_case w) (length d) zero_box d) _ e in
      ground arith

  create_case_bounds :
      (s s' : CreateTradeBoxRequest) (number typ k : ℕ) (d : Bytes)
      → IsBoxBounded s.trade_box
      → create_case w s number typ d ≡ ok (s', k)
      → IsBoxBounded s'.trade_box
  unfolding create_case
  create_case_bounds s s' number typ k d h e = elim (Option-cases (w.consume_bytes d)) [
    | inl miss ↦ ground arith
    | inr ((value, n), took) ↦ elim (Result-cases (parse_timber_trade_box w value)) [
      | inl (c, bad) ↦ ground arith
      | inr (box, good) ↦ ground (arith, parse_timber_trade_box_bounds value box good)
    ]
  ]

  check_create_bounds :
      (r req : CreateTradeBoxRequest)
      → IsBoxBounded r.trade_box
      → check_create w r ≡ ok req
      → (1 ≤ length req.parent)
        × (length req.parent ≤ 512)
        × (length req.trade_box_id ≤ 128)
        × (1 ≤ length req.trade_box.payload)
        × (length req.trade_box.payload ≤ max_trade_box_payload)
        × (1 ≤ length req.trade_box.signature)
        × (length req.trade_box.signature ≤ max_trade_box_signature)
        × (length req.trade_box.name ≤ 512)
        × (req.trade_box.state ≤ trade_box_trading)
  unfolding check_create
  check_create_bounds r req h e = ground (
    arith,
    empty_or_pos r.parent,
    empty_or_pos r.trade_box.payload,
    empty_or_pos r.trade_box.signature,
  )

  -- A request that is accepted came in at most 128 KiB and has a parent of 1 to 512 bytes, an id of
  -- at most 128, a payload of 1 to 65,536 and a signature of 1 to 1,024 bytes, a name of at most
  -- 512, and a state that is unspecified or trading, however its fields were repeated or ordered.
  pub parse_create_bounds :
      (d : Bytes) (req : CreateTradeBoxRequest)
      → parse_create_trade_box_request w d ≡ ok req
      → (length d ≤ max_trade_box_request)
        × ((1 ≤ length req.parent)
            × (length req.parent ≤ 512)
            × (length req.trade_box_id ≤ 128)
            × (1 ≤ length req.trade_box.payload)
            × (length req.trade_box.payload ≤ max_trade_box_payload)
            × (1 ≤ length req.trade_box.signature)
            × (length req.trade_box.signature ≤ max_trade_box_signature)
            × (length req.trade_box.name ≤ 512)
            × (req.trade_box.state ≤ trade_box_trading))
  unfolding parse_create_trade_box_request
  parse_create_bounds d req e =
      let (_, small, e') =
        >>=-eq-ok (guard (leb (length d) max_trade_box_request) resource_exhausted) _ e in
      let (r, looped, e'') =
        >>=-eq-ok (parse_fields w (create_case w) (length d) zero_request d) _ e' in
      let sizes =
        parse_fields_inv (λ (s : CreateTradeBoxRequest). IsBoxBounded s.trade_box) w (create_case w)
          create_case_bounds (length d) zero_request r d (omega arith) looped in
      ((ground (arith, small)), check_create_bounds r req sizes e'')
