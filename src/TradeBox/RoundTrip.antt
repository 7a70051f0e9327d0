-- ===== src/TradeBox/RoundTrip.antt =====
-- trade_box.go: writing a trade box and reading it.
use pokemon_violet.Base.{
  ℕ, ◌≤◌, ◌<◌, ◌≡◌, refl, sym, ap, subst, inl, inr, true, false, [], ◌++◌, arith, Bool-cases, ◌==◌,
  ==_iff, ==_refl, ==_ne, nat_eq, bytes_beq, bytes_eq, length, set, length-append,
}
use pokemon_violet.Base.Int.{int_beq_iff, int_eq, word64}
use pokemon_violet.Base.Result.{ok}
use pokemon_violet.Base.Text.{Bytes}
use pokemon_violet.Wire.Reads.{Reads, Reads-field, Reads-append, Reads-done}
use pokemon_violet.TradeBox.Parse.{box_case, parse_timber_trade_box}
use pokemon_violet.TradeBox.Bounds.{IsBoxBounded}
use pokemon_violet.TradeBox.Message.{Time, is_zero, TimberTradeBox, zero_box, zero_time}
use pokemon_violet.Wire.{Wire, WireLaws}
use pokemon_violet.TradeBox.Marshal.{marshal_timestamp, marshal_timber_trade_box}
use pokemon_violet.TradeBox.Encoding.{
  string_enc, IsTime, bytes_enc, varint_enc, state_enc, append_varint_enc, append_bytes_field_enc,
  append_string_field_enc, append_state_enc, parse-marshal_timestamp, Reads-none, Reads-string,
  Reads-bytes,
}

module _ (w : Wire) (laws : WireLaws w) where
  box-Reads_state :
      (name : Bytes) (v : ℕ)
      → v < 18446744073709551616
      → Reads w
          (box_case w)
          (record zero_box { name = name })
          (record zero_box { name = name; state = v })
          (state_enc w laws v)
  unfolding state_enc box_case varint_enc
  box-Reads_state name v small = elim (Bool-cases (v == 0)) [
    | inl unset ↦
        subst
          (λ (k : ℕ).
            Reads w (box_case w) (record zero_box { name = name })
              (record zero_box { name = name; state = k }) (state_enc w laws k))
          (sym ((==_iff v 0).0 unset))
          (Reads-none w laws (box_case w) (record zero_box { name = name }))
    | inr set ↦ rw set (
        Reads-field w laws (box_case w) (record zero_box { name = name })
          (record zero_box { name = name; state = v }) 2 w.varint_type (w.append_varint [] v)
          (omega arith, omega arith, inl refl)
          (λ rest. rw (==_refl w.varint_type, laws.consume-append_varint v rest small)))
  ]

  is_zero-eq : (t : Time) → is_zero t ≡ true → zero_time ≡ t
  unfolding is_zero
  is_zero-eq t e = ground (arith, int_beq_iff t.seconds zero_time.seconds)

  marshal_timestamp_pos : (t : Time) → is_zero t ≡ false → 1 ≤ length (marshal_timestamp w t)
  unfolding marshal_timestamp varint_enc
  marshal_timestamp_pos t nonzero =
      let one = varint_enc w laws 1 (word64 t.seconds) in
      let long : 1 ≤ length one = omega (
        arith,
        laws.append_tag-progress 1 w.varint_type,
        length-append (w.append_tag [] 1 w.varint_type) (w.append_varint [] (word64 t.seconds)),
      ) in
      elim (Bool-cases (t.nanos == 0)) [
        | inl whole ↦ rw (nonzero, whole, append_varint_enc w laws [] 1 (word64 t.seconds)) long
        | inr part ↦
            rw
              (
                nonzero,
                part,
                append_varint_enc w laws _ 2 t.nanos,
                append_varint_enc w laws [] 1 (word64 t.seconds),
              )
              (omega (arith, long, length-append one (varint_enc w laws 2 t.nanos)))
      ]

  box_timestamp_step :
      (name : Bytes) (state : ℕ) (t : Time) (rest : Bytes)
      → IsTime t
      → is_zero t ≡ false
      → box_case w
          (record zero_box { name = name; state = state })
          3
          w.bytes_type
          (w.append_bytes [] (marshal_timestamp w t) ++ rest)
        ≡ ok (
          record zero_box { name = name; state = state; timestamp = t },
          length (w.append_bytes [] (marshal_timestamp w t)),
        )
  unfolding box_case
  box_timestamp_step name state t rest h nonzero =
      rw (==_refl w.bytes_type, laws.consume-append_bytes (marshal_timestamp w t) rest)
        (rw (parse-marshal_timestamp w laws t h nonzero))

  box-Reads_timestamp :
      (name : Bytes) (state : ℕ) (t : Time)
      → IsTime t
      → Reads w
          (box_case w)
          (record zero_box { name = name; state = state })
          (record zero_box { name = name; state = state; timestamp = t })
          (bytes_enc w laws 3 (marshal_timestamp w t))
  unfolding bytes_enc
  box-Reads_timestamp name state t h = elim (Bool-cases (is_zero t)) [
    | inl zero_one ↦
        subst
          (λ (k : Time).
            Reads w (box_case w) (record zero_box { name = name; state = state })
              (record zero_box { name = name; state = state; timestamp = k })
              (bytes_enc w laws 3 (marshal_timestamp w k)))
          (is_zero-eq t zero_one)
          (unfold marshal_timestamp is_zero bytes_beq in
            Reads-none w laws (box_case w) (record zero_box { name = name; state = state }))
    | inr later ↦
        rw
          (==_ne (marshal_timestamp w t) []
            (λ e. absurd (omega (arith, marshal_timestamp_pos t later, ap length e))))
          (Reads-field w laws (box_case w) (record zero_box { name = name; state = state })
            (record zero_box { name = name; state = state; timestamp = t }) 3 w.bytes_type
            (w.append_bytes [] (marshal_timestamp w t)) (omega arith, omega arith, inr refl)
            (λ rest. box_timestamp_step name state t rest h later))
  ]

  marshal_timber_trade_box_enc :
      (box : TimberTradeBox)
      → marshal_timber_trade_box w box
        ≡ (((string_enc w laws 1 box.name ++ state_enc w laws box.state)
              ++ bytes_enc w laws 3 (marshal_timestamp w box.timestamp))
            ++ bytes_enc w laws 4 box.payload)
          ++ bytes_enc w laws 5 box.signature
  unfolding marshal_timber_trade_box
  marshal_timber_trade_box_enc box = rw (
    append_bytes_field_enc w laws _ 5 box.signature,
    append_bytes_field_enc w laws _ 4 box.payload,
    append_bytes_field_enc w laws _ 3 (marshal_timestamp w box.timestamp),
    append_state_enc w laws _ box.state,
    append_string_field_enc w laws 1 box.name,
  )

  box-Reads :
      (box : TimberTradeBox)
      → IsTime box.timestamp
      → box.state < 18446744073709551616
      → Reads w (box_case w) zero_box box (marshal_timber_trade_box w box)
  unfolding box_case
  box-Reads box time small =
      let at_name = record zero_box { name = box.name } in
      let at_state = record at_name { state = box.state } in
      let at_time = record at_state { timestamp = box.timestamp } in
      let at_payload = record at_time { payload = box.payload } in
      let four =
        Reads-bytes w laws (box_case w) (λ v. record at_time { payload = v }) 4 box.payload
          (omega arith, omega arith, inr refl)
          (λ rest. rw (==_refl w.bytes_type, laws.consume-append_bytes box.payload rest)) in
      let five =
        Reads-bytes w laws (box_case w) (λ v. record at_payload { signature = v }) 5 box.signature
          (omega arith, omega arith, inr refl)
          (λ rest. rw (==_refl w.bytes_type, laws.consume-append_bytes box.signature rest)) in
      let one =
        Reads-string w laws (box_case w) (λ v. record zero_box { name = v }) 1 box.name
          (omega arith, omega arith, inr refl)
          (λ rest. rw (==_refl w.bytes_type, laws.consume-append_string box.name rest)) in
      rw (marshal_timber_trade_box_enc box) (
        Reads-append w laws (box_case w) zero_box at_payload box _
          (bytes_enc w laws 5 box.signature)
          (Reads-append w laws (box_case w) zero_box at_time at_payload _
            (bytes_enc w laws 4 box.payload)
            (Reads-append w laws (box_case w) zero_box at_state at_time _
              (bytes_enc w laws 3 (marshal_timestamp w box.timestamp))
              (Reads-append w laws (box_case w) zero_box at_name at_state
                (string_enc w laws 1 box.name) (state_enc w laws box.state) one
                (box-Reads_state box.name box.state small))
              (box-Reads_timestamp box.name box.state box.timestamp time))
            four)
          five)

  -- A trade box that the server writes is parsed back to the same box, every field of it, where its
  -- sizes are within the limits, its state is a uint64 and its time is within Go's range.
  pub parse-marshal_trade_box :
      (box : TimberTradeBox)
      → IsBoxBounded box
      → IsTime box.timestamp
      → box.state < 18446744073709551616
      → parse_timber_trade_box w (marshal_timber_trade_box w box) ≡ ok box
  unfolding parse_timber_trade_box
  parse-marshal_trade_box box sizes time small =
      rw
        (Reads-done w laws (box_case w) zero_box box (marshal_timber_trade_box w box)
          (box-Reads box time small))
        (ground (arith, sizes))
