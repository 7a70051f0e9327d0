-- ===== src/TradeBox/Marshal.antt =====
-- trade_box.go: the messages that the service writes.
use pokemon_violet.Base.{
  ℕ, Bool, not, Option, none, some, [], if◌then◌else◌, ◌==◌, nat_eq, bytes_eq,
}
use pokemon_violet.Base.Int.{int_eq, word64}
use pokemon_violet.Base.Text.{Bytes}
use pokemon_violet.Wire.{Wire}
use pokemon_violet.TradeBox.Message.{Time, is_zero, TimberTradeBox}

module _ (w : Wire) where
  -- A field with the zero value is left out.
  unfoldable pub append_string_field : Bytes → ℕ → Bytes → Bytes
  append_string_field out number value =
      if value == [] then out else w.append_string (w.append_tag out number w.bytes_type) value

  unfoldable pub append_bytes_field : Bytes → ℕ → Bytes → Bytes
  append_bytes_field out number value =
      if value == [] then out else w.append_bytes (w.append_tag out number w.bytes_type) value

  -- An int64 is written as its uint64.
  unfoldable pub marshal_timestamp : Time → Bytes
  unfolding is_zero
  marshal_timestamp t =
      let out = w.append_varint (w.append_tag [] 1 w.varint_type) (word64 t.seconds) in
      if is_zero t
      then []
      else if not (t.nanos == 0)
      then w.append_varint (w.append_tag out 2 w.varint_type) t.nanos
      else out

  unfoldable pub append_state : Bytes → ℕ → Bytes
  append_state out state =
      if not (state == 0) then w.append_varint (w.append_tag out 2 w.varint_type) state else out

  unfoldable pub marshal_timber_trade_box : TimberTradeBox → Bytes
  marshal_timber_trade_box box =
      append_bytes_field
        (append_bytes_field
          (append_bytes_field (append_state (append_string_field [] 1 box.name) box.state) 3
            (marshal_timestamp box.timestamp))
          4 box.payload)
        5 box.signature

  append_box : Bytes → Option TimberTradeBox → Bytes
  append_box out none = out
  append_box out (some box) = append_bytes_field out 1 (marshal_timber_trade_box box)

  -- The duration is given in whole seconds; 0 is no keep-alive.
  unfoldable pub marshal_track_trade_box_response : Option TimberTradeBox → Bool → ℕ → Bytes
  unfolding append_box
  marshal_track_trade_box_response box missing keep_alive =
      let out = append_box [] box in
      let out' = if missing then w.append_varint (w.append_tag out 2 w.varint_type) 1 else out in
      let duration = w.append_varint (w.append_tag [] 1 w.varint_type) keep_alive in
      if keep_alive == 0 then out' else append_bytes_field out' 3 (append_bytes_field [] 1 duration)
