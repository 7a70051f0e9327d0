-- ===== src/TradeBox/Encoding.antt =====
-- trade_box.go: the bytes of each field, and how a reader takes them.
use pokemon_violet.Base.{
  ℕ, ◌%◌, ◌<◌, ◌≡◌, refl, sym, ap, ◌∙◌, subst, inl, inr, false, not, [], ◌++◌, arith, if◌then◌else◌,
  Bool-cases, ◌==◌, ==_iff, ==_refl, nat_eq, bytes_beq, bytes_eq, length, set,
}
use pokemon_violet.Base.Int.{ℤ, pos, negsuc, int_eq, word64, signed64, In64}
use pokemon_violet.Base.Result.{Result, ok}
use pokemon_violet.Base.Text.{Bytes}
use pokemon_violet.Wire.Reads.{Reads, Reads-field, Reads-append, Reads-done}
use pokemon_violet.TradeBox.Parse.{timestamp_case, parse_timestamp}
use pokemon_violet.TradeBox.Message.{Time, is_zero}
use mathlib.Core.List.{append-nil, append_assoc}
use pokemon_violet.Wire.{Wire, WireLaws, IsTag}
use pokemon_violet.TradeBox.Marshal.{
  append_string_field, append_bytes_field, append_state, marshal_timestamp,
}

-- A time whose seconds fit an int64 and whose nanoseconds are less than a second.
abbrev pub IsTime : Time → Type 0
IsTime t = In64 t.seconds × (t.nanos < 1000000000)

signed64-word64 : (z : ℤ) → In64 z → signed64 (word64 z % 18446744073709551616) ≡ z
signed64-word64 (pos n) h = ground arith
signed64-word64 (negsuc n) h = ground arith

word64-lt : (z : ℤ) → word64 z < 18446744073709551616
word64-lt (pos n) = omega arith
word64-lt (negsuc n) = omega arith

module _ (w : Wire) (laws : WireLaws w) where
  -- The bytes of one field, as they stand at the end of the buffer.
  unfoldable pub string_enc : ℕ → Bytes → Bytes
  string_enc number value =
      if value == [] then [] else w.append_tag [] number w.bytes_type ++ w.append_string [] value

  unfoldable pub bytes_enc : ℕ → Bytes → Bytes
  bytes_enc number value =
      if value == [] then [] else w.append_tag [] number w.bytes_type ++ w.append_bytes [] value

  unfoldable pub varint_enc : ℕ → ℕ → Bytes
  varint_enc number v = w.append_tag [] number w.varint_type ++ w.append_varint [] v

  unfoldable pub state_enc : ℕ → Bytes
  unfolding varint_enc
  state_enc v = if not (v == 0) then varint_enc 2 v else []

  pub append_varint_enc :
      (out : Bytes) (number v : ℕ)
      → w.append_varint (w.append_tag out number w.varint_type) v ≡ out ++ varint_enc number v
  unfolding varint_enc
  append_varint_enc out number v =
      laws.append_varint_lem (w.append_tag out number w.varint_type) v
      ∙ ap (λ (b : Bytes). b ++ w.append_varint [] v) (laws.append_tag_lem out number w.varint_type)
      ∙ append_assoc out (w.append_tag [] number w.varint_type) (w.append_varint [] v)

  pub append_bytes_field_enc :
      (out : Bytes) (number : ℕ) (value : Bytes)
      → append_bytes_field w out number value ≡ out ++ bytes_enc number value
  unfolding append_bytes_field bytes_enc
  append_bytes_field_enc out number value = elim (Bool-cases (value == [])) [
    | inl none_left ↦ rw none_left (sym (append-nil out))
    | inr some_left ↦ rw some_left (
        laws.append_bytes_lem (w.append_tag out number w.bytes_type) value
        ∙ ap (λ (b : Bytes). b ++ w.append_bytes [] value)
            (laws.append_tag_lem out number w.bytes_type)
        ∙ append_assoc out (w.append_tag [] number w.bytes_type) (w.append_bytes [] value))
  ]

  pub append_string_field_enc :
      (number : ℕ) (value : Bytes) → append_string_field w [] number value ≡ string_enc number value
  unfolding append_string_field string_enc
  append_string_field_enc number value = elim (Bool-cases (value == [])) [
    | inl none_left ↦ rw none_left
    | inr some_left ↦
        rw some_left (laws.append_string_lem (w.append_tag [] number w.bytes_type) value)
  ]

  pub append_state_enc : (out : Bytes) (v : ℕ) → append_state w out v ≡ out ++ state_enc v
  unfolding append_state state_enc
  append_state_enc out v = elim (Bool-cases (v == 0)) [
    | inl unset ↦ rw unset (sym (append-nil out))
    | inr set ↦ rw set (append_varint_enc out 2 v)
  ]

  timestamp-Reads_seconds :
      (z : ℤ) (nanos : ℤ)
      → In64 z
      → Reads w (timestamp_case w) (pos 0, nanos) (z, nanos) (varint_enc 1 (word64 z))
  unfolding varint_enc timestamp_case
  timestamp-Reads_seconds z nanos fits =
      Reads-field w laws (timestamp_case w) (pos 0, nanos) (z, nanos) 1 w.varint_type
        (w.append_varint [] (word64 z)) (omega arith, omega arith, inl refl)
        (λ rest.
          rw (laws.consume-append_varint (word64 z) rest (word64-lt z), ==_refl w.varint_type)
            (rw (signed64-word64 z fits)))

  timestamp-Reads_nanos :
      (z : ℤ) (n : ℕ)
      → n < 1000000000
      → Reads w (timestamp_case w) (z, pos 0) (z, pos n) (varint_enc 2 n)
  unfolding varint_enc timestamp_case
  timestamp-Reads_nanos z n small =
      Reads-field w laws (timestamp_case w) (z, pos 0) (z, pos n) 2 w.varint_type
        (w.append_varint [] n) (omega arith, omega arith, inl refl)
        (λ rest.
          rw (laws.consume-append_varint n rest (omega (arith, small)), ==_refl w.varint_type)
            (ground arith))

  parse_timestamp_of :
      (t : Time) (enc : Bytes)
      → IsTime t
      → Reads w (timestamp_case w) (pos 0, pos 0) (t.seconds, pos t.nanos) enc
      → parse_timestamp w enc ≡ ok t
  unfolding parse_timestamp
  parse_timestamp_of t enc h reads =
      rw (Reads-done w laws (timestamp_case w) (pos 0, pos 0) (t.seconds, pos t.nanos) enc reads)
        (ground (arith, h))

  -- A time that is not zero is written and read back.
  pub parse-marshal_timestamp :
      (t : Time) → IsTime t → is_zero t ≡ false → parse_timestamp w (marshal_timestamp w t) ≡ ok t
  unfolding marshal_timestamp
  parse-marshal_timestamp t h nonzero = elim (Bool-cases (t.nanos == 0)) [
    | inl whole ↦
        rw (nonzero, whole, append_varint_enc [] 1 (word64 t.seconds))
          (parse_timestamp_of t _ h (
            subst
              (λ (k : ℕ).
                Reads w (timestamp_case w) (pos 0, pos 0) (t.seconds, pos k)
                  (varint_enc 1 (word64 t.seconds)))
              (sym ((==_iff t.nanos 0).0 whole)) (timestamp-Reads_seconds t.seconds (pos 0) h.0)))
    | inr part ↦
        rw (nonzero, part, append_varint_enc _ 2 t.nanos, append_varint_enc [] 1 (word64 t.seconds))
          (parse_timestamp_of t _ h (
            Reads-append w laws (timestamp_case w) (pos 0, pos 0) (t.seconds, pos 0)
              (t.seconds, pos t.nanos) (varint_enc 1 (word64 t.seconds)) (varint_enc 2 t.nanos)
              (timestamp-Reads_seconds t.seconds (pos 0) h.0)
              (timestamp-Reads_nanos t.seconds t.nanos h.1)))
  ]

  pub Reads-none :
      {S : Type 0} (field : (S → ℕ → ℕ → Bytes → Result (S × ℕ))) (s : S) → Reads w field s s []
  Reads-none field s rest fuel h = (fuel, h, refl)

  -- A field that is left out when it is empty: `mk v` is the state with the value `v` set.
  pub Reads-string :
      {S : Type 0} (field : S → ℕ → ℕ → Bytes → Result (S × ℕ)) (mk : Bytes → S) (number : ℕ)
      (v : Bytes)
      → IsTag w number w.bytes_type
      → ((rest : Bytes)
          → field (mk []) number w.bytes_type (w.append_string [] v ++ rest)
            ≡ ok (mk v, length (w.append_string [] v)))
      → Reads w field (mk []) (mk v) (string_enc number v)
  unfolding string_enc bytes_beq
  Reads-string field mk number v tag step = elim (Bool-cases (v == [])) [
    | inl none_left ↦
        subst (λ (k : Bytes). Reads w field (mk []) (mk k) (string_enc number k))
          (sym ((==_iff v []).0 none_left)) (Reads-none field (mk []))
    | inr some_left ↦ rw some_left (
        Reads-field w laws field (mk []) (mk v) number w.bytes_type (w.append_string [] v) tag step)
  ]

  pub Reads-bytes :
      {S : Type 0} (field : S → ℕ → ℕ → Bytes → Result (S × ℕ)) (mk : Bytes → S) (number : ℕ)
      (v : Bytes)
      → IsTag w number w.bytes_type
      → ((rest : Bytes)
          → field (mk []) number w.bytes_type (w.append_bytes [] v ++ rest)
            ≡ ok (mk v, length (w.append_bytes [] v)))
      → Reads w field (mk []) (mk v) (bytes_enc number v)
  unfolding bytes_enc bytes_beq
  Reads-bytes field mk number v tag step = elim (Bool-cases (v == [])) [
    | inl none_left ↦
        subst (λ (k : Bytes). Reads w field (mk []) (mk k) (bytes_enc number k))
          (sym ((==_iff v []).0 none_left)) (Reads-none field (mk []))
    | inr some_left ↦
        rw some_left (
          Reads-field w laws field (mk []) (mk v) number w.bytes_type (w.append_bytes [] v) tag
            step)
  ]
