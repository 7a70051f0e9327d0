-- ===== src/Wire.antt =====
-- google.golang.org/protobuf/encoding/protowire, which the repository only calls: its operations
-- are a parameter, and what the code relies on is the record of laws.
pub mod Loop
pub mod Reads
use pokemon_violet.Base.{ℕ, ◌≤◌, ◌<◌, ◌≡◌, ◌≢◌, ◌⊎◌, Option, some, [], ◌++◌, length}
use pokemon_violet.Base.Text.{Bytes}

-- A Consume call returns `none` where the Go one returns a negative length.
pub record Wire : Type 0 where
  pub varint_type : ℕ
  pub bytes_type : ℕ
  pub consume_tag : Bytes → Option (ℕ × ℕ × ℕ)
  pub consume_varint : Bytes → Option (ℕ × ℕ)
  pub consume_bytes : Bytes → Option (Bytes × ℕ)
  pub consume_string : Bytes → Option (Bytes × ℕ)
  pub consume_field_value : ℕ → ℕ → Bytes → Option ℕ
  pub append_tag : Bytes → ℕ → ℕ → Bytes
  pub append_varint : Bytes → ℕ → Bytes
  pub append_bytes : Bytes → Bytes → Bytes
  pub append_string : Bytes → Bytes → Bytes

-- Field numbers from 1 to 2^29 - 1 and the two wire types that the code writes.
abbrev pub IsTag : Wire → ℕ → ℕ → Type 0
IsTag w number typ =
    (1 ≤ number) × (number < 536870912) × ((typ ≡ w.varint_type) ⊎ (typ ≡ w.bytes_type))

-- An Append call adds to the end of its buffer; a Consume call reads back what an Append call wrote
-- in front of anything; a tag takes at least one byte, and nothing reads past the end.
pub record WireLaws (w : Wire) : Type 0 where
  pub types_differ : w.varint_type ≢ w.bytes_type
  pub append_tag_lem :
      (out : Bytes) (number typ : ℕ)
      → w.append_tag out number typ ≡ out ++ w.append_tag [] number typ
  pub append_varint_lem :
      (out : Bytes) (v : ℕ) → w.append_varint out v ≡ out ++ w.append_varint [] v
  pub append_bytes_lem : (out b : Bytes) → w.append_bytes out b ≡ out ++ w.append_bytes [] b
  pub append_string_lem : (out b : Bytes) → w.append_string out b ≡ out ++ w.append_string [] b
  pub consume-append_tag :
      (number typ : ℕ) (rest : Bytes)
      → IsTag w number typ
      → w.consume_tag (w.append_tag [] number typ ++ rest)
        ≡ some (number, typ, length (w.append_tag [] number typ))
  pub consume-append_varint :
      (v : ℕ) (rest : Bytes)
      → v < 18446744073709551616
      → w.consume_varint (w.append_varint [] v ++ rest) ≡ some (v, length (w.append_varint [] v))
  pub consume-append_bytes :
      (b rest : Bytes)
      → w.consume_bytes (w.append_bytes [] b ++ rest) ≡ some (b, length (w.append_bytes [] b))
  pub consume-append_string :
      (b rest : Bytes)
      → w.consume_string (w.append_string [] b ++ rest) ≡ some (b, length (w.append_string [] b))
  pub consume_tag-progress :
      (b : Bytes) (number typ n : ℕ) → w.consume_tag b ≡ some (number, typ, n) → 1 ≤ n
  pub append_tag-progress : (number typ : ℕ) → 1 ≤ length (w.append_tag [] number typ)
