-- ===== src/Tests/ToyWire.antt =====
-- A wire format that meets the laws of the parameter: a tag is two entries, a number is one, and
-- bytes stand behind their length.
use pokemon_violet.Base.{
  ℕ, suc, ◌≤◌, ◌≡◌, refl, Option, none, some, [], ◌∷◌, ◌++◌, arith, leb, if◌then◌else◌, ◌==◌,
  nat_eq, bytes_eq, length, take, length-append, take-append,
}
use pokemon_violet.Base.Int.{int_eq}
use pokemon_violet.Base.Text.{Bytes}
use pokemon_violet.Wire.{Wire, WireLaws}

toy_bytes : Bytes → Option (Bytes × ℕ)
toy_bytes [] = none
toy_bytes (n ∷ d) = if leb n (length d) then some (take n d, suc n) else none

toy_varint : Bytes → Option (ℕ × ℕ)
toy_varint [] = none
toy_varint (v ∷ d) = some (v, 1)

toy_tag : Bytes → Option (ℕ × ℕ × ℕ)
toy_tag [] = none
toy_tag (a ∷ []) = none
toy_tag (a ∷ b ∷ d) = some (a, b, 2)

toy_value : ℕ → Bytes → Option ℕ
toy_value typ [] = none
toy_value typ (n ∷ d) = if typ == 0 then some 1 else if leb n (length d) then some (suc n) else none

unfoldable pub toy : Wire
unfolding toy_bytes toy_varint toy_tag toy_value
toy = record {
  varint_type = 0;
  bytes_type = 2;
  consume_tag = toy_tag;
  consume_varint = toy_varint;
  consume_bytes = toy_bytes;
  consume_string = toy_bytes;
  consume_field_value = λ number typ d. toy_value typ d;
  append_tag = λ out number typ. out ++ (number ∷ typ ∷ []);
  append_varint = λ out v. out ++ (v ∷ []);
  append_bytes = λ out b. out ++ (length b ∷ b);
  append_string = λ out b. out ++ (length b ∷ b);
}

toy_bytes-append : (b rest : Bytes) → toy_bytes (length b ∷ (b ++ rest)) ≡ some (b, suc (length b))
unfolding toy_bytes
toy_bytes-append b rest = ground (arith, length-append b rest, take-append b rest)

toy_tag_pos : (b : Bytes) (number typ n : ℕ) → toy_tag b ≡ some (number, typ, n) → 1 ≤ n
unfolding toy_tag
toy_tag_pos [] number typ n e = cc
toy_tag_pos (x ∷ []) number typ n e = cc
toy_tag_pos (x ∷ y ∷ d) number typ n e = ground arith

pub toy_laws : WireLaws toy
unfolding toy
toy_laws = record {
  types_differ = λ e. omega arith;
  append_tag_lem = λ out number typ. refl;
  append_varint_lem = λ out v. refl;
  append_bytes_lem = λ out b. refl;
  append_string_lem = λ out b. refl;
  consume-append_tag = λ number typ rest tag. refl;
  consume-append_varint = λ v rest small. refl;
  consume-append_bytes = toy_bytes-append;
  consume-append_string = toy_bytes-append;
  consume_tag-progress = toy_tag_pos;
  append_tag-progress = λ number typ. omega arith;
}
