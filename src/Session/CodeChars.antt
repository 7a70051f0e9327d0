-- ===== src/Session/CodeChars.antt =====
-- session_alias.go: the characters of a room code.
use pokemon_violet.Base.{
  ℕ, zero, suc, ◌/◌, ◌%◌, ◌<◌, ◌≡◌, refl, subst, inl, inr, Bool, true, ◌&&◌, not, [], ◌∷◌, map,
  arith, Bool-cases, ◌==◌, ==_iff, ==_refl, nat_eq, bytes_eq, length, get_or, exists,
}
use pokemon_violet.Base.Int.{int_eq}
use pokemon_violet.Base.Text.{Bytes, Lacks}
use pokemon_violet.TradeBox.Server.{last_resource_segment}
use pokemon_violet.Session.Raid.{all_of}
use pokemon_violet.Session.RoomCode.{
  violet_alias_alphabet, hash_bytes, code_chars, violet_room_code, in_alphabet, all_in_alphabet,
  valid_violet_room_code, to_upper,
}

get_or-among : (s : Bytes) (i : ℕ) → i < length s → exists (λ b. b == get_or s i 0) s ≡ true
get_or-among [] i small = absurd (omega (arith, small))
get_or-among (c ∷ s) zero small = rw (==_refl c) refl
get_or-among (c ∷ s) (suc i) small = ground (arith, get_or-among s i, small)

code_chars_sound :
    (n hash : ℕ) → (length (code_chars n hash) ≡ n) × (all_in_alphabet (code_chars n hash) ≡ true)
unfolding code_chars all_in_alphabet
code_chars_sound zero hash = (refl, refl)
code_chars_sound (suc n) hash =
    let (counted, good) = code_chars_sound n (hash / 32) in
    let first : in_alphabet (get_or violet_alias_alphabet (hash % 32) 0) ≡ true =
      get_or-among violet_alias_alphabet (hash % 32) (omega arith) in
    (cc counted, rw first good)

-- Whatever the session is called, its code has six characters of the alphabet.
pub violet_room_code_valid :
    (game_session : Bytes) → valid_violet_room_code (violet_room_code game_session) ≡ true
unfolding valid_violet_room_code violet_room_code
violet_room_code_valid game_session =
    let (counted, good) =
      code_chars_sound 6 (hash_bytes 14695981039346656037 (last_resource_segment game_session)) in
    rw counted good

-- A test that all of a list passes holds of what is among it.
passes_among :
    (q : ℕ → Bool) (s : Bytes) (c : ℕ)
    → all_of q s ≡ true
    → exists (λ b. b == c) s ≡ true
    → q c ≡ true
passes_among q [] c pass here = cc
passes_among q (x ∷ s) c pass here = elim (Bool-cases (q x)) [
  | inr fails ↦ ground (arith, pass, fails)
  | inl holds ↦ elim (Bool-cases (x == c)) [
    | inl same ↦ subst (λ y. q y ≡ true) ((==_iff x c).0 same) holds
    | inr other ↦
        let pass' : all_of q s ≡ true = ground (arith, pass, holds) in
        let here' : exists (λ b. b == c) s ≡ true = ground (arith, here, other) in
        passes_among q s c pass' here'
  ]
]

plain_char : ℕ → Bool
plain_char c = (to_upper c == c) && not (c == 47)

alphabet_plain : all_of plain_char violet_alias_alphabet ≡ true
unfolding plain_char
alphabet_plain = refl

pub code_plain : (s : Bytes) → all_in_alphabet s ≡ true → (map to_upper s ≡ s) × Lacks 47 s
unfolding all_in_alphabet plain_char
code_plain [] good = (refl, tt)
code_plain (c ∷ s) good = elim (Bool-cases (in_alphabet c)) [
  | inr outside ↦ ground (arith, good, outside)
  | inl inside ↦
      let rest : all_in_alphabet s ≡ true = ground (arith, good, inside) in
      let (same, clean) = code_plain s rest in
      let plain = passes_among plain_char violet_alias_alphabet c alphabet_plain inside in
      let upper : to_upper c ≡ c = (==_iff (to_upper c) c).0 (ground (arith, plain)) in
      (cc (upper, same), ((λ e. ground (arith, plain, e)), clean))
]

pub valid_parts : (code : Bytes) → valid_violet_room_code code ≡ true → all_in_alphabet code ≡ true
unfolding valid_violet_room_code
valid_parts code good = ground (arith, good)
