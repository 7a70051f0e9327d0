-- ===== src/Ranked/Json.antt =====
-- ranked_state.go: what json.Unmarshal finds in what json.MarshalIndent wrote. Numbers and flags
-- come back as they were. In a string, every byte at which no UTF-8 sequence starts comes back as
-- U+FFFD. A map is written in the byte order of its keys, and the last of equal keys is kept.
use pokemon_violet.Base.{
  ℕ, zero, suc, ◌≡◌, refl, sym, ap, ◌∙◌, ◌⊎◌, inl, inr, Bool, true, false, ◌&&◌, not, [], ◌∷◌, map,
  arith, ltb, leb, if◌then◌else◌, Bool-cases, ◌==◌, ==_iff, ==_refl, nat_eq, bytes_eq, keep, exists,
}
use pokemon_violet.Base.Dict.{Dict, insert}
use pokemon_violet.Base.Int.{int_eq}
use pokemon_violet.Base.Text.{Bytes}
use pokemon_violet.Documents.Order.{bytes_ltb}
use pokemon_violet.Documents.Sorted.{bytes_ltb_irrefl}

abbrev in_range : ℕ → ℕ → ℕ → Bool
in_range low high c = leb low c && leb c high

-- The bytes that may follow the first byte of a sequence.
abbrev second_ok : ℕ → ℕ → Bool
second_ok b c =
    if b == 224
    then in_range 160 191 c
    else if b == 237
    then in_range 128 159 c
    else if b == 240
    then in_range 144 191 c
    else if b == 244
    then in_range 128 143 c
    else in_range 128 191 c

two_bytes : ℕ → Bytes → ℕ
two_bytes b (c ∷ s) = if second_ok b c then 2 else 0
two_bytes b _ = 0

three_bytes : ℕ → Bytes → ℕ
three_bytes b (c ∷ d ∷ s) = if second_ok b c && in_range 128 191 d then 3 else 0
three_bytes b _ = 0

four_bytes : ℕ → Bytes → ℕ
four_bytes b (c ∷ d ∷ f ∷ s) =
    if second_ok b c && in_range 128 191 d && in_range 128 191 f then 4 else 0
four_bytes b _ = 0

-- utf8.DecodeRuneInString: the length of the sequence that starts with the byte, 0 if none does.
unfoldable pub rune_size : ℕ → Bytes → ℕ
unfolding two_bytes three_bytes four_bytes
rune_size b s =
    if ltb b 128
    then 1
    else if in_range 194 223 b
    then two_bytes b s
    else if in_range 224 239 b
    then three_bytes b s
    else if in_range 240 244 b
    then four_bytes b s
    else 0

-- The first argument counts the bytes of the sequence that are still to be copied.
unfoldable pub recode : ℕ → Bytes → Bytes
recode k [] = []
recode (suc k) (b ∷ s) = b ∷ recode k s
recode zero (b ∷ s) = elim (rune_size b s) [
  | zero ↦ 239 ∷ 191 ∷ 189 ∷ recode 0 s
  | suc k ↦ b ∷ recode k s
]

unfoldable pub json_string : Bytes → Bytes
json_string s = recode 0 s

unfoldable pub runes : ℕ → Bytes → Bool
runes k [] = k == 0
runes (suc k) (b ∷ s) = runes k s
runes zero (b ∷ s) = elim (rune_size b s) [ zero ↦ false | suc k ↦ runes k s ]

-- utf8.ValidString
unfoldable pub valid_utf8 : Bytes → Bool
valid_utf8 s = runes 0 s

module _ {ℓ} {V : Type ℓ} where
  abbrev survives : Dict Bytes V → Bytes × V → Bool
  survives m (key, value) =
      not (exists (λ e. json_string e.0 == json_string key && bytes_ltb key e.0) m)

  unfoldable pub json_dict : Dict Bytes V → Dict Bytes V
  json_dict m = map (λ e. (json_string e.0, e.1)) (keep (survives m) m)

  abbrev pub AllUtf8 : Dict Bytes V → Type 0
  AllUtf8 [] = Unit
  AllUtf8 ((key, value) ∷ m) = (valid_utf8 key ≡ true) × AllUtf8 m

  pub insert-AllUtf8 :
      (key : Bytes) (value : V) (m : Dict Bytes V)
      → valid_utf8 key ≡ true
      → AllUtf8 m
      → AllUtf8 (insert key value m)
  unfolding insert
  insert-AllUtf8 key value [] good all = (good, tt)
  insert-AllUtf8 key value ((name, old) ∷ m) good (first, all) = elim (Bool-cases (name == key)) [
    | inl same ↦ rw same (good, all)
    | inr other ↦ rw other (first, insert-AllUtf8 key value m good all)
  ]

nat_parts : (n : ℕ) → (n ≡ 0) ⊎ ((k : ℕ) × (n ≡ suc k))
nat_parts zero = inl refl
nat_parts (suc k) = inr (k, refl)

recode-runes : (k : ℕ) (s : Bytes) → runes k s ≡ true → recode k s ≡ s
unfolding runes recode
recode-runes k [] good = refl
recode-runes (suc k) (b ∷ s) good = ap (◌∷◌ b) (recode-runes k s good)
recode-runes zero (b ∷ s) good = elim (nat_parts (rune_size b s)) [
  | inl bad ↦
      let never : runes 0 (b ∷ s) ≡ false = rw (bad, runes) refl in
      absurd (ground (arith, good, never))
  | inr (k, size) ↦
      let rest : runes 0 (b ∷ s) ≡ runes k s = rw (size, runes) refl in
      let copied : recode 0 (b ∷ s) ≡ b ∷ recode k s = rw (size, recode) refl in
      copied ∙ ap (◌∷◌ b) (recode-runes k s (sym rest ∙ good))
]

pub json_string-valid : (s : Bytes) → valid_utf8 s ≡ true → json_string s ≡ s
unfolding valid_utf8 json_string
json_string-valid s good = recode-runes 0 s good

module _ {ℓ} {V : Type ℓ} where
  none_after :
      (key : Bytes) (m : Dict Bytes V)
      → valid_utf8 key ≡ true
      → AllUtf8 m
      → exists (λ e. json_string e.0 == json_string key && bytes_ltb key e.0) m ≡ false
  none_after key [] good all = refl
  none_after key ((name, value) ∷ m) good (first, all) = elim (Bool-cases (name == key)) [
    | inl same ↦
        let here : name ≡ key = (==_iff name key).0 same in
        rw here (rw (==_refl (json_string key), bytes_ltb_irrefl key) (none_after key m good all))
    | inr other ↦
        let miss : (json_string name == json_string key) ≡ false =
          rw (json_string-valid name first, json_string-valid key good) other in
        rw miss (none_after key m good all)
  ]

  kept_all :
      (whole m : Dict Bytes V)
      → AllUtf8 whole
      → AllUtf8 m
      → map (λ e. (json_string e.0, e.1)) (keep (survives whole) m) ≡ m
  kept_all whole [] all good = refl
  kept_all whole ((key, value) ∷ m) all (first, good) =
      rw (none_after key whole first all)
        (rw (json_string-valid key first) (rw (kept_all whole m all good) refl))

  -- A map whose keys are valid UTF-8 comes back as it was.
  pub json_dict-AllUtf8 : (m : Dict Bytes V) → AllUtf8 m → json_dict m ≡ m
  unfolding json_dict
  json_dict-AllUtf8 m all = kept_all m m all all
