-- ===== src/Base/Text.antt =====
-- Go strings and byte slices are lists of bytes; a text literal stands for its ASCII bytes.
use Prim.Native.Nat.{ℕ, ◌-◌, ◌≤◌}
use mathlib.Core.Path.{◌≡◌, refl}
use mathlib.Core.Logic.{◌≢◌, ◌⊎◌, inl, inr}
use mathlib.Core.Bool.{Bool, true, false, ◌&&◌}
use mathlib.Core.List.{List, [], ◌∷◌, ◌++◌}
use native.Mathlib.Omega.{arith}
use pokemon_violet.Base.Tests.{leb, nat_beq, if◌then◌else◌, bytes_beq}
use pokemon_violet.Base.Lists.{length, take, drop}
use Prim.Native.Char.{code}
use Prim.Native.String.{String}

abbrev pub Bytes : Type 0
Bytes = List ℕ

abbrev pub text : String → Bytes
text (String.◌∷◌ first rest) = code first ∷ text rest
text String.[] = []

-- strings.HasPrefix
abbrev pub has_prefix : Bytes → Bytes → Bool
has_prefix s [] = true
has_prefix [] (p ∷ ps) = false
has_prefix (c ∷ s) (p ∷ ps) = nat_beq c p && has_prefix s ps

-- strings.HasSuffix
abbrev pub has_suffix : Bytes → Bytes → Bool
has_suffix s p = leb (length p) (length s) && bytes_beq (drop (length s - length p) s) p

-- strings.TrimSuffix
abbrev pub trim_suffix : Bytes → Bytes → Bytes
trim_suffix s p = if has_suffix s p then take (length s - length p) s else s

-- strings.Split(s, "/"), with the part under way as accumulator, last byte first.
abbrev pub push_part : Bytes → List Bytes → List Bytes
push_part w [] = w ∷ []
push_part w (p ∷ ps) = (w ++ p) ∷ ps

abbrev pub split_slash : Bytes → List Bytes
split_slash [] = [] ∷ []
split_slash (c ∷ s) =
    let rest = split_slash s in if nat_beq c 47 then [] ∷ rest else push_part (c ∷ []) rest

-- strings.Join(parts, "/")
abbrev pub join_slash : List Bytes → Bytes
join_slash [] = []
join_slash (p ∷ []) = p
join_slash (p ∷ q ∷ ps) = p ++ (47 ∷ join_slash (q ∷ ps))

-- No byte of the text is `c`.
abbrev pub Lacks : ℕ → Bytes → Type 0
Lacks c [] = Unit {0}
Lacks c (b ∷ s) = (b ≢ c) × Lacks c s

-- The text up to the first byte `c`.
pub before : ℕ → Bytes → Bytes
before c [] = []
before c (b ∷ s) = if nat_beq b c then [] else b ∷ before c s

pub before-append : (c : ℕ) (s t : Bytes) → Lacks c s → before c (s ++ (c ∷ t)) ≡ s
unfolding before
before-append c [] t h = ground arith
before-append c (b ∷ s) t h = ground (arith, before-append c s t h.1)

pub empty_or_pos : (b : Bytes) → (bytes_beq b [] ≡ true) ⊎ (1 ≤ length b)
unfolding bytes_beq
empty_or_pos [] = inl refl
empty_or_pos (x ∷ b) = inr (omega arith)
