-- ===== src/Wire/Reads.antt =====
-- Encodings that the field loop reads: what a sequence of written fields does to its state.
use pokemon_violet.Base.{ℕ, ◌≤◌, ◌≡◌, ◌∙◌, [], ◌++◌, arith, length, length-append}
use pokemon_violet.Base.Result.{ok}
use pokemon_violet.Base.Text.{Bytes}
use mathlib.Core.List.{append-nil, append_assoc}
use pokemon_violet.Wire.{Wire, WireLaws, IsTag}
use pokemon_violet.Wire.Loop.{parse_fields, parse_fields-append, FieldCase}

-- From the state `s` the loop reads `enc`, in front of anything, to the state `s'`.
abbrev pub Reads : {S : Type 0} → Wire → FieldCase S → S → S → Bytes → Type 0
Reads w field s s' enc =
    (rest : Bytes) (fuel : ℕ)
    → length (enc ++ rest) ≤ fuel
    → (fuel' : ℕ) × (length rest ≤ fuel')
      × (parse_fields w field fuel s (enc ++ rest) ≡ parse_fields w field fuel' s' rest)

module _ {S : Type 0} (w : Wire) (laws : WireLaws w) (field : FieldCase S) where
  pub Reads-field :
      (s s' : S) (number typ : ℕ) (value : Bytes)
      → IsTag w number typ
      → ((rest : Bytes) → field s number typ (value ++ rest) ≡ ok (s', length value))
      → Reads w field s s' (w.append_tag [] number typ ++ value)
  Reads-field s s' number typ value tag step rest fuel h =
      rw (append_assoc (w.append_tag [] number typ) value rest) (
        parse_fields-append w laws field s s' number typ value rest fuel tag (step rest)
          (rw (append_assoc (w.append_tag [] number typ) value rest) at h))

  pub Reads-append :
      (s t u : S) (a b : Bytes)
      → Reads w field s t a
      → Reads w field t u b
      → Reads w field s u (a ++ b)
  Reads-append s t u a b first second rest fuel h =
      let (f, room, e) = first (b ++ rest) fuel (rw (append_assoc a b rest) at h) in
      let (f', room', e') = second rest f room in (f', room', rw (append_assoc a b rest) (e ∙ e'))

  pub Reads-done :
      (s t : S) (enc : Bytes)
      → Reads w field s t enc
      → parse_fields w field (length enc) s enc ≡ ok t
  unfolding parse_fields
  Reads-done s t enc reads =
      let (f, room, e) = reads [] (length enc) (omega (arith, length-append enc [])) in
      rw (append-nil enc) at e
