-- ===== src/Wire/Loop.antt =====
-- The loop that every parser of the repository has: while bytes are left, consume a tag, let the
-- field's case consume the value, and go on behind it.
use pokemon_violet.Base.{
  ℕ, zero, suc, ◌≤◌, ◌≡◌, ap, ◌∙◌, subst, ◌≢◌, inl, inr, Option, none, some, [], ◌∷◌, ◌++◌, arith,
  Option-cases, Nat-cases, length, drop, keep, length-append, drop-append, length-drop,
}
use pokemon_violet.Base.Result.{plain, diverges, Result, ok, err, ◌>>=◌, >>=-eq-ok, Result-cases}
use pokemon_violet.Base.Text.{Bytes}
use pokemon_violet.Wire.{Wire, WireLaws, IsTag}

-- if n < 0 { return protowire.ParseError(n) }
abbrev pub or_plain {ℓ} : {A : Type ℓ} → Option A → Result A
or_plain none = err plain
or_plain (some a) = ok a

-- A field's case gets the number, the type and the bytes behind the tag, and returns the new state
-- and the length of the value.
abbrev pub FieldCase : Type 0 → Type 0
FieldCase S = S → ℕ → ℕ → Bytes → Result (S × ℕ)

unfoldable pub parse_fields : {S : Type 0} → Wire → FieldCase S → ℕ → S → Bytes → Result S
parse_fields w field fuel s [] = ok s
parse_fields w field zero s (b ∷ d) = err diverges
parse_fields w field (suc fuel) s (b ∷ d) = do
  (number, typ, n) ← or_plain (w.consume_tag (b ∷ d))
  let after = drop n (b ∷ d)
  (s', k) ← field s number typ after
  parse_fields w field fuel s' (drop k after)

-- n := protowire.ConsumeFieldValue(number, typ, data), with its error
unfoldable pub skip_proto_field : Wire → ℕ → ℕ → Bytes → Result ℕ
skip_proto_field w number typ d = or_plain (w.consume_field_value number typ d)

-- Each case consumes at least the tag, so the bytes left are fuel enough.
pub parse_fields-total :
    {S : Type 0} (w : Wire) (laws : WireLaws w) (field : FieldCase S)
    → ((s : S) (number typ : ℕ) (d : Bytes) → field s number typ d ≢ err diverges)
    → (fuel : ℕ) (s : S) (d : Bytes) → length d ≤ fuel
    → parse_fields w field fuel s d ≢ err diverges
unfolding parse_fields
parse_fields-total w laws field safe fuel s [] h = ground arith
parse_fields-total w laws field safe zero s (b ∷ d) h = absurd (omega (arith, h))
parse_fields-total w laws field safe (suc fuel) s (b ∷ d) h =
    elim (Option-cases (w.consume_tag (b ∷ d))) [
      | inl e ↦ rw e (λ q. cc)
      | inr ((number, typ, n), e) ↦
          rw e (elim (Result-cases (field s number typ (drop n (b ∷ d)))) [
            | inl (c, q) ↦ rw q (λ z.
                let same : c ≡ diverges = cc in
                safe s number typ (drop n (b ∷ d)) (q ∙ ap err same))
            | inr ((s', k), q) ↦ rw q (
                parse_fields-total w laws field safe fuel s' (drop k (drop n (b ∷ d))) (
                  omega (
                    arith,
                    h,
                    laws.consume_tag-progress (b ∷ d) number typ n e,
                    length-drop k (drop n (b ∷ d)),
                    length-drop n (b ∷ d),
                  )))
          ])
    ]

-- An invariant that every case keeps holds of the result.
pub parse_fields_inv :
    {S : Type 0} (P : S → Type 0) (w : Wire) (field : FieldCase S)
    → ((s s' : S) (number typ k : ℕ) (d : Bytes) → P s → field s number typ d ≡ ok (s', k) → P s')
    → (fuel : ℕ) (s t : S) (d : Bytes) → P s
    → parse_fields w field fuel s d ≡ ok t
    → P t
unfolding parse_fields
parse_fields_inv P w field keep fuel s t [] h e = let same : s ≡ t = cc in subst P same h
parse_fields_inv P w field keep zero s t (b ∷ d) h e = cc
parse_fields_inv P w field keep (suc fuel) s t (b ∷ d) h e =
    let ((number, typ, n), _, e') = >>=-eq-ok (or_plain (w.consume_tag (b ∷ d))) _ e in
    let ((s', k), q, e'') = >>=-eq-ok (field s number typ (drop n (b ∷ d))) _ e' in
    parse_fields_inv P w field keep fuel s' t (drop k (drop n (b ∷ d)))
      (keep s s' number typ k (drop n (b ∷ d)) h q) e''

parse_fields_round :
    {S : Type 0} (w : Wire) (field : FieldCase S) (f : ℕ) (s s' : S) (d : Bytes)
    (number typ n k : ℕ)
    → 1 ≤ length d
    → w.consume_tag d ≡ some (number, typ, n)
    → field s number typ (drop n d) ≡ ok (s', k)
    → parse_fields w field (suc f) s d ≡ parse_fields w field f s' (drop k (drop n d))
unfolding parse_fields
parse_fields_round w field f s s' [] number typ n k h e q = elim h [ ]
parse_fields_round w field f s s' (b ∷ d) number typ n k h e q = rw e (rw q)

-- One field written by an Append call is read by one round of the loop.
pub parse_fields-append :
    {S : Type 0} (w : Wire) (laws : WireLaws w) (field : FieldCase S) (s s' : S) (number typ : ℕ)
    (value rest : Bytes) (fuel : ℕ)
    → IsTag w number typ
    → field s number typ (value ++ rest) ≡ ok (s', length value)
    → length (w.append_tag [] number typ ++ (value ++ rest)) ≤ fuel
    → (fuel' : ℕ) × (length rest ≤ fuel')
      × (parse_fields w field fuel s (w.append_tag [] number typ ++ (value ++ rest))
          ≡ parse_fields w field fuel' s' rest)
unfolding parse_fields
parse_fields-append w laws field s s' number typ value rest fuel tag step h =
    elim (Nat-cases fuel) [
      | inl e ↦ absurd (
          omega (
            arith,
            h,
            e,
            laws.append_tag-progress number typ,
            length-append (w.append_tag [] number typ) (value ++ rest),
          ))
      | inr (f, e) ↦ (
        f,
        omega (
          arith,
          h,
          e,
          laws.append_tag-progress number typ,
          length-append (w.append_tag [] number typ) (value ++ rest),
          length-append value rest,
        ),
        rw e (
            rw (drop-append (w.append_tag [] number typ) (value ++ rest), drop-append value rest) at
              (parse_fields_round w field f s s' (w.append_tag [] number typ ++ (value ++ rest))
                number typ (length (w.append_tag [] number typ)) (length value)
                (omega (
                  arith,
                  laws.append_tag-progress number typ,
                  length-append (w.append_tag [] number typ) (value ++ rest),
                ))
                (laws.consume-append_tag number typ (value ++ rest) tag)
                (rw (drop-append (w.append_tag [] number typ) (value ++ rest)) step))),
      )
    ]
