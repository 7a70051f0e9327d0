-- ===== src/Validation/Shape.antt =====
-- trade_validation.go: the shape of the bodies that the parser accepts.
use pokemon_violet.Base.{
  ℕ, ◌+◌, ◌*◌, ◌/◌, ◌%◌, ◌≤◌, ◌≡◌, refl, sym, ap, ◌∙◌, subst, ◌≢◌, inl, inr, false, ◌||◌, none,
  some, [], ◌∷◌, ◌++◌, arith, ltb, Bool-cases, Option-cases, ◌==◌, ==_iff, ==_ne, nat_eq, bytes_eq,
  length, length-append,
}
use pokemon_violet.Base.Int.{int_eq}
use pokemon_violet.Base.Result.{plain, err, ok}
use pokemon_violet.Base.Text.{Bytes, Lacks, empty_or_pos}
use pokemon_violet.Validation.{
  TradeValidationRequest, split_nul, parse_trade_validation_request, trade_party_entry_size,
  trade_max_party_size, uint16, check_party, parse_header,
}

-- The body of a request.
abbrev pub print_request : TradeValidationRequest → Bytes
print_request r = r.prefix ++ (0 ∷ (r.header ++ (r.entries / 256 ∷ r.entries % 256 ∷ r.party)))

-- What the game may send: a prefix that is not empty and has no NUL byte, a header of six bytes, and
-- one to six party entries of 328 bytes each.
abbrev pub IsRequest : TradeValidationRequest → Type 0
IsRequest r =
    Lacks 0 r.prefix
    × (1 ≤ length r.prefix)
    × (length r.header ≡ 6)
    × (1 ≤ r.entries)
    × (r.entries ≤ 6)
    × (length r.party ≡ r.entries * 328)

split_nul-append : (s t : Bytes) → Lacks 0 s → split_nul (s ++ (0 ∷ t)) ≡ some (s, t)
unfolding split_nul
split_nul-append [] t clean = refl
split_nul-append (c ∷ s) t clean = rw (==_ne c 0 clean.0) (rw (split_nul-append s t clean.1) refl)

split_nul-found : (s p t : Bytes) → split_nul s ≡ some (p, t) → (s ≡ p ++ (0 ∷ t)) × Lacks 0 p
unfolding split_nul
split_nul-found [] p t found = cc
split_nul-found (c ∷ s) p t found = elim (Bool-cases (c == 0)) [
  | inl nul ↦
      let step : split_nul (c ∷ s) ≡ some ([], s) = rw nul refl in
      let q : some ([], s) ≡ some (p, t) = sym step ∙ found in
      let same : [] ≡ p = cc in
      let same' : s ≡ t = cc in rw⁻¹ same (rw⁻¹ same' (ap (λ x. x ∷ s) ((==_iff c 0).0 nul), tt))
  | inr other ↦ elim (Option-cases (split_nul s)) [
    | inl missing ↦
        let step : split_nul (c ∷ s) ≡ none = rw other (rw missing refl) in
        ground (arith, step, found)
    | inr ((a, b), there) ↦
        let step : split_nul (c ∷ s) ≡ some (c ∷ a, b) = rw other (rw there refl) in
        let q : some (c ∷ a, b) ≡ some (p, t) = sym step ∙ found in
        let same : c ∷ a ≡ p = cc in
        let same' : b ≡ t = cc in
        let (whole, clean) = split_nul-found s a b there in
        rw⁻¹ same (
          rw⁻¹ same' (
            ap (λ (x : Bytes). c ∷ x) whole,
            ((λ e. ground (arith, (==_iff c 0).1 e, other)), clean),
          ))
  ]
]

parse_header-print :
    (prefix header party : Bytes) (high low total : ℕ)
    → length header ≡ 6
    → parse_header prefix (header ++ (high ∷ low ∷ party)) total
      ≡ check_party prefix header (uint16 high low) party total
unfolding parse_header
parse_header-print prefix (a ∷ b ∷ c ∷ d ∷ e ∷ f ∷ []) party high low total six = refl
parse_header-print prefix (a ∷ b ∷ c ∷ d ∷ e ∷ f ∷ g ∷ h) party high low total six =
    absurd (omega (arith, six))
parse_header-print prefix [] party high low total six = absurd (omega (arith, six))
parse_header-print prefix (a ∷ []) party high low total six = absurd (omega (arith, six))
parse_header-print prefix (a ∷ b ∷ []) party high low total six = absurd (omega (arith, six))
parse_header-print prefix (a ∷ b ∷ c ∷ []) party high low total six = absurd (omega (arith, six))
parse_header-print prefix (a ∷ b ∷ c ∷ d ∷ []) party high low total six =
    absurd (omega (arith, six))
parse_header-print prefix (a ∷ b ∷ c ∷ d ∷ e ∷ []) party high low total six =
    absurd (omega (arith, six))

check_party-ok :
    (prefix header party : Bytes) (entries total : ℕ)
    → 1 ≤ entries
    → entries ≤ 6
    → total ≡ length prefix + 9 + entries * 328
    → check_party prefix header entries party total
      ≡ ok (record { prefix = prefix; header = header; entries = entries; party = party })
unfolding check_party
check_party-ok prefix header party entries total some_entries few sized =
    ground (arith, some_entries, few, sized)

check_party-inv :
    (prefix header party : Bytes) (entries total : ℕ) (r : TradeValidationRequest)
    → check_party prefix header entries party total ≡ ok r
    → (record { prefix = prefix; header = header; entries = entries; party = party } ≡ r)
      × (1 ≤ entries)
      × (entries ≤ 6)
      × (total ≡ length prefix + 9 + entries * 328)
unfolding check_party
check_party-inv prefix header party entries total r parsed =
    elim (Bool-cases (entries == 0 || ltb trade_max_party_size entries)) [
      | inl bad ↦
          let step : check_party prefix header entries party total ≡ err plain = rw bad refl in
          ground (arith, step, parsed)
      | inr good ↦
          elim (Bool-cases (total == length prefix + 9 + entries * trade_party_entry_size)) [
            | inr odd ↦
                let step : check_party prefix header entries party total ≡ err plain =
                  rw good (rw odd refl) in
                ground (arith, step, parsed)
            | inl sized ↦
                let given : TradeValidationRequest = record {
                  prefix = prefix;
                  header = header;
                  entries = entries;
                  party = party;
                } in
                let step : check_party prefix header entries party total ≡ ok given =
                  rw good (rw sized refl) in
                let q : ok given ≡ ok r = sym step ∙ parsed in
                (cc, ground (arith, good), ground (arith, good), ground (arith, sized))
          ]
    ]

named_prefix : (p : Bytes) → 1 ≤ length p → p ≢ []
named_prefix [] named e = omega (arith, named)
named_prefix (c ∷ p) named e = cc

parse_header-inv :
    (prefix rest : Bytes) (total : ℕ) (r : TradeValidationRequest)
    → parse_header prefix rest total ≡ ok r
    → (prefix ≡ r.prefix)
      × (rest ≡ r.header ++ (r.entries / 256 ∷ r.entries % 256 ∷ r.party))
      × (length r.header ≡ 6)
      × (1 ≤ r.entries)
      × (r.entries ≤ 6)
      × (total ≡ length r.prefix + 9 + r.entries * 328)
unfolding parse_header
parse_header-inv prefix (a ∷ b ∷ c ∷ d ∷ e ∷ f ∷ high ∷ low ∷ party) total r parsed =
    let (same, some_entries, few, sized) =
      check_party-inv prefix (a ∷ b ∷ c ∷ d ∷ e ∷ f ∷ []) party (uint16 high low) total r parsed in
    let high_zero : high ≡ uint16 high low / 256 = omega (arith, few) in
    let low_whole : low ≡ uint16 high low % 256 = omega (arith, few) in
    rw⁻¹ same (
      refl,
      ap (λ (x : ℕ). a ∷ b ∷ c ∷ d ∷ e ∷ f ∷ x ∷ low ∷ party) high_zero
          ∙ ap (λ (x : ℕ). a ∷ b ∷ c ∷ d ∷ e ∷ f ∷ (uint16 high low / 256) ∷ x ∷ party) low_whole,
      refl,
      some_entries,
      few,
      sized,
    )
parse_header-inv prefix [] total r parsed = cc
parse_header-inv prefix (a ∷ []) total r parsed = cc
parse_header-inv prefix (a ∷ b ∷ []) total r parsed = cc
parse_header-inv prefix (a ∷ b ∷ c ∷ []) total r parsed = cc
parse_header-inv prefix (a ∷ b ∷ c ∷ d ∷ []) total r parsed = cc
parse_header-inv prefix (a ∷ b ∷ c ∷ d ∷ e ∷ []) total r parsed = cc
parse_header-inv prefix (a ∷ b ∷ c ∷ d ∷ e ∷ f ∷ []) total r parsed = cc
parse_header-inv prefix (a ∷ b ∷ c ∷ d ∷ e ∷ f ∷ g ∷ []) total r parsed = cc

-- Printing and parsing: every well-formed request is parsed back from its body.
pub parse-print_request :
    (r : TradeValidationRequest)
    → IsRequest r
    → parse_trade_validation_request (print_request r) ≡ ok r
unfolding parse_trade_validation_request
parse-print_request r (clean, named, headed, some_entries, few, sized) =
    let rest = r.header ++ (r.entries / 256 ∷ r.entries % 256 ∷ r.party) in
    let total = length (print_request r) in
    let cut : split_nul (print_request r) ≡ some (r.prefix, rest) =
      split_nul-append r.prefix rest clean in
    let full : total ≡ length r.prefix + 9 + r.entries * 328 = omega (
      arith,
      length-append r.prefix (0 ∷ rest),
      length-append r.header (r.entries / 256 ∷ r.entries % 256 ∷ r.party),
      headed,
      sized,
    ) in
    let count : uint16 (r.entries / 256) (r.entries % 256) ≡ r.entries = omega arith in
    let some_prefix : (r.prefix == []) ≡ false =
      ==_ne r.prefix [] (λ e. named_prefix r.prefix named e) in
    rw (cut, parse_trade_validation_request)
      (rw some_prefix (
        parse_header-print r.prefix r.header r.party (r.entries / 256) (r.entries % 256) total
          headed
        ∙ rw count
            (check_party-ok r.prefix r.header r.party r.entries total some_entries few full)))

-- Parsing and printing: what is parsed is well-formed, and it is all that the body holds.
pub print-parse-IsRequest :
    (body : Bytes) (r : TradeValidationRequest)
    → parse_trade_validation_request body ≡ ok r
    → IsRequest r × (print_request r ≡ body)
unfolding parse_trade_validation_request
print-parse-IsRequest body r parsed = elim (Option-cases (split_nul body)) [
  | inl missing ↦
      let step : parse_trade_validation_request body ≡ err plain =
        rw (missing, parse_trade_validation_request) refl in
      ground (arith, step, parsed)
  | inr ((prefix, rest), cut) ↦ elim (Bool-cases (prefix == [])) [
    | inl nameless ↦
        let step : parse_trade_validation_request body ≡ err plain =
          rw (cut, parse_trade_validation_request) (rw nameless refl) in
        ground (arith, step, parsed)
    | inr named ↦
        let step : parse_trade_validation_request body ≡ parse_header prefix rest (length body) =
          rw (cut, parse_trade_validation_request) (rw named refl) in
        let (whole, clean) = split_nul-found body prefix rest cut in
        let (same, same_rest, six, some_entries, few, sized) =
          parse_header-inv prefix rest (length body) r (sym step ∙ parsed) in
        let tail = r.entries / 256 ∷ r.entries % 256 ∷ r.party in
        let shape : body ≡ print_request r =
          whole
          ∙ ap (λ (x : Bytes). x ++ (0 ∷ rest)) same
          ∙ ap (λ (x : Bytes). r.prefix ++ (0 ∷ x)) same_rest in
        let named' : 1 ≤ length prefix = elim (empty_or_pos prefix) [
          | inl empty ↦ ground (arith, empty, named)
          | inr some_bytes ↦ some_bytes
        ] in
        let measured : length body ≡ length (print_request r) = ap length shape in
        (
          (
            subst (λ (x : Bytes). Lacks 0 x) same clean,
            subst (λ (x : Bytes). 1 ≤ length x) same named',
            six,
            some_entries,
            few,
            omega (
              arith,
              measured,
              sized,
              six,
              length-append r.prefix (0 ∷ (r.header ++ tail)),
              length-append r.header tail,
            ),
          ),
          sym shape,
        )
  ]
]
