-- ===== src/Base/Result.antt =====
-- A Go call with an error result. An error is its gRPC code, or `plain` for an error without one.
use mathlib.Core.Path.{◌≡◌, refl}
use mathlib.Core.Logic.{◌⊎◌, inl, inr}
use mathlib.Core.Bool.{Bool, true, false}

pub data Code : Type 0 where
  plain canceled invalid_argument not_found already_exists permission_denied : Code
  resource_exhausted failed_precondition out_of_range unimplemented internal : Code
  unavailable unauthenticated : Code
  -- The fuel of a loop of the model ran out. No call of the program returns it.
  diverges : Code

pub data Result {κ} (T : Type κ) : Type κ where
  err : Code → Result T
  ok : T → Result T

infixl 5 ◌>>=◌ ◌>>◌
abbrev pub ◌>>=◌ {ℓ κ} : {A : Type ℓ} {B : Type κ} → Result A → (A → Result B) → Result B
err code >>= next = err code
ok value >>= next = next value

abbrev pub ◌>>◌ {κ} : {T : Type κ} → Result (Unit {0}) → Result T → Result T
first >> second = first >>= λ _. second

-- if !b { return err }
abbrev pub guard : Bool → Code → Result (Unit {0})
guard true c = ok tt
guard false c = err c

abbrev pub is_ok {κ} : {T : Type κ} → Result T → Bool
is_ok (ok t) = true
is_ok (err c) = false

pub >>=-eq-ok {ℓ κ} :
    {T : Type ℓ} {U : Type κ} (r : Result T) (next : T → Result U) {u : U}
    → (r >>= next) ≡ ok u
    → (t : T) × (r ≡ ok t) × (next t ≡ ok u)
>>=-eq-ok (err c) next done = cc
>>=-eq-ok (ok t) next done = (t, refl, done)

pub Result-cases {ℓ} :
    {A : Type ℓ} (r : Result A) → ((c : Code) × (r ≡ err c)) ⊎ ((a : A) × (r ≡ ok a))
Result-cases (ok a) = inr (a, refl)
Result-cases (err c) = inl (c, refl)

pub >>-eq-ok {ℓ} :
    {T : Type ℓ} (check : Result (Unit {0})) (r : Result T) {t : T}
    → (check >> r) ≡ ok t
    → (check ≡ ok tt) × (r ≡ ok t)
>>-eq-ok (err c) r done = cc
>>-eq-ok (ok _) r done = (refl, done)

pub guard-eq-ok : (b : Bool) (c : Code) → guard b c ≡ ok tt → b ≡ true
guard-eq-ok true c done = refl
guard-eq-ok false c done = cc

pub ok-inj {ℓ} : {T : Type ℓ} {a b : T} → ok a ≡ ok b → a ≡ b
ok-inj same = cc

-- The only error that the call can return.
abbrev pub OnlyError {κ} : {T : Type κ} → Code → Result T → Type κ
OnlyError c r = (e : Code) → r ≡ err e → e ≡ c

pub >>=-OnlyError {ℓ κ} :
    {T : Type ℓ} {U : Type κ} (c : Code) (r : Result T) (next : T → Result U)
    → OnlyError c r
    → ((t : T) → OnlyError c (next t))
    → OnlyError c (r >>= next)
>>=-OnlyError c (err d) next first rest e failed = first e (cc)
>>=-OnlyError c (ok t) next first rest e failed = rest t e failed

pub guard-OnlyError : (c : Code) (b : Bool) → OnlyError c (guard b c)
guard-OnlyError c true e failed = cc
guard-OnlyError c false e failed = cc
