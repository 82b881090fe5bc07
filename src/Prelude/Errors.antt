-- ===== src/Prelude/Errors.antt =====
-- A Go function that returns a value and an error returns a `Result`: the error is one of those
-- that the packages declare or build.
use mathlib.Core.Path.{◌≡◌, refl, ap}
use mathlib.Core.Bool.{Bool, true, false}
use mathlib.Core.Logic.{◌⊎◌, inl, inr}
use native.Mathlib.Omega.{arith}

pub data Error : Type 0 where
  unsupported_kind no_liquidity stable_no_converge : Error
  u256_overflow u256_underflow division_by_zero : Error
  bad_amount_in token_pair_not_in_pool token_not_in_pool needs_output_token : Error
  invalid_pool_fee invalid_concentrated_fee invalid_fee_pips : Error
  invalid_amount0_delta invalid_liquidity invalid_mul_div sqrt_price_overflow : Error
  tick_out_of_range sqrt_ratio_overflow step_overconsumed input_not_consumed : Error
  bad_token_index invalid_decimal : Error
  -- Of the documents and requests.
  unexpected_end unexpected_delimiter unterminated_object unterminated_array : Error
  key_not_string duplicate_key multiple_values : Error
  expected_object expected_array expected_string expected_boolean expected_number : Error
  expected_uint64 missing_field unknown_field unsupported_kind_value invalid_integer : Error
  invalid_auction_collection invalid_gas_price invalid_token duplicate_token : Error
  invalid_order duplicate_order invalid_liquidity_id duplicate_liquidity_id : Error
  empty_kind invalid_hex invalid_u256 invalid_deadline invalid_representation skipped : Error
  unsafe_path inventory_mismatch not_regular : Error
  -- Not errors of the source: a fault of an index, and a return of nil beside a nil error.
  index_out_of_range nil_without_error out_of_rounds empty_directory nil_file short_write
        stable_needs_output_token :
      Error

pub data Result {ℓ} (A : Type ℓ) : Type ℓ where
  err : Error → Result A
  ok : A → Result A

-- `if err != nil { return err }`, then what follows.
infixl 5 ◌>>=◌
abbrev pub ◌>>=◌ {κ ℓ} : {B : Type κ} {A : Type ℓ} → Result A → (A → Result B) → Result B
err problem >>= next = err problem
ok value >>= next = next value

-- The same after a call that only checks.
infixl 5 ◌>>◌
abbrev pub ◌>>◌ {ℓ} : {B : Type ℓ} → Result (Unit {0}) → Result B → Result B
check >> after = check >>= λ _. after

-- `if b { return e }`.
abbrev pub fail_if : Bool → Error → Result (Unit {0})
fail_if true e = err e
fail_if false e = ok tt

-- A call whose error the caller replaces by its own.
abbrev pub or_fail {ℓ} : {A : Type ℓ} → Result A → Error → Result A
or_fail (ok a) e = ok a
or_fail (err _) e = err e

module _ {ℓ κ} {A : Type ℓ} {B : Type κ} where
  -- A chain that succeeds has a first step that succeeds.
  pub >>=-eq-ok :
      (step : Result A) (next : A → Result B) {last : B}
      → (step >>= next) ≡ ok last
      → (value : A) × (step ≡ ok value) × (next value ≡ ok last)
  >>=-eq-ok (err problem) f h = cc
  >>=-eq-ok (ok value) f h = (value, refl, h)

module _ {ℓ} {B : Type ℓ} where
  pub fail_if-eq-ok :
      (b : Bool) (e : Error) (m : Result B) {r : B}
      → (fail_if b e >> m) ≡ ok r
      → (b ≡ false) × (m ≡ ok r)
  fail_if-eq-ok true e m h = cc
  fail_if-eq-ok false e m h = (refl, h)

  pub or_fail-eq-ok : (m : Result B) (e : Error) {r : B} → or_fail m e ≡ ok r → m ≡ ok r
  or_fail-eq-ok (ok a) e h = h
  or_fail-eq-ok (err _) e h = cc

  -- A call at the end of a chain, seen as a step of one.
  pub as_step : (m : Result B) {r : B} → m ≡ ok r → (m >>= ok) ≡ ok r
  as_step m h = rw h

module _ {ℓ κ} {A : Type ℓ} {B : Type κ} where
  -- A chain that fails fails at its first step or after it.
  pub >>=-eq-err :
      (m : Result A) (f : A → Result B) {e : Error}
      → (m >>= f) ≡ err e
      → (m ≡ err e) ⊎ ((a : A) × (m ≡ ok a) × (f a ≡ err e))
  >>=-eq-err (ok a) f h = inr (a, refl, h)
  >>=-eq-err (err e) f h = inl (ground arith)

  -- So an error that no step of a chain returns is not the chain's.
  pub >>=-avoids :
      (m : Result A) (f : A → Result B) (e : Error)
      → (m ≡ err e → ⊥)
      → ((a : A) → m ≡ ok a → f a ≡ err e → ⊥)
      → (m >>= f) ≡ err e
      → ⊥
  >>=-avoids (ok a) f e hm hf h = hf a refl h
  >>=-avoids (err e') f e hm hf h = hm (ground arith)

abbrev value_or {ℓ} : {A : Type ℓ} → A → Result A → A
value_or d (ok a) = a
value_or d (err e) = d

abbrev error_of {ℓ} : {A : Type ℓ} → Result A → Error
error_of (ok a) = no_liquidity
error_of (err e) = e

module _ {ℓ} {B : Type ℓ} where
  pub fail_if-eq-err :
      (b : Bool) (e : Error) (m : Result B) {e' : Error}
      → (fail_if b e >> m) ≡ err e'
      → (e ≡ e') ⊎ (m ≡ err e')
  fail_if-eq-err true e m h = inl (ground arith)
  fail_if-eq-err false e m h = inr h

  pub fail_if-avoids :
      (b : Bool) (e : Error) (m : Result B) (e' : Error)
      → (e ≡ e' → ⊥)
      → (m ≡ err e' → ⊥)
      → (fail_if b e >> m) ≡ err e'
      → ⊥
  fail_if-avoids true e m e' ne k h = ne (ground arith)
  fail_if-avoids false e m e' ne k h = k h

  pub err-injective : (e e' : Error) → ◌≡◌ {A = Result B} (err e) (err e') → e ≡ e'
  err-injective e e' h = ap error_of h

  pub ok-injective : (a b : B) → ◌≡◌ {A = Result B} (ok a) (ok b) → a ≡ b
  ok-injective a b h = ap (value_or a) h

pub Result-cases {ℓ} :
    {A : Type ℓ} (m : Result A) → ((e : Error) × (m ≡ err e)) ⊎ ((a : A) × (m ≡ ok a))
Result-cases (ok a) = inr (a, refl)
Result-cases (err e) = inl (e, refl)
