-- ===== src/Prelude/Decimal.antt =====
-- Decimal notation of a `*big.Int`: `SetString(s, 10)` and `String()`.
use Prim.Native.Nat.{ℕ, zero, suc, ◌+◌, ◌-◌, ◌*◌, ◌/◌, ◌%◌, ◌<◌}
use mathlib.Core.Path.{◌≡◌, ap, ◌∙◌}
use mathlib.Core.Logic.{inl, inr}
use mathlib.Core.Bool.{Bool, true, false, ◌&&◌}
use mathlib.Core.List.{[], ◌∷◌}
use mathlib.Core.Option.{Option, none, some, map}
use native.Mathlib.Omega.{arith}
use aladdin_solver_engine.Prelude.Tests.{Bool-cases, if◌then◌else◌, leb, ◌==◌}
use aladdin_solver_engine.Prelude.Int.{neg_ℤ, negsuc, pos, ℤ}
use aladdin_solver_engine.Prelude.Strings.{Text}

abbrev pub is_digit : ℕ → Bool
is_digit c = leb b'0' c && leb c b'9'

-- The digits of a text, after a number read so far.
unfoldable pub parse_digits : Text → ℕ → Option ℕ
parse_digits [] n = some n
parse_digits (c ∷ rest) n = elim (is_digit c) [
  | false ↦ none
  | true ↦ parse_digits rest (n * 10 + (c - b'0'))
]

-- At least one digit.
abbrev pub parse_nat : Text → Option ℕ
parse_nat [] = none
parse_nat (c ∷ rest) = parse_digits (c ∷ rest) 0

-- `new(big.Int).SetString(s, 10)`: a sign at most, then digits.
unfoldable pub parse_int : Text → Option ℤ
parse_int [] = none
parse_int (c ∷ rest) =
    if c == b'-'
    then map (λ n. neg_ℤ (pos n)) (parse_nat rest)
    else if c == b'+'
    then map pos (parse_nat rest)
    else map pos (parse_nat (c ∷ rest))

-- The digits of a number before those there are; it has as many rounds as fuel.
unfoldable pub digits : ℕ → ℕ → Text → Text
digits zero n acc = acc
digits (suc fuel) n acc =
    let acc' = (n % 10 + b'0') ∷ acc in
    elim (n / 10 == 0) [ true ↦ acc' | false ↦ digits fuel (n / 10) acc' ]

abbrev pub show_nat : ℕ → Text
show_nat n = digits (suc n) n []

-- `String()`.
unfoldable pub show_int : ℤ → Text
show_int (pos n) = show_nat n
show_int (negsuc n) = b'-' ∷ show_nat (n + 1)

parse_digit-step :
    (n : ℕ) (acc : Text) (k : ℕ)
    → parse_digits ((n % 10 + b'0') ∷ acc) k ≡ parse_digits acc (k * 10 + n % 10)
unfolding parse_digits
parse_digit-step n acc k =
    let d : is_digit (n % 10 + b'0') ≡ true = ground arith in
    let e : n % 10 + b'0' - b'0' ≡ n % 10 = omega arith in ground (arith, d, e)

pub parse_digits-digits :
    (fuel n : ℕ) (acc : Text) → n < fuel → parse_digits (digits fuel n acc) 0 ≡ parse_digits acc n
unfolding digits
parse_digits-digits zero n acc h = absurd (omega arith)
parse_digits-digits (suc fuel) n acc h = elim (Bool-cases (n / 10 == 0)) [
  | inl z ↦
      let e : 0 * 10 + n % 10 ≡ n = ground arith in
      rw (digits, z) (parse_digit-step n acc 0 ∙ ap (parse_digits acc) e)
  | inr z ↦
      let e : n / 10 * 10 + n % 10 ≡ n = omega arith in
      rw (digits, z)
        (parse_digits-digits fuel (n / 10) ((n % 10 + b'0') ∷ acc) (ground arith)
          ∙ parse_digit-step n acc (n / 10)
          ∙ ap (parse_digits acc) e)
]
