-- ===== src/Amm/Decimal.antt =====
-- internal/amm/amm.go, ParseDecimalRational: the exact fraction that a decimal text denotes.
pub mod Reads
use aladdin_solver_engine.Prelude.{
  Bool, Result, Text, [], err, fail_if, false, if◌then◌else◌, invalid_decimal, is_digit, is_empty,
  length, ltb, neg_ℤ, none, not, ok, parse_int, pos, some, trim_space, true, ℕ, ℤ, ◌&&◌, ◌++◌, ◌==◌,
  ◌>>◌, ◌^◌, ◌||◌, ◌∷◌,
}

abbrev pub max_decimal_rational_length : ℕ
max_decimal_rational_length = 128

-- `strings.ContainsAny(value, "eE+")`.
unfoldable pub has_exponent : Text → Bool
has_exponent [] = false
has_exponent (c ∷ rest) = (c == b'e') || (c == b'E') || (c == b'+') || has_exponent rest

unfoldable pub all_digits : Text → Bool
all_digits [] = true
all_digits (c ∷ rest) = is_digit c && all_digits rest

-- `decimalDigitsOnly`.
abbrev pub decimal_digits_only : Text → Bool
decimal_digits_only value = not (is_empty value) && all_digits value

-- `strings.Cut(value, ".")`: what stands before the first point and after it; without a point all
-- stands before it.
unfoldable pub cut_point : Text → Text × Text
cut_point [] = ([], [])
cut_point (c ∷ rest) =
    let (before, after) = cut_point rest in if c == b'.' then ([], rest) else (c ∷ before, after)

-- `strings.HasPrefix(value, "-")` and `strings.TrimPrefix`.
abbrev pub has_minus : Text → Bool
has_minus [] = false
has_minus (c ∷ rest) = c == b'-'

abbrev pub without_minus : Text → Text
without_minus [] = []
without_minus (c ∷ rest) = if c == b'-' then rest else c ∷ rest

-- From the two parts of the text on.
unfoldable pub rational_of : Bool → Text → Text → Result (ℤ × ℤ)
rational_of minus integer fraction = do
  let integer_part = if is_empty integer then b'0' ∷ [] else integer
  fail_if
      (not (decimal_digits_only integer_part)
        || (not (is_empty fraction) && not (decimal_digits_only fraction)))
      invalid_decimal
  elim (parse_int (integer_part ++ fraction)) [
    | none ↦ err invalid_decimal
    | some numerator ↦ ok (if minus then neg_ℤ numerator else numerator, pos (10 ^ length fraction))
  ]

unfoldable pub parse_decimal_rational : Text → Result (ℤ × ℤ)
parse_decimal_rational raw =
    let value = trim_space raw in
    if is_empty value then ok (pos 0, pos 1) else (do
      fail_if (ltb max_decimal_rational_length (length value) || has_exponent value) invalid_decimal
      let unsigned = without_minus value
      let (integer, fraction) = cut_point unsigned
      rational_of (has_minus value) integer fraction)
