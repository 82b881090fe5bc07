-- ===== src/Amm/Decimal/Reads.antt =====
-- internal/amm/amm.go, ParseDecimalRational: the fraction is the one that the text denotes.
use native.Mathlib.Omega.{pow_step}
use aladdin_solver_engine.Prelude.{
  Bool, Text, [], ap, arith, false, if◌then◌else◌, is_digit, is_empty, length, ltb, neg_ℤ, not, ok,
  parse_digits, parse_int, pos, refl, some, trim_left, trim_right, trim_space, true, ℕ, ◌&&◌, ◌*◌,
  ◌++◌, ◌+◌, ◌-◌, ◌==◌, ◌^◌, ◌||◌, ◌∙◌, ◌∷◌, ◌≡◌, ◌≤◌,
}
use aladdin_solver_engine.Amm.Decimal.{
  all_digits, cut_point, decimal_digits_only, has_exponent, has_minus, parse_decimal_rational,
  rational_of, without_minus,
}

-- The number that digits denote, after one read so far.
abbrev pub reads : Text → ℕ → ℕ
reads [] n = n
reads (c ∷ rest) n = reads rest (n * 10 + (c - b'0'))

carry : (n d p low r : ℕ) → r ≡ (0 + d) * p + low → (n * 10 + d) * p + low ≡ n * (10 * p) + r
carry n d p low r h = omega (arith, h)

reads-shift : (s : Text) (n : ℕ) → reads s n ≡ n * 10 ^ length s + reads s 0
reads-shift [] n = omega arith
reads-shift (c ∷ s) n =
    let step = pow_step 10 (length s) in
    rw step (
      reads-shift s (n * 10 + (c - b'0'))
      ∙ carry n (c - b'0') (10 ^ length s) (reads s 0) (reads s (0 + (c - b'0')))
          (reads-shift s (0 + (c - b'0'))))

reads-append : (s t : Text) (n : ℕ) → reads (s ++ t) n ≡ reads t (reads s n)
reads-append [] t n = refl
reads-append (c ∷ s) t n = reads-append s t (n * 10 + (c - b'0'))

parse_digits-reads : (s : Text) (n : ℕ) → all_digits s ≡ true → parse_digits s n ≡ some (reads s n)
unfolding parse_digits all_digits
parse_digits-reads [] n h = refl
parse_digits-reads (c ∷ s) n h = ground (arith, parse_digits-reads s (n * 10 + (c - b'0')))

all_digits-append :
    (s t : Text) → all_digits s ≡ true → all_digits t ≡ true → all_digits (s ++ t) ≡ true
unfolding all_digits
all_digits-append [] t h k = k
all_digits-append (c ∷ s) t h k = ground (arith, all_digits-append s t)

cut_point-digits : (s t : Text) → all_digits s ≡ true → cut_point (s ++ (b'.' ∷ t)) ≡ (s, t)
unfolding cut_point all_digits
cut_point-digits [] t h = refl
cut_point-digits (c ∷ s) t h =
    let digit : is_digit c ≡ true = ground arith in
    let rest : all_digits s ≡ true = ground arith in
    let other : (c == b'.') ≡ false = ground arith in rw (other, cut_point-digits s t rest) refl

-- The characters of such a text: none is white space or part of an exponent.
abbrev plain : Text → Bool
plain [] = true
plain (c ∷ s) = (is_digit c || (c == b'.') || (c == b'-')) && plain s

plain-digits : (s t : Text) → all_digits s ≡ true → plain t ≡ true → plain (s ++ t) ≡ true
unfolding all_digits
plain-digits [] t h k = k
plain-digits (c ∷ s) t h k = ground (arith, plain-digits s t)

plain-all : (s : Text) → all_digits s ≡ true → plain s ≡ true
unfolding all_digits
plain-all [] h = refl
plain-all (c ∷ s) h = ground (arith, plain-all s)

has_exponent-plain : (s : Text) → plain s ≡ true → has_exponent s ≡ false
unfolding has_exponent
has_exponent-plain [] h = refl
has_exponent-plain (c ∷ s) h = ground (arith, has_exponent-plain s)

trim_left-plain : (s : Text) → plain s ≡ true → trim_left s ≡ s
unfolding trim_left
trim_left-plain [] h = refl
trim_left-plain (c ∷ s) h = ground arith

trim_right-plain : (s : Text) → plain s ≡ true → trim_right s ≡ s
unfolding trim_right
trim_right-plain [] h = refl
trim_right-plain (c ∷ s) h = ground (arith, trim_right-plain s)

-- A plain text is neither trimmed nor refused: its two parts are read.
parse_plain :
    (value : Text)
    → plain value ≡ true
    → is_empty value ≡ false
    → length value ≤ 128
    → parse_decimal_rational value
      ≡ rational_of
          (has_minus value)
          (cut_point (without_minus value)).0
          (cut_point (without_minus value)).1
unfolding parse_decimal_rational trim_space
parse_plain value p ne small =
    let trimmed : trim_right (trim_left value) ≡ value =
      ap trim_right (trim_left-plain value p) ∙ trim_right-plain value p in
    let short : ltb 128 (length value) ≡ false = ground arith in
    rw (trimmed, ne, short, has_exponent-plain value p) refl

first_digit : (c : ℕ) (rest : Text) → all_digits (c ∷ rest) ≡ true → is_digit c ≡ true
unfolding all_digits
first_digit c rest h = ground arith

parse_int-digits :
    (c : ℕ) (rest : Text)
    → all_digits (c ∷ rest) ≡ true
    → parse_int (c ∷ rest) ≡ some (pos (reads (c ∷ rest) 0))
unfolding parse_int
parse_int-digits c rest h =
    let digit = first_digit c rest h in
    let no_minus : (c == b'-') ≡ false = ground arith in
    let no_plus : (c == b'+') ≡ false = ground arith in
    rw (parse_int, no_minus, no_plus, parse_digits-reads (c ∷ rest) 0 h) refl

fraction-ok :
    (f : Text) → all_digits f ≡ true → (not (is_empty f) && not (decimal_digits_only f)) ≡ false
fraction-ok [] h = refl
fraction-ok (c ∷ f) h = rw h refl

rational_of-reads :
    (minus : Bool) (c : ℕ) (integer fraction : Text)
    → all_digits (c ∷ integer) ≡ true
    → all_digits fraction ≡ true
    → rational_of minus (c ∷ integer) fraction
      ≡ ok (
        if minus
            then neg_ℤ (pos (reads (c ∷ integer) 0 * 10 ^ length fraction + reads fraction 0))
            else pos (reads (c ∷ integer) 0 * 10 ^ length fraction + reads fraction 0),
        pos (10 ^ length fraction),
      )
unfolding rational_of
rational_of-reads minus c integer fraction h k =
    let both =
      parse_int-digits c (integer ++ fraction) (all_digits-append (c ∷ integer) fraction h k) in
    let value : reads (c ∷ (integer ++ fraction)) 0
        ≡ reads (c ∷ integer) 0 * 10 ^ length fraction + reads fraction 0 =
      reads-append (c ∷ integer) fraction 0 ∙ reads-shift fraction (reads (c ∷ integer) 0) in
    rw (h, fraction-ok fraction k, both, value) refl

-- A text of digits, a point and digits, with a minus or without.
abbrev pub decimal_text : Bool → Text → Text → Text
decimal_text minus integer fraction =
    if minus then b'-' ∷ (integer ++ (b'.' ∷ fraction)) else integer ++ (b'.' ∷ fraction)

-- Such a text is read as its exact value: the numerator holds all its digits, the denominator is the
-- power of ten of the digits after the point, and the sign is kept. There is a digit before the
-- point, and the text has at most 128 characters.
pub parse_decimal_rational-reads :
    (minus : Bool) (c : ℕ) (integer fraction : Text)
    → all_digits (c ∷ integer) ≡ true
    → all_digits fraction ≡ true
    → length (decimal_text minus (c ∷ integer) fraction) ≤ 128
    → parse_decimal_rational (decimal_text minus (c ∷ integer) fraction)
      ≡ ok (
        if minus
            then neg_ℤ (pos (reads (c ∷ integer) 0 * 10 ^ length fraction + reads fraction 0))
            else pos (reads (c ∷ integer) 0 * 10 ^ length fraction + reads fraction 0),
        pos (10 ^ length fraction),
      )
parse_decimal_rational-reads true c integer fraction h k small =
    let tail_plain : plain (b'.' ∷ fraction) ≡ true = ground (arith, plain-all fraction k) in
    let p : plain (decimal_text true (c ∷ integer) fraction) ≡ true =
      plain-digits (c ∷ integer) (b'.' ∷ fraction) h tail_plain in
    parse_plain (decimal_text true (c ∷ integer) fraction) p refl small
    ∙ rw (cut_point-digits (c ∷ integer) fraction h) (rational_of-reads true c integer fraction h k)
parse_decimal_rational-reads false c integer fraction h k small =
    let tail_plain : plain (b'.' ∷ fraction) ≡ true = ground (arith, plain-all fraction k) in
    let p : plain (decimal_text false (c ∷ integer) fraction) ≡ true =
      plain-digits (c ∷ integer) (b'.' ∷ fraction) h tail_plain in
    parse_plain (decimal_text false (c ∷ integer) fraction) p refl small
    ∙ (let digit = first_digit c integer h in
        let no_minus : (c == b'-') ≡ false = ground arith in
        rw (no_minus, cut_point-digits (c ∷ integer) fraction h)
          (rational_of-reads false c integer fraction h k))
