-- ===== src/Text/Decimal.antt =====
-- Decimal numbers: what is printed is read back, and what is read fits the type.
use native.Mathlib.Nat.{pow-suc}
use datum_connect.Base.{
  ℕ, zero, suc, ◌+◌, ◌-◌, ◌*◌, ◌/◌, ◌%◌, ◌^◌, ◌≤◌, ◌<◌, ◌≡◌, refl, ap, ◌∙◌, false, some, [], ◌∷◌,
  arith, ltb, ltb→lt, nat_eq, inl, inr, Bool-cases,
}
use datum_connect.Text.{Text, contains_char, is_digit, parse_digits, parse_uint, digits, print_uint}

-- A text that begins with a digit.
abbrev pub DigitFirst : Text → Type 0
DigitFirst [] = ⊥
DigitFirst (c ∷ s) = (b'0' ≤ c) × (c ≤ b'9')

digits-DigitFirst : (f n : ℕ) (out : Text) → DigitFirst out → DigitFirst (digits f n out)
unfolding digits
digits-DigitFirst zero n out h = h
digits-DigitFirst (suc f) n out h = elim (Bool-cases (ltb n 10)) [
  | inl e ↦ rw e (omega (arith, ltb→lt n 10 e))
  | inr e ↦ rw e (digits-DigitFirst f (n / 10) _ (omega arith))
]

pub print_uint-DigitFirst : (n : ℕ) → DigitFirst (print_uint n)
unfolding print_uint
print_uint-DigitFirst n = elim (Bool-cases (ltb n 10)) [
  | inl e ↦ rw e (ground arith)
  | inr e ↦ rw e (digits-DigitFirst 19 (n / 10) _ (omega arith))
]

contains_char-digits :
    (c f n : ℕ) (out : Text)
    → is_digit c ≡ false
    → contains_char (digits f n out) c ≡ contains_char out c
unfolding digits
contains_char-digits c zero n out h = refl
contains_char-digits c (suc f) n out h = elim (Bool-cases (ltb n 10)) [
  | inl e ↦ rw e (ground arith)
  | inr e ↦ rw e (contains_char-digits c f (n / 10) _ h ∙ ground arith)
]

pub contains_char-print_uint :
    (c n : ℕ) → is_digit c ≡ false → contains_char (print_uint n) c ≡ false
unfolding print_uint
contains_char-print_uint c n h = contains_char-digits c 20 n [] h

-- One digit is read.
parse_digits_step :
    (bound n m : ℕ) (out : Text)
    → n ≤ bound
    → m * 10 + n % 10 ≡ n
    → parse_digits bound ((b'0' + n % 10) ∷ out) m ≡ parse_digits bound out n
unfolding parse_digits
parse_digits_step bound n m out h e = ground arith

parse_digits-digits :
    (bound f n : ℕ) (out : Text)
    → n ≤ bound
    → n < 10 ^ f
    → parse_digits bound (digits f n out) 0 ≡ parse_digits bound out n
unfolding digits
parse_digits-digits bound zero n out h lt = ap (parse_digits bound out) (omega arith)
parse_digits-digits bound (suc f) n out h lt = elim (Bool-cases (ltb n 10)) [
  | inl e ↦ rw e (
      ap (λ d. parse_digits bound ((b'0' + d) ∷ out) 0) (omega (arith, ltb→lt n 10 e))
      ∙ parse_digits_step bound n 0 out h (omega (arith, ltb→lt n 10 e)))
  | inr e ↦ rw e (
      parse_digits-digits bound f (n / 10) _ (omega arith) (omega (arith, pow-suc 10 f))
      ∙ parse_digits_step bound n (n / 10) out h (omega arith))
]

parse_uint_first :
    (bound : ℕ) (s : Text) → DigitFirst s → parse_uint bound s ≡ parse_digits bound s 0
unfolding parse_uint
parse_uint_first bound [] h = absurd h
parse_uint_first bound (c ∷ s) h = ground arith

-- A number that fits the type is read back from its print.
pub parse_uint-print_uint :
    (bound n : ℕ) → n ≤ bound → n < 10 ^ 20 → parse_uint bound (print_uint n) ≡ some n
unfolding print_uint parse_digits
parse_uint-print_uint bound n h lt =
    parse_uint_first bound _ (print_uint-DigitFirst n) ∙ parse_digits-digits bound 20 n [] h lt

parse_digits-le :
    (bound n : ℕ) (s : Text) (r : ℕ) → n ≤ bound → parse_digits bound s n ≡ some r → r ≤ bound
unfolding parse_digits
parse_digits-le bound n [] r h e = ground arith
parse_digits-le bound n (c ∷ s) r h e =
    ground (arith, parse_digits-le bound (n * 10 + (c - b'0')) s r)

-- What is read fits the type.
pub parse_uint-le : (bound : ℕ) (s : Text) (r : ℕ) → parse_uint bound s ≡ some r → r ≤ bound
unfolding parse_uint
parse_uint-le bound [] r e = cc
parse_uint-le bound (c ∷ []) r e = ground (arith, parse_digits-le bound 0 (c ∷ []) r)
parse_uint-le bound (c ∷ d ∷ s) r e =
    ground (arith, parse_digits-le bound 0 (c ∷ d ∷ s) r, parse_digits-le bound 0 (d ∷ s) r)
