-- ===== src/Text.antt =====
-- Rust's `str` and `String` as the list of their characters (code points), with the operations of
-- the standard library that the program calls.
pub mod Split
pub mod Prefix
pub mod Decimal
use Prim.Native.Char.{code}
use Prim.Native.String
use datum_connect.Base.{
  ℕ, zero, suc, ◌+◌, ◌-◌, ◌*◌, ◌/◌, ◌%◌, String, ◌≡◌, refl, Bool, true, false, not, ◌&&◌, ◌||◌,
  Option, none, some, List, [], ◌∷◌, ◌++◌, ltb, leb, any, length, ◌==◌, nat_eq, text_eq,
  if◌then◌else◌,
}
use mathlib.Core.List.{reverse}

abbrev pub Text : Type 0
Text = List ℕ

-- The characters of a literal.
abbrev pub codes : String → Text
codes String.[] = []
codes (String.◌∷◌ c s) = code c ∷ codes s

-- `s.strip_prefix(prefix)`
abbrev pub strip_prefix : Text → Text → Option Text
strip_prefix s [] = some s
strip_prefix [] (p ∷ ps) = none
strip_prefix (c ∷ s) (p ∷ ps) = if c == p then strip_prefix s ps else none

abbrev pub is_some {ℓ} : {A : Type ℓ} → Option A → Bool
is_some none = false
is_some (some a) = true

-- `s.starts_with(prefix)`
abbrev pub starts_with : Text → Text → Bool
starts_with s prefix = is_some (strip_prefix s prefix)

-- `s.ends_with(suffix)`
abbrev pub ends_with : Text → Text → Bool
ends_with s suffix = starts_with (reverse s) (reverse suffix)

-- `s.contains(pattern)` for a text as the pattern
unfoldable pub contains : Text → Text → Bool
contains [] pattern = starts_with [] pattern
contains (c ∷ s) pattern = starts_with (c ∷ s) pattern || contains s pattern

-- `s.contains(c)` for a character
abbrev pub contains_char : Text → ℕ → Bool
contains_char s c = any (λ x. x == c) s

-- `s.rsplit_once(c)`: round the last occurrence
unfoldable pub rsplit_once : Text → ℕ → Option (Text × Text)
rsplit_once [] c = none
rsplit_once (x ∷ s) c = elim (rsplit_once s c) [
  | some (before, behind) ↦ some (x ∷ before, behind)
  | none ↦ if x == c then some ([], s) else none
]

-- `s.split(c)`
unfoldable pub split : Text → ℕ → List Text
split [] c = [] ∷ []
split (x ∷ s) c = elim (split s c) [
  | [] ↦ []
  | part ∷ parts ↦ if x == c then [] ∷ part ∷ parts else (x ∷ part) ∷ parts
]

-- `s.split(c).next()`, the part before the first occurrence
unfoldable pub split_first : Text → ℕ → Text
split_first [] c = []
split_first (x ∷ s) c = if x == c then [] else x ∷ split_first s c

-- `s.trim_start_matches(c)`
unfoldable pub trim_start_matches : Text → ℕ → Text
trim_start_matches [] c = []
trim_start_matches (x ∷ s) c = if x == c then trim_start_matches s c else x ∷ s

-- `char::is_whitespace`, the property White_Space of Unicode
abbrev pub is_whitespace : ℕ → Bool
is_whitespace c =
    (leb 9 c && leb c 13)
    || c == 32
    || c == 0x85
    || c == 0xa0
    || c == 0x1680
    || (leb 0x2000 c && leb c 0x200a)
    || c == 0x2028
    || c == 0x2029
    || c == 0x202f
    || c == 0x205f
    || c == 0x3000

pub trim_start : Text → Text
trim_start [] = []
trim_start (c ∷ s) = if is_whitespace c then trim_start s else c ∷ s

-- `s.trim()`
unfoldable pub trim : Text → Text
unfolding trim_start
trim s = reverse (trim_start (reverse (trim_start s)))

abbrev pub is_digit : ℕ → Bool
is_digit c = leb b'0' c && leb c b'9'

-- The loop of `from_str_radix`: a product or sum above the type's maximum is an error.
pub parse_digits : ℕ → Text → ℕ → Option ℕ
parse_digits bound [] n = some n
parse_digits bound (c ∷ s) n =
    if is_digit c && leb (n * 10 + (c - b'0')) bound
    then parse_digits bound s (n * 10 + (c - b'0'))
    else none

parse_nonempty : ℕ → Text → Option ℕ
parse_nonempty bound [] = none
parse_nonempty bound (c ∷ s) = parse_digits bound (c ∷ s) 0

-- `s.parse::<uN>()`: a sign `+` may stand in front, and there is at least one digit.
unfoldable pub parse_uint : ℕ → Text → Option ℕ
unfolding parse_digits parse_nonempty
parse_uint bound [] = none
parse_uint bound (c ∷ s) =
    if c == b'+' then parse_nonempty bound s else parse_nonempty bound (c ∷ s)

-- The decimal print, as fuel the number of digits at most.
pub digits : ℕ → ℕ → Text → Text
digits zero n out = out
digits (suc fuel) n out =
    let rest = digits fuel (n / 10) ((b'0' + n % 10) ∷ out) in
    if ltb n 10 then (b'0' + n) ∷ out else rest

-- `n.to_string()` for numbers of at most 64 bits, which have 20 digits at most.
unfoldable pub print_uint : ℕ → Text
unfolding digits
print_uint n = digits 20 n []

print_uint-443 : print_uint 443 ≡ codes "443"
unfolding print_uint
print_uint-443 = refl

rsplit_once-last : rsplit_once (codes "::1:80") b':' ≡ some (codes "::1", codes "80")
unfolding rsplit_once nat_eq
rsplit_once-last = refl

trim-both : trim (codes "  a b\n") ≡ codes "a b"
unfolding trim nat_eq
trim-both = refl

parse_uint-overflow : parse_uint 65535 (codes "65536") ≡ none
unfolding parse_uint nat_eq
parse_uint-overflow = refl

parse_uint-sign : parse_uint 65535 (codes "+0080") ≡ some 80
unfolding parse_uint nat_eq
parse_uint-sign = refl

split-dots : split (codes "1.2.") b'.' ≡ codes "1" ∷ codes "2" ∷ [] ∷ []
unfolding split nat_eq
split-dots = refl
