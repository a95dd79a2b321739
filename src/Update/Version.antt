-- ===== src/Update/Version.antt =====
-- The order of versions that `is_newer_version` decides.
use datum_connect.Base.{
  ℕ, ◌≤◌, ◌<◌, ◌≡◌, refl, ap, ◌∙◌, ◌↔◌, ◌⊎◌, inl, inr, true, false, some, List, [], ◌∷◌, ◌++◌,
  arith, ◌==◌, option_eq, nat_eq, text_eq, Bool-cases, u32_max,
}
use datum_connect.Text.{Text, contains_char, split, split_first, print_uint}
use datum_connect.Text.Split.{contains_char-append}
use datum_connect.Text.Decimal.{contains_char-print_uint, parse_uint-print_uint}
use datum_connect.Update.{VersionParts, number, is_newer, is_newer_version, parse_semantic_version}

-- The first version is the greater one: the first component that differs is greater.
abbrev pub Newer : VersionParts → VersionParts → Type 0
Newer v w =
    (w.major < v.major)
    ⊎ ((v.major ≡ w.major) × ((w.minor < v.minor) ⊎ ((v.minor ≡ w.minor) × (w.patch < v.patch))))

pub is_newer_iff : (v w : VersionParts) → (is_newer v w ≡ true) ↔ Newer v w
is_newer_iff v w = (λ h. ground arith, λ h. ground arith)

-- Each component fits the type.
abbrev pub Fits : VersionParts → Type 0
Fits v = (v.major ≤ u32_max) × (v.minor ≤ u32_max) × (v.patch ≤ u32_max)

-- `major.minor.patch`
abbrev pub printed : VersionParts → Text
printed v = print_uint v.major ++ b'.' ∷ (print_uint v.minor ++ b'.' ∷ print_uint v.patch)

-- A suffix: nothing, or metadata behind a hyphen.
abbrev pub IsSuffix : Text → Type 0
IsSuffix [] = Unit
IsSuffix (c ∷ s) = c ≡ b'-'

split_lem : (s : Text) (c : ℕ) → contains_char s c ≡ false → split s c ≡ s ∷ []
unfolding split
split_lem [] c h = refl
split_lem (x ∷ s) c h = ground (arith, split_lem s c)

split_nonempty :
    (s : Text) (c : ℕ) → (part : Text) × (parts : List Text) × (split s c ≡ part ∷ parts)
unfolding split
split_nonempty [] c = ([], [], refl)
split_nonempty (x ∷ s) c = go (split_nonempty s c)
  where
    go :
        ((part : Text) × (parts : List Text) × (split s c ≡ part ∷ parts))
        → (part : Text) × (parts : List Text) × (split (x ∷ s) c ≡ part ∷ parts)
    go (part, parts, e) = elim (Bool-cases (x == c)) [
      | inl h ↦ ([], part ∷ parts, rw (e, h) refl)
      | inr h ↦ (x ∷ part, parts, rw (e, h) refl)
    ]

split-append :
    (s : Text) (c : ℕ) (t : Text) → contains_char s c ≡ false → split (s ++ c ∷ t) c ≡ s ∷ split t c
unfolding split
split-append [] c t h = go (split_nonempty t c)
  where
    go :
        ((part : Text) × (parts : List Text) × (split t c ≡ part ∷ parts))
        → split (c ∷ t) c ≡ [] ∷ split t c
    go (part, parts, e) = ground arith
split-append (x ∷ s) c t h = ground (arith, split-append s c t)

no_digit :
    (n : ℕ)
    → (contains_char (print_uint n) b'.' ≡ false) × (contains_char (print_uint n) b'-' ≡ false)
no_digit n = (contains_char-print_uint b'.' n refl, contains_char-print_uint b'-' n refl)

printed_no_hyphen : (v : VersionParts) → contains_char (printed v) b'-' ≡ false
printed_no_hyphen v =
    grind (arith, contains_char-append, no_digit v.major, no_digit v.minor, no_digit v.patch)

split_first-suffix :
    (s suffix : Text)
    → contains_char s b'-' ≡ false
    → IsSuffix suffix
    → split_first (s ++ suffix) b'-' ≡ s
unfolding split_first
split_first-suffix [] [] h i = refl
split_first-suffix [] (c ∷ suffix) h i = ground arith
split_first-suffix (x ∷ s) suffix h i = ground (arith, split_first-suffix s suffix)

split-printed :
    (v : VersionParts)
    → split (printed v) b'.' ≡ print_uint v.major ∷ print_uint v.minor ∷ print_uint v.patch ∷ []
split-printed v =
    split-append (print_uint v.major) b'.' (print_uint v.minor ++ b'.' ∷ print_uint v.patch)
      (no_digit v.major).0
    ∙ ap (λ parts. print_uint v.major ∷ parts)
        (split-append (print_uint v.minor) b'.' (print_uint v.patch) (no_digit v.minor).0
          ∙ ap (λ parts. print_uint v.minor ∷ parts)
              (split_lem (print_uint v.patch) b'.' (no_digit v.patch).0))

number-print_uint : (n : ℕ) → n ≤ u32_max → number (some (print_uint n)) ≡ n
number-print_uint n h = ground (arith, parse_uint-print_uint u32_max n)

-- What is printed is read back, whatever metadata follows.
pub parse_semantic_version-printed :
    (v : VersionParts) (suffix : Text)
    → Fits v
    → IsSuffix suffix
    → parse_semantic_version (printed v ++ suffix) ≡ v
unfolding parse_semantic_version
parse_semantic_version-printed v suffix f s =
    rw (split_first-suffix (printed v) suffix (printed_no_hyphen v) s, split-printed v)
      (rw
        (
          number-print_uint v.major f.0,
          number-print_uint v.minor f.1,
          number-print_uint v.patch f.2,
        )
        refl)

-- Of two versions `major.minor.patch`, each with or without metadata behind a hyphen, the first is newer
-- exactly if it is the greater triple; the metadata does not count.
pub is_newer_version_iff :
    (v w : VersionParts) (a b : Text)
    → Fits v
    → Fits w
    → IsSuffix a
    → IsSuffix b
    → (is_newer_version (printed v ++ a) (printed w ++ b) ≡ true) ↔ Newer v w
unfolding is_newer_version
is_newer_version_iff v w a b fv fw sa sb =
    rw (parse_semantic_version-printed v a fv sa, parse_semantic_version-printed w b fw sb)
      (is_newer_iff v w)

pub is_newer_version_irrefl : (a : Text) → is_newer_version a a ≡ false
unfolding is_newer_version
is_newer_version_irrefl a = ground arith
