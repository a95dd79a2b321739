-- ===== src/Text/Prefix.antt =====
-- What the tests of the standard library for prefixes, suffixes and patterns say of a text.
use datum_connect.Base.{
  ap, ◌≡◌, inl, inr, Bool-cases, true, Option-cases, some, ◌∷◌, ◌++◌, [], arith, option_eq, nat_eq,
  text_eq, sym, ◌∙◌,
}
use mathlib.Core.List.{reverse, reverse-append, reverse-reverse}
use datum_connect.Text.{Text, contains, starts_with, ends_with, strip_prefix}

pub strip_prefix-append : (s p r : Text) → strip_prefix s p ≡ some r → s ≡ p ++ r
strip_prefix-append s [] r h = ground arith
strip_prefix-append [] (p ∷ ps) r h = ground arith
strip_prefix-append (c ∷ s) (p ∷ ps) r h = ground (arith, strip_prefix-append s ps r)

pub starts_with-append : (s p : Text) → starts_with s p ≡ true → (r : Text) × (s ≡ p ++ r)
starts_with-append s p h = elim (Option-cases (strip_prefix s p)) [
  | inl e ↦ ground arith
  | inr (r, e) ↦ (r, strip_prefix-append s p r e)
]

-- The pattern stands in the text.
abbrev pub Within : Text → Text → Type 0
Within pattern s = (before : Text) × (behind : Text) × (s ≡ before ++ (pattern ++ behind))

pub contains-Within : (s pattern : Text) → contains s pattern ≡ true → Within pattern s
unfolding contains
contains-Within [] pattern h = let (r, e) = starts_with-append [] pattern h in ([], r, e)
contains-Within (c ∷ s) pattern h = elim (Bool-cases (starts_with (c ∷ s) pattern)) [
  | inl e ↦ let (r, q) = starts_with-append (c ∷ s) pattern e in ([], r, q)
  | inr e ↦
      let (before, behind, q) = contains-Within s pattern (ground arith) in
      (c ∷ before, behind, ap (λ t. c ∷ t) q)
]

pub ends_with-append :
    (s suffix : Text) → ends_with s suffix ≡ true → (front : Text) × (s ≡ front ++ suffix)
ends_with-append s suffix h =
    let (r, e) = starts_with-append (reverse s) (reverse suffix) h in
    (
      reverse r,
      sym (reverse-reverse s)
          ∙ (ap reverse e
              ∙ (reverse-append (reverse suffix) r
                  ∙ ap (λ t. reverse r ++ t) (reverse-reverse suffix))),
    )
