-- ===== src/Text/Split.antt =====
-- What the searches and splits of a text return.
use datum_connect.Base.{
  ℕ, ◌≡◌, refl, false, ◌||◌, none, some, [], ◌∷◌, ◌++◌, arith, nat_eq, inl, inr, Option-cases,
}
use datum_connect.Text.{Text, contains_char, rsplit_once, split_first, strip_prefix}

-- Without the separator there is nothing to split.
pub rsplit_once-eq-none : (s : Text) (c : ℕ) → contains_char s c ≡ false → rsplit_once s c ≡ none
unfolding rsplit_once
rsplit_once-eq-none [] c h = refl
rsplit_once-eq-none (x ∷ s) c h = ground (arith, rsplit_once-eq-none s c)

-- The split is at the last separator.
pub rsplit_once-append :
    (before : Text) (c : ℕ) (behind : Text)
    → contains_char behind c ≡ false
    → rsplit_once (before ++ c ∷ behind) c ≡ some (before, behind)
unfolding rsplit_once
rsplit_once-append [] c behind h = ground (arith, rsplit_once-eq-none behind c h)
rsplit_once-append (x ∷ before) c behind h = ground (arith, rsplit_once-append before c behind h)

-- No text without the separator is split.
pub contains_char_of_none : (s : Text) (c : ℕ) → rsplit_once s c ≡ none → contains_char s c ≡ false
unfolding rsplit_once
contains_char_of_none [] c h = refl
contains_char_of_none (x ∷ s) c h = ground (arith, contains_char_of_none s c)

pub rsplit_once_sound :
    (s : Text) (c : ℕ) (before behind : Text)
    → rsplit_once s c ≡ some (before, behind)
    → (s ≡ before ++ c ∷ behind) × (contains_char behind c ≡ false)
unfolding rsplit_once
rsplit_once_sound [] c before behind h = cc
rsplit_once_sound (x ∷ s) c before behind h = elim (Option-cases (rsplit_once s c)) [
  | inl e ↦ ground (arith, contains_char_of_none s c)
  | inr ((a, b), e) ↦ ground (arith, rsplit_once_sound s c a b e)
]

pub split_first-append :
    (part : Text) (c : ℕ) (rest : Text)
    → contains_char part c ≡ false
    → split_first (part ++ c ∷ rest) c ≡ part
unfolding split_first
split_first-append [] c rest h = ground arith
split_first-append (x ∷ part) c rest h = ground (arith, split_first-append part c rest)

pub split_first_lem : (s : Text) (c : ℕ) → contains_char s c ≡ false → split_first s c ≡ s
unfolding split_first
split_first_lem [] c h = refl
split_first_lem (x ∷ s) c h = ground (arith, split_first_lem s c)

pub contains_char-append :
    (s t : Text) (c : ℕ) → contains_char (s ++ t) c ≡ (contains_char s c || contains_char t c)
contains_char-append [] t c = refl
contains_char-append (x ∷ s) t c = ground (arith, contains_char-append s t c)

pub strip_prefix-append : (p s : Text) → strip_prefix (p ++ s) p ≡ some s
strip_prefix-append [] s = refl
strip_prefix-append (c ∷ p) s = ground (arith, strip_prefix-append p s)

-- A prefix is stripped only where it stands.
pub strip_prefix_sound : (s p t : Text) → strip_prefix s p ≡ some t → s ≡ p ++ t
strip_prefix_sound s [] t h = ground arith
strip_prefix_sound [] (p ∷ ps) t h = cc
strip_prefix_sound (c ∷ s) (p ∷ ps) t h = ground (arith, strip_prefix_sound s ps t)
