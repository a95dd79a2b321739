-- ===== src/Tickets/Order.antt =====
-- `Ord` of `String`: texts by their first difference.
use datum_connect.Base.{
  ◌≡◌, refl, Bool, true, false, [], ◌∷◌, arith, if◌then◌else◌, ◌==◌, option_eq, nat_eq, text_eq,
  ltb,
}
use datum_connect.Text.{Text}

unfoldable pub lt_text : Text → Text → Bool
lt_text [] [] = false
lt_text [] (y ∷ ys) = true
lt_text (x ∷ xs) [] = false
lt_text (x ∷ xs) (y ∷ ys) = let rest = lt_text xs ys in if x == y then rest else ltb x y

pub lt_text_irrefl : (s : Text) → lt_text s s ≡ false
unfolding lt_text
lt_text_irrefl [] = refl
lt_text_irrefl (x ∷ xs) = ground (arith, lt_text_irrefl xs)

pub lt_text_trans : (s t u : Text) → lt_text s t ≡ true → lt_text t u ≡ true → lt_text s u ≡ true
unfolding lt_text
lt_text_trans [] [] u h k = ground arith
lt_text_trans [] (y ∷ t) [] h k = ground arith
lt_text_trans [] (y ∷ t) (z ∷ u) h k = refl
lt_text_trans (x ∷ s) [] u h k = ground arith
lt_text_trans (x ∷ s) (y ∷ t) [] h k = ground arith
lt_text_trans (x ∷ s) (y ∷ t) (z ∷ u) h k = ground (arith, lt_text_trans s t u)

pub lt_text_total : (s t : Text) → lt_text s t ≡ false → lt_text t s ≡ false → s ≡ t
unfolding lt_text
lt_text_total [] [] h k = refl
lt_text_total [] (y ∷ t) h k = ground arith
lt_text_total (x ∷ s) [] h k = ground arith
lt_text_total (x ∷ s) (y ∷ t) h k = ground (arith, lt_text_total s t)
