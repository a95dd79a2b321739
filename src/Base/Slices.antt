-- ===== src/Base/Slices.antt =====
-- `skip` and `take` of lists.
use datum_connect.Base.{
  ℕ, zero, suc, ◌+◌, ◌-◌, ◌≤◌, ◌≡◌, refl, sym, ap, ◌∙◌, Bool, List, [], ◌∷◌, ◌++◌, arith, option_eq,
  nat_eq, text_eq, length, keep, skip, take,
}

zero_add : (n : ℕ) → n ≡ 0 + n
zero_add n = omega arith

suc_add : (n m : ℕ) → suc (n + m) ≡ suc n + m
suc_add n m = omega arith

module _ {ℓ} {A : Type ℓ} where
  take-nil : (n : ℕ) → take {A = A} n [] ≡ []
  take-nil zero = refl
  take-nil (suc n) = refl

  skip-nil : (n : ℕ) → skip {A = A} n [] ≡ []
  skip-nil zero = refl
  skip-nil (suc n) = refl

  pub take_add : (n m : ℕ) (xs : List A) → take n xs ++ take m (skip n xs) ≡ take (n + m) xs
  take_add zero m xs = ap (λ k. take k xs) (zero_add m)
  take_add (suc n) m [] = take-nil m ∙ sym (take-nil (suc n + m))
  take_add (suc n) m (x ∷ xs) =
      ap (λ l. x ∷ l) (take_add n m xs) ∙ ap (λ k. take k (x ∷ xs)) (suc_add n m)

  pub skip_add : (o n : ℕ) (xs : List A) → skip n (skip o xs) ≡ skip (o + n) xs
  skip_add zero n xs = ap (λ k. skip k xs) (zero_add n)
  skip_add (suc o) n [] = skip-nil n ∙ sym (skip-nil (suc o + n))
  skip_add (suc o) n (x ∷ xs) = skip_add o n xs ∙ ap (λ k. skip k (x ∷ xs)) (suc_add o n)

  pub take-all : (n : ℕ) (xs : List A) → length xs ≤ n → take n xs ≡ xs
  take-all n [] h = take-nil n
  take-all zero (x ∷ xs) h = absurd (omega arith)
  take-all (suc n) (x ∷ xs) h = ap (λ l. x ∷ l) (take-all n xs (omega arith))

pub length-keep {ℓ} :
    {A : Type ℓ} (test : A → Bool) (xs : List A) → length (keep test xs) ≤ length xs
length-keep test [] = omega arith
length-keep test (x ∷ xs) = ground (arith, length-keep test xs)

module _ {ℓ} {A : Type ℓ} where
  pub length-skip : (n : ℕ) (xs : List A) → length (skip n xs) ≡ length xs - n
  length-skip zero xs = omega arith
  length-skip (suc n) [] = omega arith
  length-skip (suc n) (x ∷ xs) = omega (arith, length-skip n xs)

  pub length-take : (n : ℕ) (xs : List A) → length (take n xs) ≤ n
  length-take zero xs = omega arith
  length-take (suc n) [] = omega arith
  length-take (suc n) (x ∷ xs) = omega (arith, length-take n xs)

  pub skip-append : (n : ℕ) (xs ys : List A) → n ≤ length xs → skip n (xs ++ ys) ≡ skip n xs ++ ys
  skip-append zero xs ys h = refl
  skip-append (suc n) [] ys h = absurd (omega arith)
  skip-append (suc n) (x ∷ xs) ys h = skip-append n xs ys (omega arith)
