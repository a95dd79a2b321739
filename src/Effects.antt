-- ===== src/Effects.antt =====
-- Code that reads and changes a world and may fail: what async functions of the crates return, run
-- to their end. A failure keeps the changes made before it.
use datum_connect.Base.{◌≡◌, refl, ◌∙◌, option_eq, nat_eq, text_eq, Result, ok, err}

abbrev pub Effect {ℓ} : Type 0 → Type ℓ → Type ℓ
Effect W A = W → W × Result A

module _ {W : Type 0} where
  abbrev pub continue {ℓ κ} :
      {A : Type ℓ} {B : Type κ} → W → Result A → (A → Effect W B) → W × Result B
  continue w (err e) k = (w, err e)
  continue w (ok a) k = k a w

  infixl 5 ◌>>=◌ ◌>>◌
  -- `m?` and the rest
  abbrev pub ◌>>=◌ {ℓ κ} : {A : Type ℓ} {B : Type κ} → Effect W A → (A → Effect W B) → Effect W B
  ◌>>=◌ m k w = let (w', r) = m w in continue w' r k

  abbrev pub ◌>>◌ {ℓ κ} : {A : Type ℓ} {B : Type κ} → Effect W A → Effect W B → Effect W B
  m >> k = m >>= λ _. k

  -- A result, without an effect.
  abbrev pub pure {ℓ} : {A : Type ℓ} → Result A → Effect W A
  pure r w = (w, r)

  -- What `view` shows of the world is left as it is.
  abbrev pub Keeps {ℓ κ} : {A : Type ℓ} {X : Type κ} → (W → X) → Effect W A → Type κ
  Keeps view m = (w : W) → view (m w).0 ≡ view w

  continue-view {ℓ κ ι} :
      {A : Type ℓ} {B : Type κ} {X : Type ι} (view : W → X) (w : W) (r : Result A)
      (k : A → Effect W B)
      → ((a : A) → Keeps view (k a))
      → view (continue w r k).0 ≡ view w
  continue-view view w (err e) k h = refl
  continue-view view w (ok a) k h = h a w

  pub bind-Keeps {ℓ κ ι} :
      {A : Type ℓ} {B : Type κ} {X : Type ι} (view : W → X) (m : Effect W A) (k : A → Effect W B)
      → Keeps view m
      → ((a : A) → Keeps view (k a))
      → Keeps view (m >>= k)
  bind-Keeps view m k h hk w = continue-view view (m w).0 (m w).1 k hk ∙ h w
