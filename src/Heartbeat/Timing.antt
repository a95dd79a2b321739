-- ===== src/Heartbeat/Timing.antt =====
-- The backoff in closed form, and the bounds of the renewal interval.
use native.Mathlib.Nat.{pow-suc, pow-succ', mul_assoc}
use native.Mathlib.Decide.{dec_le}
use datum_connect.Base.{
  ℕ, zero, suc, ◌+◌, ◌*◌, ◌/◌, ◌^◌, ◌≤◌, ◌<◌, min, max, ◌≡◌, sym, ap, ◌∙◌, arith, option_eq, nat_eq,
  text_eq,
}
use datum_connect.Base.Int.{ℤ, pos}
use datum_connect.Heartbeat.{
  Backoff, backoff_initial, backoff_max, new_backoff, next, reset, renewal_base, renewal_interval,
}

-- The state after a number of waits.
unfoldable pub waited : ℕ → Backoff → Backoff
waited zero b = b
waited (suc n) b = waited n (next b).0

-- A backoff in use: between the initial wait and the longest.
pub record IsBackoff (b : Backoff) : Type 0 where
  pub low : backoff_initial ≤ b.current
  pub high : b.current ≤ backoff_max

pub new_backoff-IsBackoff : IsBackoff new_backoff
unfolding new_backoff
new_backoff-IsBackoff = omega arith

pub reset-IsBackoff : (b : Backoff) → IsBackoff (reset b)
unfolding reset
reset-IsBackoff b = omega arith

pub next-IsBackoff : (b : Backoff) → IsBackoff b → IsBackoff (next b).0
unfolding next
next-IsBackoff b h = omega arith

two_pow_pos : (n : ℕ) → 1 ≤ 2 ^ n
two_pow_pos zero = omega arith
two_pow_pos (suc n) = omega (arith, pow-suc 2 n, two_pow_pos n)

le-mul_pos : (x k : ℕ) → 1 ≤ k → x ≤ x * k
le-mul_pos x k h = grind arith

-- Capping before a multiplication makes no difference to the capped product.
capped : (x k : ℕ) → 1 ≤ k → min (min x backoff_max * k) backoff_max ≡ min (x * k) backoff_max
capped x k h = elim (dec_le x backoff_max) [
  | yes p ↦ ap (λ y. min (y * k) backoff_max) (omega arith)
  | no p ↦
      let e : min x backoff_max ≡ backoff_max = omega arith in
      ap (λ y. min (y * k) backoff_max) e ∙ omega (arith, le-mul_pos x k h)
]

waited-current :
    (n : ℕ) (b : Backoff)
    → b.current ≤ backoff_max
    → (waited n b).current ≡ min (b.current * 2 ^ n) backoff_max
unfolding waited next
waited-current zero b h = omega arith
waited-current (suc n) b h =
    waited-current n _ (omega arith)
    ∙ capped (b.current * 2) (2 ^ n) (two_pow_pos n)
    ∙ ap (λ k. min k backoff_max)
        (mul_assoc b.current 2 (2 ^ n) ∙ ap (λ t. b.current * t) (sym (pow-succ' 2 n)))

-- The wait after `n` waits since a reset is 2 * 2^n seconds, and 30 from there on where that is more.
pub next-waited-reset : (n : ℕ) (b : Backoff) → (next (waited n (reset b))).1 ≡ min (2 * 2 ^ n) 30
unfolding next reset
next-waited-reset n b = waited-current n (record { current = 2 }) (omega arith)

-- The interval lies between half the lease's duration, one second at least, and a fifth of that
-- more, one second at least.
pub renewal_interval_bounds :
    (random_range : ℕ → ℕ) (d : ℤ)
    → ((m : ℕ) → random_range m ≤ m)
    → (renewal_base d ≤ renewal_interval random_range d)
      × (renewal_interval random_range d ≤ renewal_base d + max (renewal_base d / 5) 1)
      × (1 ≤ renewal_interval random_range d)
unfolding renewal_interval renewal_base
renewal_interval_bounds r d h = ground (arith, h (max (renewal_base d / 5) 1))

-- A lease of three seconds or more is renewed before it runs out, whatever is drawn.
pub renewal_interval-lt :
    (random_range : ℕ → ℕ) (d : ℕ)
    → ((m : ℕ) → random_range m ≤ m)
    → 3 ≤ d
    → renewal_interval random_range (pos d) < d
unfolding renewal_interval renewal_base
renewal_interval-lt r d h l = omega (arith, h (max (max (max d 1 / 2) 1 / 5) 1))
