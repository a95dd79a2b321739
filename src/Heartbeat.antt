-- ===== src/Heartbeat.antt =====
-- lib/src/heartbeat.rs: the timing of the heartbeat. A `Duration` is a number of seconds.
pub mod Timing
pub mod Agent
pub mod Project
mod Tests
use datum_connect.Base.{
  ℕ, zero, suc, ◌+◌, ◌-◌, ◌*◌, ◌/◌, ◌%◌, ◌^◌, ◌≤◌, ◌<◌, min, max, String, ◌≡◌, refl, sym, ap, subst,
  ◌∙◌, ◌≢◌, ◌↔◌, ◌⊎◌, inl, inr, Bool, true, false, not, ◌&&◌, ◌||◌, Option, none, some, List, [],
  ◌∷◌, ◌++◌, map, arith, if◌then◌else◌, Eq, ◌==◌, ==_refl, eq_of_==, option_eq, nat_eq, text_eq,
  Bool-cases, ltb, leb, u16_max, u32_max, u64_mod, ltb→lt, lt→ltb, leb→le, le→leb, tests, length,
  any, all, find, keep, All, Option-cases, length-append, find-test, find-eq-none, Result, ok, err,
  ◌>>=◌, ◌>>◌, context, std_context, to_option, is_ok,
}
use datum_connect.Base.Int.{ℤ, pos, negsuc}

abbrev pub default_lease_duration_secs : ℤ
default_lease_duration_secs = pos 30

abbrev pub backoff_initial : ℕ
backoff_initial = 2

abbrev pub backoff_max : ℕ
backoff_max = 30

pub record Backoff : Type 0 where
  pub current : ℕ

-- `Backoff::new`
unfoldable pub new_backoff : Backoff
new_backoff = record { current = backoff_initial }

-- `Backoff::next`
unfoldable pub next : Backoff → Backoff × ℕ
next b = (record { current = min (b.current * 2) backoff_max }, b.current)

-- `Backoff::reset`
unfoldable pub reset : Backoff → Backoff
reset b = record { current = backoff_initial }

-- `lease_duration_seconds.max(1) as u64`
abbrev pub max_one : ℤ → ℕ
max_one (pos n) = max n 1
max_one (negsuc n) = 1

pub renewal_base : ℤ → ℕ
renewal_base d = max (max_one d / 2) 1

-- `random_range m` is the number drawn from `0..=m`.
unfoldable pub renewal_interval : (ℕ → ℕ) → ℤ → ℕ
unfolding renewal_base
renewal_interval random_range d =
    let base = renewal_base d in base + random_range (max (base / 5) 1)
