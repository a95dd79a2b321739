-- ===== src/Login/Loop.antt =====
-- A turn of the task that `AuthClient::start_refresh_loop` of lib/src/datum_cloud/auth.rs starts.
use datum_connect.Base.{
  ℕ, ◌+◌, ◌*◌, ◌≤◌, ◌≡◌, ◌⊎◌, inl, inr, some, arith, option_eq, nat_eq, text_eq, Bool-cases, leb,
}
use datum_connect.Login.{AuthState, second, refresh_auth_when, expires_at, next_refresh_delay}
use datum_connect.Login.Client.{SessionFile, Provider, AuthStateWrapper, refresh_if_needed}

module _ (F : SessionFile) (P : Provider) where
  -- A turn at the time `now`: the session after it, and when the timer ends the wait. A failure is
  -- logged.
  unfoldable pub refresh_turn : ℕ → AuthStateWrapper F → AuthStateWrapper F × ℕ
  refresh_turn now w =
      let w' = (refresh_if_needed F P now w).0 in
      (w', now + next_refresh_delay now w'.inner * second)

-- The wait is a second at least, and a session that is good for longer than 30 minutes is looked at
-- again no later than 30 minutes before it ends, or after that second.
pub next_refresh_delay_lem :
    (now : ℕ) (s : AuthState)
    → (1 ≤ next_refresh_delay now (some s))
      × ((now + next_refresh_delay now (some s) * second + refresh_auth_when ≤ expires_at s.tokens)
          ⊎ (next_refresh_delay now (some s) ≡ 1))
unfolding next_refresh_delay
next_refresh_delay_lem now s =
    elim (Bool-cases (leb (expires_at s.tokens) (now + refresh_auth_when))) [
      | inl t ↦ ground arith
      | inr f ↦ ground arith
    ]
