-- ===== src/Stream/Backoff.antt =====
-- The reconnect delay of the two socket adapters.
use crypto_dashboard.Prelude.{ap, ◌-◌, ◌≤◌, zero, ◌*◌, min, arith, suc, ◌^◌, ◌≡◌, ◌<◌, ℕ}
use native.Mathlib.Nat.{pow-suc}
use crypto_dashboard.Stream.{backoff}

pub two_pow_pos : (k : ℕ) → 0 < 2 ^ k
two_pow_pos zero = omega arith
two_pow_pos (suc k) = omega (arith, pow-suc 2 k, two_pow_pos k)

suc-sub-one : (k : ℕ) → suc k - 1 ≡ k
suc-sub-one k = omega arith

-- The first delay is a second, each further failure doubles it up to thirty seconds, and it is never
-- outside these bounds.
pub backoff_lem :
    (attempt : ℕ)
    → (backoff 1 ≡ 1000)
      × (backoff (suc (suc attempt)) ≡ min 30_000 (2 * backoff (suc attempt)))
      × (1000 ≤ backoff attempt)
      × (backoff attempt ≤ 30_000)
unfolding backoff
backoff_lem attempt =
    omega (arith, pow-suc 2 attempt, two_pow_pos attempt, two_pow_pos (attempt - 1), exponents)
  where
    exponents :
        (2 ^ (suc (suc attempt) - 1) ≡ 2 ^ suc attempt) × (2 ^ (suc attempt - 1) ≡ 2 ^ attempt)
    exponents = (
      ap (λ (k : ℕ). 2 ^ k) (suc-sub-one (suc attempt)),
      ap (λ (k : ℕ). 2 ^ k) (suc-sub-one attempt),
    )
