-- ===== src/Hooks/TickRate.antt =====
-- frontend/src/presentation/hooks/useTickRate.ts: the rate of updates over a rolling window.
pub mod Window
use crypto_dashboard.Prelude.{ℕ, ◌-◌, leb, length, replicate, List, [], ◌∷◌, ◌++◌, if◌then◌else◌}
use crypto_dashboard.Numbers.{Num}

-- A stamp is at or after the cutoff.
unfoldable pub since : ℕ → List ℕ → List ℕ
since cutoff [] = []
since cutoff (s ∷ stamps) =
    let rest = since cutoff stamps in if leb cutoff s then s ∷ rest else rest

-- The subscriber: a stamp for each price of the batch.
unfoldable pub receive : ℕ → ℕ → List ℕ → List ℕ
receive now count stamps = stamps ++ replicate count now

-- The timer, every 500 ms: the stamps that are left. A cutoff before the epoch keeps all, as 0 does.
unfoldable pub sample : ℕ → ℕ → List ℕ → List ℕ
unfolding since
sample window_ms now stamps = since (now - window_ms) stamps

-- The rate that the timer reports.
unfoldable pub rate {ℓ} : {A : Type ℓ} → ⦃n : Num A⦄ → ℕ → List ℕ → A
rate ⦃n⦄ window_ms stamps = n.div (n.of_ℕ (length stamps)) (n.div (n.of_ℕ window_ms) (n.of_ℕ 1000))
