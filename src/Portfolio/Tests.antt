-- ===== src/Portfolio/Tests.antt =====
-- Runs of the portfolio, and the theorems at it.
use crypto_dashboard.Prelude.{arith, ◌≡◌, refl, String, List, [], ◌∷◌, map}
use crypto_dashboard.Prelude.Maps.{lookup}
use crypto_dashboard.Prelude.Int.{ℤ, pos, ◌+ℤ◌, ◌-ℤ◌, ◌*ℤ◌}
use crypto_dashboard.Numbers.{sum}
use crypto_dashboard.Numbers.Integers.{int_num, ℤ-IsGroup}
use crypto_dashboard.Portfolio.{Holding, Row, row_of, rows, totals}
use crypto_dashboard.Portfolio.Sums.{totals_pnl}

abbrev held : List (Holding ℤ)
held =
    record { id = "a"; coin = "BTC"; amount = pos 2; avg = pos 10 }
    ∷ record { id = "b"; coin = "ETH"; amount = pos 3; avg = pos 5 }
    ∷ []

abbrev prices : List (String × ℤ)
prices = ("BTC", pos 13) ∷ ("ETH", pos 4) ∷ []

profit : (totals (rows prices held)).pnl ≡ pos 3
unfolding totals rows row_of lookup ◌+ℤ◌ ◌-ℤ◌ ◌*ℤ◌
profit = refl

sub_add_ℤ : (a b : ℤ) → a -ℤ b +ℤ b ≡ a
unfolding ◌+ℤ◌ ◌-ℤ◌
sub_add_ℤ a b = ground arith

totals_pnl_run :
    (totals (rows prices held)).pnl ≡ sum (map (λ (r : Row ℤ). r.pnl) (rows prices held))
totals_pnl_run = totals_pnl ℤ-IsGroup sub_add_ℤ prices held
