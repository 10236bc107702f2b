-- ===== src/Indicators/Tests.antt =====
-- Runs of indicators.ts on integers, and the theorems at concrete series.
use crypto_dashboard.Numbers.Integers.{int_num}
use crypto_dashboard.Indicators.Averages.{get_elem?-sma, mean_at}
use crypto_dashboard.Indicators.Exponential.{get_elem?-ema, weighted}
use crypto_dashboard.Numbers.Integers.{ℤ-IsGroup, ℤ-IsExact, ℤ-IsSigned, sqrt_ℕ}
use crypto_dashboard.Indicators.Spread.{bollinger-Nested, Nested}
use crypto_dashboard.Indicators.Alignment.{indicators-IsAligned, IsAligned}
use crypto_dashboard.Indicators.Strength.{rsi-AllPercent, AllPercent}
use crypto_dashboard.Prelude.{arith, some, map, [], ◌∷◌, none, get_elem?, List, ℕ, ◌≡◌, refl}
use crypto_dashboard.Prelude.Int.{◌*ℤ◌, ◌-ℤ◌, ◌+ℤ◌, ℤ, pos}
use crypto_dashboard.Indicators.{sma, ema, rsi, bollinger, volatility, total_return}

abbrev ints : List ℕ → List ℤ
ints = map pos

abbrev rising : List ℤ
rising = ints (10 ∷ 20 ∷ 60 ∷ 40 ∷ 90 ∷ [])

sma_runs : sma rising 2 ≡ none ∷ some (pos 15) ∷ some (pos 40) ∷ some (pos 50) ∷ some (pos 65) ∷ []
unfolding sma ◌+ℤ◌ ◌-ℤ◌
sma_runs = refl

sma_refuses : (sma rising 0 ≡ none ∷ none ∷ none ∷ none ∷ none ∷ []) × (sma {A = ℤ} [] 3 ≡ [])
unfolding sma
sma_refuses = (refl, refl)

ema_runs : ema rising 1 ≡ map (λ x. some x) rising
unfolding ema ◌+ℤ◌ ◌-ℤ◌ ◌*ℤ◌
ema_runs = refl

rsi_runs : rsi (ints (10 ∷ 20 ∷ 15 ∷ 25 ∷ [])) 2 ≡ none ∷ none ∷ some (pos 67) ∷ some (pos 88) ∷ []
unfolding rsi ◌+ℤ◌ ◌-ℤ◌ ◌*ℤ◌
rsi_runs = refl

rsi_no_losses : rsi (ints (1 ∷ 2 ∷ 3 ∷ [])) 2 ≡ none ∷ none ∷ some (pos 100) ∷ []
unfolding rsi ◌+ℤ◌ ◌-ℤ◌ ◌*ℤ◌
rsi_no_losses = refl

bollinger_runs : bollinger (ints (10 ∷ 20 ∷ 40 ∷ [])) 2 (pos 2) ≡ record {
  mid = none ∷ some (pos 15) ∷ some (pos 30) ∷ [];
  upper = none ∷ some (pos 25) ∷ some (pos 50) ∷ [];
  lower = none ∷ some (pos 5) ∷ some (pos 10) ∷ [];
}
unfolding bollinger sqrt_ℕ ◌+ℤ◌ ◌-ℤ◌ ◌*ℤ◌
bollinger_runs = refl

short_series : (volatility (ints (1 ∷ 2 ∷ [])) ≡ pos 0) × (total_return (ints (0 ∷ 2 ∷ [])) ≡ pos 0)
unfolding volatility total_return
short_series = (refl, refl)

total_return_runs : total_return rising ≡ pos 800
unfolding total_return ◌+ℤ◌ ◌-ℤ◌ ◌*ℤ◌
total_return_runs = refl

indicators-IsAligned_example :
    let bands = bollinger rising 2 (pos 2) in
    IsAligned 1 rising (sma rising 2)
    × IsAligned 1 rising (ema rising 2)
    × IsAligned 2 rising (rsi rising 2)
    × IsAligned 1 rising bands.mid
    × IsAligned 1 rising bands.upper
    × IsAligned 1 rising bands.lower
indicators-IsAligned_example = indicators-IsAligned rising 2 (pos 2) (omega arith)

get_elem?-sma_example : get_elem? (sma rising 2) 3 ≡ some (mean_at rising 2 3)
get_elem?-sma_example = get_elem?-sma ℤ-IsGroup rising 2 3 (omega arith) (omega arith)

get_elem?-ema_example :
    get_elem? (ema rising 1) 2
    ≡ some (some (weighted (pos 1) (pos 0) (pos 10) (ints (20 ∷ 60 ∷ []))))
unfolding ◌-ℤ◌ ◌+ℤ◌
get_elem?-ema_example = get_elem?-ema ℤ-IsExact rising 1 2 (omega arith) (omega arith)

rsi-AllPercent_example : AllPercent (rsi rising 2)
rsi-AllPercent_example = rsi-AllPercent ℤ-IsSigned rising 2 (omega arith)

bollinger-Nested_example :
    let bands = bollinger rising 2 (pos 2) in Nested bands.lower bands.mid bands.upper
bollinger-Nested_example = bollinger-Nested ℤ-IsSigned rising 2 (pos 2) (omega arith) refl
