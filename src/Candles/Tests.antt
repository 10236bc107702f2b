-- ===== src/Candles/Tests.antt =====
-- Runs of candles.ts, on amounts with a value for NaN, and the theorems at concrete series.
use crypto_dashboard.Prelude.Int.{pos}
use crypto_dashboard.Candles.Bucket.{fold_tick_last, fold_ticks_one_bucket}
use crypto_dashboard.Candles.Series.{fold_tick-IsSeries, IsSeries}
use crypto_dashboard.Prelude.{◌+◌, arith, ◌<◌, ◌≤◌, refl, ◌∷◌, some, none, last?, [], List, ℕ, ◌≡◌}
use crypto_dashboard.Numbers.Amounts.{Amount, amount_num, Amount-IsOrdered}
use crypto_dashboard.Candles.{Candle, fold_tick, fold_ticks}

abbrev usd : ℕ → Amount
usd k = some (pos k)

abbrev candle : ℕ → ℕ → ℕ → ℕ → ℕ → Candle Amount
candle t o h l c = record { t = t; o = usd o; h = usd h; l = usd l; c = usd c }

abbrev two : List (Candle Amount)
two = candle 0 100 110 95 105 ∷ candle 5000 105 120 105 120 ∷ []

two-IsSeries : IsSeries 5000 two
two-IsSeries = ground arith

opens : fold_tick [] (usd 100) 1234 5000 40 ≡ candle 0 100 100 100 100 ∷ []
unfolding fold_tick
opens = refl

extends :
    fold_tick two (usd 90) 9999 5000 40 ≡ candle 0 100 110 95 105 ∷ candle 5000 105 120 90 90 ∷ []
unfolding fold_tick
extends = refl

rolls_over :
    fold_tick two (usd 90) 10_000 5000 2
    ≡ candle 5000 105 120 105 120 ∷ candle 10_000 120 120 90 90 ∷ []
unfolding fold_tick
rolls_over = refl

ignores :
    (fold_tick two none 10_000 5000 40 ≡ two)
    × (fold_tick two (usd 1) 10_000 0 40 ≡ two)
    × (fold_tick two (usd 1) 4999 5000 40 ≡ two)
unfolding fold_tick
ignores = (refl, refl, refl)

fold_tick-IsSeries_example : IsSeries 5000 (fold_tick two (usd 90) 10_000 5000 40)
fold_tick-IsSeries_example =
    fold_tick-IsSeries Amount-IsOrdered two (usd 90) 10_000 5000 40 two-IsSeries

fold_tick_last_run :
    (k : Candle Amount) × (last? (fold_tick two (usd 90) 12_000 5000 40) ≡ some k)
    × (k.c ≡ usd 90)
    × (k.t ≤ 12_000)
    × (12_000 < k.t + 5000)
fold_tick_last_run =
    fold_tick_last two (usd 90) 12_000 5000 40 refl (omega arith) (omega arith)
      (λ k e. ground arith)

fold_ticks_one_bucket_example :
    fold_ticks 5000 40 [] ((usd 7, 5001) ∷ (usd 9, 5002) ∷ (usd 8, 9999) ∷ [])
    ≡ candle 5000 7 9 7 8 ∷ []
fold_ticks_one_bucket_example =
    fold_ticks_one_bucket 5000 40 5000 (usd 7) 5001 ((usd 9, 5002) ∷ (usd 8, 9999) ∷ [])
      (omega arith) (omega arith) (ground arith)
