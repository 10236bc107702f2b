-- ===== src/Hooks/LiveCandles/Buckets.antt =====
-- The candles on the screen always form one series of the chosen width.
use crypto_dashboard.Prelude.{ℕ, String, List, [], Option, none, some, Bool-cases, inl, inr}
use crypto_dashboard.Numbers.{Num, IsOrdered}
use crypto_dashboard.Price.{Price}
use crypto_dashboard.Candles.Series.{IsSeries, fold_tick-IsSeries}
use crypto_dashboard.Hooks.LiveCandles.{Tape, reset, seed, receive, find_price, fold_hit, can_seed}

module _ {ℓ} {A : Type ℓ} ⦃n : Num A⦄ (number : String → A) where
  -- The hook while the coin and the width stay: it starts reset, and is seeded and fed at any times.
  pub data Run (coin : String) (bucket_ms : ℕ) : Tape A → Type ℓ where
    resets : (t : Tape A) → Run coin bucket_ms (reset t)
    seeds :
        {t : Tape A} (most now : ℕ) (price : Option A)
        → Run coin bucket_ms t
        → Run coin bucket_ms (seed coin bucket_ms most now price t)
    receives :
        {t : Tape A} (most : ℕ) (prices : List (Price A))
        → Run coin bucket_ms t
        → Run coin bucket_ms (receive number coin bucket_ms most prices t)

module _ {ℓ} {A : Type ℓ} ⦃n : Num A⦄ (laws : IsOrdered A) (number : String → A) where
  seed-IsSeries :
      (coin : String) (bucket_ms most now : ℕ) (price : Option A) (t : Tape A)
      → IsSeries bucket_ms t.candles
      → IsSeries bucket_ms (seed coin bucket_ms most now price t).candles
  unfolding seed
  seed-IsSeries coin bucket_ms most now none t s = s
  seed-IsSeries coin bucket_ms most now (some price) t s =
      elim (Bool-cases (can_seed t.seeded coin price)) [
        | inl fresh ↦ rw fresh (
            fold_tick-IsSeries laws [] price now bucket_ms most (record { each = tt; linked = tt }))
        | inr kept ↦ rw kept s
      ]

  receive-IsSeries :
      (bucket_ms most : ℕ) (hit : Option (Price A)) (t : Tape A)
      → IsSeries bucket_ms t.candles
      → IsSeries bucket_ms (fold_hit number bucket_ms most hit t).candles
  unfolding fold_hit
  receive-IsSeries bucket_ms most none t s = s
  receive-IsSeries bucket_ms most (some hit) t s =
      fold_tick-IsSeries laws t.candles (number hit.value) hit.observed_at bucket_ms most s

  -- From a reset on, whatever seeds and batches arrive, in whatever order and at whatever times,
  -- the candles are one series of the chosen bucket width. The finite numbers are ordered.
  pub live_candles-IsSeries :
      {coin : String} {bucket_ms : ℕ} {t : Tape A}
      → Run number coin bucket_ms t
      → IsSeries bucket_ms t.candles
  unfolding reset receive
  live_candles-IsSeries (resets t) = record { each = tt; linked = tt }
  live_candles-IsSeries {coin} {bucket_ms} (seeds {t} most now price r) =
      seed-IsSeries coin bucket_ms most now price t (live_candles-IsSeries r)
  live_candles-IsSeries {coin} {bucket_ms} (receives {t} most prices r) =
      receive-IsSeries bucket_ms most (find_price coin prices) t (live_candles-IsSeries r)
