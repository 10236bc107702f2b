-- ===== src/Hooks/LiveCandles.antt =====
-- frontend/src/presentation/hooks/useLiveCandles.ts: the candles of one pair, of one bucket width.
pub mod Buckets
use crypto_dashboard.Prelude.{
  ℕ, String, str_eq, ◌&&◌, ◌||◌, not, Bool, true, false, Option, none, some, List, [], ◌∷◌,
  if◌then◌else◌,
}
use crypto_dashboard.Numbers.{Num}
use crypto_dashboard.Price.{Price}
use crypto_dashboard.Candles.{Candle, fold_tick, default_max_candles}

-- The reference and the flag; `candles` is also the state that the hook returns.
pub record Tape {ℓ} (A : Type ℓ) : Type ℓ where
  pub candles : List (Candle A)
  pub seeded : Bool

module _ {ℓ} {A : Type ℓ} where
  -- The reset on a change of the coin or of the width.
  unfoldable pub reset : Tape A → Tape A
  reset t = record { candles = []; seeded = false }

  -- `prices.find(...)`
  unfoldable pub find_price : String → List (Price A) → Option (Price A)
  find_price coin [] = none
  find_price coin (p ∷ ps) =
      if str_eq p.coin coin && str_eq p.currency "USD" then some p else find_price coin ps

module _ {ℓ} {A : Type ℓ} ⦃n : Num A⦄ where
  abbrev pub can_seed : Bool → String → A → Bool
  can_seed seeded coin price = not seeded && not (str_eq coin "") && n.is_finite price

  -- The seed from the last known price, at the time `now`.
  unfoldable pub seed : String → ℕ → ℕ → ℕ → Option A → Tape A → Tape A
  seed coin bucket_ms max_candles now none t = t
  seed coin bucket_ms max_candles now (some price) t =
      if can_seed t.seeded coin price
      then record { candles = fold_tick [] price now bucket_ms max_candles; seeded = true }
      else t

  -- The trade of the batch, if it has one of the coin. `number` is `Number(text)`.
  unfoldable pub fold_hit : (String → A) → ℕ → ℕ → Option (Price A) → Tape A → Tape A
  fold_hit number bucket_ms max_candles none t = t
  fold_hit number bucket_ms max_candles (some hit) t = record t {
    candles = fold_tick t.candles (number hit.value) hit.observed_at bucket_ms max_candles;
  }

  -- The subscriber of the price stream.
  unfoldable pub receive : (String → A) → String → ℕ → ℕ → List (Price A) → Tape A → Tape A
  unfolding find_price fold_hit
  receive number coin bucket_ms max_candles prices t =
      fold_hit number bucket_ms max_candles (find_price coin prices) t
