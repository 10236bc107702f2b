-- ===== src/Candles.antt =====
-- frontend/src/domain/candles.ts and the `Candle` of frontend/src/domain/price.ts. Times are whole
-- milliseconds since the epoch, as `Date.getTime()` gives them for a valid date.
pub mod Series
pub mod Bucket
pub mod Tests
use crypto_dashboard.Prelude.{
  ℕ, ◌-◌, ◌*◌, ◌/◌, Bool, not, ◌||◌, Option, none, some, List, [], ◌∷◌, ◌++◌, if◌then◌else◌, ltb,
  ◌==◌, length, drop, last?, init,
}
use crypto_dashboard.Numbers.{Num, max_of, min_of}

pub record Candle {ℓ} (A : Type ℓ) : Type ℓ where
  pub t : ℕ
  pub o : A
  pub h : A
  pub l : A
  pub c : A

-- `Math.floor(atMs / bucketMs) * bucketMs`
abbrev pub bucket_start : ℕ → ℕ → ℕ
bucket_start at_ms bucket_ms = at_ms / bucket_ms * bucket_ms

-- The value of `maxCandles` where a call leaves it out.
abbrev pub default_max_candles : ℕ
default_max_candles = 40

module _ {ℓ} {A : Type ℓ} where
  -- `next.length > maxCandles ? next.slice(next.length - maxCandles) : next`
  unfoldable pub keep_latest : ℕ → List A → List A
  keep_latest most xs = if ltb most (length xs) then drop (length xs - most) xs else xs

module _ {ℓ} {A : Type ℓ} ⦃n : Num A⦄ where
  -- The open bucket with one more trade in it.
  abbrev pub extend_candle : Candle A → A → Candle A
  extend_candle open_ value = record {
    t = open_.t;
    o = open_.o;
    h = max_of open_.h value;
    l = min_of open_.l value;
    c = value;
  }

  -- A fresh bucket, opened at `o`.
  abbrev pub open_candle : A → A → ℕ → Candle A
  open_candle o value start = record {
    t = start;
    o = o;
    h = max_of o value;
    l = min_of o value;
    c = value;
  }

  -- The branches on the open bucket, `next[next.length - 1]`. A print older than it is ignored.
  unfoldable pub fold_into : List (Candle A) → A → ℕ → ℕ → Option (Candle A) → List (Candle A)
  unfolding keep_latest
  fold_into candles value start max_candles none =
      keep_latest max_candles (candles ++ open_candle value value start ∷ [])
  fold_into candles value start max_candles (some last) =
      if last.t == start
      then keep_latest max_candles (init candles ++ extend_candle last value ∷ [])
      else if ltb start last.t
      then candles
      else keep_latest max_candles (candles ++ open_candle last.c value start ∷ [])

  unfoldable pub fold_tick : List (Candle A) → A → ℕ → ℕ → ℕ → List (Candle A)
  unfolding fold_into
  fold_tick candles value at_ms bucket_ms max_candles =
      if not (n.is_finite value) || bucket_ms == 0
      then candles
      else fold_into candles value (bucket_start at_ms bucket_ms) max_candles (last? candles)

  -- Folds a run of trades, each a value and its time, one after the other.
  unfoldable pub fold_ticks : ℕ → ℕ → List (Candle A) → List (A × ℕ) → List (Candle A)
  unfolding fold_tick
  fold_ticks bucket_ms max_candles candles [] = candles
  fold_ticks bucket_ms max_candles candles ((value, at_ms) ∷ ticks) =
      fold_ticks bucket_ms max_candles (fold_tick candles value at_ms bucket_ms max_candles) ticks
