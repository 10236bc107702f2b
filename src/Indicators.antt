-- ===== src/Indicators.antt =====
-- frontend/src/domain/indicators.ts. Periods are natural numbers; `null` is `none`. An array that the
-- source fills with nulls and then writes from left to right is built from left to right.
pub mod Alignment
pub mod Averages
pub mod Exponential
pub mod Strength
pub mod Spread
pub mod Tests
use crypto_dashboard.Prelude.{
  zero, ◌++◌, ◌||◌, some, none, ltb, get_or, [], ◌∷◌, take, suc, replicate, length, leb, drop, ◌==◌,
  if◌then◌else◌, Option, List, ℕ, ◌+◌, ◌-◌, ◌≤◌,
}
use crypto_dashboard.Numbers.{Num, max_of, sum}

-- The sums of gains and of losses, with the last value read and the values that are left.
pub record Moves {ℓ} (A : Type ℓ) : Type ℓ where
  pub gain : A
  pub loss : A
  pub prev : A
  pub left : List A

pub record BollingerBands {ℓ} (A : Type ℓ) : Type ℓ where
  pub mid : List (Option A)
  pub upper : List (Option A)
  pub lower : List (Option A)

abbrev pub default_rsi_period : ℕ
default_rsi_period = 14

abbrev pub default_bollinger_period : ℕ
default_bollinger_period = 20

module _ {ℓ} {A : Type ℓ} ⦃n : Num A⦄ where
  -- `new Array(values.length).fill(null)`
  abbrev pub blanks : List A → List (Option A)
  blanks values = replicate (length values) none

  -- `values[values.length - 1]` of `first ∷ rest`.
  abbrev pub last_or : A → List A → A
  last_or first [] = first
  last_or first (x ∷ xs) = last_or x xs

  -- The running sum after `values[i]`, and the entry that it gives.
  abbrev pub slide : List A → ℕ → ℕ → A → A → A
  slide values period i total v =
      if leb period i
      then n.sub (n.add total v) (get_or values (i - period) (n.of_ℕ 0))
      else n.add total v

  abbrev pub mean_of : ℕ → ℕ → A → Option A
  mean_of period i total = if leb period (i + 1) then some (n.div total (n.of_ℕ period)) else none

  -- The loop of `sma` from index `i` on, `rest` being `values.slice(i)`.
  pub sma_from : List A → ℕ → ℕ → A → List A → List (Option A)
  sma_from values period i total [] = []
  sma_from values period i total (v ∷ rest) =
      let total' = slide values period i total v in
      mean_of period i total' ∷ sma_from values period (i + 1) total' rest

  unfoldable pub sma : List A → ℕ → List (Option A)
  unfolding sma_from
  sma values period =
      if period == 0 then blanks values else sma_from values period 0 (n.of_ℕ 0) values

  -- `values[i] * k + prev * (1 - k)`
  abbrev pub smooth : A → A → A → A
  smooth k prev v = n.add (n.mul v k) (n.mul prev (n.sub (n.of_ℕ 1) k))

  pub ema_from : A → A → List A → List (Option A)
  ema_from k prev [] = []
  ema_from k prev (v ∷ rest) = let prev' = smooth k prev v in some prev' ∷ ema_from k prev' rest

  abbrev pub smoothing : ℕ → A
  smoothing period = n.div (n.of_ℕ 2) (n.of_ℕ (period + 1))

  abbrev pub seed_mean : List A → ℕ → A
  seed_mean values period = n.div (sum (take period values)) (n.of_ℕ period)

  unfoldable pub ema : List A → ℕ → List (Option A)
  unfolding ema_from
  ema values period =
      if period == 0 || ltb (length values) period
      then blanks values
      else replicate (period - 1) none
        ++ some (seed_mean values period)
          ∷ ema_from (smoothing period) (seed_mean values period) (drop period values)

  -- One round of the first loop of `rsi`: `if (d >= 0) gain += d; else loss -= d;`
  abbrev pub gain_after : A → A → A → A
  gain_after gain prev v = let d = n.sub v prev in if n.le (n.of_ℕ 0) d then n.add gain d else gain

  abbrev pub loss_after : A → A → A → A
  loss_after loss prev v = let d = n.sub v prev in if n.le (n.of_ℕ 0) d then loss else n.sub loss d

  -- The first loop of `rsi`, over `count` differences.
  pub first_moves : A → A → A → ℕ → List A → Moves A
  first_moves gain loss prev zero rest = record {
    gain = gain;
    loss = loss;
    prev = prev;
    left = rest;
  }
  first_moves gain loss prev (suc count) [] = record {
    gain = gain;
    loss = loss;
    prev = prev;
    left = [];
  }
  first_moves gain loss prev (suc count) (v ∷ rest) =
      first_moves (gain_after gain prev v) (loss_after loss prev v) v count rest

  abbrev pub to_rsi : A → A → A
  to_rsi g l =
      if n.eq l (n.of_ℕ 0)
      then n.of_ℕ 100
      else n.sub (n.of_ℕ 100) (n.div (n.of_ℕ 100) (n.add (n.of_ℕ 1) (n.div g l)))

  -- `(avg * (period - 1) + Math.max(d, 0)) / period`
  abbrev pub wilder : ℕ → A → A → A
  wilder period avg d =
      n.div (n.add (n.mul avg (n.of_ℕ (period - 1))) (max_of d (n.of_ℕ 0))) (n.of_ℕ period)

  -- The second loop of `rsi`.
  pub rsi_from : ℕ → A → A → A → List A → List (Option A)
  rsi_from period avg_gain avg_loss prev [] = []
  rsi_from period avg_gain avg_loss prev (v ∷ rest) =
      let d = n.sub v prev in
      let gain = wilder period avg_gain d in
      let loss = wilder period avg_loss (n.sub (n.of_ℕ 0) d) in
      some (to_rsi gain loss) ∷ rsi_from period gain loss v rest

  -- Both loops, for a list with more values than the period.
  pub rsi_loops : ℕ → List A → List (Option A)
  unfolding first_moves rsi_from
  rsi_loops period [] = []
  rsi_loops period (v ∷ rest) =
      let m = first_moves (n.of_ℕ 0) (n.of_ℕ 0) v period rest in
      let gain = n.div m.gain (n.of_ℕ period) in
      let loss = n.div m.loss (n.of_ℕ period) in
      replicate period none ++ some (to_rsi gain loss) ∷ rsi_from period gain loss m.prev m.left

  unfoldable pub rsi : List A → ℕ → List (Option A)
  unfolding rsi_loops
  rsi values period = if leb (length values) period then blanks values else rsi_loops period values

  -- `acc += (values[j] - m) ** 2` over a window.
  abbrev pub square : A → A
  square x = n.mul x x

  pub square_sum : A → A → List A → A
  square_sum m acc [] = acc
  square_sum m acc (x ∷ xs) = square_sum m (n.add acc (square (n.sub x m))) xs

  -- The `period` values that end at index `i`.
  abbrev pub window : List A → ℕ → ℕ → List A
  window values period i = drop (i + 1 - period) (take (i + 1) values)

  abbrev pub deviation : List A → ℕ → ℕ → A → A
  deviation values period i m =
      n.sqrt (n.div (square_sum m (n.of_ℕ 0) (window values period i)) (n.of_ℕ period))

  -- One band of the loop of `bollinger` from index `i` on, `op` being the sum or the difference.
  pub band_from : (A → A → A) → List A → ℕ → A → ℕ → List (Option A) → List (Option A)
  unfolding square_sum
  band_from op values period mult i [] = []
  band_from op values period mult i (none ∷ mids) =
      none ∷ band_from op values period mult (i + 1) mids
  band_from op values period mult i (some m ∷ mids) =
      (if leb period (i + 1) then some (op m (n.mul mult (deviation values period i m))) else none)
      ∷ band_from op values period mult (i + 1) mids

  unfoldable pub bollinger : List A → ℕ → A → BollingerBands A
  unfolding sma band_from
  bollinger values period mult =
      let mid = sma values period in
      record {
        mid = mid;
        upper = band_from n.add values period mult 0 mid;
        lower = band_from n.sub values period mult 0 mid;
      }

  -- The period-over-period returns; a period that starts at zero is left out.
  pub returns : List A → List A
  returns [] = []
  returns (x ∷ []) = []
  returns (x ∷ y ∷ rest) =
      let later = returns (y ∷ rest) in
      if n.eq x (n.of_ℕ 0) then later else n.sub (n.div y x) (n.of_ℕ 1) ∷ later

  unfoldable pub volatility : List A → A
  unfolding returns square_sum
  volatility values =
      let rets = returns values in
      let mean = n.div (sum rets) (n.of_ℕ (length rets)) in
      if ltb (length values) 3
      then n.of_ℕ 0
      else if ltb (length rets) 2
      then n.of_ℕ 0
      else n.sqrt (n.div (square_sum mean (n.of_ℕ 0) rets) (n.of_ℕ (length rets)))

  unfoldable pub total_return : List A → A
  total_return [] = n.of_ℕ 0
  total_return (first ∷ rest) =
      if ltb (length (first ∷ rest)) 2 || n.eq first (n.of_ℕ 0)
      then n.of_ℕ 0
      else n.mul (n.sub (n.div (last_or first rest) first) (n.of_ℕ 1)) (n.of_ℕ 100)
