-- ===== src/Panels/Risk.antt =====
-- The risk desk: VolatilityRank.tsx, RiskReturnScatter.tsx and CorrelationMatrix.tsx of
-- frontend/src/presentation/components.
use crypto_dashboard.Prelude.{
  ℕ, ltb, leb, Option, none, some, List, [], map, if◌then◌else◌, length, take, not, Bool, String,
  ◌==◌,
}
use crypto_dashboard.Prelude.Sort.{filter, sort}
use crypto_dashboard.Numbers.{Num, abs_of, lt_of, max_of, min_of, ratio_of, clamp_of}
use crypto_dashboard.Numbers.Extents.{highest_from}
use crypto_dashboard.Indicators.{volatility, total_return}
use crypto_dashboard.Correlation.{correlation_matrix}
use crypto_dashboard.Price.{CoinMeta}

-- A coin with the volatility of its week.
pub record Ranked {ℓ} (A : Type ℓ) : Type ℓ where
  pub meta : CoinMeta A
  pub vol : A

pub record RiskPoint {ℓ} (A : Type ℓ) : Type ℓ where
  pub symbol : String
  pub name : String
  pub vol : A
  pub ret : A

pub record Rgb {ℓ} (A : Type ℓ) : Type ℓ where
  pub red : A
  pub green : A
  pub blue : A

-- `c.rank ?? 999`
abbrev pub rank_or_last : Option ℕ → ℕ
rank_or_last none = 999
rank_or_last (some rank) = rank

module _ {ℓ} {A : Type ℓ} ⦃n : Num A⦄ where
  -- The stored prices of the week; a missing list counts as empty.
  abbrev pub week_of : Option (List A) → List A
  week_of none = []
  week_of (some values) = values

  -- `(c.sparkline7d?.length ?? 0) > 24`
  abbrev pub has_week : CoinMeta A → Bool
  has_week c = ltb 24 (length (week_of c.sparkline_7d))

  unfoldable pub vol_of : CoinMeta A → A
  vol_of c = n.mul (volatility (week_of c.sparkline_7d)) (n.of_ℕ 100)

  abbrev pub with_vol : CoinMeta A → Ranked A
  with_vol c = record { meta = c; vol = vol_of c }

  -- `(a, b) => b.vol - a.vol`
  unfoldable pub wilder : Ranked A → Ranked A → Bool
  wilder a b = not (lt_of a.vol b.vol)

  unfoldable pub by_volatility : ℕ → List (CoinMeta A) → List (Ranked A)
  unfolding filter sort wilder
  by_volatility show coins = take show (sort wilder (map with_vol (filter has_week coins)))

  -- The width of a bar in percent of the widest one.
  abbrev pub vol_width : A → A → A
  vol_width greatest_vol vol = max_of (n.of_ℕ 2) (n.mul (n.div vol greatest_vol) (n.of_ℕ 100))

  -- The points of the scatter plot.
  unfoldable pub risk_points : List (CoinMeta A) → List (RiskPoint A)
  unfolding filter vol_of
  risk_points coins =
      map
        (λ (c : CoinMeta A). record {
          symbol = c.symbol;
          name = c.name;
          vol = vol_of c;
          ret = total_return (week_of c.sparkline_7d);
        })
        (filter has_week coins)

  unfoldable pub max_vol : List (RiskPoint A) → A
  max_vol pts =
      n.mul (highest_from (ratio_of 1 10) (map (λ (p : RiskPoint A). p.vol) pts)) (ratio_of 108 100)

  unfoldable pub max_abs_ret : List (RiskPoint A) → A
  max_abs_ret pts =
      n.mul (highest_from (n.of_ℕ 2) (map (λ (p : RiskPoint A). abs_of p.ret) pts))
        (ratio_of 112 100)

  -- The places on a canvas of 860 by 380 with the pads 52, 16, 14 and 34.
  abbrev pub scatter_x : A → A → A
  scatter_x greatest_vol v =
      n.add (n.of_ℕ 52)
        (n.mul (n.div v greatest_vol) (n.sub (n.sub (n.of_ℕ 860) (n.of_ℕ 52)) (n.of_ℕ 16)))

  abbrev pub scatter_y : A → A → A
  scatter_y most r = n.add (n.of_ℕ 14) (
      n.mul (n.sub (n.of_ℕ 1) (n.div (n.add r most) (n.mul (n.of_ℕ 2) most)))
        (n.sub (n.sub (n.of_ℕ 380) (n.of_ℕ 14)) (n.of_ℕ 34)))

  -- `(a, b) => (a.rank ?? 999) - (b.rank ?? 999)`
  unfoldable pub ranks_first : CoinMeta A → CoinMeta A → Bool
  ranks_first a b = leb (rank_or_last a.rank) (rank_or_last b.rank)

  unfoldable pub compared : ℕ → List (CoinMeta A) → List (CoinMeta A)
  unfolding filter sort ranks_first
  compared count coins = take count (sort ranks_first (filter has_week coins))

  unfoldable pub matrix_of : ℕ → List (CoinMeta A) → List (List A)
  unfolding compared
  matrix_of count coins =
      correlation_matrix (map (λ (c : CoinMeta A). week_of c.sparkline_7d) (compared count coins))

  -- The size of a cell of the matrix, for `k` symbols.
  unfoldable pub matrix_cell : A → ℕ → A
  matrix_cell width k =
      if k == 0
      then n.of_ℕ 0
      else clamp_of (n.of_ℕ 18) (n.of_ℕ 46)
          (n.div (n.sub (n.sub width (n.of_ℕ 52)) (n.of_ℕ 8)) (n.of_ℕ k))

  abbrev pub grid_w : A → ℕ → A
  grid_w width k = n.add (n.of_ℕ 52) (n.mul (n.of_ℕ k) (matrix_cell width k))

  abbrev pub grid_h : A → ℕ → A
  grid_h width k = n.add (n.of_ℕ 20) (n.mul (n.of_ℕ k) (matrix_cell width k))

  -- `Math.round(f + (to - f) * t)`
  abbrev pub mix_channel : (A → A) → A → ℕ → ℕ → A
  mix_channel round t from to =
      round (n.add (n.of_ℕ from) (n.mul (n.sub (n.of_ℕ to) (n.of_ℕ from)) t))

  -- From the background to green or red; `power` is Math.pow.
  abbrev pub mix_color : (A → A) → A → Bool → Rgb A
  mix_color round t up =
      if up
      then record {
        red = mix_channel round t 17 13;
        green = mix_channel round t 19 128;
        blue = mix_channel round t 22 76;
      }
      else record {
        red = mix_channel round t 17 168;
        green = mix_channel round t 19 43;
        blue = mix_channel round t 22 52;
      }

  unfoldable pub cell_color : (A → A → A) → (A → A) → A → Rgb A
  cell_color power round r =
      mix_color round (power (min_of (abs_of r) (n.of_ℕ 1)) (ratio_of 9 10)) (n.le (n.of_ℕ 0) r)
