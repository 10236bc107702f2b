-- ===== src/Panels/Lines.antt =====
-- Lines and figures of one coin: frontend/src/presentation/components/Sparkline.tsx, the hero of the page
-- (terminal/MarketHero.tsx), PriceCharts.tsx and HeroTradeChart.tsx beside it.
use crypto_dashboard.Prelude.{
  ℕ, ◌+◌, ◌*◌, ◌%◌, ◌&&◌, String, str_eq, Bool, Option, none, some, List, [], ◌∷◌, map,
  if◌then◌else◌, length, last?, ◌==◌,
}
use crypto_dashboard.Numbers.{Num, or_nonzero, is_truthy}
use crypto_dashboard.Numbers.Extents.{lowest, highest}
use crypto_dashboard.Texts.{◌<>◌}
use crypto_dashboard.Price.{CoinMeta, PricePoint}
use crypto_dashboard.Candles.{Candle}
use crypto_dashboard.Format.{NumberTexts, usd}
use crypto_dashboard.Hooks.AllSeries.{CoinSeries}
use crypto_dashboard.Hooks.PriceFlash.{Move, up}
use crypto_dashboard.Panels.Movers.{or_dash}

-- `BUCKETS`, in milliseconds.
unfoldable pub buckets : List ℕ
buckets = 1000 ∷ 5000 ∷ 15000 ∷ 60000 ∷ []

pub record Spark {ℓ} (A : Type ℓ) : Type ℓ where
  pub points : List (A × A)
  pub rises : Bool

pub record Stat : Type 0 where
  pub label : String
  pub value : String

-- The rank as text; `text` writes a number.
abbrev pub rank_text : (ℕ → String) → Option ℕ → String
rank_text text none = "—"
rank_text text (some rank) = if rank == 0 then "—" else "#" <> text rank

-- A stored point with its number, and a bar below it.
pub record TradePoint {ℓ} (A : Type ℓ) : Type ℓ where
  pub t : ℕ
  pub v : A
  pub vol : ℕ

module _ {ℓ} {A : Type ℓ} ⦃n : Num A⦄ where
  -- The place of a value; `steps` is the number of values less one.
  abbrev pub spark_point : A → A → A → A → ℕ → ℕ → A → A × A
  spark_point width height mn span steps i v = (
    n.add (n.mul (n.div (n.of_ℕ i) (n.of_ℕ steps)) (n.sub width (n.mul (n.of_ℕ 2) (n.of_ℕ 2))))
        (n.of_ℕ 2),
    n.sub (n.sub height (n.of_ℕ 2))
        (n.mul (n.div (n.sub v mn) span) (n.sub height (n.mul (n.of_ℕ 2) (n.of_ℕ 2)))),
  )

  -- `data.map((v, i) => ...)` from an index on.
  unfoldable pub spark_from : A → A → A → A → ℕ → ℕ → List A → List (A × A)
  spark_from width height mn span steps i [] = []
  spark_from width height mn span steps i (v ∷ values) =
      spark_point width height mn span steps i v
      ∷ spark_from width height mn span steps (i + 1) values

  -- `data[data.length - 1] >= data[0]`
  abbrev pub last_rises : A → Option A → Bool
  last_rises first none = n.le first first
  last_rises first (some last) = n.le first last

  -- The line of two values or more.
  unfoldable pub spark_line : A → A → A → List A → Spark A
  unfolding spark_from
  spark_line width height first rest =
      let values = first ∷ rest in
      let mn = lowest values in
      record {
        points =
            spark_from width height mn (or_nonzero (n.sub (highest values) mn) (n.of_ℕ 1))
              (length rest) 0 values;
        rises = last_rises first (last? values);
      }

  -- `none` where there is no line to draw.
  unfoldable pub spark : A → A → Option (List A) → Option (Spark A)
  unfolding spark_line
  spark width height none = none
  spark width height (some []) = none
  spark width height (some (a ∷ [])) = none
  spark width height (some (a ∷ b ∷ values)) = some (spark_line width height a (b ∷ values))

  -- The window of the hero's candles.
  unfoldable pub window_low : List (Candle A) → A
  window_low [] = n.of_ℕ 0
  window_low (c ∷ candles) = lowest (map (λ (d : Candle A). d.l) (c ∷ candles))

  unfoldable pub window_high : List (Candle A) → A
  window_high [] = n.of_ℕ 1
  window_high (c ∷ candles) = highest (map (λ (d : Candle A). d.h) (c ∷ candles))

  -- The place of a value, in percent from the top.
  unfoldable pub hero_y : List (Candle A) → A → A
  unfolding window_low window_high
  hero_y candles v =
      let span = or_nonzero (n.sub (window_high candles) (window_low candles)) (n.of_ℕ 1) in
      n.mul (n.div (n.sub (window_high candles) v) span) (n.of_ℕ 100)

  abbrev pub window_text : NumberTexts A → List (Candle A) → A → String
  window_text t [] a = "—"
  window_text t (c ∷ candles) a = usd t a

  unfoldable pub hero_stats :
      NumberTexts A → (ℕ → String) → List (Candle A) → CoinMeta A → List Stat
  unfolding window_low window_high
  hero_stats t text candles coin =
      record { label = "Window high"; value = window_text t candles (window_high candles) }
      ∷ record { label = "Window low"; value = window_text t candles (window_low candles) }
      ∷ record { label = "Volume 24h"; value = or_dash t coin.volume_24h }
      ∷ record { label = "Market cap"; value = or_dash t coin.market_cap }
      ∷ record { label = "Rank"; value = rank_text text coin.rank }
      ∷ []

  abbrev pub last_start : Candle A → Option (Candle A) → Option (ℕ × ℕ)
  last_start first none = none
  last_start first (some last) = some (first.t, last.t)

  -- The first and the last start of a bucket.
  unfoldable pub hero_range : List (Candle A) → Option (ℕ × ℕ)
  hero_range [] = none
  hero_range (c ∷ candles) = last_start c (last? (c ∷ candles))

-- `dir === "up" ? ... : ...`; `dir` is null before the first move.
abbrev pub direction : Option Move → String
direction (some up) = "var(--cw-up)"
direction other = "var(--cw-down)"

-- `flashing ? (dir === "up" ? ... : ...) : ...`
unfoldable pub price_color : Bool → Option Move → String
price_color flashing dir = if flashing then direction dir else "var(--cw-fg)"

module _ {ℓ} {A : Type ℓ} ⦃n : Num A⦄ (number : String → A) where
  -- `30 + ((i * 17) % 65)` goes with the point at index `i`.
  unfoldable pub trade_from : ℕ → List PricePoint → List (TradePoint A)
  trade_from i [] = []
  trade_from i (p ∷ points) =
      record { t = p.observed_at; v = number p.value; vol = 30 + i * 17 % 65 }
      ∷ trade_from (i + 1) points

  -- `btc?.points ?? []`
  unfoldable pub points_of_coin : String → List CoinSeries → List PricePoint
  points_of_coin coin [] = []
  points_of_coin coin (s ∷ series) =
      if str_eq s.coin coin then s.points else points_of_coin coin series

  unfoldable pub trade_points : List CoinSeries → List (TradePoint A)
  unfolding trade_from points_of_coin
  trade_points series = trade_from 0 (points_of_coin "BTC" series)

  -- The change in percent from the first point to the last; both must be there and not 0.
  abbrev pub change_between : Option A → Option A → A
  change_between (some first) (some latest) =
      if is_truthy first && is_truthy latest
      then n.mul (n.div (n.sub latest first) first) (n.of_ℕ 100)
      else n.sub (n.of_ℕ 0) (n.div (n.of_ℕ 297) (n.of_ℕ 100))
  change_between first latest = n.sub (n.of_ℕ 0) (n.div (n.of_ℕ 297) (n.of_ℕ 100))
