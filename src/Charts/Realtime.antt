-- ===== src/Charts/Realtime.antt =====
-- frontend/src/presentation/components/RealtimeChart.tsx: the rolling window of live prices.
use crypto_dashboard.Prelude.{
  false, true, ℕ, ◌-◌, ◌==◌, leb, ltb, ◌&&◌, not, String, str_eq, Bool, Option, none, some, List,
  [], ◌∷◌, ◌++◌, if◌then◌else◌, length, drop, last?, init,
}
use crypto_dashboard.Prelude.Sort.{filter}
use crypto_dashboard.Numbers.{Num}
use crypto_dashboard.Price.{CoinMeta, Price}
use crypto_dashboard.Hooks.PriceFlash.{Move, up, down}

-- `MAX_TICKS`
abbrev pub max_ticks : ℕ
max_ticks = 600

pub data Source : Type 0 where
  live backend binance : Source

abbrev pub is_binance : Source → Bool
is_binance binance = true
is_binance other = false

pub record Tick {ℓ} (A : Type ℓ) : Type ℓ where
  pub t : ℕ
  pub v : A

-- The state with the reference to the last value, `prevRef`.
pub record Chart {ℓ} (A : Type ℓ) : Type ℓ where
  pub coin : String
  pub currency : String
  pub source : Source
  pub ticks : List (Tick A)
  pub last : Option A
  pub dir : Option Move
  pub previous : Option A

module _ {ℓ} {A : Type ℓ} where
  abbrev pub mount : Chart A
  mount = record {
    coin = "";
    currency = "USD";
    source = live;
    ticks = [];
    last = none;
    dir = none;
    previous = none;
  }

  -- The effect that runs on each choice of a coin, a currency and a source.
  unfoldable pub reset : Chart A → Chart A
  reset c = record c { ticks = []; last = none; previous = none }

  -- The effect that sets the first coin.
  unfoldable pub default_coin : List (CoinMeta A) → Chart A → Chart A
  default_coin [] c = c
  default_coin (m ∷ coins) c = if str_eq c.coin "" then record c { coin = m.symbol } else c

  -- The exchange's pairs are in dollars.
  unfoldable pub pin_currency : Chart A → Chart A
  pin_currency c =
      if is_binance c.source && not (str_eq c.currency "USD")
      then record c { currency = "USD" }
      else c

  -- `recent / 2` is the number of recent ticks and a half of it is shown; here the recent ones.
  unfoldable pub recent_ticks : List (Tick A) → ℕ → ℕ
  unfolding filter
  recent_ticks ticks now = length (filter (λ (k : Tick A). leb (now - k.t) 2000) ticks)

  abbrev pub rate_at : (ℕ → A) → List (Tick A) → Option (Tick A) → A
  rate_at half ticks none = half 0
  rate_at half ticks (some last) = half (recent_ticks ticks last.t)

  -- The ticks of a second, over the last two seconds; `half` divides by two.
  unfoldable pub rate : (ℕ → A) → List (Tick A) → A
  unfolding recent_ticks
  rate half ticks = if ltb (length ticks) 2 then half 0 else rate_at half ticks (last? ticks)

  -- `prices.find((p) => p.coin === coin && p.currency === currency)`
  unfoldable pub find_price : String → String → List (Price A) → Option (Price A)
  find_price coin currency [] = none
  find_price coin currency (p ∷ ps) =
      if str_eq p.coin coin && str_eq p.currency currency
      then some p
      else find_price coin currency ps

  -- `[...prev, tick].slice(-MAX_TICKS)`
  abbrev pub keep_ticks : List (Tick A) → List (Tick A)
  keep_ticks ticks = drop (length ticks - max_ticks) ticks

  -- A tick of the time of the last one replaces it.
  unfoldable pub add_tick : List (Tick A) → Tick A → Option (Tick A) → List (Tick A)
  add_tick prev tick none = keep_ticks (prev ++ tick ∷ [])
  add_tick prev tick (some last) =
      if last.t == tick.t then init prev ++ tick ∷ [] else keep_ticks (prev ++ tick ∷ [])

module _ {ℓ} {A : Type ℓ} ⦃n : Num A⦄ where
  abbrev pub dir_after : Option A → A → Option Move → Option Move
  dir_after none v dir = dir
  dir_after (some previous) v dir = some (if n.le previous v then up else down)

  -- A price of the shown pair comes.
  unfoldable pub take : A → ℕ → Chart A → Chart A
  unfolding add_tick
  take v t c = record c {
    ticks = add_tick c.ticks (record { t = t; v = v }) (last? c.ticks);
    dir = dir_after c.previous v c.dir;
    previous = some v;
    last = some v;
  }

  abbrev pub take_hit : (String → A) → Option (Price A) → Chart A → Chart A
  take_hit number none c = c
  take_hit number (some p) c = take (number p.value) p.observed_at c

  -- The subscriber of the stream, for a chart with a coin.
  unfoldable pub receive : (String → A) → List (Price A) → Chart A → Chart A
  unfolding take find_price
  receive number prices c =
      if str_eq c.coin "" then c else take_hit number (find_price c.coin c.currency prices) c
