-- ===== src/Charts/Tests.antt =====
-- Small charts, and the theorems at them.
use crypto_dashboard.Prelude.{
  ◌≡◌, refl, ℕ, String, none, some, List, [], ◌∷◌, if◌then◌else◌, ◌==◌, str_eq, false,
}
use crypto_dashboard.Prelude.Int.{ℤ, pos, ◌+ℤ◌, ◌-ℤ◌, ◌*ℤ◌}
use crypto_dashboard.Numbers.Integers.{int_num, ℤ-IsSigned}
use crypto_dashboard.Price.{Price, PricePoint}
use crypto_dashboard.Candles.{Candle}
use crypto_dashboard.Hooks.AllSeries.{CoinSeries}
use crypto_dashboard.Charts.Realtime.{Chart, reset, receive, take, find_price, add_tick, live}
use crypto_dashboard.Charts.Window.{IsWindow, receive_all, realtime-IsWindow}
use crypto_dashboard.Charts.Candlestick.{
  Overlays, Extent, range_of, extent_of, with_candles, fold, overlays_of, closes, line_points,
}
use crypto_dashboard.Charts.Candlestick
use crypto_dashboard.Charts.Candlestick.{begin, arrive, fail, fail_quietly}
use crypto_dashboard.Charts.CoinPage.{coin_page_stale}
use crypto_dashboard.Charts.Range.{IsInRange, range_of-IsInRange}
use crypto_dashboard.Charts.Relative.{add_series}
use crypto_dashboard.Charts.Overlay.{entry, wanted, entry-add_series}

abbrev number : String → ℤ
number s = if str_eq s "5" then pos 5 else pos 10

abbrev price : String → ℕ → Price ℤ
price value t = record {
  coin = "BTC";
  currency = "USD";
  value = value;
  observed_at = t;
  change_24h = none;
}

abbrev chart : Chart ℤ
chart = record {
  coin = "BTC";
  currency = "USD";
  source = live;
  ticks = [];
  last = none;
  dir = none;
  previous = none;
}

abbrev batches : List (List (Price ℤ))
batches = (price "5" 1 ∷ []) ∷ (price "10" 1 ∷ []) ∷ []

-- The second price of a millisecond takes the place of the first.
ticks_of : (receive_all number batches (reset chart)).ticks ≡ record { t = 1; v = pos 10 } ∷ []
unfolding receive reset take find_price add_tick
ticks_of = refl

realtime-IsWindow_example : IsWindow (receive_all number batches (reset chart))
realtime-IsWindow_example = realtime-IsWindow number batches chart

abbrev candles : List (Candle ℤ)
candles =
    record { t = 0; o = pos 100; h = pos 300; l = pos 100; c = pos 200 }
    ∷ record { t = 1; o = pos 200; h = pos 200; l = pos 150; c = pos 150 }
    ∷ []

abbrev overlays : Overlays ℤ
overlays = record {
  fast = some (none ∷ some (pos 400) ∷ []);
  slow = none;
  bands = none;
  strength = none;
}

axis :
    (range_of candles overlays ≡ record { lo = pos 99; hi = pos 401 })
    × (line_points (pos 10) (λ v. v) 0 (none ∷ some (pos 7) ∷ []) ≡ (pos 75, pos 7) ∷ [])
unfolding range_of extent_of with_candles fold ◌+ℤ◌ ◌-ℤ◌ ◌*ℤ◌ line_points
axis = (refl, refl)

range_of-IsInRange_example : IsInRange candles overlays (range_of candles overlays)
range_of-IsInRange_example =
    range_of-IsInRange ℤ-IsSigned candles overlays ((refl, refl), ((refl, refl), tt)) cc

abbrev iso : ℕ → String
iso k = if k == 1 then "t1" else "t2"

abbrev series : List CoinSeries
series =
    record {
      coin = "BTC";
      points =
          record { value = "5"; observed_at = 1 } ∷ record { value = "10"; observed_at = 2 } ∷ [];
    }
    ∷ []

doubled : wanted iso number "t2" "BTC" series ≡ some (pos 100)
unfolding ◌-ℤ◌ ◌*ℤ◌
doubled = refl

entry-add_series_example :
    entry "t2" "BTC" (add_series iso number series ([], [])).0 ≡ wanted iso number "t2" "BTC" series
entry-add_series_example = entry-add_series iso number "t2" "BTC" series

abbrev points : List PricePoint
points = record { value = "5"; observed_at = 1 } ∷ []

coin_page_stale_run :
    let shown = begin (arrive 0 points Candlestick.mount) in
    let page = fail_quietly shown.run shown in
    (page.items ≡ points)
    × (page.loading ≡ false)
    × (page.error ≡ none)
    × ((fail shown.run "down" shown).error ≡ some "down")
coin_page_stale_run = coin_page_stale points "down" Candlestick.mount refl
