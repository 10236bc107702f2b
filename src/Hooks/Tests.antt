-- ===== src/Hooks/Tests.antt =====
-- Runs of the hooks, and the theorems at concrete states.
use crypto_dashboard.Prelude.{
  arith, ◌≡◌, ℕ, ◌-◌, String, true, false, Option, none, some, List, [], ◌∷◌, refl, map, All,
}
use crypto_dashboard.Prelude.Maps.{HasUniqueKeys, latest, or_else}
use crypto_dashboard.Prelude.Int.{ℤ, pos}
use crypto_dashboard.Numbers.Integers.{int_num, ℤ-IsOrdered}
use crypto_dashboard.Price.{Price}
use crypto_dashboard.Candles.Series.{IsSeries}
use crypto_dashboard.Hooks.LivePrices.{merge}
use crypto_dashboard.Hooks.LivePrices.Merge.{by_pair, merge_lem}
use crypto_dashboard.Hooks.LiveCandles
use crypto_dashboard.Hooks.PriceFlash
use crypto_dashboard.Hooks.PriceFlash.Flashing.{flash_sticks}
use crypto_dashboard.Hooks.TickRate
use crypto_dashboard.Hooks.TickRate.Window.{sample_window, after, updates, batch, timer}
use crypto_dashboard.Hooks.AllSeries
use crypto_dashboard.Hooks.AllSeries.Points.{receive_lem, IsShort}
use crypto_dashboard.Hooks.Coins
use crypto_dashboard.Hooks.Fetched
use crypto_dashboard.Hooks.LocalState
use crypto_dashboard.Hooks.LocalState.Sessions.{local_state_roundtrip, visit}

abbrev price : String → String → String → ℕ → Price ℤ
price coin currency value at = record {
  coin = coin;
  currency = currency;
  value = value;
  observed_at = at;
  change_24h = none;
}

abbrev shown : List (Price ℤ)
shown = price "BTC" "USD" "1" 10 ∷ price "ETH" "USD" "2" 10 ∷ []

abbrev news : List (Price ℤ)
news = price "ETH" "USD" "3" 20 ∷ []

merge_lem_example :
    let after_batch = by_pair (merge shown news) in
    HasUniqueKeys after_batch
    × (latest "ETH:USD" after_batch
        ≡ or_else (latest "ETH:USD" (by_pair news)) (latest "ETH:USD" (by_pair shown)))
merge_lem_example = merge_lem shown news "ETH:USD"

abbrev one : String → ℤ
one s = pos 1

abbrev taped : LiveCandles.Tape ℤ
taped = LiveCandles.receive one "BTC" 5 40 shown (
    LiveCandles.seed "BTC" 5 40 7 (some (pos 3))
      (LiveCandles.reset (record { candles = []; seeded = true })))

live_candles-IsSeries_example : IsSeries 5 taped.candles
live_candles-IsSeries_example = LiveCandles.Buckets.live_candles-IsSeries ℤ-IsOrdered one (
    LiveCandles.Buckets.receives 40 shown (
      LiveCandles.Buckets.seeds 40 7 (some (pos 3))
        (LiveCandles.Buckets.resets (record { candles = []; seeded = true }))))

abbrev lit : PriceFlash.Flash ℤ
lit = record {
  dir = some PriceFlash.up;
  flashing = true;
  prev = some (pos 5);
  first = some (pos 4);
  seen = some (PriceFlash.number (pos 5));
  timer = true;
}

-- The price goes missing, and it is the same when it comes back; then the 450 ms have passed.
abbrev gap : List (PriceFlash.Flashing.Event ℤ)
gap = PriceFlash.Flashing.render (PriceFlash.number (pos 5)) ∷ PriceFlash.Flashing.elapse ∷ []

flash_sticks_example :
    PriceFlash.Flashing.IsStuck
      (PriceFlash.Flashing.run gap (PriceFlash.on_price PriceFlash.undefined lit))
unfolding PriceFlash.on_price PriceFlash.effect PriceFlash.cleanup
flash_sticks_example = flash_sticks lit PriceFlash.undefined gap refl refl refl (refl, tt)

same_price :
    (PriceFlash.timeout (PriceFlash.on_price (PriceFlash.number (pos 5)) lit)).flashing ≡ false
same_price = PriceFlash.Flashing.flash_ends lit (PriceFlash.number (pos 5)) refl refl

abbrev events : List TickRate.Window.Event
events = batch 100 2 ∷ timer 500 ∷ batch 900 1 ∷ timer 2600 ∷ []

sample_window_example :
    TickRate.sample 2000 2700 (after 2000 events []) ≡ TickRate.since (2700 - 2000) (updates events)
sample_window_example =
    sample_window 2000 2700 events (omega arith, (omega arith, (omega arith, (omega arith, tt))))

sample_run : TickRate.sample 2000 2700 (after 2000 events []) ≡ 900 ∷ []
unfolding TickRate.sample TickRate.since TickRate.receive
sample_run = refl

abbrev charts : AllSeries.SeriesState
charts = record {
  series = record { coin = "ETH"; points = record { value = "2"; observed_at = 20 } ∷ [] } ∷ [];
  loading = false;
  error = none;
}

receive_lem_example :
    let t = AllSeries.receive ("ETH" ∷ []) "USD" news charts in
    (map (λ (c : AllSeries.CoinSeries). c.coin) t.series ≡ "ETH" ∷ []) × All IsShort t.series
receive_lem_example = receive_lem ("ETH" ∷ []) "USD" news charts refl (omega arith, tt)

coins_once_run :
    Coins.Once.IsSound (Coins.arrive {A = ℤ} none (Coins.load (Coins.load Coins.fresh)))
unfolding Coins.load Coins.load_from
coins_once_run =
    Coins.Once.coins_once
      (Coins.Once.arrives none refl refl (Coins.Once.loads (Coins.Once.loads Coins.Once.start)))

abbrev choice : ℕ → List String
choice run = "BTC" ∷ []

abbrev found : ℕ → List (Option ℕ)
found run = some run ∷ none ∷ []

-- The reply to the first run comes after the second run began.
fetched-IsCurrent_example : Fetched.Current.IsCurrent choice found (
    Fetched.arrive 1
      (Fetched.present (found 1))
      (Fetched.begin (choice 2) (Fetched.begin (choice 1) Fetched.mount)))
unfolding Fetched.begin
fetched-IsCurrent_example = Fetched.Current.fetched-IsCurrent choice found (
    Fetched.Current.arrives 1 "BTC" [] refl
      (Fetched.Current.begins (Fetched.Current.begins Fetched.Current.start)))

abbrev quoted : String → Option String
quoted s = some s

abbrev plain : String → String
plain s = s

-- The storage takes "b" and refuses "d".
local_state_roundtrip_example :
    let stored = visit quoted plain "a" false (("b", false) ∷ ("d", true) ∷ []) (some "c") in
    (stored ≡ some "b")
    × (LocalState.save plain true (LocalState.mount "a") stored ≡ stored)
    × ((LocalState.load quoted stored (LocalState.mount "a")).value ≡ "b")
local_state_roundtrip_example =
    local_state_roundtrip quoted plain (λ v. refl) "a" "a" false true
      (("b", false) ∷ ("d", true) ∷ []) (some "c")
