-- ===== src/Charts/CoinPage.antt =====
-- frontend/src/presentation/components/CoinDetail.tsx: the page of one coin, and the present prices of
-- Extremes.tsx beside it.
use crypto_dashboard.Prelude.{
  ℕ, ◌+◌, ◌==◌, ◌≡◌, refl, arith, String, str_eq, true, false, Option, none, some, List, [], ◌∷◌,
  map, if◌then◌else◌,
}
use crypto_dashboard.Prelude.Maps.{lookup, insert}
use crypto_dashboard.Texts.{upper}
use crypto_dashboard.Price.{Price, PricePoint}
use crypto_dashboard.Price.Colors.{Color, color_for_symbol}
use crypto_dashboard.Charts.Candlestick.{Load, begin, arrive, fail, fail_quietly}

-- `searchParams.get("symbol")`, in upper case.
abbrev pub or_empty : Option String → String
or_empty none = ""
or_empty (some t) = t

unfoldable pub symbol_of : Option String → String
unfolding upper
symbol_of parameter = upper (or_empty parameter)

-- The effect: without a symbol nothing is loaded.
unfoldable pub load_series : String → Load PricePoint → Load PricePoint
unfolding begin
load_series symbol f = if str_eq symbol "" then f else begin f

module _ {ℓ} {A : Type ℓ} (number : String → A) where
  -- The prices of the coin by currency.
  unfoldable pub current_prices : String → List (Price A) → List (String × A) → List (String × A)
  unfolding insert
  current_prices symbol [] table = table
  current_prices symbol (p ∷ prices) table =
      current_prices symbol prices
        (if str_eq p.coin symbol then insert p.currency (number p.value) table else table)

  unfoldable pub price_in : String → String → List (Price A) → Option A
  unfolding current_prices lookup
  price_in symbol currency prices = lookup currency (current_prices symbol prices [])

  unfoldable pub chart_data : List PricePoint → List (ℕ × A)
  chart_data series = map (λ (p : PricePoint). (p.observed_at, number p.value)) series

  -- The prices in a currency by coin, in Extremes.
  unfoldable pub prices_by_coin : String → List (Price A) → List (String × A) → List (String × A)
  unfolding insert
  prices_by_coin currency [] table = table
  prices_by_coin currency (p ∷ prices) table =
      prices_by_coin currency prices
        (if str_eq p.currency currency then insert p.coin (number p.value) table else table)

unfoldable pub stroke_of : String → Color
unfolding color_for_symbol
stroke_of symbol = color_for_symbol (if str_eq symbol "" then "BTC" else symbol)

self : (k : ℕ) → (k == k) ≡ true
self k = ground arith

module _ {ℓ} {B : Type ℓ} where
  -- A choice is made while a series shows, and its request fails: the page of the coin is not loading and
  -- still shows the old series, with no error, under the new choice; the chart of candles, which loads
  -- in the same way, shows the error. The component is mounted.
  pub coin_page_stale :
      (items : List B) (err : String) (f : Load B)
      → f.mounted ≡ true
      → let shown = begin (arrive f.run items f) in
        let page = fail_quietly shown.run shown in
        (page.items ≡ items)
        × (page.loading ≡ false)
        × (page.error ≡ none)
        × ((fail shown.run err shown).error ≡ some err)
  unfolding begin arrive fail fail_quietly
  coin_page_stale items err f h = rw (h, self f.run, self (f.run + 1)) (refl, refl, refl, refl)
