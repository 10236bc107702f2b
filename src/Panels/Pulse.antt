-- ===== src/Panels/Pulse.antt =====
-- frontend/src/presentation/components/MarketPulse.tsx: the coins by their change, with a bar for each; and
-- the average of TopMetrics.tsx beside it.
use crypto_dashboard.Prelude.{
  ℕ, String, str_eq, not, Bool, Option, none, some, List, map, if◌then◌else◌, length, ◌==◌,
}
use crypto_dashboard.Prelude.Sort.{filter, sort}
use crypto_dashboard.Numbers.{Num, abs_of, lt_of, sum}
use crypto_dashboard.Numbers.Extents.{highest_from}
use crypto_dashboard.Price.{Price}

module _ {ℓ} {A : Type ℓ} ⦃n : Num A⦄ where
  -- `change ?? -Infinity` and `change ?? 0`
  abbrev pub or_least : Option A → A
  or_least none = n.sub (n.of_ℕ 0) n.infinity
  or_least (some a) = a

  abbrev pub or_zero : Option A → A
  or_zero none = n.of_ℕ 0
  or_zero (some a) = a

  unfoldable pub gains_more : Price A → Price A → Bool
  gains_more a b = not (lt_of (or_least a.change_24h) (or_least b.change_24h))

  unfoldable pub in_currency : String → List (Price A) → List (Price A)
  unfolding filter
  in_currency currency prices = filter (λ (p : Price A). str_eq p.currency currency) prices

  unfoldable pub pulse_rows : String → List (Price A) → List (Price A)
  unfolding sort gains_more in_currency
  pulse_rows currency prices = sort gains_more (in_currency currency prices)

  -- The largest move on the screen, at least 1.
  unfoldable pub max_abs : List (Price A) → A
  max_abs rows = highest_from (n.of_ℕ 1) (map (λ (p : Price A). abs_of (or_zero p.change_24h)) rows)

  -- The width of a bar, in percent of the track with two sides.
  abbrev pub width_pct : A → A → A
  width_pct greatest_move change = n.mul (n.div (abs_of change) greatest_move) (n.of_ℕ 50)

  unfoldable pub gainers : List (Price A) → ℕ
  unfolding filter
  gainers rows = length (filter (λ (p : Price A). lt_of (n.of_ℕ 0) (or_zero p.change_24h)) rows)

  unfoldable pub losers : List (Price A) → ℕ
  unfolding filter
  losers rows = length (filter (λ (p : Price A). lt_of (or_zero p.change_24h) (n.of_ℕ 0)) rows)

  -- The average change of TopMetrics, over the prices in dollars.
  unfoldable pub average_change : List (Price A) → A
  unfolding in_currency
  average_change prices =
      let usd = in_currency "USD" prices in
      if length usd == 0
      then n.of_ℕ 0
      else n.div (sum (map (λ (p : Price A). or_zero p.change_24h) usd)) (n.of_ℕ (length usd))

  abbrev pub sentiment : A → String
  sentiment average = if n.le (n.of_ℕ 0) average then "Greed" else "Fear"
