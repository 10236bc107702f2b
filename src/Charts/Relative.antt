-- ===== src/Charts/Relative.antt =====
-- frontend/src/presentation/components/MultiCoinChart.tsx: the coins in percent of their first point, on one
-- axis of times; and PriceCharts.tsx beside it, which draws one coin. `iso` writes a time as text, and
-- `text_le` is localeCompare.
use crypto_dashboard.Prelude.{
  ℕ, ◌==◌, String, not, Bool, Option, none, some, List, [], ◌∷◌, ◌++◌, map, if◌then◌else◌, length,
  take, last?,
}
use crypto_dashboard.Prelude.Maps.{lookup, insert}
use crypto_dashboard.Prelude.Sets.{has, delete}
use crypto_dashboard.Prelude.Sort.{filter, sort}
use crypto_dashboard.Numbers.{Num, lt_of}
use crypto_dashboard.Price.{CoinMeta, PricePoint}
use crypto_dashboard.Hooks.AllSeries.{CoinSeries}

-- `DEFAULT_PICK`
abbrev pub default_pick : ℕ
default_pick = 6

-- `rowMap`: for each time, the percentages by coin.
abbrev pub Table {ℓ} : Type ℓ → Type ℓ
Table A = List (String × List (String × A))

module _ {ℓ} {A : Type ℓ} where
  -- The first few coins, once they are known.
  unfoldable pub preselect : List (CoinMeta A) → List String → List String
  preselect coins (s ∷ selected) = s ∷ selected
  preselect coins [] = map (λ (c : CoinMeta A). c.symbol) (take default_pick coins)

  -- `rowMap.get(t) ?? { t }`
  abbrev pub row_or_empty : Option (List (String × A)) → List (String × A)
  row_or_empty none = []
  row_or_empty (some row) = row

  unfoldable pub write : String → String → A → Table A → Table A
  unfolding lookup insert
  write t coin pct table = insert t (insert coin pct (row_or_empty (lookup t table))) table

  -- `Array.from(rowMap.values()).sort(...)`
  unfoldable pub rows_in_order : (String → String → Bool) → Table A → Table A
  unfolding sort
  rows_in_order text_le table = sort (λ (a b : String × List (String × A)). text_le a.0 b.0) table

unfoldable pub toggle : String → List String → List String
unfolding has delete
toggle symbol prev = if has symbol prev then delete symbol prev else prev ++ symbol ∷ []

abbrev has_points : CoinSeries → Bool
has_points s = not (length s.points == 0)

unfoldable pub coins_with_data : List CoinSeries → List String
unfolding filter
coins_with_data series = map (λ (s : CoinSeries). s.coin) (filter has_points series)

module _ {ℓ} {A : Type ℓ} ⦃n : Num A⦄ (iso : ℕ → String) (number : String → A) where
  abbrev pub percent : A → PricePoint → A
  percent base p = n.mul (n.div (n.sub (number p.value) base) base) (n.of_ℕ 100)

  -- The loop over the points of a coin: the table and the latest percentages.
  unfoldable pub add_points :
      String → A → List PricePoint → Table A × List (String × A) → Table A × List (String × A)
  unfolding write insert
  add_points coin base [] (table, latest) = (table, latest)
  add_points coin base (p ∷ points) (table, latest) =
      add_points coin base points
        (write (iso p.observed_at) coin (percent base p) table, insert coin (percent base p) latest)

  abbrev pub add_coin :
      String → List PricePoint → Table A × List (String × A) → Table A × List (String × A)
  add_coin coin [] state = state
  add_coin coin (p ∷ points) state =
      if lt_of (n.of_ℕ 0) (number p.value)
      then add_points coin (number p.value) (p ∷ points) state
      else state

  -- The loop over the coins; one whose first price is not positive is left out.
  unfoldable pub add_series :
      List CoinSeries → Table A × List (String × A) → Table A × List (String × A)
  unfolding add_points
  add_series [] state = state
  add_series (s ∷ series) state = add_series series (add_coin s.coin s.points state)

  unfoldable pub dataset : (String → String → Bool) → List CoinSeries → Table A × List (String × A)
  unfolding add_series rows_in_order
  dataset text_le series =
      let (table, latest) = add_series series ([], []) in (rows_in_order text_le table, latest)

  -- The line of PriceCharts, and its last value.
  abbrev pub points_of_first : List CoinSeries → List PricePoint
  points_of_first [] = []
  points_of_first (s ∷ series) = s.points

  unfoldable pub line_data : List CoinSeries → List (String × A)
  line_data series =
      map (λ (p : PricePoint). (iso p.observed_at, number p.value)) (points_of_first series)

  abbrev pub second_or_none : Option (String × A) → Option A
  second_or_none none = none
  second_or_none (some (t, v)) = some v

  unfoldable pub latest_value : List CoinSeries → Option A
  unfolding line_data
  latest_value series = second_or_none (last? (line_data series))
