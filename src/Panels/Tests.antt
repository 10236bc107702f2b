-- ===== src/Panels/Tests.antt =====
-- The panels at a small market, and the theorems at it.
use crypto_dashboard.Panels.Largest.{changed, movers-LargestFirst, LargestFirst}
use crypto_dashboard.Numbers.{◌≼◌}
use crypto_dashboard.Correlation.{minus_one}
use crypto_dashboard.Correlation.Matrix.{entry}
use crypto_dashboard.Panels.Compared.{is_not_behind, matrix_of_lem, week}
use crypto_dashboard.Correlation.Matrix.{value_at}
use crypto_dashboard.Prelude.{
  ◌+◌, min, length, ◌++◌, ◌≡◌, refl, String, Option, none, some, List, [], ◌∷◌, map, replicate,
}
use crypto_dashboard.Prelude.Int.{ℤ, pos, negsuc, ◌-ℤ◌, ◌*ℤ◌, ◌+ℤ◌}
use mathlib.Core.List.{Perm}
use crypto_dashboard.Prelude.Sort.{IsSorted, filter, sort, place}
use crypto_dashboard.Numbers.{◌≼◌}
use crypto_dashboard.Numbers.Integers.{int_num, ℤ-IsSigned, ℤ-IsGroup}
use crypto_dashboard.Numbers.Extents.{lowest_from, highest_from}
use crypto_dashboard.Price.{CoinMeta}
use crypto_dashboard.Price.Colors.{brand}
use crypto_dashboard.Panels.Movers.{movers, moves_more, bars, bars_of, sampled}
use crypto_dashboard.Panels.Risk.{
  matrix_of, ranks_first, compared, by_volatility, wilder, with_vol, has_week, matrix_cell,
}
use crypto_dashboard.Panels.Heatmap.{mcap, tiles, eligible, has_weight, weighs_more}
use crypto_dashboard.Panels.Top.{IsTop, by_volatility-IsTop}
use crypto_dashboard.Panels.Tiles.{IsMap, tiles-IsMap}

abbrev coin : String → Option ℤ → Option ℤ → Option (List ℤ) → CoinMeta ℤ
coin symbol cap change week = record {
  symbol = symbol;
  name = symbol;
  id = symbol;
  image = none;
  rank = none;
  color = brand "#fff";
  market_cap = cap;
  volume_24h = none;
  change_24h = change;
  circulating_supply = none;
  sparkline_7d = week;
}

abbrev eth : CoinMeta ℤ
eth = coin "ETH" (some (pos 10)) (some (negsuc 8)) (some (replicate 30 (pos 7)))

abbrev btc : CoinMeta ℤ
btc = coin "BTC" (some (pos 30)) (some (pos 3)) (some (pos 1 ∷ pos 2 ∷ replicate 30 (pos 3)))

abbrev coins : List (CoinMeta ℤ)
coins = eth ∷ btc ∷ coin "NEW" none none none ∷ []

abbrev symbols_of : List (CoinMeta ℤ) → List String
symbols_of cs = map (λ (c : CoinMeta ℤ). c.symbol) cs

chosen :
    (symbols_of (movers coins) ≡ "ETH" ∷ "BTC" ∷ [])
    × (symbols_of (eligible mcap coins) ≡ "BTC" ∷ "ETH" ∷ [])
    × (bars (some (pos 5 ∷ pos 9 ∷ [])) ≡ pos 12 ∷ pos 100 ∷ [])
    × (matrix_cell (pos 860) 12 ≡ pos 46)
unfolding movers filter sort place moves_more eligible has_weight weighs_more bars bars_of sampled
    lowest_from highest_from matrix_cell ◌-ℤ◌ ◌*ℤ◌ ◌+ℤ◌
chosen = (refl, refl, refl, refl)

movers-LargestFirst_example :
    (rest : List (CoinMeta ℤ)) × Perm (movers coins ++ rest) (changed coins)
    × LargestFirst (movers coins ++ rest)
    × (length (movers coins) ≡ min 14 (length (movers coins) + length rest))
movers-LargestFirst_example = movers-LargestFirst ℤ-IsSigned coins

by_volatility-IsTop_run :
    IsTop wilder 10 (map with_vol (filter has_week coins)) (by_volatility 10 coins)
by_volatility-IsTop_run = by_volatility-IsTop ℤ-IsSigned 10 coins

tiles-IsMap_example :
    IsMap (eligible mcap coins) (tiles mcap (pos 960) (pos 403) coins)
    × Perm (eligible mcap coins) (filter (has_weight mcap) coins)
    × IsSorted (weighs_more mcap) (eligible mcap coins)
tiles-IsMap_example =
    tiles-IsMap ℤ-IsSigned (λ a. ℤ-IsGroup.zero_add a) mcap (pos 960) (pos 403) coins refl refl

matrix_of_lem_example :
    let r = value_at 1 0 (week btc) (week eth) in
    let m = matrix_of 8 coins in
    IsTop is_not_behind 8 (filter has_week coins) (compared 8 coins)
    × (entry m 1 0 ≡ some r)
    × (entry m 0 1 ≡ some r)
    × (minus_one ≼ r)
    × (r ≼ pos 1)
unfolding compared filter sort place ranks_first
matrix_of_lem_example = matrix_of_lem ℤ-IsSigned 8 coins 1 0 btc eth refl refl
