-- ===== src/Market/Tests.antt =====
-- Figures of a small market, and the theorems at it.
use crypto_dashboard.Prelude.{◌≡◌, refl, ◌+◌, String, Option, none, some, List, [], ◌∷◌, length}
use crypto_dashboard.Prelude.Int.{ℤ, pos, negsuc, ◌+ℤ◌, ◌-ℤ◌, ◌*ℤ◌}
use crypto_dashboard.Numbers.{◌≼◌, sum}
use crypto_dashboard.Numbers.Integers.{int_num, ℤ-IsGroup, ℤ-IsSigned}
use crypto_dashboard.Price.{CoinMeta}
use crypto_dashboard.Price.Colors.{brand}
use crypto_dashboard.Market.{
  changes, advancers, decliners, average, fear, with_cap, caps, total_cap, place, sort, top_slices,
  other_cap,
}
use crypto_dashboard.Market.Cover.{slices_cover}
use crypto_dashboard.Market.Breadth.{breadth_lem}

abbrev coin : String → Option ℤ → Option ℤ → CoinMeta ℤ
coin symbol cap change = record {
  symbol = symbol;
  name = symbol;
  id = symbol;
  image = none;
  rank = none;
  color = brand "#fff";
  market_cap = cap;
  volume_24h = none;
  change_24h = change;
  circulating_supply = none;
  sparkline_7d = none;
}

abbrev coins : List (CoinMeta ℤ)
coins =
    coin "ETH" (some (pos 10)) (some (negsuc 0))
    ∷ coin "BTC" (some (pos 30)) (some (pos 3))
    ∷ coin "NEW" none none
    ∷ []

abbrev same : ℤ → ℤ
same a = a

ring : caps (top_slices coins) ≡ pos 30 ∷ pos 10 ∷ []
unfolding top_slices sort place with_cap
ring = refl

index : fear same (changes coins) ≡ pos 59
unfolding fear changes advancers decliners average ◌+ℤ◌ ◌-ℤ◌ ◌*ℤ◌
index = refl

slices_cover_example : sum (caps (top_slices coins)) +ℤ other_cap coins ≡ total_cap coins
slices_cover_example = slices_cover ℤ-IsGroup coins

breadth_lem_run :
    (advancers (changes coins) + decliners (changes coins) ≡ length (changes coins))
    × (pos 2 ≼ fear same (changes coins))
    × (fear same (changes coins) ≼ pos 98)
breadth_lem_run = breadth_lem ℤ-IsSigned same (changes coins)
