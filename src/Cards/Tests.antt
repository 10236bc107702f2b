-- ===== src/Cards/Tests.antt =====
-- Three coins with a favorite among them.
use mathlib.Core.List.{Perm}
use crypto_dashboard.Prelude.{◌≡◌, refl, String, some, List, [], ◌∷◌, map, true, false, Bool}
use crypto_dashboard.Prelude.Int.{ℤ, pos, ◌-ℤ◌}
use crypto_dashboard.Prelude.Maps.{lookup, insert}
use crypto_dashboard.Prelude.Sets.{has, delete}
use crypto_dashboard.Prelude.Sort.{filter, sort, place}
use crypto_dashboard.Numbers.Integers.{int_num}
use crypto_dashboard.Price.{Price, Coin}
use crypto_dashboard.Texts.{lower, lower_char}
use crypto_dashboard.Observability.Exposition.{trim, trim_start, trim_end, text_of}
use crypto_dashboard.Cards.{
  order, ranks_from, group, changes_of, by_choice, compare_coins, is_listed, normal_query, includes,
  keys, change, toggle_currency, lines, place_of,
}
use crypto_dashboard.Cards.Favorites.{FavoritesFirst, order_favorites}

abbrev price : Coin → String → ℤ → Price ℤ
price coin currency c = record {
  coin = coin;
  currency = currency;
  value = "1";
  observed_at = 1;
  change_24h = some c;
}

abbrev prices : List (Price ℤ)
prices =
    price "BTC" "USD" (pos 2)
    ∷ price "ETH" "USD" (pos 9)
    ∷ price "BTC" "EUR" (pos 2)
    ∷ price "SOL" "USD" (pos 1)
    ∷ []

abbrev no_order : String → String → Bool
no_order a b = true

by_change :
    (order no_order [] [] prices ("SOL" ∷ []) false change "" ≡ "SOL" ∷ "ETH" ∷ "BTC" ∷ [])
    × (order no_order [] [] prices [] false change " Bt " ≡ "BTC" ∷ [])
    × (toggle_currency "USD" ("USD" ∷ []) ≡ "USD" ∷ [])
    × (map (λ (p : Price ℤ). p.currency) (lines ("EUR" ∷ "USD" ∷ []) "BTC" prices)
        ≡ "USD" ∷ "EUR" ∷ [])
unfolding order ranks_from group changes_of by_choice compare_coins is_listed normal_query includes
    filter sort place lookup insert has lower lower_char trim trim_start trim_end text_of
    toggle_currency delete lines place_of ◌-ℤ◌
by_change = (refl, refl, refl, refl)

order_favorites_example :
    FavoritesFirst ("SOL" ∷ []) (order no_order [] [] prices ("SOL" ∷ []) false change "")
    × Perm (order no_order [] [] prices ("SOL" ∷ []) false change "") (
        filter (is_listed {A = ℤ} [] ("SOL" ∷ []) false (normal_query "")) (keys (group prices [])))
order_favorites_example = order_favorites no_order [] [] prices ("SOL" ∷ []) false change ""
