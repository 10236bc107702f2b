-- ===== src/Cards/Favorites.antt =====
-- The favorites float to the top, in every order, and some currency always shows.
use mathlib.Core.List.{Perm}
use crypto_dashboard.Prelude.{
  ◌≡◌, arith, String, ◌⊎◌, inl, inr, Bool, true, false, List, [], ◌∷◌, All, Bool-cases,
}
use crypto_dashboard.Prelude.Sets.{has}
use crypto_dashboard.Prelude.Sort.{filter, place, sort, sort-perm}
use crypto_dashboard.Numbers.{Num}
use crypto_dashboard.Price.{CoinMeta, Price, Coin}
use crypto_dashboard.Cards.{
  compare_coins, by_choice, SortBy, order, is_listed, normal_query, keys, group, ranks_from,
  changes_of,
}

-- Behind a coin that is no favorite there is no favorite.
abbrev pub FavoritesFirst : List Coin → List Coin → Type 0
FavoritesFirst favorites [] = Unit
FavoritesFirst favorites (c ∷ cs) =
    ((has c favorites ≡ true) ⊎ All (λ d. has d favorites ≡ false) cs) × FavoritesFirst favorites cs

module _ (favorites : List Coin) (choice : Coin → Coin → Bool) where
  abbrev before : Coin → Coin → Bool
  before = compare_coins favorites choice

  All-place_other :
      (c : Coin) (cs : List Coin)
      → has c favorites ≡ false
      → All (λ d. has d favorites ≡ false) cs
      → All (λ d. has d favorites ≡ false) (place before c cs)
  unfolding place
  All-place_other c [] h hs = (h, tt)
  All-place_other c (d ∷ cs) h hs = elim (Bool-cases (before c d)) [
    | inl e ↦ rw e (h, hs)
    | inr e ↦ rw e (hs.0, All-place_other c cs h hs.1)
  ]

  -- Coins that are no favorites come after no favorite, and before no favorite.
  other_after : (c d : Coin) → before c d ≡ true → has c favorites ≡ false → has d favorites ≡ false
  unfolding compare_coins
  other_after c d e h = ground arith

  other_before :
      (c d : Coin) → before c d ≡ false → has d favorites ≡ false → has c favorites ≡ false
  unfolding compare_coins
  other_before c d e h = ground arith

  rest_of : {P : Type 0} (d : Coin) → (has d favorites ≡ true) ⊎ P → has d favorites ≡ false → P
  rest_of d (inl fav) h = cc
  rest_of d (inr p) h = p

  place-FavoritesFirst :
      (c : Coin) (cs : List Coin)
      → FavoritesFirst favorites cs
      → FavoritesFirst favorites (place before c cs)
  unfolding place
  place-FavoritesFirst c [] f = (inr tt, tt)
  place-FavoritesFirst c (d ∷ cs) f = elim (Bool-cases (before c d)) [
    | inl e ↦ rw e (
      elim (Bool-cases (has c favorites)) [
        | inl fav ↦ inl fav
        | inr other ↦ let h = other_after c d e other in inr (h, rest_of d f.0 h)
      ],
      f,
    )
    | inr e ↦ rw e (
      elim (Bool-cases (has d favorites)) [
        | inl fav ↦ inl fav
        | inr other ↦ inr (All-place_other c cs (other_before c d e other) (rest_of d f.0 other))
      ],
      place-FavoritesFirst c cs f.1,
    )
  ]

  sort-FavoritesFirst : (cs : List Coin) → FavoritesFirst favorites (sort before cs)
  unfolding sort
  sort-FavoritesFirst [] = tt
  sort-FavoritesFirst (c ∷ cs) = place-FavoritesFirst c (sort before cs) (sort-FavoritesFirst cs)

module _ {ℓ} {A : Type ℓ} ⦃n : Num A⦄ where
  -- In every order, whatever the sort, the search and the numbers: the page shows the coins with a price that
  -- match the search and the choice of favorites, each as often as it has a group, and no favorite stands behind
  -- a coin that is none.
  pub order_favorites :
      (text_le : String → String → Bool) (coins : List (CoinMeta A))
      (by_symbol : List (String × CoinMeta A)) (prices : List (Price A)) (favorites : List Coin)
      (fav_only : Bool) (sort_by : SortBy) (query : String)
      → let shown = order text_le coins by_symbol prices favorites fav_only sort_by query in
        FavoritesFirst favorites shown
        × Perm shown (
            filter
              (is_listed by_symbol favorites fav_only (normal_query query))
              (keys (group prices [])))
  unfolding order
  order_favorites text_le coins by_symbol prices favorites fav_only sort_by query =
      let choice =
        by_choice text_le (ranks_from 0 coins []) (changes_of prices []) by_symbol sort_by in
      let listed =
        filter (is_listed by_symbol favorites fav_only (normal_query query))
          (keys (group prices [])) in
      (
        sort-FavoritesFirst favorites choice listed,
        sort-perm (compare_coins favorites choice) listed,
      )
