-- ===== src/Market.antt =====
-- The figures of the whole market: frontend/src/presentation/components/terminal/Breadth.tsx and
-- KpiStrip.tsx beside it, and the slices of frontend/src/presentation/components/MarketOverview.tsx.
pub mod Cover
pub mod Breadth
pub mod Tests
use crypto_dashboard.Prelude.{
  ℕ, ◌+◌, ◌-◌, ◌==◌, String, str_eq, not, ◌&&◌, Bool, Option, none, some, List, [], ◌∷◌, ◌++◌, map,
  if◌then◌else◌, length, take, drop,
}
use crypto_dashboard.Numbers.{Num, sum, clamp_of}
use crypto_dashboard.Price.{CoinMeta}
use crypto_dashboard.Price.Colors.{Color, brand, color_for_symbol}

-- `DONUT_SLICES`
abbrev pub donut_slices : ℕ
donut_slices = 8

pub record Slice {ℓ} (A : Type ℓ) : Type ℓ where
  pub symbol : String
  pub cap : A
  pub color : Color

module _ {ℓ} {A : Type ℓ} where
  abbrev pub present_or : Option A → List A → List A
  present_or none rest = rest
  present_or (some a) rest = a ∷ rest

  -- The changes of the coins that have one.
  unfoldable pub changes : List (CoinMeta A) → List A
  changes [] = []
  changes (c ∷ coins) = present_or c.change_24h (changes coins)

module _ {ℓ} {A : Type ℓ} ⦃n : Num A⦄ where
  -- `a > b`
  abbrev pub gt : A → A → Bool
  gt a b = n.le b a && not (n.le a b)

  unfoldable pub advancers : List A → ℕ
  advancers [] = 0
  advancers (c ∷ cs) = (if n.le (n.of_ℕ 0) c then 1 else 0) + advancers cs

  unfoldable pub decliners : List A → ℕ
  unfolding advancers
  decliners cs = length cs - advancers cs

  unfoldable pub average : List A → A
  average cs = if length cs == 0 then n.of_ℕ 0 else n.div (sum cs) (n.of_ℕ (length cs))

  unfoldable pub up_percent : List A → A
  unfolding advancers
  up_percent cs =
      if length cs == 0
      then n.of_ℕ 50
      else n.mul (n.div (n.of_ℕ (advancers cs)) (n.of_ℕ (length cs))) (n.of_ℕ 100)

  -- The index; `round` is Math.round.
  unfoldable pub fear : (A → A) → List A → A
  unfolding advancers decliners average
  fear round cs = clamp_of (n.of_ℕ 2) (n.of_ℕ 98) (
      round (
        n.add (n.add (n.of_ℕ 50) (n.mul (average cs) (n.of_ℕ 9)))
          (n.mul (n.sub (n.of_ℕ (advancers cs)) (n.of_ℕ (decliners cs))) (n.of_ℕ 2))))

  unfoldable pub mood : A → String
  mood f =
      if gt f (n.of_ℕ 66)
      then "greed"
      else if n.le f (n.of_ℕ 34) && not (n.le (n.of_ℕ 34) f)
      then "fear"
      else "neutral"

  abbrev pub value_or_zero : Option A → A
  value_or_zero none = n.of_ℕ 0
  value_or_zero (some a) = a

  -- The coins with a positive cap, as slices.
  unfoldable pub with_cap : List (CoinMeta A) → List (Slice A)
  with_cap [] = []
  with_cap (c ∷ coins) =
      let rest = with_cap coins in
      let cap = value_or_zero c.market_cap in
      if gt cap (n.of_ℕ 0)
      then record { symbol = c.symbol; cap = cap; color = color_for_symbol c.symbol } ∷ rest
      else rest

  abbrev pub caps : List (Slice A) → List A
  caps slices = map (λ (s : Slice A). s.cap) slices

  unfoldable pub total_cap : List (CoinMeta A) → A
  unfolding with_cap
  total_cap coins = sum (caps (with_cap coins))

  unfoldable pub total_volume : List (CoinMeta A) → A
  total_volume coins = sum (map (λ (c : CoinMeta A). value_or_zero c.volume_24h) coins)

  unfoldable pub cap_of : String → List (Slice A) → Option A
  cap_of symbol [] = none
  cap_of symbol (s ∷ slices) = if str_eq s.symbol symbol then some s.cap else cap_of symbol slices

  abbrev pub share : Option A → A → Option A
  share none total = none
  share (some cap) total =
      if gt total (n.of_ℕ 0) then some (n.mul (n.div cap total) (n.of_ℕ 100)) else none

  unfoldable pub dominance : List (CoinMeta A) → Option A
  unfolding with_cap cap_of total_cap
  dominance coins = share (cap_of "BTC" (with_cap coins)) (total_cap coins)

  -- `sort((a, b) => b.cap - a.cap)`, which is stable.
  unfoldable pub place : Slice A → List (Slice A) → List (Slice A)
  place s [] = s ∷ []
  place s (t ∷ slices) = if n.le t.cap s.cap then s ∷ t ∷ slices else t ∷ place s slices

  unfoldable pub sort : List (Slice A) → List (Slice A)
  unfolding place
  sort [] = []
  sort (s ∷ slices) = place s (sort slices)

  unfoldable pub top_slices : List (CoinMeta A) → List (Slice A)
  unfolding sort with_cap
  top_slices coins = take donut_slices (sort (with_cap coins))

  unfoldable pub other_cap : List (CoinMeta A) → A
  unfolding sort with_cap
  other_cap coins = sum (caps (drop donut_slices (sort (with_cap coins))))

  unfoldable pub slices : List (CoinMeta A) → List (Slice A)
  unfolding top_slices other_cap
  slices coins =
      top_slices coins
      ++ (if gt (other_cap coins) (n.of_ℕ 0)
          then record { symbol = "OTHER"; cap = other_cap coins; color = brand "#3a4150" } ∷ []
          else [])
