-- ===== src/Portfolio.antt =====
-- frontend/src/presentation/components/PortfolioPL.tsx: the holdings, their rows and the totals.
pub mod Sums
pub mod Tests
use crypto_dashboard.Prelude.{
  String, str_eq, not, ◌&&◌, ◌||◌, Bool, Option, none, some, List, [], ◌∷◌, ◌++◌, map,
  if◌then◌else◌,
}
use crypto_dashboard.Prelude.Maps.{lookup, insert_all}
use crypto_dashboard.Numbers.{Num, sum}
use crypto_dashboard.Price.{Price}

pub record Holding {ℓ} (A : Type ℓ) : Type ℓ where
  pub id : String
  pub coin : String
  pub amount : A
  pub avg : A

pub record Row {ℓ} (A : Type ℓ) : Type ℓ where
  pub holding : Holding A
  pub price : A
  pub value : A
  pub cost : A
  pub pnl : A
  pub pnl_pct : A

pub record Totals {ℓ} (A : Type ℓ) : Type ℓ where
  pub value : A
  pub cost : A
  pub pnl : A
  pub pnl_pct : A

module _ {ℓ} {A : Type ℓ} where
  -- The prices in USD; `number` is `Number(text)`.
  unfoldable pub usd_entries : (String → A) → List (Price A) → List (String × A)
  usd_entries number [] = []
  usd_entries number (p ∷ ps) =
      let rest = usd_entries number ps in
      if str_eq p.currency "USD" then (p.coin, number p.value) ∷ rest else rest

  unfoldable pub usd_prices : (String → A) → List (Price A) → List (String × A)
  unfolding usd_entries
  usd_prices number prices = insert_all (usd_entries number prices) []

  -- `priceOf.get(h.coin) ?? h.avg`
  abbrev pub price_or : Option A → A → A
  price_or none avg = avg
  price_or (some price) avg = price

module _ {ℓ} {A : Type ℓ} ⦃n : Num A⦄ where
  -- `cost > 0`
  abbrev pub is_positive : A → Bool
  is_positive a = n.le (n.of_ℕ 0) a && not (n.le a (n.of_ℕ 0))

  abbrev pub percent : A → A → A
  percent pnl cost = if is_positive cost then n.mul (n.div pnl cost) (n.of_ℕ 100) else n.of_ℕ 0

  unfoldable pub row_of : List (String × A) → Holding A → Row A
  row_of prices h =
      let price = price_or (lookup h.coin prices) h.avg in
      let cost = n.mul h.amount h.avg in
      let value = n.mul h.amount price in
      let pnl = n.sub value cost in
      record {
        holding = h;
        price = price;
        value = value;
        cost = cost;
        pnl = pnl;
        pnl_pct = percent pnl cost;
      }

  unfoldable pub rows : List (String × A) → List (Holding A) → List (Row A)
  unfolding row_of
  rows prices holdings = map (row_of prices) holdings

  unfoldable pub totals : List (Row A) → Totals A
  totals rs =
      let value = sum (map (λ (r : Row A). r.value) rs) in
      let cost = sum (map (λ (r : Row A). r.cost) rs) in
      let pnl = n.sub value cost in
      record { value = value; cost = cost; pnl = pnl; pnl_pct = percent pnl cost }

  -- A number of the form that is NaN or not positive.
  abbrev pub is_refused : A → Bool
  is_refused a = not (n.eq a a) || n.le a (n.of_ℕ 0)

  -- `add`, with the fresh id and the numbers of the form.
  unfoldable pub add : String → String → A → A → List (Holding A) → List (Holding A)
  add id coin amount avg holdings =
      if str_eq coin "" || is_refused amount || is_refused avg
      then holdings
      else holdings ++ record { id = id; coin = coin; amount = amount; avg = avg } ∷ []

module _ {ℓ} {A : Type ℓ} where
  unfoldable pub remove : String → List (Holding A) → List (Holding A)
  remove id [] = []
  remove id (h ∷ holdings) =
      let rest = remove id holdings in if str_eq h.id id then rest else h ∷ rest
