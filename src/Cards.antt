-- ===== src/Cards.antt =====
-- frontend/src/presentation/components/PriceCards.tsx: the cards of the coins, their order, and the lines of a
-- card; and the row of a coin in Extremes.tsx beside it. `text_le` is localeCompare.
pub mod Favorites
pub mod Tests
use Prim.Native.String
use crypto_dashboard.Prelude.{
  ℕ, ◌+◌, ◌==◌, leb, ltb, String, str_eq, starts_with, not, ◌&&◌, ◌||◌, Bool, true, false, Option,
  none, some, List, [], ◌∷◌, ◌++◌, map, if◌then◌else◌, length,
}
use crypto_dashboard.Prelude.Maps.{lookup, insert}
use crypto_dashboard.Prelude.Sets.{has, add, delete}
use crypto_dashboard.Prelude.Sort.{filter, sort}
use crypto_dashboard.Numbers.{Num, lt_of, min_of, max_of}
use crypto_dashboard.Texts.{lower, codes}
use crypto_dashboard.Price.{Coin, Currency, CoinMeta, Price}
use crypto_dashboard.Hooks.PriceFlash.{Move, up, down}
use crypto_dashboard.Observability.Exposition.{trim, text_of}

pub data SortBy : Type 0 where
  rank name change mcap : SortBy

-- A line of a card: the last text of its price, the flash, and whether the timer that ends it is set.
pub record Line : Type 0 where
  pub prev : Option String
  pub flash : Option Move
  pub timer : Bool

module _ {ℓ} {A : Type ℓ} ⦃n : Num A⦄ (number : String → A) where
  abbrev pub flash_from : Option String → String → Line → Line
  flash_from none value l = record l { prev = some value }
  flash_from (some old) value l =
      if str_eq old value then record l { prev = some value } else record l {
        prev = some value;
        flash = some (if n.le (number old) (number value) then up else down);
        timer = true;
      }

  -- The effect, at the first render and at each new value: the cleanup of the last run comes before it.
  unfoldable pub on_value : String → Line → Line
  on_value value l = flash_from l.prev value (record l { timer = false })

  -- The timer, after 600 ms.
  unfoldable pub timeout : Line → Line
  timeout l = if l.timer then record l { flash = none; timer = false } else l

abbrev pub rank_at : Option ℕ → ℕ → ℕ
rank_at none i = i + 1
rank_at (some r) i = r

module _ {ℓ} {A : Type ℓ} where
  -- `rankOf`, from an index on.
  unfoldable pub ranks_from : ℕ → List (CoinMeta A) → List (String × ℕ) → List (String × ℕ)
  unfolding insert
  ranks_from i [] ranks = ranks
  ranks_from i (c ∷ coins) ranks =
      ranks_from (i + 1) coins (insert c.symbol (rank_at c.rank i) ranks)

  abbrev pub list_or_empty : Option (List (Price A)) → List (Price A)
  list_or_empty none = []
  list_or_empty (some prices) = prices

  -- `byCoin`: the prices of each coin, in the order they come.
  unfoldable pub group :
      List (Price A) → List (String × List (Price A)) → List (String × List (Price A))
  unfolding lookup insert
  group [] grouped = grouped
  group (p ∷ prices) grouped =
      group prices (insert p.coin (list_or_empty (lookup p.coin grouped) ++ p ∷ []) grouped)

  abbrev pub put_change : Price A → Option A → List (String × A) → List (String × A)
  put_change p none changes = changes
  put_change p (some c) changes =
      if str_eq p.currency "USD" then insert p.coin c changes else changes

  -- `changeOf`
  unfoldable pub changes_of : List (Price A) → List (String × A) → List (String × A)
  unfolding insert
  changes_of [] changes = changes
  changes_of (p ∷ prices) changes = changes_of prices (put_change p p.change_24h changes)

abbrev pub keys {ℓ} : {V : Type ℓ} → List (String × V) → List String
keys [] = []
keys ((k, v) ∷ table) = k ∷ keys table

-- `s.includes(q)`
unfoldable pub includes : String → String → Bool
includes String.[] q = str_eq q ""
includes (String.◌∷◌ c s) q = starts_with (String.◌∷◌ c s) q || includes s q

-- `query.trim().toLowerCase()`
unfoldable pub normal_query : String → String
unfolding trim text_of lower
normal_query query = lower (text_of (trim (codes query)))

-- Where a currency stands in `CURRENCY_ORDER`, from 1 on; an unknown one has 0, as `indexOf` has -1.
unfoldable pub place_of : Currency → ℕ
place_of c =
    if str_eq c "USD"
    then 1
    else if str_eq c "EUR"
    then 2
    else if str_eq c "JPY"
    then 3
    else if str_eq c "RUB"
    then 4
    else 0

-- `toggleCurrency`, on a set with its size; the last currency stays.
unfoldable pub toggle_currency : Currency → List Currency → List Currency
unfolding has delete
toggle_currency c visible =
    if has c visible
    then (if ltb 1 (length visible) then delete c visible else visible)
    else visible ++ c ∷ []

unfoldable pub toggle_fav : Coin → List Coin → List Coin
unfolding has delete
toggle_fav coin favorites =
    if has coin favorites then delete coin favorites else favorites ++ coin ∷ []

abbrev pub rank_or_last : Option ℕ → ℕ
rank_or_last none = 9999
rank_or_last (some r) = r

-- Favorites come first.
unfoldable pub compare_coins : List Coin → (Coin → Coin → Bool) → Coin → Coin → Bool
unfolding has
compare_coins favorites choice a b =
    if has a favorites
    then (if has b favorites then choice a b else true)
    else if has b favorites
    then false
    else choice a b

module _ {ℓ} {A : Type ℓ} ⦃n : Num A⦄ where
  abbrev pub name_of : Option (CoinMeta A) → String
  name_of none = ""
  name_of (some m) = lower m.name

  -- The test of a coin: the favorites only, and the search; `q` is the query in normal form.
  unfoldable pub is_listed : List (String × CoinMeta A) → List Coin → Bool → String → Coin → Bool
  unfolding has lookup includes lower
  is_listed by_symbol favorites fav_only q coin =
      if fav_only && not (has coin favorites)
      then false
      else if str_eq q ""
      then true
      else includes (lower coin) q || includes (name_of (lookup coin by_symbol)) q

  -- `?? -Infinity`
  abbrev pub or_least : Option A → A
  or_least none = n.sub (n.of_ℕ 0) n.infinity
  or_least (some a) = a

  abbrev pub cap_of : Option (CoinMeta A) → A
  cap_of none = or_least none
  cap_of (some m) = or_least m.market_cap

  -- The comparison without the favorites.
  unfoldable pub by_choice :
      (String → String → Bool)
      → List (String × ℕ)
      → List (String × A)
      → List (String × CoinMeta A)
      → SortBy
      → Coin
      → Coin
      → Bool
  unfolding lookup
  by_choice text_le ranks changes by_symbol rank a b =
      leb (rank_or_last (lookup a ranks)) (rank_or_last (lookup b ranks))
  by_choice text_le ranks changes by_symbol name a b = text_le a b
  by_choice text_le ranks changes by_symbol change a b =
      not (lt_of (or_least (lookup a changes)) (or_least (lookup b changes)))
  by_choice text_le ranks changes by_symbol mcap a b =
      not (lt_of (cap_of (lookup a by_symbol)) (cap_of (lookup b by_symbol)))

  unfoldable pub order :
      (String → String → Bool)
      → List (CoinMeta A)
      → List (String × CoinMeta A)
      → List (Price A)
      → List Coin
      → Bool
      → SortBy
      → String
      → List Coin
  unfolding ranks_from group changes_of filter sort is_listed by_choice compare_coins normal_query
  order text_le coins by_symbol prices favorites fav_only sort_by query =
      sort
        (compare_coins favorites
          (by_choice text_le (ranks_from 0 coins []) (changes_of prices []) by_symbol sort_by))
        (filter (is_listed by_symbol favorites fav_only (normal_query query))
          (keys (group prices [])))

  -- The prices on a card, in the order of the currencies.
  unfoldable pub lines : List Currency → Coin → List (Price A) → List (Price A)
  unfolding group lookup filter sort has place_of
  lines visible coin prices =
      sort (λ (a b : Price A). leb (place_of a.currency) (place_of b.currency))
        (filter (λ (p : Price A). has p.currency visible)
          (list_or_empty (lookup coin (group prices []))))

  -- The place of the present price between the lowest and the highest, and the spread in percent.
  abbrev pub position : Option A → A → A → Option A
  position none lo hi = none
  position (some now) lo hi =
      if lt_of (n.of_ℕ 0) (n.sub hi lo)
      then some (min_of (n.of_ℕ 1) (max_of (n.of_ℕ 0) (n.div (n.sub now lo) (n.sub hi lo))))
      else none

  unfoldable pub spread_percent : A → A → A
  spread_percent lo hi =
      if lt_of (n.of_ℕ 0) lo then n.mul (n.div (n.sub hi lo) lo) (n.of_ℕ 100) else n.of_ℕ 0
