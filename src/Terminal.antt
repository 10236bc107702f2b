-- ===== src/Terminal.antt =====
-- frontend/src/presentation/components/terminal/Terminal.tsx: the shell, with the tab, the selected pair and
-- the hold switch of the feed; and the choice of a palette in ThemeToggle.tsx above it.
pub mod Hold
pub mod Page
pub mod Tests
use crypto_dashboard.Prelude.{
  String, str_eq, not, ◌&&◌, Bool, true, false, Option, none, some, List, [], ◌∷◌, if◌then◌else◌,
  ◌++◌, ℕ,
}
use crypto_dashboard.Prelude.Maps.{lookup, insert}
use crypto_dashboard.Price.{CoinMeta, Price}
use crypto_dashboard.FeedGate.{Gate, set_feed_paused}

pub record Tab : Type 0 where
  pub key : String
  pub label : String
  pub hint : String

-- `TABS`
unfoldable pub tabs : List Tab
tabs =
    record { key = "markets"; label = "Markets"; hint = "spot · map · breadth" }
    ∷ record { key = "charts"; label = "Charts"; hint = "realtime · relative · range" }
    ∷ record { key = "risk"; label = "Risk"; hint = "correlation · volatility · movers" }
    ∷ record { key = "desk"; label = "Desk"; hint = "portfolio · alerts · export" }
    ∷ record { key = "ops"; label = "Ops"; hint = "metrics · prometheus · grafana" }
    ∷ []

-- The shell's state with the gate of the feed, and the calls of the gate's listeners so far.
pub record Shell : Type 0 where
  pub tab : String
  pub selected : String
  pub held : Bool
  pub gate : Gate
  pub calls : List (ℕ × Bool)

module _ {ℓ} {A : Type ℓ} (number : String → A) where
  -- `priceBySymbol`: the last dollar price of each coin.
  unfoldable pub price_by_symbol : List (Price A) → List (String × A) → List (String × A)
  unfolding insert
  price_by_symbol [] table = table
  price_by_symbol (p ∷ prices) table =
      price_by_symbol prices
        (if str_eq p.currency "USD" then insert p.coin (number p.value) table else table)

module _ {ℓ} {A : Type ℓ} where
  abbrev pub first_of : List (CoinMeta A) → Option (CoinMeta A)
  first_of [] = none
  first_of (c ∷ coins) = some c

  unfoldable pub find_coin : String → List (CoinMeta A) → Option (CoinMeta A)
  find_coin symbol [] = none
  find_coin symbol (c ∷ coins) = if str_eq c.symbol symbol then some c else find_coin symbol coins

  abbrev pub or_first : Option (CoinMeta A) → Option (CoinMeta A) → Option (CoinMeta A)
  or_first (some c) first = some c
  or_first none first = first

  -- `coins.find((c) => c.symbol === selected) ?? coins[0]`
  unfoldable pub selected_coin : String → List (CoinMeta A) → Option (CoinMeta A)
  unfolding find_coin
  selected_coin selected coins = or_first (find_coin selected coins) (first_of coins)

unfoldable pub toggle_hold : Shell → Shell
unfolding set_feed_paused
toggle_hold s =
    let (gate, calls) = set_feed_paused s.gate (not s.held) in
    record s { held = not s.held; gate = gate; calls = s.calls ++ calls }

unfoldable pub set_tab : String → Shell → Shell
set_tab key s = record s { tab = key }

unfoldable pub select : String → Shell → Shell
select symbol s = record s { selected = symbol }

abbrev pub streaming : Bool → Shell → Bool
streaming live s = live && not s.held

unfoldable pub live_label : Bool → Shell → String
live_label live s = if s.held then "Held" else if streaming live s then "Live" else "Connecting"

unfoldable pub live_color : Bool → Shell → String
live_color live s =
    if s.held then "var(--cw-dim)" else if streaming live s then "var(--cw-up)" else "var(--cw-dim)"

-- `TABS.find((t) => t.key === tab)?.hint ?? ""`
unfoldable pub hint_in : String → List Tab → String
hint_in key [] = ""
hint_in key (t ∷ ts) = if str_eq t.key key then t.hint else hint_in key ts

unfoldable pub hint : Shell → String
unfolding hint_in tabs
hint s = hint_in s.tab tabs

pub data Theme : Type 0 where
  dark light : Theme

-- The other palette, with its name on the document.
unfoldable pub toggle_theme : Theme → Theme × String
toggle_theme dark = (light, "solar")
toggle_theme light = (dark, "midnight")
