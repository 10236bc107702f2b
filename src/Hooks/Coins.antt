-- ===== src/Hooks/Coins.antt =====
-- frontend/src/presentation/hooks/useCoins.ts: the coin list, loaded once for all components.
pub mod Once
use crypto_dashboard.Prelude.{
  ℕ, ◌+◌, String, Bool, true, false, Option, none, some, List, [], ◌∷◌, map, if◌then◌else◌,
}
use crypto_dashboard.Prelude.Maps.{insert_all}
use crypto_dashboard.Texts.{lower}
use crypto_dashboard.Price.{CoinMeta}
use crypto_dashboard.Price.Colors.{color_for_symbol, name_for_symbol}

abbrev pub fallback_symbols : List String
fallback_symbols =
    "BTC" ∷ "ETH" ∷ "SOL" ∷ "LTC" ∷ "BNB" ∷ "XRP" ∷ "ADA" ∷ "DOGE" ∷ "AVAX" ∷ "DOT" ∷ "LINK" ∷ "BCH"
    ∷ "TRX" ∷ "MATIC" ∷ "SHIB" ∷ []

-- The module's variables: `inflight` says that the promise is there, and `requests` counts the calls of
-- `api.coins()`.
pub record Registry {ℓ} (A : Type ℓ) : Type ℓ where
  pub cache : Option (List (CoinMeta A))
  pub inflight : Bool
  pub requests : ℕ

-- The state of a component with the `cancelled` flag of its effect.
pub record CoinsState {ℓ} (A : Type ℓ) : Type ℓ where
  pub coins : List (CoinMeta A)
  pub loading : Bool
  pub cancelled : Bool

module _ {ℓ} {A : Type ℓ} where
  abbrev pub fallback_coin : String → ℕ → CoinMeta A
  fallback_coin symbol i = record {
    symbol = symbol;
    name = name_for_symbol symbol;
    id = lower symbol;
    image = none;
    rank = some (i + 1);
    color = color_for_symbol symbol;
    market_cap = none;
    volume_24h = none;
    change_24h = none;
    circulating_supply = none;
    sparkline_7d = none;
  }

  unfoldable pub fallback_from : ℕ → List String → List (CoinMeta A)
  fallback_from i [] = []
  fallback_from i (symbol ∷ symbols) = fallback_coin symbol i ∷ fallback_from (i + 1) symbols

  unfoldable pub fallback_coins : List (CoinMeta A)
  unfolding fallback_from
  fallback_coins = fallback_from 0 fallback_symbols

  abbrev pub fresh : Registry A
  fresh = record { cache = none; inflight = false; requests = 0 }

  -- `load()`, when the cache is empty: one request, shared by all callers.
  unfoldable pub load_from : Option (List (CoinMeta A)) → Registry A → Registry A
  load_from (some list) r = r
  load_from none r =
      if r.inflight then r else record r { inflight = true; requests = r.requests + 1 }

  unfoldable pub load : Registry A → Registry A
  unfolding load_from
  load r = load_from r.cache r

  -- The list that a reply puts into the cache; `none` is a rejection.
  unfoldable pub list_of : Option (List (CoinMeta A)) → List (CoinMeta A)
  unfolding fallback_coins
  list_of none = fallback_coins
  list_of (some []) = fallback_coins
  list_of (some (c ∷ list)) = c ∷ list

  unfoldable pub arrive : Option (List (CoinMeta A)) → Registry A → Registry A
  unfolding list_of
  arrive reply r = record r { cache = some (list_of reply) }

  -- The first render.
  unfoldable pub mount : Option (List (CoinMeta A)) → CoinsState A
  mount none = record { coins = []; loading = true; cancelled = false }
  mount (some cache) = record { coins = cache; loading = false; cancelled = false }

  -- The promise resolves for a component.
  unfoldable pub receive : List (CoinMeta A) → CoinsState A → CoinsState A
  receive list s = if s.cancelled then s else record s { coins = list; loading = false }

  abbrev pub pairs : List (CoinMeta A) → List (String × CoinMeta A)
  pairs coins = map (λ c. (c.symbol, c)) coins

  unfoldable pub by_symbol : List (CoinMeta A) → List (String × CoinMeta A)
  by_symbol coins = insert_all (pairs coins) []

  abbrev pub symbols : List (CoinMeta A) → List String
  symbols coins = map (λ c. c.symbol) coins
