-- ===== src/Gateway/Tests.antt =====
-- A small backend, and the theorems at it.
use crypto_dashboard.Prelude.{◌≡◌, refl, ℕ, String, none, some, [], ◌∷◌, All}
use crypto_dashboard.Prelude.Int.{ℤ, pos}
use crypto_dashboard.Texts.{upper}
use crypto_dashboard.Gateway.{CoinMetaDto, missing, null, given, to_coin_meta}
use crypto_dashboard.Gateway.Http.{
  Server, unreachable, response, value, http_gateway, api, symbols_of, receive,
}
use crypto_dashboard.Gateway.Registry.{
  IsRegistered, listed, coins-IsRegistered, symbols_from_backend, coin_symbols,
}

abbrev bitcoin : CoinMetaDto ℤ
bitcoin = record {
  symbol = "btc";
  name = "Bitcoin";
  id = "bitcoin";
  image = missing;
  rank = given 1;
  market_cap = null;
  volume_24h = missing;
  change_24h = missing;
  circulating_supply = missing;
  sparkline_7d = missing;
}

abbrev backend : Server ℤ
backend = record {
  base = "http://b";
  coins = λ address. response 200 (some (bitcoin ∷ []));
  prices = λ address. unreachable;
  extremes = λ address. response 200 (some none);
  series = λ address. response 500 none;
  ohlc = λ address. unreachable;
}

abbrev now : String → ℕ
now text = 0

abbrev one : String → ℤ
one text = pos 1

given_symbols : symbols_of (api (http_gateway now one backend)).coins ≡ some ("BTC" ∷ [])
unfolding api http_gateway receive to_coin_meta upper
given_symbols = refl

no_extremes : (api (http_gateway now one backend)).extremes "BTC" "USD" "day" ≡ value none
unfolding api http_gateway receive
no_extremes = refl

coins-IsRegistered_run : All IsRegistered (listed (api (http_gateway now one backend)).coins)
coins-IsRegistered_run = coins-IsRegistered now one backend

symbols_from_backend_run :
    symbols_of (api (http_gateway now one backend)).coins
    ≡ coin_symbols (response 200 (some (bitcoin ∷ [])))
symbols_from_backend_run = symbols_from_backend now one backend
