-- ===== src/Gateway/Http.antt =====
-- frontend/src/infrastructure/http/http-price-gateway.ts, the port and the use cases it is bound to
-- in frontend/src/application, and the `api` of frontend/src/infrastructure/container.ts.
-- What `fetch` gives for an address is a parameter.
use crypto_dashboard.Prelude.{
  ℕ, String, Option, none, some, List, map, ◌&&◌, leb, if◌then◌else◌, Bool,
}
use crypto_dashboard.Texts.{◌<>◌}
use crypto_dashboard.Price.{Coin, CoinMeta, Currency, Period, Price, PriceExtremes, PricePoint}
use crypto_dashboard.Candles.{Candle}
use crypto_dashboard.Gateway.{
  PriceDto, ExtremesDto, PricePointDto, CoinMetaDto, CandleDto, to_price, to_extremes,
  to_price_point, to_coin_meta, to_candle,
}

-- What a request comes to: it fails, or a response comes with a status and a body, `none` where the body
-- is not JSON.
pub data Reply {ℓ} (D : Type ℓ) : Type ℓ where
  unreachable : Reply D
  response : ℕ → Option D → Reply D

-- How a call ends: a value, an `Error` with the operation's name and the status, or the error of the
-- request or of its body.
pub data Outcome {ℓ} (B : Type ℓ) : Type ℓ where
  value : B → Outcome B
  status_error : String → ℕ → Outcome B
  fetch_error json_error : Outcome B

-- `res.ok`
abbrev pub is_ok : ℕ → Bool
is_ok status = leb 200 status && leb status 299

module _ {ℓ κ} {D : Type ℓ} {B : Type κ} where
  abbrev pub read_body : (D → B) → Option D → Outcome B
  read_body read none = json_error
  read_body read (some d) = value (read d)

  -- The body of each operation: the guard on the status, and the mapping of the JSON.
  unfoldable pub receive : String → (D → B) → Reply D → Outcome B
  receive name read unreachable = fetch_error
  receive name read (response status body) =
      if is_ok status then read_body read body else status_error name status

-- `dto ? toExtremes(dto) : null`
abbrev pub extremes_or_null : Option ExtremesDto → Option PriceExtremes
extremes_or_null none = none
extremes_or_null (some dto) = some (to_extremes dto)

abbrev pub query : String → Coin → Currency → Period → String
query path coin currency period =
    path <> "?coin=" <> coin <> "&currency=" <> currency <> "&period=" <> period

-- The port of frontend/src/application/ports/price-gateway.ts, each call with how it ends.
pub record PriceGateway {ℓ} (A : Type ℓ) : Type ℓ where
  pub coins : Outcome (List (CoinMeta A))
  pub latest_prices : Outcome (List (Price A))
  pub extremes : Coin → Currency → Period → Outcome (Option PriceExtremes)
  pub series : Coin → Currency → Period → Outcome (List PricePoint)
  pub ohlc : Coin → Currency → Period → Outcome (List (Candle A))
  pub export_url : Coin → Currency → Period → String

-- The backend, as the gateway sees it: what `fetch` and `res.json()` give for an address.
pub record Server {ℓ} (A : Type ℓ) : Type ℓ where
  pub base : String
  pub coins : String → Reply (List (CoinMetaDto A))
  pub prices : String → Reply (List (PriceDto A))
  pub extremes : String → Reply (Option ExtremesDto)
  pub series : String → Reply (List PricePointDto)
  pub ohlc : String → Reply (List CandleDto)

module _ {ℓ} {A : Type ℓ} where
  unfoldable pub http_gateway : (String → ℕ) → (String → A) → Server A → PriceGateway A
  unfolding receive
  http_gateway date number server = record {
    coins = receive "coins" (map to_coin_meta) (server.coins (server.base <> "/api/coins"));
    latest_prices =
        receive "latestPrices" (map (to_price date))
          (server.prices (server.base <> "/api/prices/latest"));
    extremes = λ coin currency period.
        receive "extremes" extremes_or_null
          (server.extremes (query (server.base <> "/api/prices/extremes") coin currency period));
    series = λ coin currency period.
        receive "series" (map (to_price_point date))
          (server.series (query (server.base <> "/api/prices/series") coin currency period));
    ohlc = λ coin currency period.
        receive "ohlc" (map (to_candle date number))
          (server.ohlc (query (server.base <> "/api/prices/ohlc") coin currency period));
    export_url =
        λ coin currency period. query (server.base <> "/api/prices/export") coin currency period;
  }

  unfoldable pub get_latest_prices : PriceGateway A → Outcome (List (Price A))
  get_latest_prices gateway = gateway.latest_prices

  unfoldable pub get_extremes :
      PriceGateway A → Coin → Currency → Period → Outcome (Option PriceExtremes)
  get_extremes gateway coin currency period = gateway.extremes coin currency period

  unfoldable pub get_series : PriceGateway A → Coin → Currency → Period → Outcome (List PricePoint)
  get_series gateway coin currency period = gateway.series coin currency period

  -- `api`
  unfoldable pub api : PriceGateway A → PriceGateway A
  unfolding get_latest_prices get_extremes get_series
  api gateway = record {
    coins = gateway.coins;
    latest_prices = get_latest_prices gateway;
    extremes = λ coin currency period. get_extremes gateway coin currency period;
    series = λ coin currency period. get_series gateway coin currency period;
    ohlc = λ coin currency period. gateway.ohlc coin currency period;
    export_url = λ coin currency period. gateway.export_url coin currency period;
  }

  -- The symbols that the container gives to the exchange's adapter; `none` is a rejection.
  abbrev pub symbols_of : Outcome (List (CoinMeta A)) → Option (List String)
  symbols_of (value coins) = some (map (λ c. c.symbol) coins)
  symbols_of (status_error name status) = none
  symbols_of fetch_error = none
  symbols_of json_error = none
