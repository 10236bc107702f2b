-- ===== src/Gateway.antt =====
-- How the front end reads prices: the records of frontend/src/infrastructure/dto/price-dto.ts, and the
-- gateway of frontend/src/infrastructure/http/http-price-gateway.ts over them, in the child Http.
pub mod Http
pub mod Registry
pub mod Tests
use crypto_dashboard.Prelude.{ℕ, String, Option, none, some, List}
use crypto_dashboard.Texts.{upper}
use crypto_dashboard.Price.{CoinMeta, Price, PriceExtremes, PricePoint}
use crypto_dashboard.Price.Colors.{color_for_symbol}
use crypto_dashboard.Candles.{Candle}

-- A field `f?: T | null` is left out, null, or given.
pub data Field {ℓ} (T : Type ℓ) : Type ℓ where
  missing null : Field T
  given : T → Field T

-- `field ?? null`
unfoldable pub or_null {ℓ} : {T : Type ℓ} → Field T → Option T
or_null missing = none
or_null null = none
or_null (given t) = some t

pub record PriceDto {ℓ} (A : Type ℓ) : Type ℓ where
  pub coin : String
  pub currency : String
  pub value : String
  pub observed_at : String
  pub change_24h : Field A

pub record ExtremesDto : Type 0 where
  pub coin : String
  pub currency : String
  pub period : String
  pub highest : String
  pub lowest : String

pub record PricePointDto : Type 0 where
  pub value : String
  pub observed_at : String

pub record CoinMetaDto {ℓ} (A : Type ℓ) : Type ℓ where
  pub symbol : String
  pub name : String
  pub id : String
  pub image : Field String
  pub rank : Field ℕ
  pub market_cap : Field A
  pub volume_24h : Field A
  pub change_24h : Field A
  pub circulating_supply : Field A
  pub sparkline_7d : Field (List A)

pub record CandleDto : Type 0 where
  pub t : String
  pub o : String
  pub h : String
  pub l : String
  pub c : String

-- `date` is `new Date(text)` and `number` is `Number(text)`.
module _ {ℓ} {A : Type ℓ} where
  unfoldable pub to_price : (String → ℕ) → PriceDto A → Price A
  unfolding or_null
  to_price date dto = record {
    coin = dto.coin;
    currency = dto.currency;
    value = dto.value;
    observed_at = date dto.observed_at;
    change_24h = or_null dto.change_24h;
  }

  unfoldable pub to_coin_meta : CoinMetaDto A → CoinMeta A
  unfolding or_null
  to_coin_meta dto =
      let symbol = upper dto.symbol in
      record {
        symbol = symbol;
        name = dto.name;
        id = dto.id;
        image = or_null dto.image;
        rank = or_null dto.rank;
        color = color_for_symbol symbol;
        market_cap = or_null dto.market_cap;
        volume_24h = or_null dto.volume_24h;
        change_24h = or_null dto.change_24h;
        circulating_supply = or_null dto.circulating_supply;
        sparkline_7d = or_null dto.sparkline_7d;
      }

  unfoldable pub to_candle : (String → ℕ) → (String → A) → CandleDto → Candle A
  to_candle date number dto = record {
    t = date dto.t;
    o = number dto.o;
    h = number dto.h;
    l = number dto.l;
    c = number dto.c;
  }

unfoldable pub to_extremes : ExtremesDto → PriceExtremes
to_extremes dto = record {
  coin = dto.coin;
  currency = dto.currency;
  period = dto.period;
  highest = dto.highest;
  lowest = dto.lowest;
}

unfoldable pub to_price_point : (String → ℕ) → PricePointDto → PricePoint
to_price_point date dto = record { value = dto.value; observed_at = date dto.observed_at }
