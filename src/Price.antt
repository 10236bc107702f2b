-- ===== src/Price.antt =====
-- frontend/src/domain/price.ts: the domain's types, the colours and the names of tickers. (`Candle` is
-- in Candles.) An optional number of the provider is an `Option`; a price's value stays the text that
-- the backend sent, as in the source. An image is a text, and a list of prices is one of numbers.
pub mod Colors
use crypto_dashboard.Price.Colors.{Color}
use crypto_dashboard.Prelude.{[], List, ◌∷◌, Option, ℕ, String}

-- The casts `as Currency` and `as Period` check nothing, so a currency and a period are texts, and the
-- known ones are listed.
abbrev pub Coin : Type 0
Coin = String

abbrev pub Currency : Type 0
Currency = String

abbrev pub Period : Type 0
Period = String

unfoldable pub all_currencies : List Currency
all_currencies = "USD" ∷ "EUR" ∷ "JPY" ∷ "RUB" ∷ []

unfoldable pub all_periods : List Period
all_periods = "day" ∷ "week" ∷ "month" ∷ []

pub record CoinMeta {ℓ} (A : Type ℓ) : Type ℓ where
  pub symbol : Coin
  pub name : String
  pub id : String
  pub image : Option String
  pub rank : Option ℕ
  pub color : Color
  pub market_cap : Option A
  pub volume_24h : Option A
  pub change_24h : Option A
  pub circulating_supply : Option A
  pub sparkline_7d : Option (List A)

pub record Price {ℓ} (A : Type ℓ) : Type ℓ where
  pub coin : Coin
  pub currency : Currency
  pub value : String
  pub observed_at : ℕ
  pub change_24h : Option A

pub record PriceExtremes : Type 0 where
  pub coin : Coin
  pub currency : Currency
  pub period : Period
  pub highest : String
  pub lowest : String

pub record PricePoint : Type 0 where
  pub value : String
  pub observed_at : ℕ
