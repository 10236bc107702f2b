-- ===== src/Export.antt =====
-- frontend/src/presentation/components/DataExport.tsx: the downloads. What the backend's requests come to,
-- JSON and the writers of files are parameters; a download is an effect, a value of the result.
pub mod Busy
pub mod Tests
use crypto_dashboard.Prelude.{
  ℕ, String, str_eq, not, Bool, true, false, Option, none, some, List, [], ◌∷◌, ◌++◌, map,
  if◌then◌else◌,
}
use crypto_dashboard.Prelude.Maps.{lookup}
use crypto_dashboard.Numbers.{Num}
use crypto_dashboard.Texts.{◌<>◌}
use crypto_dashboard.Price.{CoinMeta, PricePoint, all_currencies}
use crypto_dashboard.Candles.{Candle}

-- The state of the component.
pub record Panel : Type 0 where
  pub coin : String
  pub currency : String
  pub period : String
  pub busy : Bool

-- How a handler's promise ends; `failed` is a rejection.
pub data Result {ℓ} (B : Type ℓ) : Type ℓ where
  done : B → Result B
  failed : Result B

infixl 5 ◌>>=◌
abbrev pub ◌>>=◌ {ℓ κ} : {B : Type ℓ} {C : Type κ} → Result B → (B → Result C) → Result C
done b >>= f = f b
failed >>= f = failed

-- A cell of a sheet; a header is a text in bold.
pub data Cell {ℓ} (A : Type ℓ) : Type ℓ where
  header : String → Cell A
  number : A → Cell A
  text : String → Cell A

-- A value of an object: a number, or anything else by its text (`String(v ?? "")`).
pub data Field {ℓ} (A : Type ℓ) : Type ℓ where
  num : A → Field A
  other : String → Field A

pub record Sheet {ℓ} (A : Type ℓ) : Type ℓ where
  pub sheet : String
  pub rows : List (List (Cell A))

-- What a stored list of the user's is after JSON.parse: malformed, not a list, empty, a list whose head is no
-- object, one with `null` among its objects that throws because it is asked for a key, or objects.
pub data Stored {ℓ} (A : Type ℓ) : Type ℓ where
  malformed no_list no_items no_objects null_item : Stored A
  objects : List (String × Field A) → List (List (String × Field A)) → Stored A

-- What a click leads to beside the state: a page that is opened, a text or a workbook that is saved.
pub data Effect {ℓ} (A : Type ℓ) : Type ℓ where
  open_page : String → Effect A
  save_text : String → String → Effect A
  save_workbook : String → List (Sheet A) → Effect A

pub record Dataset : Type 0 where
  pub coin : String
  pub currency : String
  pub points : List PricePoint

module _ {ℓ} {A : Type ℓ} where
  -- The effect that sets the first coin.
  unfoldable pub default_coin : List (CoinMeta A) → Panel → Panel
  default_coin [] p = p
  default_coin (c ∷ coins) p = if str_eq p.coin "" then record p { coin = c.symbol } else p

  -- An effect of a promise, or none if it fails. `finally` clears the flag either way.
  abbrev pub finish : Panel → Result (Effect A) → Panel × Option (Effect A)
  finish p (done e) = (record p { busy = false }, some e)
  finish p failed = (record p { busy = false }, none)

  -- `downloadCsv`, to the address that the gateway's exportUrl gives.
  unfoldable pub download_csv : (String → String → String → String) → Panel → Option (Effect A)
  download_csv export_url p =
      if str_eq p.coin "" then none else some (open_page (export_url p.coin p.currency p.period))

  -- `downloadJson`: `series` is what the request comes to, and `payload` the text of the object.
  unfoldable pub download_json :
      (Panel → List PricePoint → String)
      → Result (List PricePoint)
      → Panel
      → Panel × Option (Effect A)
  download_json payload series p =
      if str_eq p.coin ""
      then (p, none)
      else finish (record p { busy = true })
          (do
            points ← series
            done (
                save_text (payload p points)
                  (p.coin <> "_" <> p.currency <> "_" <> p.period <> "_prices.json")))

-- The pairs of `symbols.flatMap((c) => ALL_CURRENCIES.map(...))`.
unfoldable pub pairs : List String → List (String × String)
unfolding all_currencies
pairs [] = []
pairs (c ∷ symbols) = map (λ cur. (c, cur)) all_currencies ++ pairs symbols

-- `Promise.all`: one failure fails all.
unfoldable pub fetch_all :
    (String → String → Result (List PricePoint)) → List (String × String) → Result (List Dataset)
fetch_all series [] = done []
fetch_all series ((c, cur) ∷ rest) = do
  points ← series c cur
  more ← fetch_all series rest
  done (record { coin = c; currency = cur; points = points } ∷ more)

abbrev has_symbols : List String → Bool
has_symbols [] = false
has_symbols (s ∷ symbols) = true

module _ {ℓ} {A : Type ℓ} where
  -- `downloadAllJson`
  unfoldable pub download_all_json :
      (String → List Dataset → String)
      → (String → String → Result (List PricePoint))
      → List String
      → Panel
      → Panel × Option (Effect A)
  unfolding pairs fetch_all
  download_all_json payload series symbols p =
      if has_symbols symbols
      then finish (record p { busy = true })
          (do
            datasets ← fetch_all series (pairs symbols)
            done (
                save_text (payload p.period datasets)
                  ("ALL_COINS_ALL_FIAT_" <> p.period <> "_prices.json")))
      else (p, none)

  abbrev pub cell : Option (Field A) → Cell A
  cell none = text ""
  cell (some (num a)) = number a
  cell (some (other t)) = text t

  abbrev pub row_cells : List String → List (String × Field A) → List (Cell A)
  row_cells keys r = map (λ k. cell (lookup k r)) keys

  -- `fromObjects`: the keys are those of the first row, and no row makes it throw.
  unfoldable pub from_objects : String → List (List (String × Field A)) → Result (Sheet A)
  unfolding lookup
  from_objects name [] = failed
  from_objects name (r ∷ rows) =
      let keys = map (λ (f : String × Field A). f.0) r in
      done
        (record { sheet = name; rows = map (λ k. header k) keys ∷ map (row_cells keys) (r ∷ rows) })

  -- A part of the workbook that may be missing: what throws inside its `try` leaves the sheets as they were.
  abbrev pub optional : Result (Sheet A) → List (Sheet A)
  optional (done s) = s ∷ []
  optional failed = []

  unfoldable pub stored_sheets : String → Stored A → List (Sheet A)
  unfolding from_objects
  stored_sheets name (objects r rows) = optional (from_objects name (r ∷ rows))
  stored_sheets name nothing = []

module _ {ℓ} {A : Type ℓ} ⦃n : Num A⦄ where
  abbrev pub or_zero : Option A → Field A
  or_zero none = num (n.of_ℕ 0)
  or_zero (some a) = num a

  abbrev pub rank_or_zero : Option ℕ → Field A
  rank_or_zero none = num (n.of_ℕ 0)
  rank_or_zero (some rank) = num (n.of_ℕ rank)

  abbrev pub summary_row : CoinMeta A → List (String × Field A)
  summary_row c =
      ("Symbol", other c.symbol)
      ∷ ("Name", other c.name)
      ∷ ("Rank", rank_or_zero c.rank)
      ∷ ("Market Cap (USD)", or_zero c.market_cap)
      ∷ ("Volume 24h (USD)", or_zero c.volume_24h)
      ∷ ("Change 24h (%)", or_zero c.change_24h)
      ∷ ("Circulating Supply", or_zero c.circulating_supply)
      ∷ []

module _ {ℓ} {A : Type ℓ} (iso : ℕ → String) where
  abbrev pub candle_row : Candle A → List (String × Field A)
  candle_row c =
      ("Bucket (UTC)", other (iso c.t))
      ∷ ("Open", num c.o)
      ∷ ("High", num c.h)
      ∷ ("Low", num c.l)
      ∷ ("Close", num c.c)
      ∷ []

  unfoldable pub candle_sheets : Result (List (Candle A)) → List (Sheet A)
  unfolding from_objects
  candle_sheets failed = []
  candle_sheets (done []) = []
  candle_sheets (done (c ∷ candles)) = optional (from_objects "OHLC" (map candle_row (c ∷ candles)))

module _ {ℓ} {A : Type ℓ} ⦃n : Num A⦄ (iso : ℕ → String) (number_of : String → A) where
  abbrev pub price_row : PricePoint → List (String × Field A)
  price_row p =
      ("Observed At (UTC)", other (iso p.observed_at)) ∷ ("Price", num (number_of p.value)) ∷ []

  -- The sheets of `downloadXlsx`; `holdings` and `alerts` are the two stored lists.
  unfoldable pub workbook :
      Result (List PricePoint)
      → List (CoinMeta A)
      → Result (List (Candle A))
      → Stored A
      → Stored A
      → Result (List (Sheet A))
  unfolding from_objects candle_sheets stored_sheets
  workbook series coins ohlc holdings alerts = do
    points ← series
    prices ← from_objects "Prices" (map price_row points)
    summary ← from_objects "Market Summary" (map summary_row coins)
    done (
        prices ∷ summary ∷ candle_sheets iso ohlc
        ++ (stored_sheets "Holdings" holdings ++ stored_sheets "Alerts" alerts))

  -- `downloadXlsx`. The writer is a library, loaded when it is first wanted: `loads` and `writes` say
  -- whether that succeeds.
  unfoldable pub download_xlsx :
      Result (Unit {0})
      → (List (Sheet A) → Result (Unit {0}))
      → Result (List PricePoint)
      → List (CoinMeta A)
      → Result (List (Candle A))
      → Stored A
      → Stored A
      → Panel
      → Panel × Option (Effect A)
  unfolding workbook
  download_xlsx loads writes series coins ohlc holdings alerts p =
      if str_eq p.coin ""
      then (p, none)
      else finish (record p { busy = true })
          (do
            _ ← loads
            sheets ← workbook series coins ohlc holdings alerts
            _ ← writes sheets
            done (
                save_workbook
                  ("cryptowatch_" <> p.coin <> "_" <> p.currency <> "_" <> p.period <> ".xlsx")
                  sheets))
