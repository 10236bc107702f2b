-- ===== src/Export/Tests.antt =====
-- A workbook with one point and one coin, and one that an empty series keeps from being written.
use crypto_dashboard.Prelude.{◌≡◌, refl, ℕ, String, false, none, some, List, [], ◌∷◌}
use crypto_dashboard.Prelude.Int.{ℤ, pos}
use crypto_dashboard.Numbers.Integers.{int_num}
use crypto_dashboard.Price.{CoinMeta}
use crypto_dashboard.Price.Colors.{brand}
use crypto_dashboard.Export.{
  Panel, Result, done, failed, Sheet, Stored, objects, num, download_xlsx, workbook, from_objects,
  candle_sheets, stored_sheets,
}
use crypto_dashboard.Export.Busy.{saved_sheets, download_xlsx_lem}

abbrev coin : CoinMeta ℤ
coin = record {
  symbol = "BTC";
  name = "Bitcoin";
  id = "bitcoin";
  image = none;
  rank = some 1;
  color = brand "#fff";
  market_cap = none;
  volume_24h = none;
  change_24h = none;
  circulating_supply = none;
  sparkline_7d = none;
}

abbrev panel : Panel
panel = record { coin = "BTC"; currency = "USD"; period = "day"; busy = false }

abbrev takes : List (Sheet ℤ) → Result (Unit {0})
takes sheets = done tt

abbrev time_text : ℕ → String
time_text k = "now"

abbrev number_of : String → ℤ
number_of s = pos 5

abbrev holdings : Stored ℤ
holdings = objects (("coin", num (pos 1)) ∷ []) []

empty_series :
    saved_sheets
      (download_xlsx time_text number_of
        (done tt)
        takes
        (done [])
        (coin ∷ [])
        failed
        holdings
        Stored.malformed
        panel).1
    ≡ none
unfolding download_xlsx workbook from_objects
empty_series = refl

download_xlsx_lem_example :
    ((download_xlsx time_text number_of
        (done tt)
        takes
        (done (record { value = "5"; observed_at = 7 } ∷ []))
        (coin ∷ [])
        failed
        holdings
        Stored.malformed
        panel).0
      ≡ panel)
    × (saved_sheets
          (download_xlsx time_text number_of
            (done tt)
            takes
            (done (record { value = "5"; observed_at = 7 } ∷ []))
            (coin ∷ [])
            failed
            holdings
            Stored.malformed
            panel).1
        ≡ some ("Prices" ∷ "Market Summary" ∷ "Holdings" ∷ []))
unfolding workbook from_objects candle_sheets stored_sheets
download_xlsx_lem_example =
    download_xlsx_lem time_text number_of (done tt) takes
      (done (record { value = "5"; observed_at = 7 } ∷ [])) (coin ∷ []) failed holdings
      Stored.malformed panel refl
