-- ===== src/Export/Busy.antt =====
-- How a download ends: what is saved, and that the panel is usable again.
use crypto_dashboard.Prelude.{
  ℕ, ◌≡◌, refl, arith, String, str_eq, Bool, true, false, ◌&&◌, Option, none, some, List, [], ◌∷◌,
  ◌++◌, if◌then◌else◌, Bool-cases, inl, inr,
}
use crypto_dashboard.Numbers.{Num}
use crypto_dashboard.Price.{CoinMeta, PricePoint}
use crypto_dashboard.Candles.{Candle}
use crypto_dashboard.Export.{
  Panel, Result, done, failed, ◌>>=◌, Sheet, Stored, objects, Effect, save_workbook, finish,
  from_objects, candle_sheets, stored_sheets, workbook, download_xlsx,
}

abbrev pub succeeds {ℓ} : {B : Type ℓ} → Result B → Bool
succeeds (done b) = true
succeeds failed = false

-- It succeeds with a list that is not empty.
abbrev pub has_items {ℓ} : {B : Type ℓ} → Result (List B) → Bool
has_items (done []) = false
has_items (done (b ∷ bs)) = true
has_items failed = false

-- A test that is evaluated in two parts.
and_both : (a b c : Bool) → (a && (b && c)) ≡ ((a && b) && c)
and_both true b c = refl
and_both false b c = refl

module _ {ℓ} {A : Type ℓ} where
  abbrev pub has_objects : Stored A → Bool
  has_objects (objects r rows) = true
  has_objects nothing = false

  abbrev pub sheet_names : List (Sheet A) → List String
  sheet_names [] = []
  sheet_names (s ∷ sheets) = s.sheet ∷ sheet_names sheets

  abbrev pub saved_sheets : Option (Effect A) → Option (List String)
  saved_sheets (some (save_workbook name sheets)) = some (sheet_names sheets)
  saved_sheets other = none

  abbrev pub names_of : Result (List (Sheet A)) → Option (List String)
  names_of (done sheets) = some (sheet_names sheets)
  names_of failed = none

  -- The sheets that a workbook should have.
  abbrev pub wanted_sheets {κ} : {B : Type κ} → Result (List B) → Stored A → Stored A → List String
  wanted_sheets ohlc holdings alerts =
      "Prices" ∷ "Market Summary" ∷ (if has_items ohlc then "OHLC" ∷ [] else [])
      ++ ((if has_objects holdings then "Holdings" ∷ [] else [])
          ++ (if has_objects alerts then "Alerts" ∷ [] else []))

  sheet_names-append :
      (xs ys : List (Sheet A)) → sheet_names (xs ++ ys) ≡ sheet_names xs ++ sheet_names ys
  sheet_names-append [] ys = refl
  sheet_names-append (x ∷ xs) ys = cc (sheet_names-append xs ys)

  stored_names :
      (name : String) (s : Stored A)
      → sheet_names (stored_sheets name s) ≡ (if has_objects s then name ∷ [] else [])
  unfolding stored_sheets from_objects
  stored_names name Stored.malformed = refl
  stored_names name Stored.no_list = refl
  stored_names name Stored.no_items = refl
  stored_names name Stored.no_objects = refl
  stored_names name Stored.null_item = refl
  stored_names name (objects r rows) = refl

  written :
      (p : Panel) (name : String) (sheets : List (Sheet A)) (r : Result (Unit {0}))
      (wanted : List String) (test : Bool)
      → p.busy ≡ false
      → some (sheet_names sheets) ≡ (if test then some wanted else none)
      → let ended =
          finish (record p { busy = true }) (r >>= λ _. done (save_workbook name sheets)) in
        (ended.0 ≡ p) × (saved_sheets ended.1 ≡ (if test && succeeds r then some wanted else none))
  written p name sheets failed wanted true idle e = (ground arith, refl)
  written p name sheets failed wanted false idle e = (ground arith, refl)
  written p name sheets (done u) wanted true idle e = (ground arith, e)
  written p name sheets (done u) wanted false idle e = (ground arith, e)

  ended_by :
      (p : Panel) (name : String) (book : Result (List (Sheet A)))
      (writes : List (Sheet A) → Result (Unit {0})) (wanted : List String) (test : Bool)
      → p.busy ≡ false
      → names_of book ≡ (if test then some wanted else none)
      → let ended =
          finish
            (record p { busy = true })
            (do sheets ← book; _ ← writes sheets; done (save_workbook name sheets)) in
        (ended.0 ≡ p)
        × (saved_sheets ended.1
            ≡ (if test && succeeds (book >>= writes) then some wanted else none))
  ended_by p name failed writes wanted true idle e = (ground arith, refl)
  ended_by p name failed writes wanted false idle e = (ground arith, refl)
  ended_by p name (done sheets) writes wanted test idle e =
      written p name sheets (writes sheets) wanted test idle e

module _ {ℓ} {A : Type ℓ} ⦃n : Num A⦄ (iso : ℕ → String) (number_of : String → A) where
  candle_names :
      (ohlc : Result (List (Candle A)))
      → sheet_names (candle_sheets iso ohlc) ≡ (if has_items ohlc then "OHLC" ∷ [] else [])
  unfolding candle_sheets from_objects
  candle_names failed = refl
  candle_names (done []) = refl
  candle_names (done (c ∷ candles)) = refl

  workbook_names :
      (series : Result (List PricePoint)) (coins : List (CoinMeta A))
      (ohlc : Result (List (Candle A))) (holdings alerts : Stored A)
      → names_of (workbook iso number_of series coins ohlc holdings alerts) ≡ (
          if has_items series && has_items (done coins)
          then some (wanted_sheets ohlc holdings alerts)
          else none)
  unfolding workbook from_objects
  workbook_names failed coins ohlc holdings alerts = refl
  workbook_names (done []) coins ohlc holdings alerts = refl
  workbook_names (done (p ∷ points)) [] ohlc holdings alerts = refl
  workbook_names (done (p ∷ points)) (c ∷ coins) ohlc holdings alerts =
      simp (sheet_names-append, candle_names, stored_names)

  -- The download of a workbook, for every way its parts can end: the panel is as before and not busy. With
  -- a coin chosen, something is saved exactly if the writer is loaded, the series comes and has a point,
  -- there is a coin, and the writer succeeds; then the sheets are the prices and the summary, and, in
  -- this order, the candles if they come and are not empty, the holdings and the alerts if the
  -- stored lists are lists of objects. The panel is not busy before.
  pub download_xlsx_lem :
      (loads : Result (Unit {0})) (writes : List (Sheet A) → Result (Unit {0}))
      (series : Result (List PricePoint)) (coins : List (CoinMeta A))
      (ohlc : Result (List (Candle A))) (holdings alerts : Stored A) (p : Panel)
      → p.busy ≡ false
      → let book = workbook iso number_of series coins ohlc holdings alerts in
        let (after, effect) =
          download_xlsx iso number_of loads writes series coins ohlc holdings alerts p in
        (after ≡ p)
        × (saved_sheets effect ≡ (
            if str_eq p.coin ""
            then none
            else if succeeds loads
                && (has_items series && (has_items (done coins) && succeeds (book >>= writes)))
            then some (wanted_sheets ohlc holdings alerts)
            else none))
  unfolding download_xlsx
  download_xlsx_lem failed writes series coins ohlc holdings alerts p idle =
      elim (Bool-cases (str_eq p.coin "")) [
        | inl no_coin ↦ rw no_coin (refl, refl)
        | inr coin ↦ rw coin (ground arith, refl)
      ]
  download_xlsx_lem (done u) writes series coins ohlc holdings alerts p idle =
      let book = workbook iso number_of series coins ohlc holdings alerts in
      let names = workbook_names series coins ohlc holdings alerts in
      elim (Bool-cases (str_eq p.coin "")) [
        | inl no_coin ↦ rw no_coin (refl, refl)
        | inr coin ↦
            rw
              (
                coin,
                and_both (has_items series) (has_items (done coins)) (succeeds (book >>= writes)),
              )
              (ended_by p _ book writes (wanted_sheets ohlc holdings alerts)
                (has_items series && has_items (done coins)) idle names)
      ]
