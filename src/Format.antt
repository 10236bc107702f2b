-- ===== src/Format.antt =====
-- frontend/src/presentation/components/terminal/format.ts, and the formats of compact numbers in the
-- components beside it. The number methods of JavaScript that give a text are parameters.
pub mod Tests
use crypto_dashboard.Prelude.{ℕ, String, Option, none, some, not, if◌then◌else◌}
use crypto_dashboard.Numbers.{Num, abs_of, ◌⊘◌}
use crypto_dashboard.Texts.{◌<>◌}

-- `n.toFixed(digits)`, and `n.toLocaleString("en-US", ...)` with the least and the greatest number of
-- digits behind the point.
pub record NumberTexts {ℓ} (A : Type ℓ) : Type ℓ where
  pub to_fixed : ℕ → A → String
  pub to_locale : ℕ → ℕ → A → String

module _ {ℓ} {A : Type ℓ} ⦃n : Num A⦄ (t : NumberTexts A) where
  -- The digits of a price; `a` is its magnitude.
  abbrev pub digits_of : A → ℕ
  digits_of a =
      if n.le (n.of_ℕ 1000) a
      then 0
      else if n.le (n.of_ℕ 1) a
      then 2
      else if n.le (n.div (n.of_ℕ 1) (n.of_ℕ 100)) a
      then 4
      else 6

  unfoldable pub usd : A → String
  usd a = let digits = digits_of (abs_of a) in "$" <> t.to_locale digits digits a

  unfoldable pub pct : A → String
  pct a = (if n.le (n.of_ℕ 0) a then "+" else "") <> t.to_fixed 2 a <> "%"

  unfoldable pub arrow : A → String
  arrow a = (if n.le (n.of_ℕ 0) a then "▲" else "▼") <> " " <> t.to_fixed 2 (abs_of a) <> "%"

  abbrev pub scaled : ℕ → ℕ → String → A → String
  scaled digits unit suffix a = "$" <> t.to_fixed digits (n.div a (n.of_ℕ unit)) <> suffix

  unfoldable pub compact : A → String
  compact a =
      if n.le (n.of_ℕ 1_000_000_000_000) (abs_of a)
      then scaled 2 1_000_000_000_000 "T" a
      else if n.le (n.of_ℕ 1_000_000_000) (abs_of a)
      then scaled 2 1_000_000_000 "B" a
      else if n.le (n.of_ℕ 1_000_000) (abs_of a)
      then scaled 2 1_000_000 "M" a
      else if n.le (n.of_ℕ 1000) (abs_of a)
      then scaled 1 1000 "K" a
      else "$" <> t.to_fixed 0 a

  -- `dirColor`
  unfoldable pub dir_color : A → String
  dir_color a = if n.le (n.of_ℕ 0) a then "var(--cw-up)" else "var(--cw-down)"

  -- `fmtCompact` of the cards and of the page of a coin: a number that is missing or NaN has a dash.
  unfoldable pub fmt_compact : Option A → String
  unfolding compact
  fmt_compact none = "—"
  fmt_compact (some a) = if n.eq a a then compact a else "—"

  -- `fmtCompact` of the map of the market, with no thousands.
  unfoldable pub fmt_tile : Option A → String
  fmt_tile none = "—"
  fmt_tile (some a) =
      if not (n.eq a a)
      then "—"
      else if n.le (n.of_ℕ 1_000_000_000_000) (abs_of a)
      then scaled 2 1_000_000_000_000 "T" a
      else if n.le (n.of_ℕ 1_000_000_000) (abs_of a)
      then scaled 2 1_000_000_000 "B" a
      else if n.le (n.of_ℕ 1_000_000) (abs_of a)
      then scaled 2 1_000_000 "M" a
      else "$" <> t.to_locale 0 0 a

  -- `fmtSupply`
  unfoldable pub fmt_supply : Option A → String
  fmt_supply none = "—"
  fmt_supply (some a) =
      if not (n.eq a a)
      then "—"
      else if n.le (n.of_ℕ 1_000_000_000) a
      then t.to_fixed 2 (n.div a (n.of_ℕ 1_000_000_000)) <> "B"
      else if n.le (n.of_ℕ 1_000_000) a
      then t.to_fixed 2 (n.div a (n.of_ℕ 1_000_000)) <> "M"
      else t.to_locale 0 0 a
