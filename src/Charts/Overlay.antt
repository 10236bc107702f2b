-- ===== src/Charts/Overlay.antt =====
-- Which percentage stands where in the data of the chart of several coins.
use crypto_dashboard.Prelude.{
  ℕ, ◌≡◌, refl, ap, sym, ◌∙◌, String, str_eq, eq_iff, ◌&&◌, Bool, true, false, Option, none, some,
  List, [], ◌∷◌, if◌then◌else◌, Bool-cases, inl, inr,
}
use crypto_dashboard.Prelude.Maps.{lookup, insert, lookup-insert, or_else, or_else-none}
use crypto_dashboard.Numbers.{Num, lt_of}
use crypto_dashboard.Price.{PricePoint}
use crypto_dashboard.Hooks.AllSeries.{CoinSeries}
use crypto_dashboard.Charts.Relative.{
  Table, write, row_or_empty, percent, add_points, add_coin, add_series,
}

module _ {ℓ} {A : Type ℓ} where
  abbrev pub entry_in : String → Option (List (String × A)) → Option A
  entry_in coin none = none
  entry_in coin (some row) = lookup coin row

  -- The percentage of a coin in the row of a time.
  abbrev pub entry : String → String → Table A → Option A
  entry t coin table = entry_in coin (lookup t table)

  entry_in-row_or_empty :
      (coin : String) (o : Option (List (String × A)))
      → lookup coin (row_or_empty o) ≡ entry_in coin o
  unfolding lookup
  entry_in-row_or_empty coin none = refl
  entry_in-row_or_empty coin (some row) = refl

  entry-write :
      (t coin u c : String) (pct : A) (table : Table A)
      → entry u c (write t coin pct table)
        ≡ (if str_eq t u && str_eq coin c then some pct else entry u c table)
  unfolding write
  entry-write t coin u c pct table = elim (Bool-cases (str_eq t u)) [
    | inl same ↦
        rw
          (
            lookup-insert t u (insert coin pct (row_or_empty (lookup t table))) table,
            same,
            lookup-insert coin c pct (row_or_empty (lookup t table)),
            entry_in-row_or_empty c (lookup t table),
            (eq_iff t u).0 same,
          )
          refl
    | inr other ↦
        rw (lookup-insert t u (insert coin pct (row_or_empty (lookup t table))) table, other) refl
  ]

  or_else-none_if : (b : Bool) (o : Option A) → or_else (if b then none else none) o ≡ o
  or_else-none_if true o = refl
  or_else-none_if false o = refl

  -- One more write, before later ones and after earlier ones.
  or_else-write :
      (later : Option A) (same_time same_coin : Bool) (pct : A) (earlier : Option A)
      → or_else
          (if same_coin then later else none)
          (if same_time && same_coin then some pct else earlier)
        ≡ or_else
            (if same_coin then or_else later (if same_time then some pct else none) else none)
            earlier
  or_else-write (some a) same_time true pct earlier = refl
  or_else-write none true true pct earlier = refl
  or_else-write none false true pct earlier = refl
  or_else-write later true false pct earlier = refl
  or_else-write later false false pct earlier = refl

  or_else_assoc : (a b c : Option A) → or_else a (or_else b c) ≡ or_else (or_else a b) c
  or_else_assoc none b c = refl
  or_else_assoc (some x) b c = refl

module _ {ℓ} {A : Type ℓ} ⦃n : Num A⦄ (iso : ℕ → String) (number : String → A) where
  -- The percentage of the last point that is written at a time.
  abbrev pub last_at : String → A → List PricePoint → Option A
  last_at t base [] = none
  last_at t base (p ∷ points) =
      or_else (last_at t base points)
        (if str_eq (iso p.observed_at) t then some (percent iso number base p) else none)

  -- The same for the points of a coin, in percent of the first one; none if that is not positive.
  abbrev pub of_points : String → List PricePoint → Option A
  of_points t [] = none
  of_points t (p ∷ points) =
      if lt_of (n.of_ℕ 0) (number p.value) then last_at t (number p.value) (p ∷ points) else none

  -- What should stand at a time for a coin: the last series of the coin with a point there decides.
  abbrev pub wanted : String → String → List CoinSeries → Option A
  wanted t coin [] = none
  wanted t coin (s ∷ series) =
      or_else (wanted t coin series) (if str_eq s.coin coin then of_points t s.points else none)

  entry-add_points :
      (t c coin : String) (base : A) (points : List PricePoint) (table : Table A)
      (latest : List (String × A))
      → entry t c (add_points iso number coin base points (table, latest)).0
        ≡ or_else (if str_eq coin c then last_at t base points else none) (entry t c table)
  unfolding add_points
  entry-add_points t c coin base [] table latest =
      sym (or_else-none_if (str_eq coin c) (entry t c table))
  entry-add_points t c coin base (p ∷ points) table latest =
      entry-add_points t c coin base points
        (write (iso p.observed_at) coin (percent iso number base p) table)
        (insert coin (percent iso number base p) latest)
      ∙ ap (or_else (if str_eq coin c then last_at t base points else none))
          (entry-write (iso p.observed_at) coin t c (percent iso number base p) table)
      ∙ or_else-write (last_at t base points) (str_eq (iso p.observed_at) t) (str_eq coin c)
          (percent iso number base p) (entry t c table)

  entry-add_coin :
      (t c coin : String) (points : List PricePoint) (state : Table A × List (String × A))
      → entry t c (add_coin iso number coin points state).0
        ≡ or_else (if str_eq coin c then of_points t points else none) (entry t c state.0)
  entry-add_coin t c coin [] state = sym (or_else-none_if (str_eq coin c) (entry t c state.0))
  entry-add_coin t c coin (p ∷ points) (table, latest) =
      elim (Bool-cases (lt_of (n.of_ℕ 0) (number p.value))) [
        | inl pos ↦ rw pos (entry-add_points t c coin (number p.value) (p ∷ points) table latest)
        | inr other ↦ rw other (sym (or_else-none_if (str_eq coin c) (entry t c table)))
      ]

  entry-add_series_from :
      (t c : String) (series : List CoinSeries) (state : Table A × List (String × A))
      → entry t c (add_series iso number series state).0
        ≡ or_else (wanted t c series) (entry t c state.0)
  unfolding add_series
  entry-add_series_from t c [] state = refl
  entry-add_series_from t c (s ∷ series) state =
      entry-add_series_from t c series (add_coin iso number s.coin s.points state)
      ∙ ap (or_else (wanted t c series)) (entry-add_coin t c s.coin s.points state)
      ∙ or_else_assoc (wanted t c series) _ (entry t c state.0)

  -- The data before its rows are put in order hold, at each time and for each coin, the change in percent
  -- from the coin's first point to the last of its points of that time, and nothing where the coin
  -- has no point of that time or its first price is not positive; of two series of one coin the
  -- later one that has such a point decides.
  pub entry-add_series :
      (t coin : String) (series : List CoinSeries)
      → entry t coin (add_series iso number series ([], [])).0 ≡ wanted t coin series
  unfolding lookup
  entry-add_series t coin series =
      entry-add_series_from t coin series ([], []) ∙ or_else-none (wanted t coin series)
