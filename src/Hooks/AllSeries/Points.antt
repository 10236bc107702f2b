-- ===== src/Hooks/AllSeries/Points.antt =====
-- What a live batch does to the series.
use crypto_dashboard.Prelude.{
  inr, inl, Bool-cases, ◌≡◌, refl, ◌∙◌, arith, ◌≤◌, ◌-◌, String, List, [], ◌∷◌, All, eq_iff, str_eq,
  length, length-drop, map, last?,
}
use crypto_dashboard.Prelude.Maps.{lookup, insert, insert_all}
use mathlib.Core.Path.{ap₂}
use crypto_dashboard.Price.{Price, PricePoint}
use crypto_dashboard.Hooks.AllSeries.{
  series_of, CoinSeries, SeriesState, keep_points, extend, points_of, by_coin, wanted, point_of,
  add_points, in_order, update, receive,
}

abbrev pub IsShort : CoinSeries → Type 0
IsShort s = length s.points ≤ 1500

-- Each series stands under its coin.
abbrev IsTable : List (String × CoinSeries) → Type 0
IsTable [] = Unit
IsTable ((k, s) ∷ table) = (s.coin ≡ k) × IsShort s × IsTable table

insert-IsTable :
    (s : CoinSeries) (table : List (String × CoinSeries))
    → IsShort s
    → IsTable table
    → IsTable (insert s.coin s table)
unfolding insert
insert-IsTable s [] short h = (refl, short, tt)
insert-IsTable s ((k, t) ∷ table) short h =
    ground (arith, eq_iff k s.coin, insert-IsTable s table short h.2)

keep_points_short : (points : List PricePoint) → length (keep_points points) ≤ 1500
keep_points_short points = omega (arith, length-drop (length points - 1500) points)

insert_all-IsTable :
    (series : List CoinSeries) (table : List (String × CoinSeries))
    → All IsShort series
    → IsTable table
    → IsTable (insert_all (by_coin series) table)
unfolding insert_all by_coin
insert_all-IsTable [] table short h = h
insert_all-IsTable (s ∷ series) table short h =
    insert_all-IsTable series (insert s.coin s table) short.1 (insert-IsTable s table short.0 h)

module _ {ℓ} {A : Type ℓ} where
  add_points-IsTable :
      (ps : List (Price A)) (table : List (String × CoinSeries))
      → IsTable table
      → IsTable (add_points ps table)
  unfolding add_points
  add_points-IsTable [] table h = h
  add_points-IsTable (p ∷ ps) table h =
      let points = points_of (lookup p.coin table) in
      let next = extend points (point_of p) (last? points) in
      let s : CoinSeries = record { coin = p.coin; points = keep_points next } in
      add_points-IsTable ps (insert p.coin s table)
        (insert-IsTable s table (keep_points_short next) h)

-- The series of a coin in a well-formed table is that coin's.
series_of-IsTable :
    (coin : String) (table : List (String × CoinSeries))
    → IsTable table
    → let s = series_of coin (lookup coin table) in (s.coin ≡ coin) × IsShort s
unfolding lookup
series_of-IsTable coin [] h = (refl, omega arith)
series_of-IsTable coin ((k, t) ∷ table) h = elim (Bool-cases (str_eq k coin)) [
  | inl hit ↦ rw hit (h.0 ∙ (eq_iff k coin).0 hit, h.1)
  | inr miss ↦ rw miss (series_of-IsTable coin table h.2)
]

in_order_lem :
    (coins : List String) (table : List (String × CoinSeries))
    → IsTable table
    → (map (λ (s : CoinSeries). s.coin) (in_order coins table) ≡ coins)
      × All IsShort (in_order coins table)
unfolding in_order
in_order_lem [] table h = (refl, tt)
in_order_lem (coin ∷ coins) table h =
    let head = series_of-IsTable coin table h in
    let rest = in_order_lem coins table h in (ap₂ ◌∷◌ head.0 rest.0, (head.1, rest.1))

module _ {ℓ} {A : Type ℓ} where
  update_lem :
      (coins : List String) (prices : List (Price A)) (s : SeriesState)
      → map (λ (c : CoinSeries). c.coin) s.series ≡ coins
      → All IsShort s.series
      → let t = update coins prices s in
        (map (λ (c : CoinSeries). c.coin) t.series ≡ coins) × All IsShort t.series
  update_lem coins [] s same short = (same, short)
  update_lem coins (p ∷ ps) s same short =
      let table = insert_all (by_coin s.series) [] in
      in_order_lem coins (add_points (p ∷ ps) table)
        (add_points-IsTable (p ∷ ps) table (insert_all-IsTable s.series [] short tt))

  -- A live batch leaves one series for each requested coin, in the requested order,
  -- and none longer than 1500 points, if that held before.
  pub receive_lem :
      (coins : List String) (currency : String) (prices : List (Price A)) (s : SeriesState)
      → map (λ (c : CoinSeries). c.coin) s.series ≡ coins
      → All IsShort s.series
      → let t = receive coins currency prices s in
        (map (λ (c : CoinSeries). c.coin) t.series ≡ coins) × All IsShort t.series
  unfolding receive
  receive_lem coins currency prices s same short =
      update_lem coins (wanted coins currency prices) s same short
