-- ===== src/Hooks/AllSeries.antt =====
-- frontend/src/presentation/hooks/UseAllSeries.ts: the series of several coins, and their live points.
pub mod Points
use crypto_dashboard.Prelude.{
  ◌+◌, ℕ, ◌-◌, ◌==◌, String, str_eq, ◌&&◌, Bool, true, false, Option, none, some, List, [], ◌∷◌,
  ◌++◌, map, if◌then◌else◌, length, drop, last?, init,
}
use crypto_dashboard.Prelude.Maps.{lookup, insert, insert_all}
use crypto_dashboard.Prelude.Sets.{has}
use crypto_dashboard.Price.{Price, PricePoint}

pub record CoinSeries : Type 0 where
  pub coin : String
  pub points : List PricePoint

pub record SeriesState : Type 0 where
  pub series : List CoinSeries
  pub loading : Bool
  pub error : Option String

-- The hook with the number of the last run of its effect: a run's `cancelled` flag is down exactly while
-- the run is the last one of a mounted component, and a callback carries the number of its run.
pub record Hook : Type 0 where
  pub state : SeriesState
  pub run : ℕ
  pub mounted : Bool

abbrev pub mount : Hook
mount = record {
  state = record { series = []; loading = true; error = none };
  run = 0;
  mounted = true;
}

abbrev pub is_current : ℕ → Hook → Bool
is_current run h = h.mounted && run == h.run

-- The start of a run, for a list of coins.
unfoldable pub begin : List String → Hook → Hook
begin [] h = record h {
  state = record { series = []; loading = false; error = none };
  run = h.run + 1;
}
begin (coin ∷ coins) h = record h { state = record h.state { loading = true }; run = h.run + 1 }

-- All requests of a run have answered, or one has failed.
unfoldable pub arrive : ℕ → List CoinSeries → Hook → Hook
arrive run series h =
    if is_current run h
    then record h { state = record { series = series; loading = false; error = none } }
    else h

unfoldable pub fail : ℕ → String → Hook → Hook
fail run err h =
    if is_current run h
    then record h { state = record { series = []; loading = false; error = some err } }
    else h

unfoldable pub unmount : Hook → Hook
unmount h = record h { mounted = false }

-- `points.slice(-1500)`
abbrev pub keep_points : List PricePoint → List PricePoint
keep_points points = drop (length points - 1500) points

-- The series with one more point, which replaces a last point of the same time.
unfoldable pub extend : List PricePoint → PricePoint → Option PricePoint → List PricePoint
extend points next none = points ++ next ∷ []
extend points next (some previous) =
    if previous.observed_at == next.observed_at
    then init points ++ next ∷ []
    else points ++ next ∷ []

abbrev pub points_of : Option CoinSeries → List PricePoint
points_of none = []
points_of (some s) = s.points

unfoldable pub by_coin : List CoinSeries → List (String × CoinSeries)
by_coin [] = []
by_coin (s ∷ series) = (s.coin, s) ∷ by_coin series

module _ {ℓ} {A : Type ℓ} where
  -- The prices that the chart shows.
  unfoldable pub wanted : List String → String → List (Price A) → List (Price A)
  wanted coins currency [] = []
  wanted coins currency (p ∷ ps) =
      let rest = wanted coins currency ps in
      if str_eq p.currency currency && has p.coin coins then p ∷ rest else rest

  abbrev pub point_of : Price A → PricePoint
  point_of p = record { value = p.value; observed_at = p.observed_at }

  -- The loop over the incoming prices.
  unfoldable pub add_points :
      List (Price A) → List (String × CoinSeries) → List (String × CoinSeries)
  unfolding extend
  add_points [] table = table
  add_points (p ∷ ps) table =
      let points = points_of (lookup p.coin table) in
      add_points ps (
        insert p.coin
          record { coin = p.coin; points = keep_points (extend points (point_of p) (last? points)) }
          table)

-- `byCoin.get(coin) ?? { coin, points: [] }`
abbrev pub series_of : String → Option CoinSeries → CoinSeries
series_of coin (some s) = s
series_of coin none = record { coin = coin; points = [] }

unfoldable pub in_order : List String → List (String × CoinSeries) → List CoinSeries
in_order [] table = []
in_order (coin ∷ coins) table = series_of coin (lookup coin table) ∷ in_order coins table

module _ {ℓ} {A : Type ℓ} where
  abbrev pub update : List String → List (Price A) → SeriesState → SeriesState
  update coins [] s = s
  update coins (p ∷ ps) s = record s {
    series = in_order coins (add_points (p ∷ ps) (insert_all (by_coin s.series) []));
  }

  -- The subscriber of the price stream.
  unfoldable pub receive : List String → String → List (Price A) → SeriesState → SeriesState
  unfolding wanted add_points by_coin in_order
  receive coins currency prices s = update coins (wanted coins currency prices) s

  -- The subscriber of a run; it stops when the run is cancelled.
  unfoldable pub receive_run : ℕ → List String → String → List (Price A) → Hook → Hook
  unfolding receive
  receive_run run coins currency prices h =
      if is_current run h then record h { state = receive coins currency prices h.state } else h
