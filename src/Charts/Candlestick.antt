-- ===== src/Charts/Candlestick.antt =====
-- frontend/src/presentation/components/CandlestickChart.tsx: the candles that are loaded for a choice, the
-- overlays, and the places on the canvas. The load of CoinDetail.tsx beside it is the same but for a
-- failure, which it does not show. A callback carries the number of the run of its effect, whose
-- `cancelled` flag is down exactly while the run is the last one of a mounted component.
use crypto_dashboard.Prelude.{
  ℕ, ◌+◌, ◌==◌, ◌&&◌, String, Bool, true, false, Option, none, some, List, [], ◌∷◌, map,
  if◌then◌else◌, length, last?, get_elem?,
}
use crypto_dashboard.Numbers.{Num, max_of, min_of, or_nonzero, ratio_of, clamp_of}
use crypto_dashboard.Candles.{Candle}
use crypto_dashboard.Indicators.{BollingerBands, ema, rsi, bollinger}

-- What is loaded, for the number of the last run.
pub record Load {ℓ} (B : Type ℓ) : Type ℓ where
  pub items : List B
  pub loading : Bool
  pub error : Option String
  pub run : ℕ
  pub mounted : Bool

module _ {ℓ} {B : Type ℓ} where
  abbrev pub mount : Load B
  mount = record { items = []; loading = true; error = none; run = 0; mounted = true }

  abbrev pub is_current : ℕ → Load B → Bool
  is_current run f = f.mounted && run == f.run

  -- The start of a run, for a choice with a coin.
  unfoldable pub begin : Load B → Load B
  begin f = record f { loading = true; run = f.run + 1 }

  unfoldable pub arrive : ℕ → List B → Load B → Load B
  arrive run items f =
      if is_current run f then record f { items = items; error = none; loading = false } else f

  unfoldable pub fail : ℕ → String → Load B → Load B
  fail run err f = if is_current run f then record f { error = some err; loading = false } else f

  -- The failure on the page of a coin.
  unfoldable pub fail_quietly : ℕ → Load B → Load B
  fail_quietly run f = if is_current run f then record f { loading = false } else f

  unfoldable pub unmount : Load B → Load B
  unmount f = record f { mounted = false }

-- Which overlays are on.
pub record Shown : Type 0 where
  pub ema12 : Bool
  pub ema26 : Bool
  pub bb : Bool
  pub rsi : Bool

pub record Overlays {ℓ} (A : Type ℓ) : Type ℓ where
  pub fast : Option (List (Option A))
  pub slow : Option (List (Option A))
  pub bands : Option (BollingerBands A)
  pub strength : Option (List (Option A))

-- The least and the greatest value so far.
pub record Extent {ℓ} (A : Type ℓ) : Type ℓ where
  pub lo : A
  pub hi : A

module _ {ℓ} {A : Type ℓ} ⦃n : Num A⦄ where
  abbrev pub closes : List (Candle A) → List A
  closes candles = map (λ (c : Candle A). c.c) candles

  unfoldable pub overlays_of : List A → Shown → Overlays A
  unfolding ema rsi bollinger
  overlays_of values ind = record {
    fast = if ind.ema12 then some (ema values 12) else none;
    slow = if ind.ema26 then some (ema values 26) else none;
    bands = if ind.bb then some (bollinger values 20 (n.of_ℕ 2)) else none;
    strength = if ind.rsi then some (rsi values 14) else none;
  }

  abbrev pub widen : Extent A → A → A → Extent A
  widen e lo hi = record { lo = min_of e.lo lo; hi = max_of e.hi hi }

  -- The loop over the candles.
  unfoldable pub with_candles : Extent A → List (Candle A) → Extent A
  with_candles e [] = e
  with_candles e (c ∷ candles) = with_candles (widen e c.l c.h) candles

  abbrev pub widen_by : Extent A → Option A → Extent A
  widen_by e none = e
  widen_by e (some v) = widen e v v

  -- `fold`, on an array.
  unfoldable pub fold : Extent A → List (Option A) → Extent A
  fold e [] = e
  fold e (v ∷ values) = fold (widen_by e v) values

  -- `arr ?? []`, and the two outer bands.
  abbrev pub values_of : Option (List (Option A)) → List (Option A)
  values_of none = []
  values_of (some values) = values

  abbrev pub upper_of : Option (BollingerBands A) → List (Option A)
  upper_of none = []
  upper_of (some b) = b.upper

  abbrev pub lower_of : Option (BollingerBands A) → List (Option A)
  lower_of none = []
  lower_of (some b) = b.lower

  -- The extent of all that is drawn, before the margins.
  unfoldable pub extent_of : List (Candle A) → Overlays A → Extent A
  unfolding with_candles fold
  extent_of candles o =
      let start : Extent A = record { lo = n.infinity; hi = n.sub (n.of_ℕ 0) n.infinity } in
      let averages =
        fold (fold (with_candles start candles) (values_of o.fast)) (values_of o.slow) in
      fold (fold averages (upper_of o.bands)) (lower_of o.bands)

  -- `(h - l) * 0.06 || h * 0.01 || 1`
  abbrev pub margin : Extent A → A
  margin e =
      or_nonzero (n.mul (n.sub e.hi e.lo) (ratio_of 6 100))
        (or_nonzero (n.mul e.hi (ratio_of 1 100)) (n.of_ℕ 1))

  unfoldable pub range_of : List (Candle A) → Overlays A → Extent A
  unfolding extent_of
  range_of [] o = record { lo = n.of_ℕ 0; hi = n.of_ℕ 1 }
  range_of (c ∷ candles) o =
      let e = extent_of (c ∷ candles) o in
      record { lo = n.sub e.lo (margin e); hi = n.add e.hi (margin e) }

  -- The canvas is 300 high, with the pads 60, 12, 10 and 22.
  abbrev pub plot_w : A → A
  plot_w width = n.sub (n.sub width (n.of_ℕ 60)) (n.of_ℕ 12)

  abbrev pub plot_h : A
  plot_h = n.sub (n.sub (n.of_ℕ 300) (n.of_ℕ 10)) (n.of_ℕ 22)

  unfoldable pub y_of : Extent A → A → A
  y_of r v = n.add (n.of_ℕ 10) (
      n.mul (n.sub (n.of_ℕ 1) (n.div (n.sub v r.lo) (or_nonzero (n.sub r.hi r.lo) (n.of_ℕ 1))))
        plot_h)

  unfoldable pub step_of : A → List (Candle A) → A
  step_of width [] = plot_w width
  step_of width (c ∷ candles) = n.div (plot_w width) (n.of_ℕ (length (c ∷ candles)))

  abbrev pub body_w : A → A
  body_w step = clamp_of (ratio_of 3 2) (n.of_ℕ 14) (n.mul step (ratio_of 6 10))

  abbrev pub x_of : A → ℕ → A
  x_of step i = n.add (n.add (n.of_ℕ 60) (n.mul (n.of_ℕ i) step)) (n.div step (n.of_ℕ 2))

  -- `Array.from({ length: 5 }, (_, i) => lo + ((hi - lo) * i) / 4)`
  abbrev pub y_tick : Extent A → ℕ → A
  y_tick r i = n.add r.lo (n.div (n.mul (n.sub r.hi r.lo) (n.of_ℕ i)) (n.of_ℕ 4))

  unfoldable pub y_ticks : Extent A → List A
  y_ticks r = y_tick r 0 ∷ y_tick r 1 ∷ y_tick r 2 ∷ y_tick r 3 ∷ y_tick r 4 ∷ []

  abbrev pub point_or_skip : Option A → A → (A → A) → List (A × A) → List (A × A)
  point_or_skip none x y rest = rest
  point_or_skip (some v) x y rest = (x, y v) ∷ rest

  -- The points of a line, from an index on; an entry that is null has none.
  unfoldable pub line_points : A → (A → A) → ℕ → List (Option A) → List (A × A)
  line_points step y i [] = []
  line_points step y i (v ∷ values) =
      point_or_skip v (x_of step i) y (line_points step y (i + 1) values)

  unfoldable pub rsi_y : A → A
  rsi_y v =
      n.add (n.add (n.of_ℕ 300) (n.of_ℕ 10))
        (n.mul (n.sub (n.of_ℕ 1) (n.div v (n.of_ℕ 100))) (n.sub (n.of_ℕ 84) (n.of_ℕ 26)))

  -- The candle whose figures are written out.
  unfoldable pub shown_candle : Option ℕ → List (Candle A) → Option (Candle A)
  shown_candle none candles = last? candles
  shown_candle (some i) candles = get_elem? candles i

  abbrev pub is_up : Option (Candle A) → Bool
  is_up none = true
  is_up (some c) = n.le c.o c.c
