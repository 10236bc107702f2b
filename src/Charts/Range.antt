-- ===== src/Charts/Range.antt =====
-- What is drawn lies in the range of the axis.
use crypto_dashboard.Prelude.{
  ◌≢◌, ℕ, ◌≡◌, refl, arith, false, Option, none, some, List, [], ◌∷◌, All, Bool-cases, inl, inr,
}
use crypto_dashboard.Numbers.{Num, IsSigned, ◌≼◌, or_nonzero, ratio_of}
use crypto_dashboard.Numbers.Clamps.{le_refl_of}
use crypto_dashboard.Numbers.Extents.{
  min_of-le_left, min_of-le_right, le-max_of_left, le-max_of_right,
}
use crypto_dashboard.Candles.{Candle}
use crypto_dashboard.Charts.Candlestick.{
  Overlays, Extent, widen, with_candles, fold, values_of, upper_of, lower_of, extent_of, margin,
  range_of,
}

module _ {ℓ} {A : Type ℓ} ⦃n : Num A⦄ where
  abbrev pub Within : Extent A → A → Type 0
  Within e v = (e.lo ≼ v) × (v ≼ e.hi)

  -- An entry that is null is not drawn.
  abbrev pub WithinIfDrawn : Extent A → Option A → Type 0
  WithinIfDrawn e none = Unit
  WithinIfDrawn e (some v) = Within e v

  -- A candle is drawn from its low to its high.
  abbrev pub CandleWithin : Extent A → Candle A → Type 0
  CandleWithin e c = Within e c.l × Within e c.h

  -- Prices are not negative, and a candle's low is at most its high.
  abbrev pub IsSane : Candle A → Type 0
  IsSane c = (n.of_ℕ 0 ≼ c.h) × (c.l ≼ c.h)

  -- What is drawn of the candles and of the lines that stretch the axis.
  pub record IsInRange (cs : List (Candle A)) (o : Overlays A) (r : Extent A) : Type ℓ where
    pub candles : All (CandleWithin r) cs
    pub fast : All (WithinIfDrawn r) (values_of o.fast)
    pub slow : All (WithinIfDrawn r) (values_of o.slow)
    pub upper : All (WithinIfDrawn r) (upper_of o.bands)
    pub lower : All (WithinIfDrawn r) (lower_of o.bands)

module _ {ℓ} {A : Type ℓ} ⦃n : Num A⦄ (laws : IsSigned A) where
  open laws use {
    of_ℕ-le, one_pos, le_trans, sub_nonneg, mul_nonneg, div_nonneg, le-add_right, sub-le_self,
  }

  abbrev Wider : Extent A → Extent A → Type 0
  Wider e f = (f.lo ≼ e.lo) × (e.hi ≼ f.hi)

  Wider-refl : (e : Extent A) → Wider e e
  Wider-refl e = (le_refl_of laws e.lo, le_refl_of laws e.hi)

  Wider-trans : (e f g : Extent A) → Wider e f → Wider f g → Wider e g
  Wider-trans e f g p q = (le_trans _ _ _ q.0 p.0, le_trans _ _ _ p.1 q.1)

  Wider-widen : (e : Extent A) (lo hi : A) → Wider e (widen e lo hi)
  Wider-widen e lo hi = (min_of-le_left laws e.lo lo, le-max_of_left laws e.hi hi)

  Wider-fold : (e : Extent A) (values : List (Option A)) → Wider e (fold e values)
  unfolding fold
  Wider-fold e [] = Wider-refl e
  Wider-fold e (none ∷ values) = Wider-fold e values
  Wider-fold e (some v ∷ values) =
      Wider-trans e (widen e v v) (fold (widen e v v) values) (Wider-widen e v v)
        (Wider-fold (widen e v v) values)

  Wider-with_candles : (e : Extent A) (cs : List (Candle A)) → Wider e (with_candles e cs)
  unfolding with_candles
  Wider-with_candles e [] = Wider-refl e
  Wider-with_candles e (c ∷ cs) =
      Wider-trans e (widen e c.l c.h) (with_candles (widen e c.l c.h) cs) (Wider-widen e c.l c.h)
        (Wider-with_candles (widen e c.l c.h) cs)

  Within-Wider : (e f : Extent A) (v : A) → Wider e f → Within e v → Within f v
  Within-Wider e f v w h = (le_trans _ _ _ w.0 h.0, le_trans _ _ _ h.1 w.1)

  All-Wider :
      (e f : Extent A) (vs : List (Option A))
      → Wider e f
      → All (WithinIfDrawn e) vs
      → All (WithinIfDrawn f) vs
  All-Wider e f [] w h = tt
  All-Wider e f (none ∷ vs) w h = (tt, All-Wider e f vs w h.1)
  All-Wider e f (some v ∷ vs) w h = (Within-Wider e f v w h.0, All-Wider e f vs w h.1)

  Candles-Wider :
      (e f : Extent A) (cs : List (Candle A))
      → Wider e f
      → All (CandleWithin e) cs
      → All (CandleWithin f) cs
  Candles-Wider e f [] w h = tt
  Candles-Wider e f (c ∷ cs) w h =
      ((Within-Wider e f c.l w h.0.0, Within-Wider e f c.h w h.0.1), Candles-Wider e f cs w h.1)

  All-fold : (e : Extent A) (vs : List (Option A)) → All (WithinIfDrawn (fold e vs)) vs
  unfolding fold
  All-fold e [] = tt
  All-fold e (none ∷ vs) = (tt, All-fold e vs)
  All-fold e (some v ∷ vs) = (
    Within-Wider (widen e v v) (fold (widen e v v) vs) v (Wider-fold (widen e v v) vs)
        (min_of-le_right laws e.lo v, le-max_of_right laws e.hi v),
    All-fold (widen e v v) vs,
  )

  All-with_candles :
      (e : Extent A) (cs : List (Candle A))
      → All IsSane cs
      → All (CandleWithin (with_candles e cs)) cs
  unfolding with_candles
  All-with_candles e [] s = tt
  All-with_candles e (c ∷ cs) s =
      let f = widen e c.l c.h in
      let low = min_of-le_right laws e.lo c.l in
      let high = le-max_of_right laws e.hi c.h in
      let wide = Wider-with_candles f cs in
      (
        (
          Within-Wider f (with_candles f cs) c.l wide (low, le_trans _ _ _ s.0.1 high),
          Within-Wider f (with_candles f cs) c.h wide (le_trans _ _ _ low s.0.1, high),
        ),
        All-with_candles f cs s.1,
      )

  ratio_nonneg : (a : A) → n.of_ℕ 0 ≼ a → n.of_ℕ 0 ≼ or_nonzero a (n.of_ℕ 1)
  ratio_nonneg a h = ground (arith, of_ℕ-le 0 1 (omega arith))

  hundred_pos : n.le (n.of_ℕ 100) (n.of_ℕ 0) ≡ false
  hundred_pos = elim (Bool-cases (n.le (n.of_ℕ 100) (n.of_ℕ 0))) [
    | inl h ↦
        cc (one_pos, le_trans (n.of_ℕ 1) (n.of_ℕ 100) (n.of_ℕ 0) (of_ℕ-le 1 100 (omega arith)) h)
    | inr h ↦ h
  ]

  percent_nonneg : (a : A) (k : ℕ) → n.of_ℕ 0 ≼ a → n.of_ℕ 0 ≼ n.mul a (ratio_of k 100)
  percent_nonneg a k h =
      mul_nonneg a _ h
        (div_nonneg _ _ (of_ℕ-le 0 k (omega arith)) (of_ℕ-le 0 100 (omega arith)) hundred_pos)

  margin_nonneg : (e : Extent A) → n.of_ℕ 0 ≼ e.hi → e.lo ≼ e.hi → n.of_ℕ 0 ≼ margin e
  margin_nonneg e h order = ground (
    arith,
    percent_nonneg (n.sub e.hi e.lo) 6 (sub_nonneg e.hi e.lo order),
    percent_nonneg e.hi 1 h,
    of_ℕ-le 0 1 (omega arith),
  )

  IsInRange-fold :
      (e : Extent A) (cs : List (Candle A)) (o : Overlays A)
      → All (CandleWithin e) cs
      → IsInRange cs o (
          fold
            (fold (fold (fold e (values_of o.fast)) (values_of o.slow)) (upper_of o.bands))
            (lower_of o.bands))
  IsInRange-fold e cs o h =
      let e1 = fold e (values_of o.fast) in
      let e2 = fold e1 (values_of o.slow) in
      let e3 = fold e2 (upper_of o.bands) in
      let e4 = fold e3 (lower_of o.bands) in
      let w34 = Wider-fold e3 (lower_of o.bands) in
      let w24 = Wider-trans e2 e3 e4 (Wider-fold e2 (upper_of o.bands)) w34 in
      let w14 = Wider-trans e1 e2 e4 (Wider-fold e1 (values_of o.slow)) w24 in
      let w04 = Wider-trans e e1 e4 (Wider-fold e (values_of o.fast)) w14 in
      record {
        candles = Candles-Wider e e4 cs w04 h;
        fast = All-Wider e1 e4 (values_of o.fast) w14 (All-fold e (values_of o.fast));
        slow = All-Wider e2 e4 (values_of o.slow) w24 (All-fold e1 (values_of o.slow));
        upper = All-Wider e3 e4 (upper_of o.bands) w34 (All-fold e2 (upper_of o.bands));
        lower = All-fold e3 (lower_of o.bands);
      }

  IsInRange-Wider :
      (e f : Extent A) (cs : List (Candle A)) (o : Overlays A)
      → Wider e f
      → IsInRange cs o e
      → IsInRange cs o f
  IsInRange-Wider e f cs o w r = record {
    candles = Candles-Wider e f cs w r.candles;
    fast = All-Wider e f (values_of o.fast) w r.fast;
    slow = All-Wider e f (values_of o.slow) w r.slow;
    upper = All-Wider e f (upper_of o.bands) w r.upper;
    lower = All-Wider e f (lower_of o.bands) w r.lower;
  }

  Wider-margin :
      (e : Extent A)
      → n.of_ℕ 0 ≼ margin e
      → Wider e (record { lo = n.sub e.lo (margin e); hi = n.add e.hi (margin e) })
  Wider-margin e h = (sub-le_self e.lo (margin e) h, le-add_right e.hi (margin e) h)

  -- The axis covers what is drawn: each candle from its low to its high, and each number of the two
  -- averages and of the two outer bands, whatever overlays are on. The candles' lows are at most their
  -- highs, and the highs are not negative. The numbers obey the sign rules.
  pub range_of-IsInRange :
      (cs : List (Candle A)) (o : Overlays A)
      → All IsSane cs
      → cs ≢ []
      → IsInRange cs o (range_of cs o)
  unfolding range_of extent_of
  range_of-IsInRange [] o s ne = absurd (ne refl)
  range_of-IsInRange (c ∷ cs) o s ne =
      let start : Extent A = record { lo = n.infinity; hi = n.sub (n.of_ℕ 0) n.infinity } in
      let e = extent_of (c ∷ cs) o in
      let inside =
        IsInRange-fold (with_candles start (c ∷ cs)) (c ∷ cs) o
          (All-with_candles start (c ∷ cs) s) in
      let first = inside.candles.0 in
      let high = le_trans _ _ _ s.0.0 first.1.1 in
      let order = le_trans _ _ _ first.0.0 first.0.1 in
      IsInRange-Wider e _ (c ∷ cs) o (Wider-margin e (margin_nonneg e high order)) inside
