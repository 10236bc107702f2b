-- ===== src/Indicators/Alignment.antt =====
-- The arrays that the indicators return are aligned with their input: as long as it, null inside the
-- warm-up window and a number behind it.
use crypto_dashboard.Prelude.{
  length-drop, drop, inr, ltb, inl, ◌||◌, leb, ◌∙◌, le→leb, length-append, Bool-cases, refl, false,
  [], ◌+◌, suc, some, ap, ◌==◌, ◌++◌, ◌∷◌, zero, none, length-replicate, ◌-◌, ◌≡◌, replicate,
  length, Option, ◌<◌, ◌≤◌, List, ℕ, arith,
}
use crypto_dashboard.Numbers.{Num}
use crypto_dashboard.Indicators.{
  loss_after, gain_after, seed_mean, smoothing, wilder, slide, sma_from, sma, ema_from, ema, blanks,
  smooth, first_moves, rsi_from, rsi_loops, rsi, band_from, bollinger,
}

module _ {ℓ} {A : Type ℓ} where
  -- The first `warm` entries are null, and no later one is.
  abbrev pub StartsAt : ℕ → List (Option A) → Type 0
  StartsAt warm [] = Unit
  StartsAt zero (some x ∷ out) = StartsAt zero out
  StartsAt zero (none ∷ out) = ⊥
  StartsAt (suc warm) (none ∷ out) = StartsAt warm out
  StartsAt (suc warm) (some x ∷ out) = ⊥

  -- `out` belongs to the input `values`, with a warm-up window of `warm` entries.
  pub record IsAligned (warm : ℕ) (values : List A) (out : List (Option A)) : Type 0 where
    pub same_length : length out ≡ length values
    pub starts : StartsAt warm out

  StartsAt-replicate :
      (warm : ℕ) (out : List (Option A))
      → StartsAt zero out
      → StartsAt warm (replicate warm none ++ out)
  StartsAt-replicate zero out h = h
  StartsAt-replicate (suc warm) out h = StartsAt-replicate warm out h

StartsAt-blanks {ℓ} :
    (A : Type ℓ) (warm k : ℕ) → k ≤ warm → StartsAt {A = A} warm (replicate k none)
StartsAt-blanks A warm zero h = tt
StartsAt-blanks A zero (suc k) h = absurd (omega arith)
StartsAt-blanks A (suc warm) (suc k) h = StartsAt-blanks A warm k (omega arith)

module _ {ℓ} {A : Type ℓ} ⦃n : Num A⦄ where
  blanks-IsAligned :
      (warm : ℕ) (values : List A) → length values ≤ warm → IsAligned warm values (blanks values)
  blanks-IsAligned warm values h = record {
    same_length = length-replicate (length values) none;
    starts = StartsAt-blanks A warm (length values) h;
  }

  length-sma_from :
      (values : List A) (period i : ℕ) (total : A) (rest : List A)
      → length (sma_from values period i total rest) ≡ length rest
  unfolding sma_from
  length-sma_from values period i total [] = refl
  length-sma_from values period i total (v ∷ rest) =
      ap suc (length-sma_from values period (i + 1) _ rest)

  StartsAt-sma_from :
      (values : List A) (period i : ℕ) (total : A) (rest : List A) (warm : ℕ)
      → warm ≡ period - 1 - i
      → StartsAt warm (sma_from values period i total rest)
  unfolding sma_from
  StartsAt-sma_from values period i total [] zero e = tt
  StartsAt-sma_from values period i total [] (suc warm) e = tt
  StartsAt-sma_from values period i total (v ∷ rest) zero e =
      ground
        (arith, StartsAt-sma_from values period (i + 1) (slide values period i total v) rest zero)
  StartsAt-sma_from values period i total (v ∷ rest) (suc warm) e =
      ground
        (arith, StartsAt-sma_from values period (i + 1) (slide values period i total v) rest warm)

  pub sma-IsAligned :
      (values : List A) (period : ℕ)
      → 0 < period
      → IsAligned (period - 1) values (sma values period)
  unfolding sma
  sma-IsAligned values period pos = rw (positive period pos) (record {
    same_length = length-sma_from values period 0 _ values;
    starts = StartsAt-sma_from values period 0 _ values (period - 1) (omega arith);
  })
    where
      positive : (k : ℕ) → 0 < k → (k == 0) ≡ false
      positive k h = ground arith

  ema_from_shape :
      (k prev : A) (rest : List A)
      → (length (ema_from k prev rest) ≡ length rest) × StartsAt zero (ema_from k prev rest)
  unfolding ema_from
  ema_from_shape k prev [] = (refl, tt)
  ema_from_shape k prev (v ∷ rest) =
      let later = ema_from_shape k (smooth k prev v) rest in (ap suc later.0, later.1)

  rsi_from_shape :
      (period : ℕ) (avg_gain avg_loss prev : A) (rest : List A)
      → let out = rsi_from period avg_gain avg_loss prev rest in
        (length out ≡ length rest) × StartsAt zero out
  unfolding rsi_from
  rsi_from_shape period avg_gain avg_loss prev [] = (refl, tt)
  rsi_from_shape period avg_gain avg_loss prev (v ∷ rest) =
      let later =
        rsi_from_shape period (wilder period avg_gain (n.sub v prev))
          (wilder period avg_loss (n.sub (n.of_ℕ 0) (n.sub v prev))) v rest in
      (ap suc later.0, later.1)

  first_moves-left :
      (gain loss prev : A) (count : ℕ) (rest : List A)
      → length (first_moves gain loss prev count rest).left ≡ length rest - count
  unfolding first_moves
  first_moves-left gain loss prev zero rest = omega arith
  first_moves-left gain loss prev (suc count) [] = omega arith
  first_moves-left gain loss prev (suc count) (v ∷ rest) =
      omega (arith, first_moves-left (gain_after gain prev v) (loss_after loss prev v) v count rest)

  shape-IsAligned :
      (warm : ℕ) (values : List A) (out : List (Option A)) (x : A)
      → length values ≡ warm + suc (length out)
      → StartsAt zero out
      → IsAligned warm values (replicate warm none ++ some x ∷ out)
  shape-IsAligned warm values out x e s = record {
    same_length = omega (
      arith,
      length-append {ℓ} (replicate warm none) (some x ∷ out),
      length-replicate {ℓ} {A = Option A} warm none,
    );
    starts = StartsAt-replicate warm (some x ∷ out) s;
  }

  pub ema-IsAligned :
      (values : List A) (period : ℕ)
      → 0 < period
      → IsAligned (period - 1) values (ema values period)
  unfolding ema
  ema-IsAligned values period pos = elim (Bool-cases (period == 0 || ltb (length values) period)) [
    | inl short ↦ rw short (blanks-IsAligned (period - 1) values (ground arith))
    | inr long ↦
        let rest =
          ema_from_shape (smoothing period) (seed_mean values period) (drop period values) in
        rw long (
          shape-IsAligned (period - 1) values _ _
            (ground (arith, rest.0, length-drop period values)) rest.1)
  ]

  pub rsi_loops-IsAligned :
      (values : List A) (period : ℕ)
      → period < length values
      → IsAligned period values (rsi_loops period values)
  unfolding rsi_loops
  rsi_loops-IsAligned [] period h = absurd (omega arith)
  rsi_loops-IsAligned (v ∷ rest) period h =
      let m = first_moves (n.of_ℕ 0) (n.of_ℕ 0) v period rest in
      let later =
        rsi_from_shape period (n.div m.gain (n.of_ℕ period)) (n.div m.loss (n.of_ℕ period)) m.prev
          m.left in
      shape-IsAligned period (v ∷ rest) _ _
        (omega (arith, later.0, first_moves-left (n.of_ℕ 0) (n.of_ℕ 0) v period rest)) later.1

  pub rsi-IsAligned : (values : List A) (period : ℕ) → IsAligned period values (rsi values period)
  unfolding rsi
  rsi-IsAligned values period = elim (Bool-cases (leb (length values) period)) [
    | inl short ↦ rw short (blanks-IsAligned period values (ground arith))
    | inr long ↦ rw long (rsi_loops-IsAligned values period (ground arith))
  ]

  band_from_shape :
      (op : A → A → A) (values : List A) (period : ℕ) (mult : A) (i warm : ℕ)
      (mids : List (Option A))
      → period ≤ i + warm + 1
      → StartsAt warm mids
      → let out = band_from op values period mult i mids in
        (length out ≡ length mids) × StartsAt warm out
  unfolding band_from
  band_from_shape op values period mult i zero [] e h = (refl, tt)
  band_from_shape op values period mult i (suc warm) [] e h = (refl, tt)
  band_from_shape op values period mult i zero (some m ∷ mids) e h =
      let later = band_from_shape op values period mult (i + 1) zero mids (omega arith) h in
      rw (le→leb period (i + 1) (omega arith)) (ap suc later.0, later.1)
  band_from_shape op values period mult i zero (none ∷ mids) e h = absurd h
  band_from_shape op values period mult i (suc warm) (none ∷ mids) e h =
      let later = band_from_shape op values period mult (i + 1) warm mids (omega arith) h in
      (ap suc later.0, later.1)
  band_from_shape op values period mult i (suc warm) (some m ∷ mids) e h = absurd h

  band-IsAligned :
      (op : A → A → A) (values : List A) (period : ℕ) (mult : A)
      → 0 < period
      → IsAligned (period - 1) values (band_from op values period mult 0 (sma values period))
  band-IsAligned op values period mult pos =
      let mid = sma-IsAligned values period pos in
      let shape =
        band_from_shape op values period mult 0 (period - 1) (sma values period) (omega arith)
          mid.starts in
      record { same_length = shape.0 ∙ mid.same_length; starts = shape.1 }

  -- Every array that the indicators return is as long as the input, null at the first entries and a
  -- number at all later ones: from index `period - 1` on for the averages and the three bands, from
  -- index `period` on for the strength index. The period is positive; the input may be shorter.
  pub indicators-IsAligned :
      (values : List A) (period : ℕ) (mult : A)
      → 0 < period
      → let bands = bollinger values period mult in
        IsAligned (period - 1) values (sma values period)
        × IsAligned (period - 1) values (ema values period)
        × IsAligned period values (rsi values period)
        × IsAligned (period - 1) values bands.mid
        × IsAligned (period - 1) values bands.upper
        × IsAligned (period - 1) values bands.lower
  unfolding bollinger
  indicators-IsAligned values period mult pos = (
    sma-IsAligned values period pos,
    ema-IsAligned values period pos,
    rsi-IsAligned values period,
    sma-IsAligned values period pos,
    band-IsAligned n.add values period mult pos,
    band-IsAligned n.sub values period mult pos,
  )
