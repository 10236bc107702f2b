-- ===== src/Indicators/Spread.antt =====
-- The bands around the average, from the sign rules of arithmetic.
use crypto_dashboard.Prelude.{none, zero}
use crypto_dashboard.Prelude.{
  zero, le→leb, some, suc, inr, inl, ◌+◌, ◌≤◌, false, [], ◌∷◌, ◌≡◌, Option, Bool-cases, ◌-◌, List,
  ◌<◌, ℕ, arith,
}
use crypto_dashboard.Numbers.{Num, IsSigned, ◌≼◌}
use crypto_dashboard.Indicators.{window, square_sum, square, deviation, band_from, bollinger}
use crypto_dashboard.Indicators.Alignment.{StartsAt, sma-IsAligned}

module _ {ℓ} {A : Type ℓ} ⦃n : Num A⦄ where
  -- At each index the three entries are null together, or in order.
  abbrev pub Nested : List (Option A) → List (Option A) → List (Option A) → Type 0
  Nested [] [] [] = Unit
  Nested (none ∷ ls) (none ∷ ms) (none ∷ us) = Nested ls ms us
  Nested (some l ∷ ls) (some m ∷ ms) (some u ∷ us) = (l ≼ m) × (m ≼ u) × Nested ls ms us
  Nested _ _ _ = ⊥

module _ {ℓ} {A : Type ℓ} ⦃n : Num A⦄ (laws : IsSigned A) where
  open laws use {
    one_pos, of_ℕ-le, add_nonneg, le-add_right, sub-le_self, mul_nonneg, div_nonneg, le_trans,
    square_nonneg, sqrt_nonneg,
  }

  of_ℕ_pos : (k : ℕ) → 0 < k → n.le (n.of_ℕ k) (n.of_ℕ 0) ≡ false
  of_ℕ_pos k h = elim (Bool-cases (n.le (n.of_ℕ k) (n.of_ℕ 0))) [
    | inl low ↦ cc (le_trans _ _ _ (of_ℕ-le 1 k h) low, one_pos)
    | inr high ↦ high
  ]

  square_sum_nonneg : (m acc : A) (xs : List A) → n.of_ℕ 0 ≼ acc → n.of_ℕ 0 ≼ square_sum m acc xs
  unfolding square_sum
  square_sum_nonneg m acc [] h = h
  square_sum_nonneg m acc (x ∷ xs) h =
      square_sum_nonneg m (n.add acc (square (n.sub x m))) xs
        (add_nonneg acc _ h (square_nonneg (n.sub x m)))

  root_mean_nonneg :
      (m : A) (xs : List A) (k : ℕ)
      → 0 < k
      → n.of_ℕ 0 ≼ n.sqrt (n.div (square_sum m (n.of_ℕ 0) xs) (n.of_ℕ k))
  root_mean_nonneg m xs k pos =
      let zero_nonneg = of_ℕ-le 0 0 (omega arith) in
      sqrt_nonneg _ (
        div_nonneg _ _ (square_sum_nonneg m (n.of_ℕ 0) xs zero_nonneg) (of_ℕ-le 0 k (omega arith))
          (of_ℕ_pos k pos))

  bands-Nested :
      (values : List A) (period : ℕ) (mult : A) (i warm : ℕ) (mids : List (Option A))
      → 0 < period
      → n.of_ℕ 0 ≼ mult
      → period ≤ i + warm + 1
      → StartsAt warm mids
      → Nested
          (band_from n.sub values period mult i mids)
          mids
          (band_from n.add values period mult i mids)
  unfolding band_from
  bands-Nested values period mult i zero [] pos hm e h = tt
  bands-Nested values period mult i (suc warm) [] pos hm e h = tt
  bands-Nested values period mult i zero (some m ∷ mids) pos hm e h =
      let width =
        mul_nonneg mult (deviation values period i m) hm
          (root_mean_nonneg m (window values period i) period pos) in
      rw (le→leb period (i + 1) (omega arith)) (
        sub-le_self m _ width,
        le-add_right m _ width,
        bands-Nested values period mult (i + 1) zero mids pos hm (omega arith) h,
      )
  bands-Nested values period mult i zero (none ∷ mids) pos hm e h = absurd h
  bands-Nested values period mult i (suc warm) (none ∷ mids) pos hm e h =
      bands-Nested values period mult (i + 1) warm mids pos hm (omega arith) h
  bands-Nested values period mult i (suc warm) (some m ∷ mids) pos hm e h = absurd h

  -- At each index the lower band is at most the average, and the average at most the upper band;
  -- where one of the three is null all are. The period is positive and the multiplier not
  -- negative. The numbers obey the sign rules.
  pub bollinger-Nested :
      (values : List A) (period : ℕ) (mult : A)
      → 0 < period
      → n.of_ℕ 0 ≼ mult
      → let bands = bollinger values period mult in Nested bands.lower bands.mid bands.upper
  unfolding bollinger
  bollinger-Nested values period mult pos hm =
      bands-Nested values period mult 0 (period - 1) _ pos hm (omega arith)
        (sma-IsAligned values period pos).starts
