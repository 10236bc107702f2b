-- ===== src/Indicators/Strength.antt =====
-- The range of the relative strength index, from the sign rules of arithmetic.
use crypto_dashboard.Prelude.{
  zero, some, length, inr, [], ◌++◌, ◌∷◌, suc, none, leb, inl, false, Option, ◌-◌, ◌≡◌, replicate,
  List, Bool-cases, ◌<◌, ℕ, arith,
}
use crypto_dashboard.Numbers.{Num, IsSigned, ◌≼◌, max_of}
use crypto_dashboard.Indicators.{
  loss_after, gain_after, blanks, first_moves, to_rsi, wilder, rsi_from, rsi_loops, rsi,
}

module _ {ℓ} {A : Type ℓ} ⦃n : Num A⦄ where
  abbrev pub IsPercent : A → Type 0
  IsPercent x = (n.of_ℕ 0 ≼ x) × (x ≼ n.of_ℕ 100)

  abbrev pub AllPercent : List (Option A) → Type 0
  AllPercent [] = Unit
  AllPercent (none ∷ out) = AllPercent out
  AllPercent (some x ∷ out) = IsPercent x × AllPercent out

  AllPercent-replicate :
      (k : ℕ) (out : List (Option A)) → AllPercent out → AllPercent (replicate k none ++ out)
  AllPercent-replicate zero out h = h
  AllPercent-replicate (suc k) out h = AllPercent-replicate k out h

  AllPercent-blanks : (values : List A) → AllPercent (blanks values)
  AllPercent-blanks [] = tt
  AllPercent-blanks (v ∷ values) = AllPercent-blanks values

module _ {ℓ} {A : Type ℓ} ⦃n : Num A⦄ (laws : IsSigned A) where
  open laws use {
    one_pos, le_of_not_le, of_ℕ-le, pos_of_ne_zero, add_nonneg, le-add_right, sub_nonneg,
    sub-le_self, sub_neg_nonneg, mul_nonneg, div_nonneg, div-le_self, le_trans,
  }

  abbrev zero_of : A
  zero_of = n.of_ℕ 0

  pos_of_one_le : (b : A) → n.of_ℕ 1 ≼ b → n.le b zero_of ≡ false
  pos_of_one_le b h = elim (Bool-cases (n.le b zero_of)) [
    | inl low ↦ cc (le_trans _ _ _ h low, one_pos)
    | inr high ↦ high
  ]

  max_of_nonneg : (d : A) → zero_of ≼ max_of d zero_of
  max_of_nonneg d = ground (arith, of_ℕ-le 0 0, le_of_not_le d zero_of)

  to_rsi-IsPercent : (g l : A) → zero_of ≼ g → zero_of ≼ l → IsPercent (to_rsi g l)
  to_rsi-IsPercent g l hg hl = elim (Bool-cases (n.eq l zero_of)) [
    | inl none_lost ↦ rw none_lost (of_ℕ-le 0 100 (omega arith), of_ℕ-le 100 100 (omega arith))
    | inr lost ↦
        let ratio = div_nonneg g l hg hl (pos_of_ne_zero l hl lost) in
        let one_up = le-add_right (n.of_ℕ 1) (n.div g l) ratio in
        let hundred = of_ℕ-le 0 100 (omega arith) in
        let up = le_trans _ _ _ (of_ℕ-le 0 1 (omega arith)) one_up in
        let part = div-le_self (n.of_ℕ 100) (n.add (n.of_ℕ 1) (n.div g l)) hundred one_up in
        let least =
          div_nonneg (n.of_ℕ 100) (n.add (n.of_ℕ 1) (n.div g l)) hundred up
            (pos_of_one_le _ one_up) in
        rw lost (sub_nonneg _ _ part, sub-le_self _ _ least)
  ]

  wilder_nonneg :
      (period : ℕ) (avg d : A) → 0 < period → zero_of ≼ avg → zero_of ≼ wilder period avg d
  wilder_nonneg period avg d pos h =
      div_nonneg _ _
        (add_nonneg _ _ (mul_nonneg _ _ h (of_ℕ-le 0 (period - 1) (omega arith))) (max_of_nonneg d))
        (of_ℕ-le 0 period (omega arith)) (pos_of_one_le _ (of_ℕ-le 1 period pos))

  rsi_from-AllPercent :
      (period : ℕ) (gain loss prev : A) (rest : List A)
      → 0 < period
      → zero_of ≼ gain
      → zero_of ≼ loss
      → AllPercent (rsi_from period gain loss prev rest)
  unfolding rsi_from
  rsi_from-AllPercent period gain loss prev [] pos hg hl = tt
  rsi_from-AllPercent period gain loss prev (v ∷ rest) pos hg hl =
      let d = n.sub v prev in
      let gain' = wilder period gain d in
      let loss' = wilder period loss (n.sub zero_of d) in
      let hg' = wilder_nonneg period gain d pos hg in
      let hl' = wilder_nonneg period loss (n.sub zero_of d) pos hl in
      (
        to_rsi-IsPercent gain' loss' hg' hl',
        rsi_from-AllPercent period gain' loss' v rest pos hg' hl',
      )

  gain_after_nonneg : (gain prev v : A) → zero_of ≼ gain → zero_of ≼ gain_after gain prev v
  gain_after_nonneg gain prev v h = elim (Bool-cases (n.le zero_of (n.sub v prev))) [
    | inl up ↦ rw up (add_nonneg gain (n.sub v prev) h up)
    | inr down ↦ rw down h
  ]

  loss_after_nonneg : (loss prev v : A) → zero_of ≼ loss → zero_of ≼ loss_after loss prev v
  loss_after_nonneg loss prev v h = elim (Bool-cases (n.le zero_of (n.sub v prev))) [
    | inl up ↦ rw up h
    | inr down ↦ rw down (sub_neg_nonneg loss (n.sub v prev) h down)
  ]

  first_moves_nonneg :
      (gain loss prev : A) (count : ℕ) (rest : List A)
      → zero_of ≼ gain
      → zero_of ≼ loss
      → let m = first_moves gain loss prev count rest in (zero_of ≼ m.gain) × (zero_of ≼ m.loss)
  unfolding first_moves
  first_moves_nonneg gain loss prev zero rest hg hl = (hg, hl)
  first_moves_nonneg gain loss prev (suc count) [] hg hl = (hg, hl)
  first_moves_nonneg gain loss prev (suc count) (v ∷ rest) hg hl =
      first_moves_nonneg (gain_after gain prev v) (loss_after loss prev v) v count rest
        (gain_after_nonneg gain prev v hg) (loss_after_nonneg loss prev v hl)

  rsi_loops-AllPercent :
      (values : List A) (period : ℕ) → 0 < period → AllPercent (rsi_loops period values)
  unfolding rsi_loops
  rsi_loops-AllPercent [] period pos = tt
  rsi_loops-AllPercent (v ∷ rest) period pos =
      let m = first_moves zero_of zero_of v period rest in
      let zero_nonneg = of_ℕ-le 0 0 (omega arith) in
      let start = first_moves_nonneg zero_of zero_of v period rest zero_nonneg zero_nonneg in
      let width = of_ℕ-le 0 period (omega arith) in
      let wide = pos_of_one_le _ (of_ℕ-le 1 period pos) in
      let hg = div_nonneg m.gain (n.of_ℕ period) start.0 width wide in
      let hl = div_nonneg m.loss (n.of_ℕ period) start.1 width wide in
      AllPercent-replicate period _
        (to_rsi-IsPercent _ _ hg hl, rsi_from-AllPercent period _ _ m.prev m.left pos hg hl)

  -- Every number that `rsi` returns is between 0 and 100. The period is positive. The numbers
  -- obey the sign rules.
  pub rsi-AllPercent : (values : List A) (period : ℕ) → 0 < period → AllPercent (rsi values period)
  unfolding rsi
  rsi-AllPercent values period pos = elim (Bool-cases (leb (length values) period)) [
    | inl short ↦ rw short (AllPercent-blanks values)
    | inr long ↦ rw long (rsi_loops-AllPercent values period pos)
  ]
