-- ===== src/Correlation/Coefficient.antt =====
-- Pearson's r: symmetric, and between -1 and 1.
use crypto_dashboard.Prelude.{
  ◌||◌, ◌-◌, drop, ◌≡◌, refl, arith, List, [], ◌∷◌, Bool-cases, inl, inr, ltb, min, length,
}
use crypto_dashboard.Numbers.{sum, Num, IsSigned, ◌≼◌}
use crypto_dashboard.Numbers.Clamps.{le-clamp_of, clamp_of-le}
use crypto_dashboard.Correlation.{
  Moments, moments, moments_of, no_moments, coefficient, minus_one, pearson,
}

module _ {ℓ} {A : Type ℓ} ⦃n : Num A⦄ where
  abbrev swap : Moments A → Moments A
  swap m = record { cov = m.cov; vx = m.vy; vy = m.vx }

module _ {ℓ} {A : Type ℓ} ⦃n : Num A⦄ (mul_comm : (a b : A) → n.mul a b ≡ n.mul b a) where
  moments-swap :
      (mx my : A) (acc : Moments A) (xs ys : List A)
      → moments my mx (swap acc) ys xs ≡ swap (moments mx my acc xs ys)
  unfolding moments
  moments-swap mx my acc [] [] = refl
  moments-swap mx my acc [] (y ∷ ys) = refl
  moments-swap mx my acc (x ∷ xs) [] = refl
  moments-swap mx my acc (x ∷ xs) (y ∷ ys) = rw (mul_comm (n.sub y my) (n.sub x mx)) (
      moments-swap mx my
        record {
          cov = n.add acc.cov (n.mul (n.sub x mx) (n.sub y my));
          vx = n.add acc.vx (n.mul (n.sub x mx) (n.sub x mx));
          vy = n.add acc.vy (n.mul (n.sub y my) (n.sub y my));
        }
        xs ys)

  coefficient-swap : (m : Moments A) → coefficient (swap m) ≡ coefficient m
  coefficient-swap m = ground (arith, mul_comm m.vy m.vx)

  -- The coefficient does not depend on the order of the two series. Products commute.
  pub pearson_comm : (a b : List A) → pearson a b ≡ pearson b a
  unfolding pearson
  pearson_comm a b =
      let k = min (length a) (length b) in
      let same : min (length b) (length a) ≡ k = omega arith in
      let turned =
        moments-swap (n.div (sum (drop (length a - k) a)) (n.of_ℕ k))
          (n.div (sum (drop (length b - k) b)) (n.of_ℕ k)) no_moments (drop (length a - k) a)
          (drop (length b - k) b) in
      rw
        (
          same,
          turned,
          coefficient-swap (moments_of k (drop (length a - k) a) (drop (length b - k) b)),
        )
        refl

module _ {ℓ} {A : Type ℓ} ⦃n : Num A⦄ (laws : IsSigned A) where
  open laws use {of_ℕ-le, sub-le_self, le_of_not_le, le_trans}

  one_nonneg : n.of_ℕ 0 ≼ n.of_ℕ 1
  one_nonneg = of_ℕ-le 0 1 (omega arith)

  minus_one_nonpos : minus_one ≼ n.of_ℕ 0
  minus_one_nonpos = sub-le_self (n.of_ℕ 0) (n.of_ℕ 1) one_nonneg

  pub minus_one_le_one : minus_one ≼ n.of_ℕ 1
  minus_one_le_one = le_trans _ _ _ minus_one_nonpos one_nonneg

  -- The coefficient of any two series, of any lengths, lies between -1 and 1. The numbers obey
  -- the sign rules.
  pub pearson_bounds : (a b : List A) → (minus_one ≼ pearson a b) × (pearson a b ≼ n.of_ℕ 1)
  unfolding pearson
  pearson_bounds a b =
      let k = min (length a) (length b) in
      let m = moments_of k (drop (length a - k) a) (drop (length b - k) b) in
      let r = n.div m.cov (n.sqrt (n.mul m.vx m.vy)) in
      elim (Bool-cases (ltb k 2)) [
        | inl short ↦ rw short (minus_one_nonpos, one_nonneg)
        | inr long ↦ elim (Bool-cases (n.eq m.vx (n.of_ℕ 0) || n.eq m.vy (n.of_ℕ 0))) [
          | inl flat ↦ rw (long, flat) (minus_one_nonpos, one_nonneg)
          | inr varied ↦
              rw (long, varied)
                (
                  le-clamp_of laws minus_one (n.of_ℕ 1) r,
                  clamp_of-le laws minus_one (n.of_ℕ 1) r minus_one_le_one,
                )
        ]
      ]
