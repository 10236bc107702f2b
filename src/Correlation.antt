-- ===== src/Correlation.antt =====
-- frontend/src/domain/correlation.ts: Pearson's r of two series, and the matrix of a list of series.
-- The matrix is a list of rows, written in place in the order of the source's loops.
pub mod Coefficient
pub mod Matrix
pub mod Tests
use crypto_dashboard.Prelude.{
  ℕ, zero, suc, ◌+◌, ◌-◌, min, Bool, ◌||◌, List, [], ◌∷◌, if◌then◌else◌, ltb, length, drop,
  replicate, set,
}
use crypto_dashboard.Numbers.{Num, clamp_of, sum}

-- The three running sums of the second loop.
pub record Moments {ℓ} (A : Type ℓ) : Type ℓ where
  pub cov : A
  pub vx : A
  pub vy : A

module _ {ℓ} {A : Type ℓ} ⦃n : Num A⦄ where
  -- The loop over two series of one length, around their means.
  unfoldable pub moments : A → A → Moments A → List A → List A → Moments A
  moments mx my acc [] ys = acc
  moments mx my acc (x ∷ xs) [] = acc
  moments mx my acc (x ∷ xs) (y ∷ ys) =
      let dx = n.sub x mx in
      let dy = n.sub y my in
      moments mx my
        record {
          cov = n.add acc.cov (n.mul dx dy);
          vx = n.add acc.vx (n.mul dx dx);
          vy = n.add acc.vy (n.mul dy dy);
        }
        xs ys

  abbrev pub no_moments : Moments A
  no_moments = record { cov = n.of_ℕ 0; vx = n.of_ℕ 0; vy = n.of_ℕ 0 }

  abbrev pub minus_one : A
  minus_one = n.sub (n.of_ℕ 0) (n.of_ℕ 1)

  -- `Math.max(-1, Math.min(1, r))`
  abbrev pub clamp : A → A
  clamp r = clamp_of minus_one (n.of_ℕ 1) r

  abbrev pub coefficient : Moments A → A
  coefficient m =
      if n.eq m.vx (n.of_ℕ 0) || n.eq m.vy (n.of_ℕ 0)
      then n.of_ℕ 0
      else clamp (n.div m.cov (n.sqrt (n.mul m.vx m.vy)))

  -- The moments of two series of `k` points.
  abbrev pub moments_of : ℕ → List A → List A → Moments A
  moments_of k xs ys =
      moments (n.div (sum xs) (n.of_ℕ k)) (n.div (sum ys) (n.of_ℕ k)) no_moments xs ys

  unfoldable pub pearson : List A → List A → A
  unfolding moments
  pearson a b =
      let k = min (length a) (length b) in
      if ltb k 2
      then n.of_ℕ 0
      else coefficient (moments_of k (drop (length a - k) a) (drop (length b - k) b))

module _ {ℓ} {A : Type ℓ} where
  -- `m[i][j] = v`
  abbrev pub put : List (List A) → ℕ → ℕ → A → List (List A)
  put [] i j v = []
  put (row ∷ m) zero j v = set row j v ∷ m
  put (row ∷ m) (suc i) j v = row ∷ put m i j v

module _ {ℓ} {A : Type ℓ} ⦃n : Num A⦄ where
  -- The inner loop: row `i`, whose series is `x`, against the series from column `j` on.
  unfoldable pub fill_row : ℕ → List A → ℕ → List (List A) → List (List A) → List (List A)
  unfolding pearson
  fill_row i x j [] m = m
  fill_row i x j (y ∷ more) m =
      let r = pearson x y in fill_row i x (j + 1) more (put (put m i j r) j i r)

  -- The outer loop, on the series from row `i` on.
  unfoldable pub fill_rows : ℕ → List (List A) → List (List A) → List (List A)
  unfolding fill_row
  fill_rows i [] m = m
  fill_rows i (x ∷ more) m =
      fill_rows (i + 1) more (fill_row i x (i + 1) more (put m i i (n.of_ℕ 1)))

  unfoldable pub correlation_matrix : List (List A) → List (List A)
  unfolding fill_rows
  correlation_matrix series =
      let k = length series in fill_rows 0 series (replicate k (replicate k (n.of_ℕ 0)))
