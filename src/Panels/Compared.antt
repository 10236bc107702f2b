-- ===== src/Panels/Compared.antt =====
-- The matrix of CorrelationMatrix.tsx in frontend/src/presentation/components: which coins are compared, and
-- what stands where.
use crypto_dashboard.Panels.Risk.{rank_or_last}
use crypto_dashboard.Prelude.{
  leb, Bool, zero, ap, ◌∙◌, suc, ℕ, ◌≡◌, refl, arith, some, List, [], ◌∷◌, map, get_elem?,
}
use crypto_dashboard.Prelude.Sort.{filter, IsRanking}
use crypto_dashboard.Numbers.{Num, IsSigned, ◌≼◌}
use crypto_dashboard.Price.{CoinMeta}
use crypto_dashboard.Correlation.{minus_one}
use crypto_dashboard.Correlation.Coefficient.{pearson_bounds, minus_one_le_one}
use crypto_dashboard.Correlation.Matrix.{entry, value_at, entry-correlation_matrix}
use crypto_dashboard.Panels.Risk.{compared, matrix_of, ranks_first, has_week, week_of}
use crypto_dashboard.Panels.Top.{IsTop, take-sort-IsTop}

get_elem?-map {ℓ κ} :
    {A : Type ℓ} {B : Type κ} (f : A → B) (xs : List A) (i : ℕ) (x : A)
    → get_elem? xs i ≡ some x
    → get_elem? (map f xs) i ≡ some (f x)
get_elem?-map f [] i x h = absurd (ground arith)
get_elem?-map f (y ∷ xs) zero x h = ground arith
get_elem?-map f (y ∷ xs) (suc i) x h = get_elem?-map f xs i x h

module _ {ℓ} {A : Type ℓ} where
  -- Whether a coin's rank is not behind another's.
  abbrev pub is_not_behind : CoinMeta A → CoinMeta A → Bool
  is_not_behind a b = leb (rank_or_last a.rank) (rank_or_last b.rank)

module _ {ℓ} {A : Type ℓ} ⦃n : Num A⦄ where
  is_not_behind-IsRanking : IsRanking (is_not_behind {A = A})
  is_not_behind-IsRanking = record {
    total = λ a b h. ground arith;
    trans = λ a b c h k. ground arith;
  }

  abbrev pub week : CoinMeta A → List A
  week c = week_of c.sparkline_7d

  entry-matrix_of :
      (count : ℕ) (coins : List (CoinMeta A)) (i j : ℕ) (a b : CoinMeta A)
      → get_elem? (compared count coins) i ≡ some a
      → get_elem? (compared count coins) j ≡ some b
      → entry (matrix_of count coins) i j ≡ some (value_at i j (week a) (week b))
  unfolding matrix_of
  entry-matrix_of count coins i j a b h k =
      let shown = compared count coins in
      rw
        (
          entry-correlation_matrix (map week shown) i j,
          get_elem?-map week shown i a h,
          get_elem?-map week shown j b k,
        )
        refl

  value_at-swap : (i j : ℕ) (x y : List A) → value_at j i y x ≡ value_at i j x y
  value_at-swap i j x y = ground arith

module _ {ℓ} {A : Type ℓ} ⦃n : Num A⦄ (laws : IsSigned A) where
  value_at_bounds :
      (i j : ℕ) (x y : List A) → (minus_one ≼ value_at i j x y) × (value_at i j x y ≼ n.of_ℕ 1)
  value_at_bounds i j x y = ground (
    arith,
    minus_one_le_one laws,
    laws.of_ℕ-le 1 1 (omega arith),
    pearson_bounds laws x y,
    pearson_bounds laws y x,
  )

  -- The compared coins are the chosen number of those with more than 24 stored prices, the first by rank, or all
  -- of those if they are fewer. The matrix has, for the coins at any two places, one value between -1 and
  -- 1 at both of their cells: 1 if the places are the same, and otherwise the coefficient of the prices
  -- of the coin at the earlier place with those of the other. The numbers obey the sign rules.
  pub matrix_of_lem :
      (count : ℕ) (coins : List (CoinMeta A)) (i j : ℕ) (a b : CoinMeta A)
      → get_elem? (compared count coins) i ≡ some a
      → get_elem? (compared count coins) j ≡ some b
      → let r = value_at i j (week a) (week b) in
        let m = matrix_of count coins in
        IsTop is_not_behind count (filter has_week coins) (compared count coins)
        × (entry m i j ≡ some r)
        × (entry m j i ≡ some r)
        × (minus_one ≼ r)
        × (r ≼ n.of_ℕ 1)
  unfolding compared ranks_first
  matrix_of_lem count coins i j a b h k =
      let bounds = value_at_bounds i j (week a) (week b) in
      (
        take-sort-IsTop is_not_behind is_not_behind-IsRanking count (filter has_week coins),
        entry-matrix_of count coins i j a b h k,
        entry-matrix_of count coins j i b a k h ∙ ap some (value_at-swap i j (week a) (week b)),
        bounds.0,
        bounds.1,
      )
