-- ===== src/Correlation/Matrix.antt =====
-- The matrix of a list of series, entry by entry.
use crypto_dashboard.Prelude.{
  ℕ_discrete, true, false, ◌-◌, ltb, dec_lt, Bool, ◌<◌, ℕ, zero, suc, ◌+◌, ◌==◌, ◌&&◌, ◌≡◌, refl,
  arith, List, [], ◌∷◌, if◌then◌else◌, Option, none, some, get_elem?, set, replicate, length,
}
use crypto_dashboard.Numbers.{Num}
use crypto_dashboard.Correlation.{put, fill_row, fill_rows, correlation_matrix, pearson}

module _ {ℓ} {A : Type ℓ} where
  -- The row of an index, empty out of range.
  abbrev row_at : List (List A) → ℕ → List A
  row_at [] i = []
  row_at (row ∷ m) zero = row
  row_at (row ∷ m) (suc i) = row_at m i

  -- `m[i][j]`
  abbrev pub entry : List (List A) → ℕ → ℕ → Option A
  entry m i j = get_elem? (row_at m i) j

  abbrev pub overwrite : A → Option A → Option A
  overwrite v none = none
  overwrite v (some w) = some v

  get_elem?-set :
      (xs : List A) (i : ℕ) (v : A) (j : ℕ)
      → get_elem? (set xs i v) j ≡ (if j == i then overwrite v (get_elem? xs j) else get_elem? xs j)
  get_elem?-set [] i v j = ground arith
  get_elem?-set (x ∷ xs) zero v zero = refl
  get_elem?-set (x ∷ xs) zero v (suc j) = ground arith
  get_elem?-set (x ∷ xs) (suc i) v zero = ground arith
  get_elem?-set (x ∷ xs) (suc i) v (suc j) = ground (arith, get_elem?-set xs i v j)

  pub entry-put :
      (m : List (List A)) (i j : ℕ) (v : A) (a b : ℕ)
      → entry (put m i j v) a b
        ≡ (if a == i && b == j then overwrite v (entry m a b) else entry m a b)
  entry-put [] i j v a b = ground arith
  entry-put (row ∷ m) zero j v zero b = ground (arith, get_elem?-set row j v b)
  entry-put (row ∷ m) zero j v (suc a) b = ground arith
  entry-put (row ∷ m) (suc i) j v zero b = ground arith
  entry-put (row ∷ m) (suc i) j v (suc a) b = ground (arith, entry-put m i j v a b)

  abbrev present : Option A → Bool
  present none = false
  present (some x) = true

  present-get_elem? : (xs : List A) (i : ℕ) → present (get_elem? xs i) ≡ ltb i (length xs)
  present-get_elem? [] i = ground arith
  present-get_elem? (x ∷ xs) zero = ground arith
  present-get_elem? (x ∷ xs) (suc i) = ground (arith, present-get_elem? xs i)

  get_elem?-replicate :
      (k i : ℕ) (v : A) → get_elem? (replicate k v) i ≡ (if ltb i k then some v else none)
  get_elem?-replicate zero i v = ground arith
  get_elem?-replicate (suc k) zero v = ground arith
  get_elem?-replicate (suc k) (suc i) v = ground (arith, get_elem?-replicate k i v)

  entry-replicate :
      (k : ℕ) (row : List A) (i j : ℕ)
      → entry (replicate k row) i j ≡ (if ltb i k then get_elem? row j else none)
  entry-replicate zero row i j = ground arith
  entry-replicate (suc k) row zero j = ground arith
  entry-replicate (suc k) row (suc i) j = ground (arith, entry-replicate k row i j)

  -- The element of index `i` of a list whose first index is `start`.
  unfoldable from : ℕ → List A → ℕ → Option A
  from start xs i = if ltb i start then none else get_elem? xs (i - start)

  from-cons :
      (start : ℕ) (x : A) (xs : List A) (i : ℕ)
      → from start (x ∷ xs) i ≡ (if i == start then some x else from (start + 1) xs i)
  unfolding from
  from-cons start x xs i = elim (dec_lt start i) [
    | yes past ↦
        let next : i - start ≡ suc (i - (start + 1)) = omega arith in rw next (ground arith)
    | no _ ↦ elim (ℕ_discrete i start) [
      | yes same ↦ let first : i - start ≡ 0 = omega arith in rw first (ground arith)
      | no _ ↦ ground arith
    ]
  ]

  from_below : (start : ℕ) (xs : List A) (i : ℕ) → i < start → from start xs i ≡ none
  unfolding from
  from_below start xs i h = ground arith

  from_nil : (start i : ℕ) → from start [] i ≡ none
  unfolding from
  from_nil start i = ground arith

module _ {ℓ} {A : Type ℓ} ⦃n : Num A⦄ where
  -- An entry of row or column `x` against the series of the other index, if the loop meets it.
  abbrev against : List A → Option (List A) → Option A → Option A
  against x none old = old
  against x (some y) old = overwrite (pearson x y) old

  -- One step of the inner loop at one entry: whether its indices are `i` and `j`, and what the rest of
  -- the loop meets at them.
  row_step :
      (x y : List A) (ai bi aj bj : Bool) (at_a at_b : Option (List A)) (old : Option A)
      → ai && aj ≡ false
      → bi && bj ≡ false
      → (aj ≡ true → at_a ≡ none)
      → (bj ≡ true → at_b ≡ none)
      → let r = pearson x y in
        let once = if ai && bj then overwrite r old else old in
        let twice = if aj && bi then overwrite r once else once in
        (if ai then against x at_b twice else if bi then against x at_a twice else twice) ≡ (
          if ai
          then against x (if bj then some y else at_b) old
          else if bi
          then against x (if aj then some y else at_a) old
          else old)
  row_step x y ai bi aj bj at_a at_b old ha hb na nb = ground (arith, ha, hb, na, nb)

  entry-fill_row :
      (i : ℕ) (x : List A) (j : ℕ) (more m : List (List A)) (a b : ℕ)
      → i < j
      → entry (fill_row i x j more m) a b ≡ (
          if a == i
          then against x (from j more b) (entry m a b)
          else if b == i
          then against x (from j more a) (entry m a b)
          else entry m a b)
  unfolding fill_row
  entry-fill_row i x j [] m a b h =
      ground (arith, from_nil {A = List A} j a, from_nil {A = List A} j b)
  entry-fill_row i x j (y ∷ more) m a b h =
      let r = pearson x y in
      rw
        (
          entry-fill_row i x (j + 1) more (put (put m i j r) j i r) a b (omega arith),
          entry-put (put m i j r) j i r a b,
          entry-put m i j r a b,
          from-cons j y more a,
          from-cons j y more b,
        )
        (row_step x y (a == i) (b == i) (a == j) (b == j) _ _ _ (ground arith) (ground arith)
          (λ e. from_below (j + 1) more a (ground arith))
          (λ e. from_below (j + 1) more b (ground arith)))

  abbrev pub value_at : ℕ → ℕ → List A → List A → A
  value_at a b x y = if a == b then n.of_ℕ 1 else if ltb a b then pearson x y else pearson y x

  abbrev settled : ℕ → ℕ → Option (List A) → Option (List A) → Option A → Option A
  settled a b (some x) (some y) old = overwrite (value_at a b x y) old
  settled a b _ _ old = old

  entry-fill_rows :
      (i : ℕ) (more m : List (List A)) (a b : ℕ)
      → entry (fill_rows i more m) a b ≡ settled a b (from i more a) (from i more b) (entry m a b)
  unfolding fill_rows
  entry-fill_rows i [] m a b = ground (arith, from_nil {A = List A} i a, from_nil {A = List A} i b)
  entry-fill_rows i (x ∷ more) m a b =
      let first = put m i i (n.of_ℕ 1) in
      let later = entry-fill_rows (i + 1) more (fill_row i x (i + 1) more first) a b in
      ground (
        arith,
        later,
        entry-fill_row i x (i + 1) more first a b (omega arith),
        entry-put m i i (n.of_ℕ 1) a b,
        from-cons i x more a,
        from-cons i x more b,
        from_below (i + 1) more a,
        from_below (i + 1) more b,
      )

  -- What the matrix should hold at two indices.
  abbrev pub cell : ℕ → ℕ → Option (List A) → Option (List A) → Option A
  cell a b (some x) (some y) = some (value_at a b x y)
  cell a b _ _ = none

  -- The matrix has 1 on the diagonal, the coefficient of the two series elsewhere (of the earlier series
  -- with the later one), and nothing at an index that is not one of a series.
  pub entry-correlation_matrix :
      (series : List (List A)) (a b : ℕ)
      → entry (correlation_matrix series) a b ≡ cell a b (get_elem? series a) (get_elem? series b)
  unfolding correlation_matrix from
  entry-correlation_matrix series a b =
      let k = length series in
      let blank = replicate k (replicate k (n.of_ℕ 0)) in
      ground (
        arith,
        entry-fill_rows 0 series blank a b,
        entry-replicate k (replicate k (n.of_ℕ 0)) a b,
        get_elem?-replicate k b (n.of_ℕ 0),
        present-get_elem? series a,
        present-get_elem? series b,
      )
