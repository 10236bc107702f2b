-- ===== src/Panels/Largest.antt =====
-- What Movers.tsx of frontend/src/presentation/components/terminal shows: the coins of the largest moves, up
-- or down.
use mathlib.Core.List.{Perm}
use crypto_dashboard.Prelude.{
  refl, ◌≡◌, ◌⊎◌, arith, ◌+◌, min, true, not, Option, none, some, List, [], ◌∷◌, ◌++◌, length, All,
  Bool-cases, inl, inr,
}
use crypto_dashboard.Prelude.Sort.{filter, IsSorted}
use crypto_dashboard.Numbers.{Num, IsSigned, ◌≼◌, abs_of, lt_of}
use crypto_dashboard.Price.{CoinMeta}
use crypto_dashboard.Panels.Movers.{movers, moves_more, has_change, change_of}
use crypto_dashboard.Panels.Top.{take-sort-IsTop, by_number-IsRanking}

module _ {ℓ} {A : Type ℓ} ⦃n : Num A⦄ where
  -- `b` lies between `a` and its opposite, whichever of the two is the greater.
  abbrev pub IsWithin : A → A → Type 0
  IsWithin b a =
      let opposite = λ (x : A). n.sub (n.of_ℕ 0) x in
      ((b ≼ a) × (opposite b ≼ a)) ⊎ ((b ≼ opposite a) × (opposite b ≼ opposite a))

  -- No coin has moved more, up or down, than one before it.
  abbrev pub LargestFirst : List (CoinMeta A) → Type ℓ
  LargestFirst [] = Unit
  LargestFirst (c ∷ coins) =
      All (λ (d : CoinMeta A). IsWithin (change_of d.change_24h) (change_of c.change_24h)) coins
      × LargestFirst coins

  abbrev keep_changed : CoinMeta A → Option A → List (CoinMeta A) → List (CoinMeta A)
  keep_changed c none rest = rest
  keep_changed c (some change) rest = c ∷ rest

  -- The coins whose change is known.
  abbrev pub changed : List (CoinMeta A) → List (CoinMeta A)
  changed [] = []
  changed (c ∷ coins) = keep_changed c c.change_24h (changed coins)

  filter-changed : (coins : List (CoinMeta A)) → filter has_change coins ≡ changed coins
  unfolding filter
  filter-changed [] = refl
  filter-changed (c ∷ coins) = ground (arith, filter-changed coins)

module _ {ℓ} {A : Type ℓ} ⦃n : Num A⦄ (laws : IsSigned A) where
  open laws use {le_of_not_le, le_trans, sub-le_self, sub_nonneg}

  abbrev opposite : A → A
  opposite a = n.sub (n.of_ℕ 0) a

  le_refl : (a : A) → a ≼ a
  le_refl a = elim (Bool-cases (n.le a a)) [ inl e ↦ e | inr e ↦ le_of_not_le a a e ]

  -- A number and its opposite are at most its magnitude.
  abs_bounds : (b : A) → (b ≼ abs_of b) × (opposite b ≼ abs_of b)
  abs_bounds b = elim (Bool-cases (n.le (n.of_ℕ 0) b)) [
    | inl e ↦ rw e (le_refl b, le_trans _ _ _ (sub-le_self (n.of_ℕ 0) b e) e)
    | inr e ↦
        let below = le_of_not_le (n.of_ℕ 0) b e in
        rw e (le_trans _ _ _ below (sub_nonneg (n.of_ℕ 0) b below), le_refl (opposite b))
  ]

  abs-IsWithin : (a b : A) → not (lt_of (abs_of a) (abs_of b)) ≡ true → IsWithin b a
  abs-IsWithin a b h =
      let le : abs_of b ≼ abs_of a = ground (arith, le_of_not_le (abs_of a) (abs_of b)) in
      let up = le_trans _ _ _ (abs_bounds b).0 le in
      let down = le_trans _ _ _ (abs_bounds b).1 le in
      elim (Bool-cases (n.le (n.of_ℕ 0) a)) [
        | inl e ↦ inl (rw e at up, rw e at down)
        | inr e ↦ inr (rw e at up, rw e at down)
      ]

  sorted-LargestFirst : (coins : List (CoinMeta A)) → IsSorted moves_more coins → LargestFirst coins
  unfolding moves_more
  sorted-LargestFirst [] s = tt
  sorted-LargestFirst (c ∷ coins) s = (all coins s.0, sorted-LargestFirst coins s.1)
    where
      all :
          (ds : List (CoinMeta A))
          → All (λ d. moves_more c d ≡ true) ds
          → All (λ (d : CoinMeta A). IsWithin (change_of d.change_24h) (change_of c.change_24h)) ds
      all [] h = tt
      all (d ∷ ds) h =
          (abs-IsWithin (change_of c.change_24h) (change_of d.change_24h) h.0, all ds h.1)

  -- The movers are at most 14, and fewer only if they are all of the coins that have a change. With the
  -- coins left out behind them they are the coins that have a change, each as often as it is listed, and
  -- the change of every coin, whatever its sign, lies between the change of each coin before it and the
  -- opposite of that. The numbers obey the sign rules.
  pub movers-LargestFirst :
      (coins : List (CoinMeta A))
      → (rest : List (CoinMeta A)) × Perm (movers coins ++ rest) (changed coins)
        × LargestFirst (movers coins ++ rest)
        × (length (movers coins) ≡ min 14 (length (movers coins) + length rest))
  unfolding movers moves_more
  movers-LargestFirst coins =
      let (rest, all, sorted, size) =
        take-sort-IsTop moves_more
          (by_number-IsRanking laws (λ (c : CoinMeta A). abs_of (change_of c.change_24h))) 14
          (filter has_change coins) in
      (
        rest,
        rw (← filter-changed coins) all,
        sorted-LargestFirst (movers coins ++ rest) sorted,
        size,
      )
