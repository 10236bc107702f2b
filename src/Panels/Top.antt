-- ===== src/Panels/Top.antt =====
-- What the rankings show: the greatest, in order, and nothing that is left out beats them.
use mathlib.Core.Path.{subst}
use mathlib.Core.List.{Perm}
use crypto_dashboard.Prelude.{
  length-drop, ◌+◌, ℕ, min, ◌≡◌, sym, Bool, true, false, List, ◌++◌, map, take, drop, length,
  take-append-drop, length-take, arith, not,
}
use crypto_dashboard.Prelude.Sort.{filter, sort, IsSorted, IsRanking, sort-perm, sort-IsSorted}
use crypto_dashboard.Numbers.{Num, IsSigned, lt_of}
use crypto_dashboard.Price.{CoinMeta}
use crypto_dashboard.Panels.Risk.{Ranked, by_volatility, wilder, with_vol, has_week}

-- `shown` are the first `most` of `xs` in the order `before`: with the rest they are all of `xs`, each comes
-- before all that follow it and before the whole rest, and the rest is empty unless `most` are shown.
abbrev pub IsTop {ℓ} : {A : Type ℓ} → (A → A → Bool) → ℕ → List A → List A → Type ℓ
IsTop {A} before most xs shown =
    (rest : List A) × Perm (shown ++ rest) xs
    × IsSorted before (shown ++ rest)
    × (length shown ≡ min most (length shown + length rest))

module _ {ℓ} {A : Type ℓ} (before : A → A → Bool) (laws : IsRanking before) where
  pub take-sort-IsTop : (most : ℕ) (xs : List A) → IsTop before most xs (take most (sort before xs))
  take-sort-IsTop most xs =
      let sorted = sort before xs in
      let whole = take-append-drop most sorted in
      (
        drop most sorted,
        subst (λ ys. Perm ys xs) (sym whole) (sort-perm before xs),
        subst (λ ys. IsSorted before ys) (sym whole) (sort-IsSorted before laws xs),
        omega (arith, length-take most sorted, length-drop most sorted),
      )

module _ {ℓ} {A : Type ℓ} ⦃n : Num A⦄ (laws : IsSigned A) where
  open laws use {le_of_not_le, le_trans}

  -- Comparing by a number, the greater first, ranks.
  pub by_number-IsRanking {κ} :
      {B : Type κ} (value : B → A) → IsRanking (λ (a b : B). not (lt_of (value a) (value b)))
  by_number-IsRanking {B = B} value = record { total = total_by; trans = trans_by }
    where
      total_by :
          (a b : B)
          → not (lt_of (value a) (value b)) ≡ false
          → not (lt_of (value b) (value a)) ≡ true
      total_by a b h = ground arith

      trans_by :
          (a b c : B)
          → not (lt_of (value a) (value b)) ≡ true
          → not (lt_of (value b) (value c)) ≡ true
          → not (lt_of (value a) (value c)) ≡ true
      trans_by a b c h k = ground (
        arith,
        le_of_not_le (value a) (value b),
        le_of_not_le (value b) (value c),
        le_trans (value a) (value c) (value b),
        le_trans (value b) (value a) (value c),
        le_trans (value c) (value b) (value a),
      )

  -- The ranking by volatility shows the chosen number of coins with more than 24 stored prices, the most
  -- volatile first, or all of those if they are fewer: no coin left out is more volatile. The
  -- numbers obey the sign rules.
  pub by_volatility-IsTop :
      (show : ℕ) (coins : List (CoinMeta A))
      → IsTop wilder show (map with_vol (filter has_week coins)) (by_volatility show coins)
  unfolding by_volatility wilder
  by_volatility-IsTop show coins =
      take-sort-IsTop _ (by_number-IsRanking (λ (r : Ranked A). r.vol)) show
        (map with_vol (filter has_week coins))
