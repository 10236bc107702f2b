-- ===== src/Market/Breadth.antt =====
-- The advance and decline counts, and the index.
use crypto_dashboard.Prelude.{◌≡◌, arith, ◌+◌, ◌≤◌, List, [], ◌∷◌, length}
use crypto_dashboard.Numbers.{Num, IsSigned, ◌≼◌}
use crypto_dashboard.Numbers.Clamps.{le-clamp_of, clamp_of-le}
use crypto_dashboard.Market.{advancers, decliners, fear}

module _ {ℓ} {A : Type ℓ} ⦃n : Num A⦄ where
  advancers-length : (cs : List A) → advancers cs ≤ length cs
  unfolding advancers
  advancers-length [] = omega arith
  advancers-length (c ∷ cs) = ground (arith, advancers-length cs)

module _ {ℓ} {A : Type ℓ} ⦃n : Num A⦄ (laws : IsSigned A) where
  -- Each coin with a change is counted once, as advancing or as declining, and the index lies
  -- between 2 and 98, however numbers are rounded. The numbers obey the sign rules.
  pub breadth_lem :
      (round : A → A) (cs : List A)
      → (advancers cs + decliners cs ≡ length cs)
        × (n.of_ℕ 2 ≼ fear round cs)
        × (fear round cs ≼ n.of_ℕ 98)
  unfolding decliners fear
  breadth_lem round cs = (
    omega (arith, advancers-length cs),
    le-clamp_of laws (n.of_ℕ 2) (n.of_ℕ 98) _,
    clamp_of-le laws (n.of_ℕ 2) (n.of_ℕ 98) _ (laws.of_ℕ-le 2 98 (omega arith)),
  )
