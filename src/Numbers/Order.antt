-- ===== src/Numbers/Order.antt =====
-- What `Math.max` and `Math.min` do, from the order laws.
use crypto_dashboard.Prelude.{arith}
use crypto_dashboard.Numbers.{Num, IsOrdered, ◌≼◌, IsFinite, max_of, min_of}

module _ {ℓ} {A : Type ℓ} ⦃n : Num A⦄ (laws : IsOrdered A) where
  open laws use {le_refl, le_trans, le_total}

  pub le-max_of_left : (a b : A) → IsFinite a → IsFinite b → a ≼ max_of a b
  le-max_of_left a b fa fb = ground (arith, le_refl a fa)

  pub le-max_of_right : (a b : A) → IsFinite a → IsFinite b → b ≼ max_of a b
  le-max_of_right a b fa fb = ground (arith, le_refl b fb, le_total a b fa fb)

  pub min_of-le_left : (a b : A) → IsFinite a → IsFinite b → min_of a b ≼ a
  min_of-le_left a b fa fb = ground (arith, le_refl a fa, le_total a b fa fb)

  pub min_of-le_right : (a b : A) → IsFinite a → IsFinite b → min_of a b ≼ b
  min_of-le_right a b fa fb = ground (arith, le_refl b fb)

module _ {ℓ} {A : Type ℓ} ⦃n : Num A⦄ where
  pub max_of-IsFinite : (a b : A) → IsFinite a → IsFinite b → IsFinite (max_of a b)
  max_of-IsFinite a b fa fb = ground arith

  pub min_of-IsFinite : (a b : A) → IsFinite a → IsFinite b → IsFinite (min_of a b)
  min_of-IsFinite a b fa fb = ground arith
