-- ===== src/Numbers/Clamps.antt =====
-- A clamped number lies between its limits, by the sign rules.
use crypto_dashboard.Prelude.{Bool-cases, inl, inr}
use crypto_dashboard.Numbers.{Num, IsSigned, ◌≼◌, min_of, clamp_of}

module _ {ℓ} {A : Type ℓ} ⦃n : Num A⦄ (laws : IsSigned A) where
  open laws use {le_of_not_le}

  pub le_refl_of : (a : A) → a ≼ a
  le_refl_of a = elim (Bool-cases (n.le a a)) [ inl h ↦ h | inr k ↦ le_of_not_le a a k ]

  pub le-clamp_of : (lo hi a : A) → lo ≼ clamp_of lo hi a
  le-clamp_of lo hi a = elim (Bool-cases (n.le lo (min_of hi a))) [
    | inl h ↦ rw h h
    | inr k ↦ rw k (le_refl_of lo)
  ]

  min_of-le : (hi a : A) → min_of hi a ≼ hi
  min_of-le hi a = elim (Bool-cases (n.le hi a)) [
    | inl h ↦ rw h (le_refl_of hi)
    | inr k ↦ rw k (le_of_not_le hi a k)
  ]

  pub clamp_of-le : (lo hi a : A) → lo ≼ hi → clamp_of lo hi a ≼ hi
  clamp_of-le lo hi a order = elim (Bool-cases (n.le lo (min_of hi a))) [
    | inl h ↦ rw h (min_of-le hi a)
    | inr k ↦ rw k order
  ]
