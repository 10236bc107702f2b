-- ===== src/Numbers/Extents.antt =====
-- `Math.min(...xs)` and `Math.max(...xs)`, on numbers other than NaN, and that they bound the list.
use crypto_dashboard.Prelude.{List, [], ◌∷◌, All, Bool-cases, inl, inr}
use crypto_dashboard.Numbers.{Num, IsSigned, ◌≼◌, min_of, max_of}
use crypto_dashboard.Numbers.Clamps.{le_refl_of}

module _ {ℓ} {A : Type ℓ} ⦃n : Num A⦄ where
  -- `xs.reduce((m, x) => Math.min(m, x), m)`, and the same with Math.max.
  unfoldable pub lowest_from : A → List A → A
  lowest_from m [] = m
  lowest_from m (x ∷ xs) = lowest_from (min_of m x) xs

  unfoldable pub highest_from : A → List A → A
  highest_from m [] = m
  highest_from m (x ∷ xs) = highest_from (max_of m x) xs

  abbrev pub lowest : List A → A
  lowest = lowest_from n.infinity

  abbrev pub highest : List A → A
  highest = highest_from (n.sub (n.of_ℕ 0) n.infinity)

module _ {ℓ} {A : Type ℓ} ⦃n : Num A⦄ (laws : IsSigned A) where
  open laws use {le_of_not_le, le_trans}

  pub min_of-le_left : (a b : A) → min_of a b ≼ a
  min_of-le_left a b = elim (Bool-cases (n.le a b)) [
    | inl h ↦ rw h (le_refl_of laws a)
    | inr h ↦ rw h (le_of_not_le a b h)
  ]

  pub min_of-le_right : (a b : A) → min_of a b ≼ b
  min_of-le_right a b = elim (Bool-cases (n.le a b)) [
    | inl h ↦ rw h h
    | inr h ↦ rw h (le_refl_of laws b)
  ]

  pub le-max_of_left : (a b : A) → a ≼ max_of a b
  le-max_of_left a b = elim (Bool-cases (n.le a b)) [
    | inl h ↦ rw h h
    | inr h ↦ rw h (le_refl_of laws a)
  ]

  pub le-max_of_right : (a b : A) → b ≼ max_of a b
  le-max_of_right a b = elim (Bool-cases (n.le a b)) [
    | inl h ↦ rw h (le_refl_of laws b)
    | inr h ↦ rw h (le_of_not_le a b h)
  ]

  pub lowest_from-le : (m : A) (xs : List A) → lowest_from m xs ≼ m
  unfolding lowest_from
  lowest_from-le m [] = le_refl_of laws m
  lowest_from-le m (x ∷ xs) = le_trans _ _ _ (lowest_from-le (min_of m x) xs) (min_of-le_left m x)

  pub All-lowest_from : (m : A) (xs : List A) → All (λ x. lowest_from m xs ≼ x) xs
  unfolding lowest_from
  All-lowest_from m [] = tt
  All-lowest_from m (x ∷ xs) = (
    le_trans _ _ _ (lowest_from-le (min_of m x) xs) (min_of-le_right m x),
    All-lowest_from (min_of m x) xs,
  )

  pub le-highest_from : (m : A) (xs : List A) → m ≼ highest_from m xs
  unfolding highest_from
  le-highest_from m [] = le_refl_of laws m
  le-highest_from m (x ∷ xs) = le_trans _ _ _ (le-max_of_left m x) (le-highest_from (max_of m x) xs)

  pub All-highest_from : (m : A) (xs : List A) → All (λ x. x ≼ highest_from m xs) xs
  unfolding highest_from
  All-highest_from m [] = tt
  All-highest_from m (x ∷ xs) = (
    le_trans _ _ _ (le-max_of_right m x) (le-highest_from (max_of m x) xs),
    All-highest_from (max_of m x) xs,
  )
