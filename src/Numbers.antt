-- ===== src/Numbers.antt =====
-- JavaScript's `number`, as far as the program computes with it: an interface of operations, and the
-- laws of them that the theorems need. The order laws hold of the doubles themselves, since they
-- are stated for finite values; the laws of sums and products hold of exact arithmetic, so that
-- theorems from them are about the formulas and leave rounding out.
pub mod Order
pub mod Clamps
pub mod Extents
pub mod Integers
pub mod Amounts
use crypto_dashboard.Prelude.{
  ◌≤◌, ℕ, ◌≡◌, ◌⊎◌, Bool, true, false, not, ◌&&◌, List, [], ◌∷◌, if◌then◌else◌,
}

pub record Num {ℓ} (A : Type ℓ) : Type ℓ where
  pub of_ℕ : ℕ → A
  pub add : A → A → A
  pub sub : A → A → A
  pub mul : A → A → A
  pub div : A → A → A
  pub sqrt : A → A
  pub le : A → A → Bool
  pub eq : A → A → Bool
  pub is_finite : A → Bool
  pub infinity : A

module _ {ℓ} {A : Type ℓ} ⦃n : Num A⦄ where
  infixl 65 ◌⊕◌ ◌⊖◌
  infixl 70 ◌⊗◌ ◌⊘◌
  infix 50 ◌≼◌
  abbrev pub ◌⊕◌ : A → A → A
  ◌⊕◌ = n.add

  abbrev pub ◌⊖◌ : A → A → A
  ◌⊖◌ = n.sub

  abbrev pub ◌⊗◌ : A → A → A
  ◌⊗◌ = n.mul

  abbrev pub ◌⊘◌ : A → A → A
  ◌⊘◌ = n.div

  -- `a <= b`, as a statement.
  abbrev pub ◌≼◌ : A → A → Type 0
  a ≼ b = n.le a b ≡ true

  abbrev pub IsFinite : A → Type 0
  IsFinite a = n.is_finite a ≡ true

  -- `Math.max` and `Math.min`, on numbers other than NaN.
  abbrev pub max_of : A → A → A
  max_of a b = if n.le a b then b else a

  abbrev pub min_of : A → A → A
  min_of a b = if n.le a b then a else b

  -- `Math.max(lo, Math.min(hi, a))`
  abbrev pub clamp_of : A → A → A → A
  clamp_of lo hi a = max_of lo (min_of hi a)

  -- `a < b`
  abbrev pub lt_of : A → A → Bool
  lt_of a b = n.le a b && not (n.le b a)

  -- `Math.abs`
  abbrev pub abs_of : A → A
  abs_of a = if n.le (n.of_ℕ 0) a then a else n.sub (n.of_ℕ 0) a

  -- A literal such as `0.06`.
  abbrev pub ratio_of : ℕ → ℕ → A
  ratio_of a b = n.div (n.of_ℕ a) (n.of_ℕ b)

  -- A number as a test: zero and NaN are false.
  abbrev pub is_truthy : A → Bool
  is_truthy a = n.eq a a && not (n.eq a (n.of_ℕ 0))

  -- `a || b`
  abbrev pub or_nonzero : A → A → A
  or_nonzero a b = if is_truthy a then a else b

  abbrev pub sum_from : A → List A → A
  sum_from acc [] = acc
  sum_from acc (x ∷ xs) = sum_from (n.add acc x) xs

  -- `xs.reduce((a, b) => a + b, 0)`
  abbrev pub sum : List A → A
  sum = sum_from (n.of_ℕ 0)

-- A total order on the finite values; the comparisons with NaN are false, so transitivity is plain.
pub record IsOrdered {ℓ} (A : Type ℓ) ⦃n : Num A⦄ : Type ℓ where
  pub le_refl : (a : A) → IsFinite a → a ≼ a
  pub le_trans : (a b c : A) → a ≼ b → b ≼ c → a ≼ c
  pub le_total : (a b : A) → IsFinite a → IsFinite b → (a ≼ b) ⊎ (b ≼ a)

-- Exact sums and differences.
pub record IsGroup {ℓ} (A : Type ℓ) ⦃n : Num A⦄ : Type ℓ where
  pub add_assoc : (a b c : A) → n.add (n.add a b) c ≡ n.add a (n.add b c)
  pub add_comm : (a b : A) → n.add a b ≡ n.add b a
  pub zero_add : (a : A) → n.add (n.of_ℕ 0) a ≡ a
  pub add_sub : (a b : A) → n.sub (n.add a b) b ≡ a

-- Exact sums and products, as far as the weights of an average need them.
pub record IsExact {ℓ} (A : Type ℓ) ⦃n : Num A⦄ : Type ℓ where
  pub sums : IsGroup A
  pub distrib : (a b c : A) → n.mul (n.add a b) c ≡ n.add (n.mul a c) (n.mul b c)

-- The sign rules. Each of them survives rounding to the nearest double, as long as nothing
-- overflows and no operand is NaN.
pub record IsSigned {ℓ} (A : Type ℓ) ⦃n : Num A⦄ : Type ℓ where
  pub of_ℕ-le : (a b : ℕ) → a ≤ b → n.of_ℕ a ≼ n.of_ℕ b
  pub one_pos : n.le (n.of_ℕ 1) (n.of_ℕ 0) ≡ false
  pub le_of_not_le : (a b : A) → n.le a b ≡ false → b ≼ a
  pub pos_of_ne_zero :
      (a : A) → n.of_ℕ 0 ≼ a → n.eq a (n.of_ℕ 0) ≡ false → n.le a (n.of_ℕ 0) ≡ false
  pub le_trans : (a b c : A) → a ≼ b → b ≼ c → a ≼ c
  pub add_nonneg : (a b : A) → n.of_ℕ 0 ≼ a → n.of_ℕ 0 ≼ b → n.of_ℕ 0 ≼ n.add a b
  pub le-add_right : (a b : A) → n.of_ℕ 0 ≼ b → a ≼ n.add a b
  pub sub_nonneg : (a b : A) → b ≼ a → n.of_ℕ 0 ≼ n.sub a b
  pub sub-le_self : (a b : A) → n.of_ℕ 0 ≼ b → n.sub a b ≼ a
  pub sub_neg_nonneg : (a b : A) → n.of_ℕ 0 ≼ a → n.le (n.of_ℕ 0) b ≡ false → n.of_ℕ 0 ≼ n.sub a b
  pub mul_nonneg : (a b : A) → n.of_ℕ 0 ≼ a → n.of_ℕ 0 ≼ b → n.of_ℕ 0 ≼ n.mul a b
  pub div_nonneg :
      (a b : A) → n.of_ℕ 0 ≼ a → n.of_ℕ 0 ≼ b → n.le b (n.of_ℕ 0) ≡ false → n.of_ℕ 0 ≼ n.div a b
  pub div-le_self : (a b : A) → n.of_ℕ 0 ≼ a → n.of_ℕ 1 ≼ b → n.div a b ≼ a
  pub square_nonneg : (a : A) → n.of_ℕ 0 ≼ n.mul a a
  pub sqrt_nonneg : (a : A) → n.of_ℕ 0 ≼ a → n.of_ℕ 0 ≼ n.sqrt a
