-- ===== src/Numbers/Integers.antt =====
-- The interface at the integers: every value is finite, division truncates toward zero and the square
-- root is the whole one. It runs the tests and meets the laws.
use native.Mathlib.Nat.{div-le_self}
use crypto_dashboard.Prelude.{
  refl, ℕ, zero, suc, ◌+◌, ◌*◌, ◌/◌, ◌≡◌, ◌⊎◌, Bool, true, not, arith, leb, if◌then◌else◌, ◌==◌,
}
use crypto_dashboard.Prelude.Int.{
  *ℤ_distrib, negsuc, ℤ, pos, pos_part, neg_part, sub_ℕ, ◌+ℤ◌, ◌-ℤ◌, ◌*ℤ◌, +ℤ_comm, +ℤ_assoc,
  +ℤ_cancel, ltb_ℤ,
}
use crypto_dashboard.Numbers.{IsExact, IsSigned, Num, IsOrdered, IsGroup}

abbrev pub div_ℤ : ℤ → ℤ → ℤ
div_ℤ a b =
    sub_ℕ (pos_part a / pos_part b + neg_part a / neg_part b)
      (pos_part a / neg_part b + neg_part a / pos_part b)

unfoldable pub sqrt_ℕ : ℕ → ℕ
sqrt_ℕ zero = 0
sqrt_ℕ (suc k) = let r = sqrt_ℕ k in if leb ((r + 1) * (r + 1)) (suc k) then r + 1 else r

abbrev pub sqrt_ℤ : ℤ → ℤ
sqrt_ℤ a = pos (sqrt_ℕ (pos_part a))

abbrev pub le_ℤ : ℤ → ℤ → Bool
le_ℤ a b = not (ltb_ℤ b a)

abbrev pub eq_ℤ : ℤ → ℤ → Bool
eq_ℤ a b = pos_part a + neg_part b == pos_part b + neg_part a

instance abbrev pub int_num : Num ℤ
int_num = record {
  of_ℕ = pos;
  add = ◌+ℤ◌;
  sub = ◌-ℤ◌;
  mul = ◌*ℤ◌;
  div = div_ℤ;
  sqrt = sqrt_ℤ;
  le = le_ℤ;
  eq = eq_ℤ;
  is_finite = λ a. true;
  infinity = pos 1_000_000_000;
}

zero_add_ℤ : (a : ℤ) → pos 0 +ℤ a ≡ a
unfolding ◌+ℤ◌
zero_add_ℤ a = ground arith

le_total_ℤ : (a b : ℤ) → (le_ℤ a b ≡ true) ⊎ (le_ℤ b a ≡ true)
le_total_ℤ a b = ground arith

le_trans_ℤ : (a b c : ℤ) → le_ℤ a b ≡ true → le_ℤ b c ≡ true → le_ℤ a c ≡ true
le_trans_ℤ a b c h k = ground arith

le_refl_ℤ : (a : ℤ) → le_ℤ a a ≡ true
le_refl_ℤ a = ground arith

pub ℤ-IsOrdered : IsOrdered ℤ
ℤ-IsOrdered = record {
  le_refl = λ a _. le_refl_ℤ a;
  le_trans = le_trans_ℤ;
  le_total = λ a b _ _. le_total_ℤ a b;
}

pub ℤ-IsGroup : IsGroup ℤ
ℤ-IsGroup = record {
  add_assoc = +ℤ_assoc;
  add_comm = +ℤ_comm;
  zero_add = zero_add_ℤ;
  add_sub = +ℤ_cancel;
}

pub ℤ-IsExact : IsExact ℤ
ℤ-IsExact = record { sums = ℤ-IsGroup; distrib = *ℤ_distrib }

mul_nonneg_ℤ :
    (a b : ℤ) → le_ℤ (pos 0) a ≡ true → le_ℤ (pos 0) b ≡ true → le_ℤ (pos 0) (a *ℤ b) ≡ true
unfolding ◌*ℤ◌
mul_nonneg_ℤ (pos x) (pos y) h k = ground arith
mul_nonneg_ℤ (pos x) (negsuc y) h k = absurd (ground arith)
mul_nonneg_ℤ (negsuc x) b h k = absurd (ground arith)

div_nonneg_ℤ :
    (a b : ℤ) → le_ℤ (pos 0) a ≡ true → le_ℤ (pos 0) b ≡ true → le_ℤ (pos 0) (div_ℤ a b) ≡ true
div_nonneg_ℤ (pos x) (pos y) h k = ground arith
div_nonneg_ℤ (pos x) (negsuc y) h k = absurd (ground arith)
div_nonneg_ℤ (negsuc x) b h k = absurd (ground arith)

div-le_self_ℤ :
    (a b : ℤ) → le_ℤ (pos 0) a ≡ true → le_ℤ (pos 1) b ≡ true → le_ℤ (div_ℤ a b) a ≡ true
div-le_self_ℤ (pos x) (pos y) h k = ground (arith, div-le_self x y)
div-le_self_ℤ (pos x) (negsuc y) h k = absurd (ground arith)
div-le_self_ℤ (negsuc x) b h k = absurd (ground arith)

square_nonneg_ℤ : (a : ℤ) → le_ℤ (pos 0) (a *ℤ a) ≡ true
unfolding ◌*ℤ◌
square_nonneg_ℤ (pos x) = ground arith
square_nonneg_ℤ (negsuc x) = ground arith

pub ℤ-IsSigned : IsSigned ℤ
unfolding ◌+ℤ◌ ◌-ℤ◌ ◌*ℤ◌
ℤ-IsSigned = record {
  of_ℕ-le = λ a b h. ground arith;
  one_pos = refl;
  le_of_not_le = λ a b h. ground arith;
  pos_of_ne_zero = λ a h k. ground arith;
  le_trans = le_trans_ℤ;
  add_nonneg = λ a b h k. ground arith;
  le-add_right = λ a b h. ground arith;
  sub_nonneg = λ a b h. ground arith;
  sub-le_self = λ a b h. ground arith;
  sub_neg_nonneg = λ a b h k. ground arith;
  mul_nonneg = mul_nonneg_ℤ;
  div_nonneg = λ a b h k _. div_nonneg_ℤ a b h k;
  div-le_self = div-le_self_ℤ;
  square_nonneg = square_nonneg_ℤ;
  sqrt_nonneg = λ a h. ground arith;
}
