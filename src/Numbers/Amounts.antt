-- ===== src/Numbers/Amounts.antt =====
-- The interface at the integers with one more value, `none`, for NaN: it is not finite, every
-- comparison with it is false, and every operation on it gives it back.
use crypto_dashboard.Prelude.{◌≡◌, ◌⊎◌, Bool, true, false, Option, none, some, arith}
use crypto_dashboard.Prelude.Int.{ℤ, pos, ◌+ℤ◌, ◌-ℤ◌, ◌*ℤ◌}
use crypto_dashboard.Numbers.{Num, IsOrdered}
use crypto_dashboard.Numbers.Integers.{div_ℤ, sqrt_ℤ, le_ℤ, eq_ℤ}

abbrev pub Amount : Type 0
Amount = Option ℤ

abbrev pub lift : (ℤ → ℤ → ℤ) → Amount → Amount → Amount
lift f (some a) (some b) = some (f a b)
lift f _ _ = none

abbrev pub compare_by : (ℤ → ℤ → Bool) → Amount → Amount → Bool
compare_by f (some a) (some b) = f a b
compare_by f _ _ = false

abbrev pub is_some : Amount → Bool
is_some (some a) = true
is_some none = false

abbrev sqrt_amount : Amount → Amount
sqrt_amount (some a) = some (sqrt_ℤ a)
sqrt_amount none = none

instance abbrev pub amount_num : Num Amount
amount_num = record {
  of_ℕ = λ k. some (pos k);
  add = lift ◌+ℤ◌;
  sub = lift ◌-ℤ◌;
  mul = lift ◌*ℤ◌;
  div = lift div_ℤ;
  sqrt = sqrt_amount;
  le = compare_by le_ℤ;
  eq = compare_by eq_ℤ;
  is_finite = is_some;
  infinity = none;
}

pub Amount-IsOrdered : IsOrdered Amount
Amount-IsOrdered = record {
  le_refl = le_refl_amount;
  le_trans = le_trans_amount;
  le_total = le_total_amount;
}
  where
    le_refl_amount : (a : Amount) → is_some a ≡ true → compare_by le_ℤ a a ≡ true
    le_refl_amount (some a) h = ground arith
    le_refl_amount none h = cc

    le_trans_amount :
        (a b c : Amount)
        → compare_by le_ℤ a b ≡ true
        → compare_by le_ℤ b c ≡ true
        → compare_by le_ℤ a c ≡ true
    le_trans_amount a b c h k = ground arith

    le_total_amount :
        (a b : Amount)
        → is_some a ≡ true
        → is_some b ≡ true
        → (compare_by le_ℤ a b ≡ true) ⊎ (compare_by le_ℤ b a ≡ true)
    le_total_amount a b h k = ground arith
