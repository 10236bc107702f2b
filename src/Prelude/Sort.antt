-- ===== src/Prelude/Sort.antt =====
-- `Array.prototype.filter` and the stable `Array.prototype.sort`, with what a sorted list is.
-- `before a b` says that the comparison of `a` with `b` is not positive (NaN counts as zero).
use mathlib.Core.List.{Perm}
use mathlib.Core.List.Perm
use crypto_dashboard.Prelude.{
  ◌≡◌, inl, inr, Bool, true, false, List, [], ◌∷◌, if◌then◌else◌, Bool-cases, All,
}

module _ {ℓ} {A : Type ℓ} where
  unfoldable pub filter : (A → Bool) → List A → List A
  filter test [] = []
  filter test (x ∷ xs) = let rest = filter test xs in if test x then x ∷ rest else rest

  unfoldable pub place : (A → A → Bool) → A → List A → List A
  place before x [] = x ∷ []
  place before x (y ∷ ys) =
      let later = y ∷ place before x ys in if before x y then x ∷ y ∷ ys else later

  unfoldable pub sort : (A → A → Bool) → List A → List A
  unfolding place
  sort before [] = []
  sort before (x ∷ xs) = place before x (sort before xs)

  -- Each element comes before all later ones.
  abbrev pub IsSorted : (A → A → Bool) → List A → Type ℓ
  IsSorted before [] = Unit
  IsSorted before (x ∷ xs) = All (λ y. before x y ≡ true) xs × IsSorted before xs

  pub place-perm : (before : A → A → Bool) (x : A) (ys : List A) → Perm (place before x ys) (x ∷ ys)
  unfolding place
  place-perm before x [] = Perm.rfl
  place-perm before x (y ∷ ys) = elim (Bool-cases (before x y)) [
    | inl h ↦ rw h Perm.rfl
    | inr h ↦ rw h (Perm.trans (Perm.cons y (place-perm before x ys)) (Perm.swap x y ys))
  ]

  pub sort-perm : (before : A → A → Bool) (xs : List A) → Perm (sort before xs) xs
  unfolding sort
  sort-perm before [] = Perm.rfl
  sort-perm before (x ∷ xs) =
      Perm.trans (place-perm before x (sort before xs)) (Perm.cons x (sort-perm before xs))

-- The comparisons that sort: of two elements one comes before the other, and before is transitive.
pub record IsRanking {ℓ} {A : Type ℓ} (before : A → A → Bool) : Type ℓ where
  pub total : (a b : A) → before a b ≡ false → before b a ≡ true
  pub trans : (a b c : A) → before a b ≡ true → before b c ≡ true → before a c ≡ true

module _ {ℓ} {A : Type ℓ} (before : A → A → Bool) (laws : IsRanking before) where
  open laws use {total, trans}

  All-trans :
      (a b : A) (xs : List A)
      → before a b ≡ true
      → All (λ y. before b y ≡ true) xs
      → All (λ y. before a y ≡ true) xs
  All-trans a b [] h hs = tt
  All-trans a b (x ∷ xs) h hs = (trans a b x h hs.0, All-trans a b xs h hs.1)

  All-place :
      (a x : A) (ys : List A)
      → before a x ≡ true
      → All (λ y. before a y ≡ true) ys
      → All (λ y. before a y ≡ true) (place before x ys)
  unfolding place
  All-place a x [] h hs = (h, tt)
  All-place a x (y ∷ ys) h hs = elim (Bool-cases (before x y)) [
    | inl e ↦ rw e (h, hs)
    | inr e ↦ rw e (hs.0, All-place a x ys h hs.1)
  ]

  place-IsSorted : (x : A) (ys : List A) → IsSorted before ys → IsSorted before (place before x ys)
  unfolding place
  place-IsSorted x [] s = (tt, tt)
  place-IsSorted x (y ∷ ys) s = elim (Bool-cases (before x y)) [
    | inl e ↦ rw e ((e, All-trans x y ys e s.0), s)
    | inr e ↦ rw e (All-place y x ys (total x y e) s.0, place-IsSorted x ys s.1)
  ]

  pub sort-IsSorted : (xs : List A) → IsSorted before (sort before xs)
  unfolding sort
  sort-IsSorted [] = tt
  sort-IsSorted (x ∷ xs) = place-IsSorted x (sort before xs) (sort-IsSorted xs)

module _ {ℓ κ} {A : Type ℓ} (P : A → Type κ) where
  All-place_of :
      (before : A → A → Bool) (x : A) (ys : List A) → P x → All P ys → All P (place before x ys)
  unfolding place
  All-place_of before x [] p ps = (p, tt)
  All-place_of before x (y ∷ ys) p ps = elim (Bool-cases (before x y)) [
    | inl h ↦ rw h (p, ps)
    | inr h ↦ rw h (ps.0, All-place_of before x ys p ps.1)
  ]

  -- What holds of every element holds of every element of the sorted list.
  pub All-sort : (before : A → A → Bool) (xs : List A) → All P xs → All P (sort before xs)
  unfolding sort
  All-sort before [] ps = tt
  All-sort before (x ∷ xs) ps =
      All-place_of before x (sort before xs) ps.0 (All-sort before xs ps.1)

module _ {ℓ} {A : Type ℓ} (test : A → Bool) where
  -- The elements that a filter keeps meet its test.
  pub All-filter : (xs : List A) → All (λ x. test x ≡ true) (filter test xs)
  unfolding filter
  All-filter [] = tt
  All-filter (x ∷ xs) = elim (Bool-cases (test x)) [
    | inl h ↦ rw h (h, All-filter xs)
    | inr h ↦ rw h (All-filter xs)
  ]
