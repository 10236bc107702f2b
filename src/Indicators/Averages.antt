-- ===== src/Indicators/Averages.antt =====
use Prim.Native.Nat.add
use mathlib.Core.Path.{subst}
use native.Mathlib.Numerals.{add-one}
use native.Mathlib.Nat.{add-zero, zero-add}
-- The running sum of `sma` is the sum over the window in exact arithmetic.
use crypto_dashboard.Prelude.{
  none, if◌then◌else◌, false, append_assoc, ◌==◌, some, length-append, inr, inl, leb, Bool-cases,
  ◌-◌, zero, suc, refl, get_or, drop, ap, ◌+◌, ◌∙◌, sym, length, [], ◌≤◌, ◌≡◌, ◌∷◌, take, get_elem?,
  Option, ◌<◌, ◌++◌, List, ℕ, arith,
}
use crypto_dashboard.Numbers.{Num, IsGroup, sum, sum_from}
use crypto_dashboard.Indicators.{slide, sma_from, sma, window}

module _ {ℓ} {A : Type ℓ} where
  get_elem?-append_right :
      (xs ys : List A) (i : ℕ) → get_elem? (xs ++ ys) (length xs + i) ≡ get_elem? ys i
  get_elem?-append_right [] ys i = rw add.zero
  get_elem?-append_right (x ∷ xs) ys i = rw add.suc (get_elem?-append_right xs ys i)

  take-append : (xs ys : List A) → take (length xs) (xs ++ ys) ≡ xs
  take-append [] ys = refl
  take-append (x ∷ xs) ys = ap (◌∷◌ x) (take-append xs ys)

  -- The values up to and with the one behind `xs`.
  take-append-cons :
      (xs : List A) (v : A) (ys : List A) → take (suc (length xs)) (xs ++ v ∷ ys) ≡ xs ++ v ∷ []
  take-append-cons [] v ys = refl
  take-append-cons (x ∷ xs) v ys = ap (◌∷◌ x) (take-append-cons xs v ys)

  drop-append_left : (k : ℕ) (xs ys : List A) → k ≤ length xs → drop k (xs ++ ys) ≡ drop k xs ++ ys
  drop-append_left zero xs ys h = refl
  drop-append_left (suc k) [] ys h = absurd (omega arith)
  drop-append_left (suc k) (x ∷ xs) ys h = drop-append_left k xs ys (omega arith)

  -- `drop` takes off one value at a time.
  drop-eq-get_or :
      (k : ℕ) (xs : List A) (d : A) → k < length xs → drop k xs ≡ get_or xs k d ∷ drop (suc k) xs
  drop-eq-get_or zero [] d h = absurd (omega arith)
  drop-eq-get_or zero (x ∷ xs) d h = refl
  drop-eq-get_or (suc k) [] d h = absurd (omega arith)
  drop-eq-get_or (suc k) (x ∷ xs) d h = drop-eq-get_or k xs d (omega arith)

  get_or-append_left :
      (xs ys : List A) (k : ℕ) (d : A) → k < length xs → get_or (xs ++ ys) k d ≡ get_or xs k d
  get_or-append_left [] ys k d h = absurd (omega arith)
  get_or-append_left (x ∷ xs) ys zero d h = refl
  get_or-append_left (x ∷ xs) ys (suc k) d h = get_or-append_left xs ys k d (omega arith)

  -- The values that the loop's sum covers before it reads the value behind `pre`.
  abbrev covered : ℕ → List A → List A
  covered period pre = drop (length pre - period) pre

  covered-push_full :
      (period : ℕ) (pre : List A) (v : A)
      → 0 < period
      → period ≤ length pre
      → covered period (pre ++ v ∷ []) ≡ drop (suc (length pre - period)) pre ++ v ∷ []
  covered-push_full period pre v pos h =
      let e : length (pre ++ v ∷ []) - period ≡ suc (length pre - period) =
        omega (arith, length-append {ℓ} pre (v ∷ [])) in
      rw e (drop-append_left (suc (length pre - period)) pre (v ∷ []) (omega arith))

  covered_part : (period : ℕ) (pre : List A) → length pre ≤ period → covered period pre ≡ pre
  covered_part period pre h = let e : length pre - period ≡ 0 = omega arith in rw e

module _ {ℓ} {A : Type ℓ} ⦃n : Num A⦄ where
  -- The mean of the `period` values that end at index `i`; null where there are fewer.
  abbrev pub mean_at : List A → ℕ → ℕ → Option A
  mean_at values period i =
      if leb period (i + 1)
      then some (n.div (sum (drop (i + 1 - period) (take (i + 1) values))) (n.of_ℕ period))
      else none

  window-middle :
      (period : ℕ) (pre : List A) (v : A) (rest : List A)
      → window (pre ++ v ∷ rest) period (length pre) ≡ covered period (pre ++ v ∷ [])
  window-middle period pre v rest =
      let e : length (pre ++ v ∷ []) - period ≡ length pre + 1 - period =
        omega (arith, length-append {ℓ} pre (v ∷ [])) in
      rw (e, add-one, take-append-cons pre v rest)

module _ {ℓ} {A : Type ℓ} ⦃n : Num A⦄ (laws : IsGroup A) where
  open laws use {add_assoc, add_comm, zero_add, add_sub}

  sum_from-eq : (acc : A) (xs : List A) → sum_from acc xs ≡ n.add acc (sum xs)
  sum_from-eq acc [] = sym (add_comm acc (n.of_ℕ 0) ∙ zero_add acc)
  sum_from-eq acc (x ∷ xs) =
      sum_from-eq (n.add acc x) xs
      ∙ add_assoc acc x (sum xs)
      ∙ ap (n.add acc)
          (sym (sum_from-eq (n.add (n.of_ℕ 0) x) xs ∙ ap (λ a. n.add a (sum xs)) (zero_add x)))

  sum-cons : (x : A) (xs : List A) → sum (x ∷ xs) ≡ n.add x (sum xs)
  sum-cons x xs = sum_from-eq (n.add (n.of_ℕ 0) x) xs ∙ ap (λ a. n.add a (sum xs)) (zero_add x)

  sum-push :
      (acc : A) (xs : List A) (v : A) → sum_from acc (xs ++ v ∷ []) ≡ n.add (sum_from acc xs) v
  sum-push acc [] v = refl
  sum-push acc (x ∷ xs) v = sum-push (n.add acc x) xs v

  -- Adding a value and taking off the oldest one moves the window.
  sum_slide : (x : A) (xs : List A) (v : A) → n.sub (n.add (sum (x ∷ xs)) v) x ≡ sum (xs ++ v ∷ [])
  sum_slide x xs v =
      let moved : n.add (sum (x ∷ xs)) v ≡ n.add (n.add (sum xs) v) x =
        rw (sum-cons x xs, add_assoc x (sum xs) v) (add_comm x (n.add (sum xs) v)) in
      ap (λ a. n.sub a x) moved ∙ add_sub (n.add (sum xs) v) x ∙ sym (sum-push (n.of_ℕ 0) xs v)

  slide_lem :
      (period : ℕ) (pre : List A) (v : A) (rest : List A)
      → 0 < period
      → slide (pre ++ v ∷ rest) period (length pre) (sum (covered period pre)) v
        ≡ sum (covered period (pre ++ v ∷ []))
  slide_lem period pre v rest pos = elim (Bool-cases (leb period (length pre))) [
    | inl full ↦
        let k = length pre - period in
        let d = n.of_ℕ 0 in
        let low : k < length pre = ground arith in
        let later = covered-push_full period pre v pos (ground arith) in
        rw (full, get_or-append_left pre (v ∷ rest) k d low, later, drop-eq-get_or k pre d low)
          (sum_slide (get_or pre k d) (drop (suc k) pre) v)
    | inr part ↦
        let now = covered_part period pre (ground arith) in
        let later =
          covered_part period (pre ++ v ∷ []) (ground (arith, length-append pre (v ∷ []))) in
        rw (part, now, later) (sym (sum-push (n.of_ℕ 0) pre v))
  ]

  get_elem?-sma_from :
      (period : ℕ) (pre rest : List A) (i : ℕ)
      → 0 < period
      → i < length rest
      → get_elem? (sma_from (pre ++ rest) period (length pre) (sum (covered period pre)) rest) i
        ≡ some (mean_at (pre ++ rest) period (length pre + i))
  unfolding sma_from
  get_elem?-sma_from period pre [] i pos h = absurd (omega arith)
  get_elem?-sma_from period pre (v ∷ rest) zero pos h =
      rw (add-zero, slide_lem period pre v rest pos, window-middle period pre v rest)
  get_elem?-sma_from period pre (v ∷ rest) (suc i) pos h =
      let more = pre ++ v ∷ [] in
      let place : length pre + suc i ≡ length more + i =
        omega (arith, length-append {ℓ} pre (v ∷ [])) in
      let size : length pre + 1 ≡ length more = omega (arith, length-append {ℓ} pre (v ∷ [])) in
      let later =
        subst
          (λ l.
            get_elem? (sma_from l period (length more) (sum (covered period more)) rest) i
            ≡ some (mean_at l period (length more + i)))
          (append_assoc pre (v ∷ []) rest)
          (get_elem?-sma_from period more rest i pos (omega arith)) in
      rw (slide_lem period pre v rest pos, place, size) later

  -- In exact arithmetic each entry of `sma` is the mean of the `period` values that end there, and
  -- null where there are fewer. The period is positive.
  pub get_elem?-sma :
      (values : List A) (period i : ℕ)
      → 0 < period
      → i < length values
      → get_elem? (sma values period) i ≡ some (mean_at values period i)
  unfolding sma
  get_elem?-sma values period i pos h =
      let positive : (period == 0) ≡ false = ground arith in
      let start = get_elem?-sma_from period [] values i pos h in
      rw positive (rw (covered_part {A = A} period [] (omega arith), zero-add) at start)
