-- ===== src/Treemap/Layout.antt =====
-- The layout has a rectangle for each weight, and none of a negative size.
use crypto_dashboard.Prelude.{
  ap, ◌∙◌, sym, ◌≡◌, refl, arith, ℕ, zero, suc, ◌≤◌, ◌+◌, false, Bool-cases, inl, inr, List, [],
  ◌∷◌, ◌++◌, Option, none, some, length, length-append, length-map, All, All-append, ◌==◌,
  if◌then◌else◌,
}
use mathlib.Core.Path.{subst}
use crypto_dashboard.Numbers.{Num, IsSigned, ◌≼◌, max_of, min_of, sum, sum_from}
use crypto_dashboard.Treemap.{
  TreemapRect, gt, grow, worst_aspect, cell_size, lay_across, lay_down, thickness_of, cells, shrink,
  prepend, lay_rows, scaled, squarify,
}
use crypto_dashboard.Treemap.Rows.{grow-append, length-grow}

module _ {ℓ} {A : Type ℓ} ⦃n : Num A⦄ where
  abbrev pub IsNonneg : A → Type 0
  IsNonneg a = n.of_ℕ 0 ≼ a

  abbrev pub HasSize : TreemapRect A → Type 0
  HasSize r = IsNonneg r.w × IsNonneg r.h

  -- A layout of `count` rectangles of no negative size.
  abbrev pub IsLayout : ℕ → Option (List (TreemapRect A)) → Type 0
  IsLayout count none = ⊥
  IsLayout count (some rects) = (length rects ≡ count) × All HasSize rects

  -- The number of rectangles: none where the total weight is not positive.
  abbrev pub cell_count : List A → ℕ
  cell_count weights = if n.le (sum weights) (n.of_ℕ 0) then 0 else length weights

  length-lay_across : (cx y t : A) (row : List A) → length (lay_across cx y t row) ≡ length row
  unfolding lay_across
  length-lay_across cx y t [] = refl
  length-lay_across cx y t (a ∷ row) =
      omega (arith, length-lay_across (n.add cx (cell_size t a)) y t row)

  length-lay_down : (x cy t : A) (row : List A) → length (lay_down x cy t row) ≡ length row
  unfolding lay_down
  length-lay_down x cy t [] = refl
  length-lay_down x cy t (a ∷ row) =
      omega (arith, length-lay_down x (n.add cy (cell_size t a)) t row)

  length-cells :
      (box : TreemapRect A) (t : A) (row : List A) → length (cells box t row) ≡ length row
  length-cells box t row =
      ground (arith, length-lay_across box.x box.y t row, length-lay_down box.x box.y t row)

  prepend-IsLayout :
      (k j count : ℕ) (out : List (TreemapRect A)) (rest : Option (List (TreemapRect A)))
      → length out ≡ k
      → All HasSize out
      → IsLayout j rest
      → k + j ≡ count
      → IsLayout count (prepend out rest)
  prepend-IsLayout k j count out none h s l e = l
  prepend-IsLayout k j count out (some more) h s l e =
      (ground (arith, length-append out more, h, l.0, e), All-append HasSize out more s l.1)

module _ {ℓ} {A : Type ℓ} (P : A → Type 0) where
  All-left : (xs ys : List A) → All P (xs ++ ys) → All P xs
  All-left [] ys h = tt
  All-left (x ∷ xs) ys h = (h.0, All-left xs ys h.1)

  All-right : (xs ys : List A) → All P (xs ++ ys) → All P ys
  All-right [] ys h = h
  All-right (x ∷ xs) ys h = All-right xs ys h.1

module _ {ℓ} {A : Type ℓ} ⦃n : Num A⦄ (laws : IsSigned A) where
  open laws use {of_ℕ-le, le_of_not_le, le_trans, add_nonneg, mul_nonneg, div_nonneg}

  zero-IsNonneg : IsNonneg (n.of_ℕ 0)
  zero-IsNonneg = of_ℕ-le 0 0 (omega arith)

  sum_from-IsNonneg :
      (acc : A) (xs : List A) → IsNonneg acc → All IsNonneg xs → IsNonneg (sum_from acc xs)
  sum_from-IsNonneg acc [] h s = h
  sum_from-IsNonneg acc (x ∷ xs) h s =
      sum_from-IsNonneg (n.add acc x) xs (add_nonneg acc x h s.0) s.1

  quotient-IsNonneg :
      (a b : A) → IsNonneg a → IsNonneg (if gt b (n.of_ℕ 0) then n.div a b else n.of_ℕ 0)
  quotient-IsNonneg a b h = elim (Bool-cases (gt b (n.of_ℕ 0))) [
    | inl pos ↦ rw pos (div_nonneg a b h (ground arith) (ground arith))
    | inr flat ↦ rw flat zero-IsNonneg
  ]

  lay_across-HasSize :
      (cx y t : A) (row : List A)
      → IsNonneg t
      → All IsNonneg row
      → All HasSize (lay_across cx y t row)
  unfolding lay_across
  lay_across-HasSize cx y t [] ht s = tt
  lay_across-HasSize cx y t (a ∷ row) ht s = (
    (quotient-IsNonneg a t s.0, ht),
    lay_across-HasSize (n.add cx (cell_size t a)) y t row ht s.1,
  )

  lay_down-HasSize :
      (x cy t : A) (row : List A)
      → IsNonneg t
      → All IsNonneg row
      → All HasSize (lay_down x cy t row)
  unfolding lay_down
  lay_down-HasSize x cy t [] ht s = tt
  lay_down-HasSize x cy t (a ∷ row) ht s =
      ((ht, quotient-IsNonneg a t s.0), lay_down-HasSize x (n.add cy (cell_size t a)) t row ht s.1)

  cells-HasSize :
      (box : TreemapRect A) (t : A) (row : List A)
      → IsNonneg t
      → All IsNonneg row
      → All HasSize (cells box t row)
  cells-HasSize box t row ht s = elim (Bool-cases (n.le box.w box.h)) [
    | inl tall ↦ rw tall (lay_across-HasSize box.x box.y t row ht s)
    | inr wide ↦ rw wide (lay_down-HasSize box.x box.y t row ht s)
  ]

  lay_rows-IsLayout :
      (fuel : ℕ) (box : TreemapRect A) (areas : List A)
      → length areas ≤ fuel
      → All IsNonneg areas
      → IsLayout (length areas) (lay_rows fuel box areas)
  unfolding lay_rows
  lay_rows-IsLayout fuel box [] h s = (refl, tt)
  lay_rows-IsLayout zero box (a ∷ areas) h s = absurd (omega arith)
  lay_rows-IsLayout (suc fuel) box (a ∷ areas) h s =
      let side = min_of box.w box.h in
      let best = worst_aspect (a ∷ []) side in
      let grown = grow side (a ∷ []) best areas in
      let split = grow-append side (a ∷ []) best areas in
      let all = subst (All IsNonneg) (sym split) s in
      let row = All-left IsNonneg grown.0 grown.1 all in
      let t = thickness_of side grown.0 in
      let count = length-append grown.0 grown.1 in
      let ht =
        quotient-IsNonneg (sum grown.0) side
          (sum_from-IsNonneg (n.of_ℕ 0) grown.0 zero-IsNonneg row) in
      let total : length grown.0 + length grown.1 ≡ suc (length areas) =
        sym count ∙ ap length split in
      let longer = length-grow side (a ∷ []) best areas in
      prepend-IsLayout (length grown.0) (length grown.1) (suc (length areas)) (cells box t grown.0)
        (lay_rows fuel (shrink box t) grown.1) (length-cells box t grown.0)
        (cells-HasSize box t grown.0 ht row)
        (lay_rows-IsLayout fuel (shrink box t) grown.1 (omega arith)
          (All-right IsNonneg grown.0 grown.1 all))
        total

  scaled-IsNonneg :
      (scale : A) (weights : List A) → IsNonneg scale → All IsNonneg (scaled scale weights)
  scaled-IsNonneg scale [] h = tt
  scaled-IsNonneg scale (v ∷ weights) h = (
    mul_nonneg (max_of v (n.of_ℕ 0)) scale
        (ground (arith, le_of_not_le v (n.of_ℕ 0), zero-IsNonneg)) h,
    scaled-IsNonneg scale weights h,
  )

  -- For a container of no negative size the layout ends, with one rectangle for each weight, or
  -- with none where the total weight is not positive; no rectangle has a negative width or
  -- height. The numbers obey the sign rules.
  pub squarify-IsLayout :
      (weights : List A) (container : TreemapRect A)
      → HasSize container
      → IsLayout (cell_count weights) (squarify weights container)
  unfolding squarify
  squarify-IsLayout [] container h = rw zero-IsNonneg (refl, tt)
  squarify-IsLayout (v ∷ weights) container h =
      let total = sum (v ∷ weights) in
      let scale = n.div (n.mul container.w container.h) total in
      elim (Bool-cases (n.le total (n.of_ℕ 0))) [
        | inl none_left ↦ rw none_left (refl, tt)
        | inr pos ↦
            let area = mul_nonneg container.w container.h h.0 h.1 in
            let up = div_nonneg _ total area (le_of_not_le total (n.of_ℕ 0) pos) pos in
            let same = length-map (v ∷ weights) (λ u. n.mul (max_of u (n.of_ℕ 0)) scale) in
            let some_weight : (length (v ∷ weights) == 0) ≡ false = ground arith in
            rw (pos, some_weight)
              (subst
                (λ k.
                  IsLayout k
                    (lay_rows (length (v ∷ weights)) container (scaled scale (v ∷ weights))))
                same
                (lay_rows-IsLayout (length (v ∷ weights)) container (scaled scale (v ∷ weights))
                  (omega (arith, same)) (scaled-IsNonneg scale (v ∷ weights) up)))
      ]
