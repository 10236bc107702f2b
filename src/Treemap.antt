-- ===== src/Treemap.antt =====
-- frontend/src/domain/treemap.ts: the squarified treemap. The outer loop runs on fuel, one unit for
-- each row of cells.
pub mod Rows
pub mod Layout
pub mod Tests
use crypto_dashboard.Prelude.{
  ℕ, zero, suc, Bool, true, not, ◌&&◌, ◌||◌, Option, none, some, List, [], ◌∷◌, ◌++◌, map,
  if◌then◌else◌, ◌==◌, length,
}
use crypto_dashboard.Numbers.{Num, max_of, min_of, sum}

pub record TreemapRect {ℓ} (A : Type ℓ) : Type ℓ where
  pub x : A
  pub y : A
  pub w : A
  pub h : A

module _ {ℓ} {A : Type ℓ} ⦃n : Num A⦄ where
  -- `a > b`
  abbrev pub gt : A → A → Bool
  gt a b = n.le b a && not (n.le a b)

  -- `Math.max(first, ...rest)` and `Math.min(first, ...rest)`
  unfoldable pub greatest : A → List A → A
  greatest m [] = m
  greatest m (a ∷ more) = greatest (max_of m a) more

  unfoldable pub least : A → List A → A
  least m [] = m
  least m (a ∷ more) = least (min_of m a) more

  -- The ratio of a row with the cell `first` and others, its sum and the side not negative.
  abbrev pub ratio : A → List A → A → A
  ratio first more side =
      let s2 = n.mul (sum (first ∷ more)) (sum (first ∷ more)) in
      let side2 = n.mul side side in
      max_of (n.div (n.mul side2 (greatest first more)) s2)
        (n.div s2 (n.mul side2 (least first more)))

  -- An empty row has the sum 0.
  unfoldable pub worst_aspect : List A → A → A
  unfolding greatest least
  worst_aspect [] side = n.infinity
  worst_aspect (a ∷ more) side =
      if n.le (sum (a ∷ more)) (n.of_ℕ 0) || n.le side (n.of_ℕ 0)
      then n.infinity
      else ratio a more side

  -- The inner loop, from the row, its ratio and the areas that follow: the row and the areas left.
  unfoldable pub grow : A → List A → A → List A → List A × List A
  unfolding worst_aspect
  grow side row best [] = (row, [])
  grow side row best (a ∷ areas) =
      let candidate = worst_aspect (row ++ a ∷ []) side in
      let longer = grow side (row ++ a ∷ []) candidate areas in
      if n.le candidate best then longer else (row, a ∷ areas)

  abbrev pub cell_size : A → A → A
  cell_size thickness a = if gt thickness (n.of_ℕ 0) then n.div a thickness else n.of_ℕ 0

  unfoldable pub lay_across : A → A → A → List A → List (TreemapRect A)
  lay_across cx y thickness [] = []
  lay_across cx y thickness (a ∷ row) =
      let cw = cell_size thickness a in
      record { x = cx; y = y; w = cw; h = thickness } ∷ lay_across (n.add cx cw) y thickness row

  unfoldable pub lay_down : A → A → A → List A → List (TreemapRect A)
  lay_down x cy thickness [] = []
  lay_down x cy thickness (a ∷ row) =
      let ch = cell_size thickness a in
      record { x = x; y = cy; w = thickness; h = ch } ∷ lay_down x (n.add cy ch) thickness row

  abbrev pub thickness_of : A → List A → A
  thickness_of side row = if gt side (n.of_ℕ 0) then n.div (sum row) side else n.of_ℕ 0

  -- The cells of a row, in the free rectangle `box`.
  abbrev pub cells : TreemapRect A → A → List A → List (TreemapRect A)
  cells box thickness row =
      if n.le box.w box.h
      then lay_across box.x box.y thickness row
      else lay_down box.x box.y thickness row

  -- What the row leaves free.
  abbrev pub shrink : TreemapRect A → A → TreemapRect A
  shrink box thickness =
      if n.le box.w box.h
      then record box { y = n.add box.y thickness; h = max_of (n.of_ℕ 0) (n.sub box.h thickness) }
      else record box { x = n.add box.x thickness; w = max_of (n.of_ℕ 0) (n.sub box.w thickness) }

  abbrev pub prepend :
      List (TreemapRect A) → Option (List (TreemapRect A)) → Option (List (TreemapRect A))
  prepend out none = none
  prepend out (some more) = some (out ++ more)

  -- The outer loop; `none` says that the fuel has run out.
  unfoldable pub lay_rows : ℕ → TreemapRect A → List A → Option (List (TreemapRect A))
  unfolding grow lay_across lay_down
  lay_rows fuel box [] = some []
  lay_rows zero box (a ∷ areas) = none
  lay_rows (suc fuel) box (a ∷ areas) =
      let side = min_of box.w box.h in
      let grown = grow side (a ∷ []) (worst_aspect (a ∷ []) side) areas in
      let thickness = thickness_of side grown.0 in
      prepend (cells box thickness grown.0) (lay_rows fuel (shrink box thickness) grown.1)

  abbrev pub scaled : A → List A → List A
  scaled scale weights = map (λ v. n.mul (max_of v (n.of_ℕ 0)) scale) weights

  unfoldable pub squarify : List A → TreemapRect A → Option (List (TreemapRect A))
  unfolding lay_rows
  squarify weights container =
      if n.le (sum weights) (n.of_ℕ 0) || length weights == 0
      then some []
      else lay_rows (length weights) container
          (scaled (n.div (n.mul container.w container.h) (sum weights)) weights)
