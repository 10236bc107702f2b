-- ===== src/Panels/Tiles.antt =====
-- Every coin with a positive weight has its tile on the map of the market.
use mathlib.Core.List.{Perm}
use crypto_dashboard.Prelude.{
  ◌≡◌, refl, ap, ◌∙◌, true, false, Option, none, some, List, [], ◌∷◌, map, length, length-map, All,
  arith,
}
use crypto_dashboard.Prelude.Sort.{
  filter, sort, IsSorted, sort-perm, sort-IsSorted, All-sort, All-filter,
}
use crypto_dashboard.Numbers.{Num, IsSigned, ◌≼◌, lt_of, sum, sum_from}
use crypto_dashboard.Numbers.Clamps.{le_refl_of}
use crypto_dashboard.Price.{CoinMeta}
use crypto_dashboard.Treemap.{TreemapRect, squarify}
use crypto_dashboard.Treemap.Layout.{HasSize, IsLayout, cell_count, squarify-IsLayout}
use crypto_dashboard.Panels.Heatmap.{
  SizeBy, Tile, weight_of, has_weight, weighs_more, eligible, paired, pair_all, tiles,
}
use crypto_dashboard.Panels.Top.{by_number-IsRanking}

module _ {ℓ} {A : Type ℓ} ⦃n : Num A⦄ where
  abbrev pub HasRect : Option (TreemapRect A) → Type 0
  HasRect none = ⊥
  HasRect (some r) = HasSize r

  -- There is a map, its tiles are those of the given coins in their order, each with a rectangle of no
  -- negative size.
  abbrev pub IsMap : List (CoinMeta A) → Option (List (Tile A)) → Type ℓ
  IsMap ms map_of =
      (ts : List (Tile A)) × (map_of ≡ some ts)
      × (map (λ (t : Tile A). t.meta) ts ≡ ms)
      × All (λ (t : Tile A). HasRect t.rect) ts

  paired-IsMap :
      (ms : List (CoinMeta A)) (rects : List (TreemapRect A))
      → length rects ≡ length ms
      → All HasSize rects
      → IsMap ms (some (paired ms rects))
  unfolding paired
  paired-IsMap [] rects e h = ([], refl, refl, tt)
  paired-IsMap (m ∷ ms) [] e h = absurd (omega (arith, e))
  paired-IsMap (m ∷ ms) (r ∷ rects) e h =
      let (ts, same, metas, sized) = paired-IsMap ms rects (omega (arith, e)) h.1 in
      (record { meta = m; rect = some r } ∷ ts, cc same, ap (◌∷◌ m) metas, (h.0, sized))

  pair_all-IsMap :
      (ms : List (CoinMeta A)) (layout : Option (List (TreemapRect A)))
      → IsLayout (length ms) layout
      → IsMap ms (pair_all ms layout)
  pair_all-IsMap ms none h = absurd h
  pair_all-IsMap ms (some rects) h = paired-IsMap ms rects h.0 h.1

module _ {ℓ} {A : Type ℓ} ⦃n : Num A⦄ (laws : IsSigned A)
    (zero_add : (a : A) → n.add (n.of_ℕ 0) a ≡ a) where
  open laws use {le_of_not_le, le_trans, le-add_right}

  abbrev IsPositive : A → Type 0
  IsPositive a = lt_of (n.of_ℕ 0) a ≡ true

  le-sum_from : (acc : A) (xs : List A) → All IsPositive xs → acc ≼ sum_from acc xs
  le-sum_from acc [] h = le_refl_of laws acc
  le-sum_from acc (x ∷ xs) h =
      le_trans _ _ _ (le-add_right acc x (ground (arith, h.0))) (le-sum_from (n.add acc x) xs h.1)

  sum-IsPositive :
      (x : A) (xs : List A) → All IsPositive (x ∷ xs) → n.le (sum (x ∷ xs)) (n.of_ℕ 0) ≡ false
  sum-IsPositive x xs h =
      let up = le-sum_from (n.add (n.of_ℕ 0) x) xs h.1 in
      rw (zero_add x)
        (ground (arith, rw (zero_add x) at up, h.0, le_trans x (sum_from x xs) (n.of_ℕ 0)))

  cell_count-length : (xs : List A) → All IsPositive xs → cell_count xs ≡ length xs
  cell_count-length [] h = ground arith
  cell_count-length (x ∷ xs) h = rw (sum-IsPositive x xs h)

  weights-IsPositive :
      (size_by : SizeBy) (ms : List (CoinMeta A))
      → All (λ m. has_weight size_by m ≡ true) ms
      → All IsPositive (map (weight_of size_by) ms)
  unfolding has_weight
  weights-IsPositive size_by [] h = tt
  weights-IsPositive size_by (m ∷ ms) h = (h.0, weights-IsPositive size_by ms h.1)

  -- On a canvas of no negative size there is a map. Its tiles are the coins with a positive weight, each
  -- once and with a rectangle of no negative size, the heaviest first. The numbers obey the sign
  -- rules, and 0 + a is a.
  pub tiles-IsMap :
      (size_by : SizeBy) (width height : A) (coins : List (CoinMeta A))
      → n.of_ℕ 0 ≼ width
      → n.of_ℕ 0 ≼ height
      → IsMap (eligible size_by coins) (tiles size_by width height coins)
        × Perm (eligible size_by coins) (filter (has_weight size_by) coins)
        × IsSorted (weighs_more size_by) (eligible size_by coins)
  unfolding tiles eligible weighs_more
  tiles-IsMap size_by width height coins hw hh =
      let kept = filter (has_weight size_by) coins in
      let chosen = sort (weighs_more size_by) kept in
      let weights = map (weight_of size_by) chosen in
      let up = weights-IsPositive size_by chosen (
        All-sort (λ m. has_weight size_by m ≡ true) (weighs_more size_by) kept
          (All-filter (has_weight size_by) coins)) in
      let box : TreemapRect A = record { x = n.of_ℕ 0; y = n.of_ℕ 0; w = width; h = height } in
      let count = cell_count-length weights up ∙ length-map chosen (weight_of size_by) in
      (
        pair_all-IsMap chosen (squarify weights box)
            (rw count at (squarify-IsLayout laws weights box (hw, hh))),
        sort-perm (weighs_more size_by) kept,
        sort-IsSorted _ (by_number-IsRanking laws (weight_of size_by)) kept,
      )
