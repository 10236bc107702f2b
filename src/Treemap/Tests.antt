-- ===== src/Treemap/Tests.antt =====
-- Runs of the layout, and the theorems at a concrete container.
use crypto_dashboard.Prelude.{◌≡◌, List, [], ◌∷◌, ◌++◌, some, refl}
use crypto_dashboard.Prelude.Int.{ℤ, pos, ◌+ℤ◌, ◌-ℤ◌, ◌*ℤ◌}
use crypto_dashboard.Numbers.{◌≼◌}
use crypto_dashboard.Numbers.Integers.{int_num, ℤ-IsSigned}
use crypto_dashboard.Treemap.{
  TreemapRect, squarify, lay_rows, lay_across, lay_down, grow, worst_aspect, greatest, least,
}
use crypto_dashboard.Treemap.Rows.{grow_greedy, Stops}
use crypto_dashboard.Treemap.Layout.{squarify-IsLayout, IsLayout}

abbrev frame : TreemapRect ℤ
frame = record { x = pos 0; y = pos 0; w = pos 6; h = pos 4 }

abbrev weights : List ℤ
weights = pos 12 ∷ pos 6 ∷ pos 6 ∷ []

layout :
    squarify weights frame
    ≡ some (
        record { x = pos 0; y = pos 0; w = pos 3; h = pos 4 }
        ∷ record { x = pos 3; y = pos 0; w = pos 3; h = pos 2 }
        ∷ record { x = pos 3; y = pos 2; w = pos 3; h = pos 2 }
        ∷ [])
unfolding squarify lay_rows lay_across lay_down grow worst_aspect greatest least ◌+ℤ◌ ◌-ℤ◌ ◌*ℤ◌
layout = refl

squarify-IsLayout_example : IsLayout 3 (squarify weights frame)
unfolding ◌+ℤ◌
squarify-IsLayout_example = squarify-IsLayout ℤ-IsSigned weights frame (refl, refl)

grow_greedy_example :
    let grown =
      grow (pos 4) (pos 12 ∷ []) (worst_aspect (pos 12 ∷ []) (pos 4)) (pos 6 ∷ pos 6 ∷ []) in
    (grown.0 ++ grown.1 ≡ pos 12 ∷ pos 6 ∷ pos 6 ∷ [])
    × (worst_aspect grown.0 (pos 4) ≼ worst_aspect (pos 12 ∷ []) (pos 4))
    × Stops (pos 4) grown.0 grown.1
grow_greedy_example = grow_greedy ℤ-IsSigned (pos 4) (pos 12 ∷ []) (pos 6 ∷ pos 6 ∷ [])
