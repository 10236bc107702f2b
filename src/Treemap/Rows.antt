-- ===== src/Treemap/Rows.antt =====
-- How the inner loop chooses a row.
use crypto_dashboard.Prelude.{
  ◌∙◌, ◌≡◌, refl, arith, false, Bool-cases, inl, inr, List, [], ◌∷◌, ◌++◌, append_assoc, ◌≤◌,
  length, length-append,
}
use crypto_dashboard.Numbers.{Num, IsSigned, ◌≼◌}
use crypto_dashboard.Numbers.Clamps.{le_refl_of}
use crypto_dashboard.Treemap.{grow, worst_aspect}

module _ {ℓ} {A : Type ℓ} ⦃n : Num A⦄ where
  pub grow-append :
      (side : A) (row : List A) (best : A) (areas : List A)
      → (grow side row best areas).0 ++ (grow side row best areas).1 ≡ row ++ areas
  unfolding grow
  grow-append side row best [] = refl
  grow-append side row best (a ∷ areas) =
      let candidate = worst_aspect (row ++ a ∷ []) side in
      elim (Bool-cases (n.le candidate best)) [
        | inl better ↦
            rw (better, grow-append side (row ++ a ∷ []) candidate areas)
              (append_assoc row (a ∷ []) areas)
        | inr worse ↦ rw worse refl
      ]

  pub length-grow :
      (side : A) (row : List A) (best : A) (areas : List A)
      → length row ≤ length (grow side row best areas).0
  unfolding grow
  length-grow side row best [] = omega arith
  length-grow side row best (a ∷ areas) =
      let candidate = worst_aspect (row ++ a ∷ []) side in
      ground (arith, length-append row (a ∷ []), length-grow side (row ++ a ∷ []) candidate areas)

  -- A next area, if there is one, would make the worst ratio of the row larger.
  abbrev pub Stops : A → List A → List A → Type 0
  Stops side row [] = Unit
  Stops side row (a ∷ areas) =
      n.le (worst_aspect (row ++ a ∷ []) side) (worst_aspect row side) ≡ false

module _ {ℓ} {A : Type ℓ} ⦃n : Num A⦄ (laws : IsSigned A) where
  open laws use {le_trans}

  -- The inner loop takes a row from the front of the areas, in their order, loses none of them,
  -- makes the row's worst ratio no larger than that of the cells it started from, and stops at an
  -- area that would make it larger. The numbers obey the sign rules.
  pub grow_greedy :
      (side : A) (row areas : List A)
      → let grown = grow side row (worst_aspect row side) areas in
        (grown.0 ++ grown.1 ≡ row ++ areas)
        × (worst_aspect grown.0 side ≼ worst_aspect row side)
        × Stops side grown.0 grown.1
  unfolding grow
  grow_greedy side row [] = (refl, le_refl_of laws (worst_aspect row side), tt)
  grow_greedy side row (a ∷ areas) =
      let candidate = worst_aspect (row ++ a ∷ []) side in
      let later = grow_greedy side (row ++ a ∷ []) areas in
      elim (Bool-cases (n.le candidate (worst_aspect row side))) [
        | inl better ↦
            rw better
              (later.0 ∙ append_assoc row (a ∷ []) areas, le_trans _ _ _ later.1 better, later.2)
        | inr worse ↦ rw worse (refl, le_refl_of laws (worst_aspect row side), worse)
      ]
