-- ===== src/Observability/Choice.antt =====
-- Which sample is chosen.
use crypto_dashboard.Prelude.{◌≡◌, refl, String, true, false, none, some, List, [], ◌∷◌, ◌++◌, All}
use crypto_dashboard.Observability.{Labels, Sample, matches, pick}

module _ {ℓ} {A : Type ℓ} where
  abbrev pub NoMatch : String → Labels → List (Sample A) → Type 0
  NoMatch name labels samples = All (λ s. matches name labels s ≡ false) samples

  -- Of the samples before a point, none of which has the name and all of the labels, `pick` takes nothing:
  -- it gives the value of the sample that follows if that one has them, and null if there is no more.
  pub pick_first :
      (name : String) (labels : Labels) (before after : List (Sample A)) (s : Sample A)
      → NoMatch name labels before
      → matches name labels s ≡ true
      → (pick (before ++ s ∷ after) name labels ≡ some s.value) × (pick before name labels ≡ none)
  unfolding pick
  pick_first name labels [] after s h m = rw m (refl, refl)
  pick_first name labels (b ∷ before) after s h m =
      rw h.0 (pick_first name labels before after s h.1 m)
