-- ===== src/Correlation/Tests.antt =====
-- Runs of the coefficient and of the matrix, and the theorems at concrete series.
use crypto_dashboard.Prelude.{◌≡◌, List, [], ◌∷◌, some, refl}
use crypto_dashboard.Prelude.Int.{*ℤ_comm, ℤ, pos, negsuc, ◌+ℤ◌, ◌-ℤ◌, ◌*ℤ◌}
use crypto_dashboard.Numbers.{◌≼◌}
use crypto_dashboard.Numbers.Integers.{int_num, ℤ-IsSigned, sqrt_ℕ}
use crypto_dashboard.Correlation.{
  pearson, moments, correlation_matrix, fill_row, fill_rows, minus_one,
}
use crypto_dashboard.Correlation.Coefficient.{pearson_comm, pearson_bounds}
use crypto_dashboard.Correlation.Matrix.{entry, cell, entry-correlation_matrix}

abbrev rising : List ℤ
rising = pos 9 ∷ pos 1 ∷ pos 2 ∷ pos 3 ∷ []

abbrev falling : List ℤ
falling = pos 3 ∷ pos 2 ∷ pos 1 ∷ []

abbrev flat : List ℤ
flat = pos 5 ∷ pos 5 ∷ pos 5 ∷ []

-- The longer series gives its last three points.
opposite : pearson rising falling ≡ negsuc 0
unfolding pearson moments ◌+ℤ◌ ◌-ℤ◌ ◌*ℤ◌ sqrt_ℕ
opposite = refl

constant : pearson rising flat ≡ pos 0
unfolding pearson moments ◌+ℤ◌ ◌-ℤ◌ ◌*ℤ◌ sqrt_ℕ
constant = refl

matrix :
    correlation_matrix (rising ∷ falling ∷ [])
    ≡ (pos 1 ∷ negsuc 0 ∷ []) ∷ (negsuc 0 ∷ pos 1 ∷ []) ∷ []
unfolding correlation_matrix fill_rows fill_row pearson moments ◌+ℤ◌ ◌-ℤ◌ ◌*ℤ◌ sqrt_ℕ
matrix = refl

pearson_comm_run : pearson rising falling ≡ pearson falling rising
pearson_comm_run = pearson_comm *ℤ_comm rising falling

pearson_bounds_run : (minus_one ≼ pearson rising falling) × (pearson rising falling ≼ pos 1)
pearson_bounds_run = pearson_bounds ℤ-IsSigned rising falling

entry-correlation_matrix_example :
    entry (correlation_matrix (rising ∷ falling ∷ [])) 1 0 ≡ cell 1 0 (some falling) (some rising)
entry-correlation_matrix_example = entry-correlation_matrix (rising ∷ falling ∷ []) 1 0
