-- ===== src/Hooks/Fetched.antt =====
-- frontend/src/presentation/hooks/usePrices.ts and useExtremes.ts: a list that is fetched for a choice of
-- coins. Each run of the effect has a `cancelled` flag of its own, which the next run or the unmount
-- sets; so a run's flag is down exactly while the run is the last one of a mounted component, and a
-- callback carries the number of its run. (`usePrices` has one run, with no choice of coins.)
pub mod Current
use crypto_dashboard.Prelude.{
  ℕ, ◌+◌, ◌==◌, ◌&&◌, String, Bool, true, false, Option, none, some, List, [], ◌∷◌, if◌then◌else◌,
}

-- `PricesState` and `ExtremesState`, with the number of the last run.
pub record Fetched {ℓ} (B : Type ℓ) : Type ℓ where
  pub items : List B
  pub loading : Bool
  pub error : Option String
  pub run : ℕ
  pub mounted : Bool

module _ {ℓ} {B : Type ℓ} where
  abbrev pub mount : Fetched B
  mount = record { items = []; loading = true; error = none; run = 0; mounted = true }

  abbrev pub is_current : ℕ → Fetched B → Bool
  is_current run f = f.mounted && run == f.run

  -- `.then(...)`
  unfoldable pub arrive : ℕ → List B → Fetched B → Fetched B
  arrive run items f =
      if is_current run f then record f { items = items; loading = false; error = none } else f

  -- `.catch(...)`
  unfoldable pub fail : ℕ → String → Fetched B → Fetched B
  fail run err f =
      if is_current run f then record f { items = []; loading = false; error = some err } else f

  unfoldable pub unmount : Fetched B → Fetched B
  unmount f = record f { mounted = false }

  -- The start of a run of the effect of `useExtremes`.
  unfoldable pub begin : List String → Fetched B → Fetched B
  begin [] f = record f { items = []; loading = false; error = none; run = f.run + 1 }
  begin (coin ∷ coins) f = record f { loading = true; run = f.run + 1 }

  -- `results.filter((r) => r !== null)`
  unfoldable pub present : List (Option B) → List B
  present [] = []
  present (none ∷ results) = present results
  present (some r ∷ results) = r ∷ present results
