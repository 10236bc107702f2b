-- ===== src/Hooks/Fetched/Current.antt =====
-- A reply that comes late never shows.
use crypto_dashboard.Prelude.{
  ◌≢◌, ◌⊎◌, inr, inl, Bool-cases, ◌≡◌, ℕ, ◌+◌, String, true, Option, none, List, [], ◌∷◌, refl,
  arith,
}
use crypto_dashboard.Hooks.Fetched.{
  is_current, Fetched, mount, arrive, fail, unmount, begin, present,
}

module _ {ℓ} {B : Type ℓ} (coins_of : ℕ → List String) (results : ℕ → List (Option B)) where
  -- What the choice of a run should show.
  abbrev pub answer_for : List String → List (Option B) → List B
  answer_for [] rs = []
  answer_for (coin ∷ coins) rs = present rs

  abbrev pub answer : ℕ → List B
  answer run = answer_for (coins_of run) (results run)

  -- A run begins with the next choice; the results of any run that asked, and failures, come in any
  -- order.
  pub data Run : Fetched B → Type ℓ where
    start : Run mount
    begins : {f : Fetched B} → Run f → Run (begin (coins_of (f.run + 1)) f)
    arrives :
        {f : Fetched B} (run : ℕ) (coin : String) (coins : List String)
        → coins_of run ≡ coin ∷ coins
        → Run f
        → Run (arrive run (present (results run)) f)
    fails : {f : Fetched B} (run : ℕ) (err : String) → Run f → Run (fail run err f)
    leaves : {f : Fetched B} → Run f → Run (unmount f)

  -- The page is loading, or shows an error, or shows the results for the present choice.
  abbrev pub IsCurrent : Fetched B → Type ℓ
  IsCurrent f = (f.loading ≡ true) ⊎ ((f.error ≢ none) ⊎ (f.items ≡ answer f.run))

  begin-IsCurrent :
      (f : Fetched B) (coins : List String)
      → coins_of (f.run + 1) ≡ coins
      → IsCurrent (begin coins f)
  unfolding begin
  begin-IsCurrent f [] e = inr (inr (rw e refl))
  begin-IsCurrent f (coin ∷ coins) e = inl refl

  arrive-IsCurrent :
      (run : ℕ) (coin : String) (coins : List String) (f : Fetched B)
      → coins_of run ≡ coin ∷ coins
      → IsCurrent f
      → IsCurrent (arrive run (present (results run)) f)
  unfolding arrive
  arrive-IsCurrent run coin coins f e s = elim (Bool-cases (is_current run f)) [
    | inl now ↦ let same : f.run ≡ run = ground arith in rw (now, same, e) (inr (inr refl))
    | inr late ↦ rw late s
  ]

  fail-IsCurrent :
      (run : ℕ) (err : String) (f : Fetched B) → IsCurrent f → IsCurrent (fail run err f)
  unfolding fail
  fail-IsCurrent run err f s = elim (Bool-cases (is_current run f)) [
    | inl now ↦ rw now (inr (inl (λ h. cc)))
    | inr late ↦ rw late s
  ]

  -- In every state the page is loading, or shows an error, or shows the results for the present choice of
  -- coins without the missing ones: no reply to an earlier choice shows, in whatever order replies and
  -- failures come in.
  pub fetched-IsCurrent : {f : Fetched B} → Run f → IsCurrent f
  unfolding unmount
  fetched-IsCurrent start = inl refl
  fetched-IsCurrent (begins {f} r) = begin-IsCurrent f (coins_of (f.run + 1)) refl
  fetched-IsCurrent (arrives {f} run coin coins e r) =
      arrive-IsCurrent run coin coins f e (fetched-IsCurrent r)
  fetched-IsCurrent (fails {f} run err r) = fail-IsCurrent run err f (fetched-IsCurrent r)
  fetched-IsCurrent (leaves {f} r) = fetched-IsCurrent r
