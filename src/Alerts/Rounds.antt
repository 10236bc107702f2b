-- ===== src/Alerts/Rounds.antt =====
-- What one evaluation of the alerts does.
use crypto_dashboard.Prelude.{
  sym, inr, inl, Bool-cases, ◌||◌, arith, ap, ◌≡◌, map, if◌then◌else◌, Bool, List, ℕ, String, [],
  ◌∷◌, false, refl,
}
use crypto_dashboard.Numbers.{Num}
use crypto_dashboard.Alerts.{fired_after, Alert, Desk, fires, trigger, evaluate_alerts, evaluate}

module _ {ℓ} {A : Type ℓ} ⦃n : Num A⦄ where
  -- The alert after a round: triggered at this time if it fires, else as it was.
  abbrev pub after_round : ℕ → List (String × A) → Alert A → Alert A
  after_round now table a = if fires table a then trigger now a else a

  abbrev pub any_fires : List (String × A) → List (Alert A) → Bool
  any_fires table [] = false
  any_fires table (a ∷ more) = fires table a || any_fires table more

  pub evaluate_alerts-next :
      (now : ℕ) (table : List (String × A)) (fired : List String) (alerts : List (Alert A))
      → (evaluate_alerts now table fired alerts).next ≡ map (after_round now table) alerts
  unfolding evaluate_alerts
  evaluate_alerts-next now table fired [] = refl
  evaluate_alerts-next now table fired (a ∷ more) =
      ap (◌∷◌ (after_round now table a))
        (evaluate_alerts-next now table (fired_after table a fired) more)

  evaluate_alerts-changed :
      (now : ℕ) (table : List (String × A)) (fired : List String) (alerts : List (Alert A))
      → (evaluate_alerts now table fired alerts).changed ≡ any_fires table alerts
  unfolding evaluate_alerts
  evaluate_alerts-changed now table fired [] = refl
  evaluate_alerts-changed now table fired (a ∷ more) =
      ap (◌||◌ (fires table a)) (evaluate_alerts-changed now table (fired_after table a fired) more)

  map-after_round_quiet :
      (now : ℕ) (table : List (String × A)) (alerts : List (Alert A))
      → any_fires table alerts ≡ false
      → map (after_round now table) alerts ≡ alerts
  map-after_round_quiet now table [] h = refl
  map-after_round_quiet now table (a ∷ more) h =
      ground (arith, map-after_round_quiet now table more)

  -- Each alert becomes what its own price makes of it, independently of the others: triggered at this
  -- time if its pair has a price that reaches the threshold and it was armed, and unchanged otherwise.
  pub evaluate-alerts :
      (now : ℕ) (table : List (String × A)) (d : Desk A)
      → (evaluate now table d).0.alerts ≡ map (after_round now table) d.alerts
  unfolding evaluate
  evaluate-alerts now table d =
      let quiet = map-after_round_quiet now table d.alerts in
      elim (Bool-cases (any_fires table d.alerts)) [
        | inl some_fire ↦
            rw (evaluate_alerts-changed now table d.fired d.alerts, some_fire)
              (evaluate_alerts-next now table d.fired d.alerts)
        | inr none_fire ↦
            rw (evaluate_alerts-changed now table d.fired d.alerts, none_fire)
              (sym (quiet none_fire))
      ]

  fires-after_round :
      (now : ℕ) (table : List (String × A)) (a : Alert A)
      → fires table (after_round now table a) ≡ false
  unfolding fires
  fires-after_round now table a = ground arith

  any_fires-after_round :
      (now : ℕ) (table : List (String × A)) (alerts : List (Alert A))
      → any_fires table (map (after_round now table) alerts) ≡ false
  any_fires-after_round now table [] = refl
  any_fires-after_round now table (a ∷ more) =
      rw (fires-after_round now table a) (any_fires-after_round now table more)

  evaluate_alerts-quiet :
      (now : ℕ) (table : List (String × A)) (fired : List String) (alerts : List (Alert A))
      → any_fires table alerts ≡ false
      → ((evaluate_alerts now table fired alerts).notes ≡ [])
        × ((evaluate_alerts now table fired alerts).fired ≡ fired)
  unfolding evaluate_alerts
  evaluate_alerts-quiet now table fired [] h = (refl, refl)
  evaluate_alerts-quiet now table fired (a ∷ more) h =
      ground (arith, evaluate_alerts-quiet now table fired more)

  evaluate_quiet :
      (now : ℕ) (table : List (String × A)) (d : Desk A)
      → any_fires table d.alerts ≡ false
      → evaluate now table d ≡ (d, [])
  unfolding evaluate
  evaluate_quiet now table d h =
      let still = evaluate_alerts-quiet now table d.fired d.alerts h in
      rw (evaluate_alerts-changed now table d.fired d.alerts, h, still.0, still.1)

  -- A second evaluation with the same prices, at any later time, changes nothing and notifies nobody:
  -- an alert fires once, however long its price stays beyond the threshold.
  pub evaluate_once :
      (now later : ℕ) (table : List (String × A)) (d : Desk A)
      → evaluate later table (evaluate now table d).0 ≡ ((evaluate now table d).0, [])
  evaluate_once now later table d =
      evaluate_quiet later table (evaluate now table d).0
        (rw (evaluate-alerts now table d) (any_fires-after_round now table d.alerts))
