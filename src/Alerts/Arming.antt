-- ===== src/Alerts/Arming.antt =====
-- Who is notified in a state where the set of fired ids silences no armed alert.
use mathlib.Core.Path.{subst}
use crypto_dashboard.Alerts.Rounds.{evaluate-alerts, evaluate_alerts-next}
use crypto_dashboard.Prelude.{
  sym, ◌∙◌, ◌||◌, eq_iff, str_eq, arith, ◌&&◌, ◌≡◌, if◌then◌else◌, Bool, All, List, ℕ, String, [],
  ◌∷◌, true, false, refl,
}
use crypto_dashboard.Prelude.Sets.{has, add, has-add}
use crypto_dashboard.Numbers.{Num}
use crypto_dashboard.Alerts.{
  Alert, Desk, fires, is_armed, trigger, evaluate_alerts, evaluate, fired_after,
}

module _ {ℓ} {A : Type ℓ} where
  abbrev pub has_id : String → List (Alert A) → Bool
  has_id id [] = false
  has_id id (a ∷ more) = str_eq a.id id || has_id id more

  -- The ids of the alerts are all different.
  abbrev pub HasUniqueIds : List (Alert A) → Type 0
  HasUniqueIds [] = Unit
  HasUniqueIds (a ∷ more) = (has_id a.id more ≡ false) × HasUniqueIds more

  -- No armed alert is in the set of fired ids.
  abbrev pub AreFresh : List String → List (Alert A) → Type 0
  AreFresh fired = All (λ a. is_armed a.triggered_at && has a.id fired ≡ false)

  pub record IsSound (d : Desk A) : Type 0 where
    pub unique : HasUniqueIds d.alerts
    pub fresh : AreFresh d.fired d.alerts

module _ {ℓ} {A : Type ℓ} ⦃n : Num A⦄ where
  -- The ids of the alerts that fire, in the order of the list.
  abbrev pub firing : List (String × A) → List (Alert A) → List String
  firing table [] = []
  firing table (a ∷ more) = if fires table a then a.id ∷ firing table more else firing table more

  -- Firing one alert leaves the others as fresh as they were.
  AreFresh-fired_after :
      (table : List (String × A)) (a : Alert A) (fired : List String) (more : List (Alert A))
      → has_id a.id more ≡ false
      → AreFresh fired more
      → AreFresh (fired_after table a fired) more
  AreFresh-fired_after table a fired [] h f = tt
  AreFresh-fired_after table a fired (b ∷ more) h f = ground (
    arith,
    eq_iff a.id b.id,
    eq_iff b.id a.id,
    has-add b.id a.id fired,
    AreFresh-fired_after table a fired more,
  )

  fires-armed :
      (table : List (String × A)) (a : Alert A)
      → fires table a ≡ true
      → is_armed a.triggered_at ≡ true
  unfolding fires
  fires-armed table a h = ground arith

  evaluate_alerts-notes :
      (now : ℕ) (table : List (String × A)) (fired : List String) (alerts : List (Alert A))
      → HasUniqueIds alerts
      → AreFresh fired alerts
      → (evaluate_alerts now table fired alerts).notes ≡ firing table alerts
  unfolding evaluate_alerts
  evaluate_alerts-notes now table fired [] u f = refl
  evaluate_alerts-notes now table fired (a ∷ more) u f =
      let later =
        evaluate_alerts-notes now table (fired_after table a fired) more u.1
          (AreFresh-fired_after table a fired more u.0 f.1) in
      ground (arith, later, fires-armed table a, f.0)

  -- A round adds no id but those of its alerts.
  has-evaluate_alerts :
      (id : String) (now : ℕ) (table : List (String × A)) (fired : List String)
      (alerts : List (Alert A))
      → has_id id alerts ≡ false
      → has id (evaluate_alerts now table fired alerts).fired ≡ has id fired
  unfolding evaluate_alerts
  has-evaluate_alerts id now table fired [] h = refl
  has-evaluate_alerts id now table fired (a ∷ more) h =
      let later = has-evaluate_alerts id now table (fired_after table a fired) more in
      ground (arith, later (ground arith), has-add id a.id fired)

  has_id-next :
      (id : String) (now : ℕ) (table : List (String × A)) (fired : List String)
      (alerts : List (Alert A))
      → has_id id (evaluate_alerts now table fired alerts).next ≡ has_id id alerts
  unfolding evaluate_alerts
  has_id-next id now table fired [] = refl
  has_id-next id now table fired (a ∷ more) =
      ground (arith, has_id-next id now table (fired_after table a fired) more)

  evaluate_alerts_unique :
      (now : ℕ) (table : List (String × A)) (fired : List String) (alerts : List (Alert A))
      → HasUniqueIds alerts
      → HasUniqueIds (evaluate_alerts now table fired alerts).next
  unfolding evaluate_alerts
  evaluate_alerts_unique now table fired [] u = tt
  evaluate_alerts_unique now table fired (a ∷ more) u =
      let later = evaluate_alerts_unique now table (fired_after table a fired) more u.1 in
      let same = has_id-next a.id now table (fired_after table a fired) more in
      ground (arith, later, same, u.0)

  -- The head of the list, once the rest has added no copy of its id.
  head_fresh :
      (hit : Bool) (now : ℕ) (a : Alert A) (fired later : List String)
      → is_armed a.triggered_at && has a.id fired ≡ false
      → has a.id later ≡ has a.id (if hit then add a.id fired else fired)
      → let b = if hit then trigger now a else a in
        is_armed b.triggered_at && has b.id later ≡ false
  head_fresh true now a fired later f same = refl
  head_fresh false now a fired later f same = rw same f

  evaluate_alerts-fresh :
      (now : ℕ) (table : List (String × A)) (fired : List String) (alerts : List (Alert A))
      → HasUniqueIds alerts
      → AreFresh fired alerts
      → let round = evaluate_alerts now table fired alerts in AreFresh round.fired round.next
  unfolding evaluate_alerts
  evaluate_alerts-fresh now table fired [] u f = tt
  evaluate_alerts-fresh now table fired (a ∷ more) u f =
      let later =
        evaluate_alerts-fresh now table (fired_after table a fired) more u.1
          (AreFresh-fired_after table a fired more u.0 f.1) in
      let same = has-evaluate_alerts a.id now table (fired_after table a fired) more u.0 in
      (head_fresh (fires table a) now a fired _ f.0 same, later)

  -- If the ids are unique and no armed alert is among the fired ids, an evaluation notifies exactly
  -- the alerts that fire in it, each once and in the order of the list, and keeps both conditions.
  pub evaluate_notes :
      (now : ℕ) (table : List (String × A)) (d : Desk A)
      → IsSound d
      → ((evaluate now table d).1 ≡ firing table d.alerts) × IsSound (evaluate now table d).0
  unfolding evaluate
  evaluate_notes now table d s =
      let round = evaluate_alerts now table d.fired d.alerts in
      let same : (evaluate now table d).0.alerts ≡ round.next =
        evaluate-alerts now table d ∙ sym (evaluate_alerts-next now table d.fired d.alerts) in
      (
        evaluate_alerts-notes now table d.fired d.alerts s.unique s.fresh,
        record {
          unique =
              subst HasUniqueIds (sym same)
                (evaluate_alerts_unique now table d.fired d.alerts s.unique);
          fresh =
              subst (AreFresh round.fired) (sym same)
                (evaluate_alerts-fresh now table d.fired d.alerts s.unique s.fresh);
        },
      )
