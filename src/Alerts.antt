-- ===== src/Alerts.antt =====
-- frontend/src/presentation/components/PriceAlerts.tsx: the alerts and their evaluation. The state is
-- the persisted list of alerts and the session's set of fired ids; a notification is the alert's id.
pub mod Rounds
pub mod Arming
pub mod Desks
pub mod Tests
use crypto_dashboard.Texts.{◌<>◌}
use crypto_dashboard.Prelude.{
  ◌++◌, not, ◌||◌, str_eq, ◌&&◌, if◌then◌else◌, Option, List, Bool, ℕ, String, [], ◌∷◌, none, some,
  true, false,
}
use crypto_dashboard.Prelude.Maps.{lookup, insert_all}
use crypto_dashboard.Prelude.Sets.{has, add, delete}
use crypto_dashboard.Numbers.{Num}
use crypto_dashboard.Price.{Price}

pub data Direction : Type 0 where
  above below : Direction

pub record Alert {ℓ} (A : Type ℓ) : Type ℓ where
  pub id : String
  pub coin : String
  pub currency : String
  pub direction : Direction
  pub threshold : A
  pub triggered_at : Option ℕ

pub record Desk {ℓ} (A : Type ℓ) : Type ℓ where
  pub alerts : List (Alert A)
  pub fired : List String

-- What one evaluation makes: the new list, the fired ids, and the notifications in order.
pub record Round {ℓ} (A : Type ℓ) : Type ℓ where
  pub next : List (Alert A)
  pub fired : List String
  pub notes : List String
  pub changed : Bool

abbrev pub pair_key : String → String → String
pair_key coin currency = coin <> ":" <> currency

abbrev pub is_armed : Option ℕ → Bool
is_armed none = true
is_armed (some t) = false

abbrev pub is_empty : String → Bool
is_empty s = str_eq s ""

module _ {ℓ} {A : Type ℓ} where
  -- The lookup table of the live prices; `number` is `Number(text)`.
  unfoldable pub price_entries : (String → A) → List (Price A) → List (String × A)
  price_entries number [] = []
  price_entries number (p ∷ ps) =
      (pair_key p.coin p.currency, number p.value) ∷ price_entries number ps

  unfoldable pub price_table : (String → A) → List (Price A) → List (String × A)
  unfolding price_entries
  price_table number prices = insert_all (price_entries number prices) []

module _ {ℓ} {A : Type ℓ} ⦃n : Num A⦄ where
  abbrev pub reaches : Direction → A → A → Bool
  reaches above threshold cur = n.le threshold cur
  reaches below threshold cur = n.le cur threshold

  abbrev pub is_hit : Alert A → Option A → Bool
  is_hit a none = false
  is_hit a (some cur) = reaches a.direction a.threshold cur

  -- The alert's pair has a price that reaches the threshold, and the alert has not triggered yet.
  unfoldable pub fires : List (String × A) → Alert A → Bool
  fires table a = is_hit a (lookup (pair_key a.coin a.currency) table) && is_armed a.triggered_at

  abbrev pub trigger : ℕ → Alert A → Alert A
  trigger now a = record a { triggered_at = some now }

  -- `firedRef.current` after one alert.
  abbrev pub fired_after : List (String × A) → Alert A → List String → List String
  fired_after table a fired = if fires table a then add a.id fired else fired

  -- The loop of the effect, `alerts.map(...)`, with the changes of `firedRef.current`.
  unfoldable pub evaluate_alerts : ℕ → List (String × A) → List String → List (Alert A) → Round A
  unfolding fires
  evaluate_alerts now table fired [] = record {
    next = [];
    fired = fired;
    notes = [];
    changed = false;
  }
  evaluate_alerts now table fired (a ∷ more) =
      let hit = fires table a in
      let known = has a.id fired in
      let rest = evaluate_alerts now table (fired_after table a fired) more in
      record {
        next = (if hit then trigger now a else a) ∷ rest.next;
        fired = rest.fired;
        notes = if hit && not known then a.id ∷ rest.notes else rest.notes;
        changed = hit || rest.changed;
      }

  -- The effect on a tick: the new state, and the notifications. `setAlerts` is called on a change only.
  unfoldable pub evaluate : ℕ → List (String × A) → Desk A → Desk A × List String
  unfolding evaluate_alerts
  evaluate now table d =
      let round = evaluate_alerts now table d.fired d.alerts in
      (
        record { alerts = if round.changed then round.next else d.alerts; fired = round.fired },
        round.notes,
      )

  -- `addAlert`, with the fresh id and `Number(threshold)`; a threshold that is NaN fails `is_finite`
  -- or is not positive.
  unfoldable pub add_alert : String → String → String → Direction → A → Desk A → Desk A
  add_alert id coin currency direction t d =
      if is_empty coin || not (n.eq t t) || n.le t (n.of_ℕ 0) then d else record d {
        alerts =
            d.alerts
            ++ record {
              id = id;
              coin = coin;
              currency = currency;
              direction = direction;
              threshold = t;
              triggered_at = none;
            }
              ∷ [];
      }

module _ {ℓ} {A : Type ℓ} where
  unfoldable pub without : String → List (Alert A) → List (Alert A)
  without id [] = []
  without id (a ∷ more) = let rest = without id more in if str_eq a.id id then rest else a ∷ rest

  unfoldable pub remove : String → Desk A → Desk A
  unfolding without
  remove id d = record { alerts = without id d.alerts; fired = delete id d.fired }

  unfoldable pub armed : String → List (Alert A) → List (Alert A)
  armed id [] = []
  armed id (a ∷ more) =
      (if str_eq a.id id then record a { triggered_at = none } else a) ∷ armed id more

  unfoldable pub rearm : String → Desk A → Desk A
  unfolding armed
  rearm id d = record { alerts = armed id d.alerts; fired = delete id d.fired }
