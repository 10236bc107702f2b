-- ===== src/Alerts/Tests.antt =====
-- Runs of the alerts, and the theorems at concrete desks.
use crypto_dashboard.Prelude.{◌≡◌, String, List, [], ◌∷◌, none, refl}
use crypto_dashboard.Prelude.Maps.{lookup}
use crypto_dashboard.Prelude.Sets.{has, add, delete}
use crypto_dashboard.Prelude.Int.{ℤ, pos}
use crypto_dashboard.Numbers.Integers.{int_num}
use crypto_dashboard.Alerts.{
  above, below, Alert, Desk, fires, evaluate, evaluate_alerts, remove, without, rearm, armed,
}
use crypto_dashboard.Alerts.Rounds.{evaluate-alerts, evaluate_once, after_round}
use crypto_dashboard.Alerts.Arming.{IsSound, firing}
use crypto_dashboard.Alerts.Desks

abbrev high : Alert ℤ
high = record {
  id = "a";
  coin = "BTC";
  currency = "USD";
  direction = above;
  threshold = pos 100;
  triggered_at = none;
}

abbrev low : Alert ℤ
low = record {
  id = "b";
  coin = "ETH";
  currency = "EUR";
  direction = below;
  threshold = pos 7;
  triggered_at = none;
}

abbrev two : Desk ℤ
two = record { alerts = high ∷ low ∷ []; fired = [] }

abbrev prices : List (String × ℤ)
prices = ("BTC:USD", pos 120) ∷ ("ETH:EUR", pos 9) ∷ []

two_notes : (evaluate 50 prices two).1 ≡ "a" ∷ []
unfolding evaluate evaluate_alerts fires lookup has add
two_notes = refl

-- A re-armed alert fires again.
rearm_notes : (evaluate 60 prices (rearm "a" (evaluate 50 prices two).0)).1 ≡ "a" ∷ []
unfolding evaluate evaluate_alerts fires lookup has add rearm armed delete
rearm_notes = refl

remove_notes : (evaluate 50 prices (remove "a" two)).1 ≡ []
unfolding evaluate evaluate_alerts fires lookup has add remove without delete
remove_notes = refl

evaluate-alerts_run :
    (evaluate 50 prices two).0.alerts ≡ after_round 50 prices high ∷ after_round 50 prices low ∷ []
evaluate-alerts_run = evaluate-alerts 50 prices two

evaluate_once_example :
    evaluate 60 prices (evaluate 50 prices two).0 ≡ ((evaluate 50 prices two).0, [])
evaluate_once_example = evaluate_once 50 60 prices two

-- The stored alerts, one evaluation, and the first alert re-armed.
abbrev again : Desk ℤ
again = rearm "a" (evaluate 50 prices two).0

again-Run : Desks.Run again
unfolding has
again-Run =
    Desks.rearms "a" (Desks.evaluates 50 prices (Desks.start (high ∷ low ∷ []) (refl, (refl, tt))))

desk_notes_example : IsSound again × ((evaluate 60 prices again).1 ≡ firing prices again.alerts)
desk_notes_example = Desks.desk_notes 60 prices again-Run
