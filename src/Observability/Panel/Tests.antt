-- ===== src/Observability/Panel/Tests.antt =====
-- Prometheus is down while the service answers, and back with one more click.
use crypto_dashboard.Prelude.{◌≡◌, refl, ℕ, String, none, some, List, [], ◌∷◌, false}
use crypto_dashboard.Observability.{Sample, value, fetch_error}
use crypto_dashboard.Observability.Panel.{
  mount, response, unreachable, load_metrics, duration, metrics_message, Service,
}
use crypto_dashboard.Observability.Panel.Sections.{
  Event, metrics, prom, toggle, run, run_service, run_monitoring, run-sections, load_metrics_keeps,
}

abbrev parse : String → List (Sample ℕ)
parse text = record { name = "cw_tracked_coins"; labels = []; value = 20 } ∷ []

abbrev number : String → ℕ
number s = 3

abbrev events : List Event
events =
    metrics (response 200 "text") unreachable
    ∷ prom false fetch_error (value []) []
    ∷ toggle
    ∷ prom false (value []) (value []) (value ("3" ∷ []) ∷ [])
    ∷ []

run-sections_run :
    ((run parse number events mount).service
      ≡ run_service parse number events (mount {A = ℕ}).service)
    × ((run parse number events mount).monitoring
        ≡ run_monitoring parse number events mount.monitoring)
run-sections_run = run-sections parse number events mount

abbrev service : Service ℕ
service = record { vitals = none; metrics_error = none; healthy = none }

load_metrics_keeps_run :
    ((load_metrics parse (response 503 "") unreachable service).vitals ≡ none)
    × ((load_metrics parse (response 503 "") unreachable service).metrics_error
        ≡ some metrics_message)
load_metrics_keeps_run = load_metrics_keeps parse number (response 503 "") unreachable service

written : duration (λ k. "n") 90000 ≡ "nd nh"
unfolding duration
written = refl
