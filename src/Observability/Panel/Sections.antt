-- ===== src/Observability/Panel/Sections.antt =====
-- The sections of the page fail independently of one another.
use crypto_dashboard.Prelude.{
  inr, inl, Bool-cases, ◌≡◌, refl, String, Bool, Option, none, some, List, [], ◌∷◌, if◌then◌else◌,
}
use crypto_dashboard.Observability.{Sample, Target, FiringAlert, Outcome}
use crypto_dashboard.Observability.Panel.{
  Service, Monitoring, Ops, Fetch, response, unreachable, aborted, is_ok, metrics_message, Vitals,
  vitals_of, check_health, load_metrics, load_prom, toggle_grafana,
}

-- What happens to the page: an end of either load, in whatever order they come, or a click.
pub data Event : Type 0 where
  metrics : Fetch String → Fetch (Unit {0}) → Event
  prom :
      Bool
      → Outcome (List Target)
      → Outcome (List FiringAlert)
      → List (Outcome (List String))
      → Event
  toggle : Event

module _ {ℓ} {A : Type ℓ} (parse : String → List (Sample A)) (number : String → A) where
  abbrev pub step : Event → Ops A → Ops A
  step (metrics m h) o = record o { service = load_metrics parse m h o.service }
  step (prom first ts xs rs) o = record o {
    monitoring = load_prom number first ts xs rs o.monitoring;
  }
  step toggle o = toggle_grafana o

  abbrev pub run : List Event → Ops A → Ops A
  run [] o = o
  run (e ∷ events) o = run events (step e o)

  -- The loads of one section alone.
  abbrev pub run_service : List Event → Service A → Service A
  run_service [] s = s
  run_service (metrics m h ∷ events) s = run_service events (load_metrics parse m h s)
  run_service (prom first ts xs rs ∷ events) s = run_service events s
  run_service (toggle ∷ events) s = run_service events s

  abbrev pub run_monitoring : List Event → Monitoring A → Monitoring A
  run_monitoring [] m = m
  run_monitoring (metrics a h ∷ events) m = run_monitoring events m
  run_monitoring (prom first ts xs rs ∷ events) m =
      run_monitoring events (load_prom number first ts xs rs m)
  run_monitoring (toggle ∷ events) m = run_monitoring events m

  -- The error that a load leaves in its section, if it is not aborted: an answer outside the 200s counts
  -- as a failure.
  abbrev pub metrics_error_of : Fetch String → Option String → Option String
  metrics_error_of (response status text) error =
      if is_ok status then none else some metrics_message
  metrics_error_of unreachable error = some metrics_message
  metrics_error_of aborted error = error

  abbrev pub vitals_after : Fetch String → Option (Vitals A) → Option (Vitals A)
  vitals_after (response status text) vitals =
      if is_ok status then some (vitals_of (parse text)) else vitals
  vitals_after other vitals = vitals

  health_keeps :
      (h : Fetch (Unit {0})) (s : Service A)
      → ((check_health h s).vitals ≡ s.vitals)
        × ((check_health h s).metrics_error ≡ s.metrics_error)
  unfolding check_health
  health_keeps (response status body) s = (refl, refl)
  health_keeps unreachable s = (refl, refl)
  health_keeps aborted s = (refl, refl)

  -- A load of the vitals, however its two requests end: after an answer in the 200s the vitals are the new
  -- ones and no error is there; after a failure or another status the old vitals stay and the
  -- error is there; after an abort both are as they were. The check of the health changes neither.
  pub load_metrics_keeps :
      (m : Fetch String) (h : Fetch (Unit {0})) (s : Service A)
      → ((load_metrics parse m h s).vitals ≡ vitals_after m s.vitals)
        × ((load_metrics parse m h s).metrics_error ≡ metrics_error_of m s.metrics_error)
  unfolding load_metrics
  load_metrics_keeps (response status text) h s = elim (Bool-cases (is_ok status)) [
    | inl ok ↦ rw ok (health_keeps h _)
    | inr refused ↦ rw refused (health_keeps h _)
  ]
  load_metrics_keeps unreachable h s = health_keeps h _
  load_metrics_keeps aborted h s = (refl, refl)

  -- The sections fail independently: after any loads and clicks, in any order, the vitals of the service are
  -- what its own loads alone make of them, and so are the figures of Prometheus, whatever the other's
  -- loads came to.
  pub run-sections :
      (events : List Event) (o : Ops A)
      → ((run events o).service ≡ run_service events o.service)
        × ((run events o).monitoring ≡ run_monitoring events o.monitoring)
  unfolding toggle_grafana
  run-sections [] o = (refl, refl)
  run-sections (metrics m h ∷ events) o = run-sections events (step (metrics m h) o)
  run-sections (prom first ts xs rs ∷ events) o = run-sections events (step (prom first ts xs rs) o)
  run-sections (toggle ∷ events) o = run-sections events (step toggle o)
