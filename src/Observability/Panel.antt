-- ===== src/Observability/Panel.antt =====
-- frontend/src/presentation/components/ObservabilityPanel.tsx: the vitals of the service, the figures of
-- Prometheus, and the two loads that run at each refresh.
pub mod Sections
pub mod Tests
use crypto_dashboard.Prelude.{
  ℕ, ◌/◌, ◌%◌, ◌==◌, leb, str_eq, String, ◌&&◌, not, Bool, true, false, Option, none, some, List,
  [], ◌∷◌, if◌then◌else◌,
}
use crypto_dashboard.Prelude.Maps.{insert, lookup}
use crypto_dashboard.Texts.{◌<>◌}
use crypto_dashboard.Numbers.{Num, lt_of}
use crypto_dashboard.Observability.{Sample, Labels, Target, FiringAlert, Outcome, value, pick}

-- `RATE_QUERIES`: the labels with the expressions.
unfoldable pub rate_queries : List (String × String)
rate_queries =
    ("Poll cycles / min", "sum(rate(cw_polls_total[5m])) * 60")
    ∷ ("Poll errors / min", "sum(rate(cw_polls_total{result=\"error\"}[5m])) * 60")
    ∷ ("Prices written / min", "sum(rate(cw_prices_written_total[5m])) * 60")
    ∷ ("HTTP req / min", "sum(rate(cw_http_requests_total[5m])) * 60")
    ∷ []

pub record Vitals {ℓ} (A : Type ℓ) : Type ℓ where
  pub uptime : Option A
  pub coins : Option A
  pub polls_ok : Option A
  pub polls_err : Option A
  pub written : Option A
  pub last_poll : Option A
  pub http : Option A
  pub discovery_err : Option A

-- The first section of the page, and what Prometheus gives.
pub record Service {ℓ} (A : Type ℓ) : Type ℓ where
  pub vitals : Option (Vitals A)
  pub metrics_error : Option String
  pub healthy : Option Bool

pub record Monitoring {ℓ} (A : Type ℓ) : Type ℓ where
  pub targets : List Target
  pub alerts : List FiringAlert
  pub rates : List (String × A)
  pub prom_error : Option String

pub record Ops {ℓ} (A : Type ℓ) : Type ℓ where
  pub service : Service A
  pub monitoring : Monitoring A
  pub show_grafana : Bool

-- What a fetch comes to; `aborted` is the rejection by the signal, when the page is left.
pub data Fetch (B : Type 0) : Type 0 where
  response : ℕ → B → Fetch B
  unreachable aborted : Fetch B

abbrev pub is_ok : ℕ → Bool
is_ok status = leb 200 status && leb status 299

abbrev pub metrics_message : String
metrics_message = "Can't reach the backend's /metrics endpoint."

abbrev pub prom_message : String
prom_message =
    "Prometheus isn't answering. Start the stack with `docker compose up -d prometheus grafana alertmanager`."

-- `rs[i]?.[0]?.value?.[1]`, as a text, of the answer to a query.
abbrev pub first_value : List String → Option String
first_value [] = none
first_value (v ∷ vs) = some v

abbrev pub cons_all : {B : Type 0} → B → Option (List B) → Option (List B)
cons_all b none = none
cons_all b (some bs) = some (b ∷ bs)

-- `Promise.all` of the queries.
unfoldable pub all_values : {B : Type 0} → List (Outcome B) → Option (List B)
all_values [] = some []
all_values (value b ∷ rest) = cons_all b (all_values rest)
all_values (other ∷ rest) = none

abbrev pub value_of : {B : Type 0} → Outcome B → Option B
value_of (value b) = some b
value_of other = none

module _ {ℓ} {A : Type ℓ} where
  abbrev pub mount : Ops A
  mount = record {
    service = record { vitals = none; metrics_error = none; healthy = none };
    monitoring = record { targets = []; alerts = []; rates = []; prom_error = none };
    show_grafana = true;
  }

  unfoldable pub vitals_of : List (Sample A) → Vitals A
  unfolding pick
  vitals_of samples = record {
    uptime = pick samples "cw_uptime_seconds" [];
    coins = pick samples "cw_tracked_coins" [];
    polls_ok = pick samples "cw_polls_total" (("result", "ok") ∷ []);
    polls_err = pick samples "cw_polls_total" (("result", "error") ∷ []);
    written = pick samples "cw_prices_written_total" [];
    last_poll = pick samples "cw_last_poll_duration_seconds" [];
    http = pick samples "cw_http_requests_total" [];
    discovery_err = pick samples "cw_discovery_total" (("result", "error") ∷ []);
  }

  -- The request for /health, whose failure is caught whatever it is.
  unfoldable pub check_health : Fetch (Unit {0}) → Service A → Service A
  check_health (response status body) s = record s { healthy = some (is_ok status) }
  check_health unreachable s = record s { healthy = some false }
  check_health aborted s = record s { healthy = some false }

  -- `loadMetrics`: an abort of the first request ends it; `parse` is parseExposition.
  unfoldable pub load_metrics :
      (String → List (Sample A)) → Fetch String → Fetch (Unit {0}) → Service A → Service A
  unfolding vitals_of check_health
  load_metrics parse (response status text) health s = check_health health (
      if is_ok status
      then record s { vitals = some (vitals_of (parse text)); metrics_error = none }
      else record s { metrics_error = some metrics_message })
  load_metrics parse unreachable health s =
      check_health health (record s { metrics_error = some metrics_message })
  load_metrics parse aborted health s = s

  abbrev pub put_rate :
      (String → A) → String → Option String → List (String × A) → List (String × A)
  put_rate number label none rates = rates
  put_rate number label (some v) rates = insert label (number v) rates

  -- The loop over the queries and their answers.
  unfoldable pub rates_from :
      (String → A)
      → List (String × String)
      → List (List String)
      → List (String × A)
      → List (String × A)
  unfolding insert
  rates_from number [] answers rates = rates
  rates_from number (q ∷ queries) [] rates = rates
  rates_from number ((label, expr) ∷ queries) (answer ∷ answers) rates =
      rates_from number queries answers (put_rate number label (first_value answer) rates)

  -- What all of them came to; the flag says that the first rejection was the abort.
  abbrev pub show_all :
      (String → A)
      → Bool
      → Option (List Target)
      → Option (List FiringAlert)
      → Option (List (List String))
      → Monitoring A
      → Monitoring A
  show_all number aborted_first (some ts) (some xs) (some rs) m = record {
    targets = ts;
    alerts = xs;
    rates = rates_from number rate_queries rs [];
    prom_error = none;
  }
  show_all number aborted_first ts xs rs m =
      if aborted_first then m else record m { prom_error = some prom_message }

  -- `loadProm`: one failure fails all of it, and the figures stay.
  unfoldable pub load_prom :
      (String → A)
      → Bool
      → Outcome (List Target)
      → Outcome (List FiringAlert)
      → List (Outcome (List String))
      → Monitoring A
      → Monitoring A
  unfolding all_values rates_from rate_queries
  load_prom number aborted_first targets alerts rates m =
      show_all number aborted_first (value_of targets) (value_of alerts) (all_values rates) m

  unfoldable pub toggle_grafana : Ops A → Ops A
  toggle_grafana o = record o { show_grafana = not o.show_grafana }

-- The figures of a duration in seconds: two units, the largest that is not zero first. `text` writes a number.
unfoldable pub duration : (ℕ → String) → ℕ → String
duration text seconds =
    let d = seconds / 86400 in
    let h = seconds % 86400 / 3600 in
    let m = seconds % 3600 / 60 in
    if not (d == 0)
    then text d <> "d " <> text h <> "h"
    else if not (h == 0)
    then text h <> "h " <> text m <> "m"
    else text m <> "m " <> text (seconds % 60) <> "s"

-- What the page says of its sections.
abbrev pub health_text : Option Bool → String
health_text none = "checking…"
health_text (some healthy) = if healthy then "health ok" else "health failing"

abbrev pub alerts_text : Option String → String
alerts_text none = "Nothing pending or firing. System nominal."
alerts_text (some error) = "Unavailable while Prometheus is down."
