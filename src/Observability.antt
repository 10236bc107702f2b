-- ===== src/Observability.antt =====
-- frontend/src/presentation/components/terminal/prometheus.ts: the choice of a sample, and the three
-- requests to Prometheus over what `fetch` gives. An object with text fields is a table of texts.
pub mod Choice
pub mod Exposition
pub mod Panel
pub mod Tests
use crypto_dashboard.Prelude.{
  ℕ, String, str_eq, ◌&&◌, leb, Bool, true, false, Option, none, some, List, [], ◌∷◌, map,
  if◌then◌else◌,
}
use crypto_dashboard.Prelude.Maps.{lookup}

abbrev pub Labels : Type 0
Labels = List (String × String)

pub record Sample {ℓ} (A : Type ℓ) : Type ℓ where
  pub name : String
  pub labels : Labels
  pub value : A

-- `s.labels[k] === v`
abbrev pub is_text : Option String → String → Bool
is_text none v = false
is_text (some w) v = str_eq w v

-- `Object.entries(labels).every(([k, v]) => s.labels[k] === v)`
unfoldable pub has_labels : Labels → Labels → Bool
has_labels labels [] = true
has_labels labels ((k, v) ∷ wanted) = is_text (lookup k labels) v && has_labels labels wanted

module _ {ℓ} {A : Type ℓ} where
  unfoldable pub matches : String → Labels → Sample A → Bool
  unfolding has_labels
  matches name labels s = str_eq s.name name && has_labels s.labels labels

  unfoldable pub pick : List (Sample A) → String → Labels → Option A
  unfolding matches
  pick [] name labels = none
  pick (s ∷ samples) name labels =
      if matches name labels s then some s.value else pick samples name labels

-- `field ?? other`
abbrev pub text_or : Option String → String → String
text_or none other = other
text_or (some t) other = t

-- What a request comes to: it fails, or a status and a body come, `none` where the body is not JSON of the
-- shape that the code reads.
pub data Reply {ℓ} (D : Type ℓ) : Type ℓ where
  unreachable : Reply D
  response : ℕ → Option D → Reply D

-- How a call ends; `failed` is Prometheus's own error.
pub data Outcome {ℓ} (B : Type ℓ) : Type ℓ where
  value : B → Outcome B
  status_error : String → ℕ → Outcome B
  failed fetch_error json_error : Outcome B

abbrev pub is_ok : ℕ → Bool
is_ok status = leb 200 status && leb status 299

module _ {ℓ κ} {D : Type ℓ} {B : Type κ} where
  abbrev pub read_body : (D → Outcome B) → Option D → Outcome B
  read_body read none = json_error
  read_body read (some d) = read d

  unfoldable pub receive : String → (D → Outcome B) → Reply D → Outcome B
  receive name read unreachable = fetch_error
  receive name read (response status body) =
      if is_ok status then read_body read body else status_error name status

-- The body of a query: its status and its result.
module _ {ℓ} {R : Type ℓ} where
  abbrev pub query_result : String × R → Outcome R
  query_result (status, result) = if str_eq status "success" then value result else failed

  unfoldable pub prom_query : Reply (String × R) → Outcome R
  unfolding receive
  prom_query reply = receive "query" query_result reply

pub record TargetDto : Type 0 where
  pub labels : Labels
  pub health : String
  pub last_error : String
  pub last_scrape : String

pub record Target : Type 0 where
  pub job : String
  pub instance_ : String
  pub health : String
  pub last_error : String
  pub last_scrape : String

unfoldable pub to_target : TargetDto → Target
unfolding lookup
to_target t = record {
  job = text_or (lookup "job" t.labels) "—";
  instance_ = text_or (lookup "instance" t.labels) "—";
  health = t.health;
  last_error = t.last_error;
  last_scrape = t.last_scrape;
}

unfoldable pub prom_targets : Reply (List TargetDto) → Outcome (List Target)
unfolding receive to_target
prom_targets reply = receive "targets" (λ ts. value (map to_target ts)) reply

pub record AlertDto : Type 0 where
  pub labels : Labels
  pub annotations : Labels
  pub state : String
  pub active_at : String

pub record FiringAlert : Type 0 where
  pub name : String
  pub state : String
  pub severity : String
  pub summary : String
  pub active_at : String

unfoldable pub to_alert : AlertDto → FiringAlert
unfolding lookup
to_alert a = record {
  name = text_or (lookup "alertname" a.labels) "—";
  state = a.state;
  severity = text_or (lookup "severity" a.labels) "—";
  summary =
      text_or (lookup "summary" a.annotations) (text_or (lookup "description" a.annotations) "");
  active_at = a.active_at;
}

unfoldable pub prom_alerts : Reply (List AlertDto) → Outcome (List FiringAlert)
unfolding receive to_alert
prom_alerts reply = receive "alerts" (λ xs. value (map to_alert xs)) reply
