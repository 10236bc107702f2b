-- ===== src/Config.antt =====
-- frontend/src/infrastructure/config.ts: the addresses of the program's services, each with the variable of the
-- build that replaces it. `build` is `import.meta.env`.
pub mod Tests
use crypto_dashboard.Prelude.{String, str_eq, Option, none, some, List, [], ◌∷◌, if◌then◌else◌}
use crypto_dashboard.Prelude.Maps.{lookup}
use crypto_dashboard.Texts.{◌<>◌}

abbrev pub Build : Type 0
Build = List (String × String)

-- `v && v.length > 0 ? v : fallback`
abbrev pub value_or : Option String → String → String
value_or none fallback = fallback
value_or (some v) fallback = if str_eq v "" then fallback else v

unfoldable pub env : Build → String → String → String
unfolding lookup
env build key fallback = value_or (lookup key build) fallback

unfoldable pub api_base_url : Build → String
unfolding env
api_base_url build = env build "PUBLIC_API_BASE_URL" "http://127.0.0.1:8080"

unfoldable pub ws_url : Build → String
unfolding env
ws_url build = env build "PUBLIC_WS_URL" "ws://127.0.0.1:8080/api/ws"

unfoldable pub binance_ws_url : Build → String
unfolding env
binance_ws_url build = env build "PUBLIC_BINANCE_WS_URL" "wss://stream.binance.com:9443"

unfoldable pub metrics_url : Build → String
unfolding api_base_url
metrics_url build = api_base_url build <> "/metrics"

unfoldable pub health_url : Build → String
unfolding api_base_url
health_url build = api_base_url build <> "/api/health"

unfoldable pub grafana_url : Build → String
unfolding env
grafana_url build = env build "PUBLIC_GRAFANA_URL" "http://localhost:3000"

unfoldable pub prometheus_url : Build → String
unfolding env
prometheus_url build = env build "PUBLIC_PROMETHEUS_URL" "http://localhost:9090"

unfoldable pub alertmanager_url : Build → String
unfolding env
alertmanager_url build = env build "PUBLIC_ALERTMANAGER_URL" "http://localhost:9093"

unfoldable pub grafana_dashboard_uid : Build → String
unfolding env
grafana_dashboard_uid build = env build "PUBLIC_GRAFANA_DASHBOARD_UID" "crypto-watch"
