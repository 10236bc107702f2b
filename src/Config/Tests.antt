-- ===== src/Config/Tests.antt =====
-- A build that moves the API and leaves a variable empty.
use crypto_dashboard.Prelude.{◌≡◌, refl, [], ◌∷◌}
use crypto_dashboard.Prelude.Maps.{lookup}
use crypto_dashboard.Config.{
  Build, env, api_base_url, ws_url, binance_ws_url, metrics_url, health_url, grafana_url,
  prometheus_url, alertmanager_url, grafana_dashboard_uid,
}

abbrev build : Build
build = ("PUBLIC_API_BASE_URL", "https://a") ∷ ("PUBLIC_WS_URL", "") ∷ []

addresses :
    (metrics_url build ≡ "https://a/metrics")
    × (health_url build ≡ "https://a/api/health")
    × (ws_url build ≡ "ws://127.0.0.1:8080/api/ws")
    × (binance_ws_url build ≡ "wss://stream.binance.com:9443")
    × (grafana_url build ≡ "http://localhost:3000")
    × (prometheus_url build ≡ "http://localhost:9090")
    × (alertmanager_url build ≡ "http://localhost:9093")
    × (grafana_dashboard_uid build ≡ "crypto-watch")
unfolding env lookup api_base_url ws_url binance_ws_url metrics_url health_url grafana_url
    prometheus_url alertmanager_url grafana_dashboard_uid
addresses = (refl, refl, refl, refl, refl, refl, refl, refl)
