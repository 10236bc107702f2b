-- ===== src/Observability/Tests.antt =====
-- A few samples and alerts, and the theorem at them.
use crypto_dashboard.Prelude.{◌≡◌, refl, ℕ, none, some, [], ◌∷◌}
use crypto_dashboard.Prelude.Maps.{lookup}
use crypto_dashboard.Observability.{
  Sample, pick, matches, has_labels, response, receive, failed, prom_query,
}
use crypto_dashboard.Observability.Choice.{pick_first}

abbrev get_ : Sample ℕ
get_ = record { name = "http_requests"; labels = ("method", "GET") ∷ []; value = 7 }

abbrev post : Sample ℕ
post = record { name = "http_requests"; labels = ("method", "POST") ∷ []; value = 3 }

refused : prom_query {R = ℕ} (response 200 (some ("error", 4))) ≡ failed
unfolding prom_query receive
refused = refl

pick_first_run :
    (pick (get_ ∷ post ∷ []) "http_requests" (("method", "POST") ∷ []) ≡ some 3)
    × (pick (get_ ∷ []) "http_requests" (("method", "POST") ∷ []) ≡ none)
unfolding matches has_labels lookup
pick_first_run =
    pick_first "http_requests" (("method", "POST") ∷ []) (get_ ∷ []) [] post (refl, tt) refl
