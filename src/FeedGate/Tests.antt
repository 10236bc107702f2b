-- ===== src/FeedGate/Tests.antt =====
-- Runs of the switch, and the theorems at a concrete gate.
use crypto_dashboard.Prelude.{◌≡◌, true, false, not, ◌&&◌, ◌||◌, ◌==◌, [], ◌∷◌, refl}
use crypto_dashboard.FeedGate.{
  Gate, set_feed_paused, on_feed_pause_change, stop_listening, contains,
}
use crypto_dashboard.FeedGate.Laws.{IsDistinct, calls_of, listeners_lem, set_feed_paused_lem}

abbrev live : Gate
live = record { paused = false; listeners = 4 ∷ 7 ∷ [] }

held :
    set_feed_paused live true
    ≡ (record { paused = true; listeners = 4 ∷ 7 ∷ [] }, (4, true) ∷ (7, true) ∷ [])
unfolding set_feed_paused
held = refl

again : set_feed_paused live false ≡ (live, [])
unfolding set_feed_paused
again = refl

live-IsDistinct : IsDistinct live.listeners
unfolding contains
live-IsDistinct = (refl, (refl, tt))

listeners_lem_run :
    IsDistinct (on_feed_pause_change live 9).listeners
    × IsDistinct (stop_listening live 9).listeners
    × (contains 7 (on_feed_pause_change live 9).listeners ≡ (9 == 7 || contains 7 live.listeners))
    × (contains 7 (stop_listening live 9).listeners ≡ (not (9 == 7) && contains 7 live.listeners))
listeners_lem_run = listeners_lem live 9 7 live-IsDistinct

set_feed_paused_lem_run :
    let (g', calls) = set_feed_paused live true in
    (g'.paused ≡ true) × (g'.listeners ≡ live.listeners) × (calls_of 7 true calls ≡ 1)
unfolding contains
set_feed_paused_lem_run = set_feed_paused_lem live true 7 true live-IsDistinct
