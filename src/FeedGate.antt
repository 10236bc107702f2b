-- ===== src/FeedGate.antt =====
-- frontend/src/infrastructure/websocket/feed-gate.ts: the hold switch of the live feed. A listener is
-- named by a number, its identity; a call of a listener is a pair of it and the value it is given.
pub mod Laws
pub mod Tests
use crypto_dashboard.Prelude.{
  ◌||◌, map, true, [], ◌==◌, ◌++◌, ◌∷◌, not, if◌then◌else◌, false, List, Bool, ℕ,
}

pub record Gate : Type 0 where
  pub paused : Bool
  pub listeners : List ℕ

abbrev pub same_bool : Bool → Bool → Bool
same_bool true b = b
same_bool false b = not b

unfoldable pub contains : ℕ → List ℕ → Bool
contains l [] = false
contains l (k ∷ ks) = k == l || contains l ks

-- `Set.add` and `Set.delete`
unfoldable pub add_listener : ℕ → List ℕ → List ℕ
unfolding contains
add_listener l ks = if contains l ks then ks else ks ++ l ∷ []

unfoldable pub delete_listener : ℕ → List ℕ → List ℕ
delete_listener l [] = []
delete_listener l (k ∷ ks) = if k == l then ks else k ∷ delete_listener l ks

abbrev pub is_feed_paused : Gate → Bool
is_feed_paused g = g.paused

-- The new state, and the calls of listeners in order.
unfoldable pub set_feed_paused : Gate → Bool → Gate × List (ℕ × Bool)
set_feed_paused g next =
    if same_bool g.paused next
    then (g, [])
    else (record g { paused = next }, map (λ l. (l, next)) g.listeners)

unfoldable pub on_feed_pause_change : Gate → ℕ → Gate
unfolding add_listener
on_feed_pause_change g l = record g { listeners = add_listener l g.listeners }

-- The function that `onFeedPauseChange` returns.
unfoldable pub stop_listening : Gate → ℕ → Gate
unfolding delete_listener
stop_listening g l = record g { listeners = delete_listener l g.listeners }
