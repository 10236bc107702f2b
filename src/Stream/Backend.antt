-- ===== src/Stream/Backend.antt =====
-- frontend/src/infrastructure/websocket/websocket-price-stream.ts: one subscription as a state
-- machine. The state is what the closure holds, with the timer that the runtime keeps; the handlers
-- return the new state and the batches given to the subscriber.
pub mod Life
use crypto_dashboard.Prelude.{
  ◌∷◌, map, [], some, List, none, Option, ◌+◌, true, if◌then◌else◌, false, Bool, ℕ,
}
use crypto_dashboard.Stream.{Socket, absent, connecting, open_, closing, closed, close, backoff}

pub record Feed : Type 0 where
  pub ws : Socket
  pub stopped : Bool
  pub attempt : ℕ
  pub timer : Option ℕ

-- `new WebSocket(WS_URL)`, unless stopped
unfoldable pub connect : Feed → Feed
connect f = if f.stopped then f else record f { ws = connecting }

unfoldable pub schedule_reconnect : Feed → Feed
schedule_reconnect f =
    if f.stopped
    then f
    else record f { attempt = f.attempt + 1; timer = some (backoff (f.attempt + 1)) }

-- The state after `subscribe`.
unfoldable pub subscribe : Feed
unfolding connect
subscribe = connect (record { ws = absent; stopped = false; attempt = 0; timer = none })

unfoldable pub on_open : Feed → Feed
on_open f = record f { attempt = 0 }

-- A frame is what `JSON.parse` makes of it: `none` if it throws, or gives no array. `read` is `toPrice`.
unfoldable pub on_message {ℓ κ} :
    {D : Type ℓ} {P : Type κ} → (D → P) → Bool → Option (List D) → List (List P)
on_message read paused none = []
on_message read paused (some dtos) = if paused then [] else map read dtos ∷ []

unfoldable pub on_close : Feed → Feed
unfolding schedule_reconnect
on_close f = schedule_reconnect f

unfoldable pub on_error : Feed → Feed
unfolding close
on_error f = record f { ws = close f.ws }

-- The function that `subscribe` returns.
unfoldable pub unsubscribe : Feed → Feed
unfolding close
unsubscribe f = record f { stopped = true; timer = none; ws = close f.ws }
