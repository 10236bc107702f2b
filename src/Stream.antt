-- ===== src/Stream.antt =====
-- What the adapters of frontend/src/infrastructure/websocket share: the backoff delay, and the life of
-- a socket as the runtime shows it. A reconnect timer is the delay that it was set to.
pub mod Backoff
pub mod Backend
pub mod Binance
pub mod Source
pub mod Held
pub mod Composite
pub mod Tests
use crypto_dashboard.Prelude.{◌-◌, ◌^◌, ◌*◌, min, ℕ}

-- A `WebSocket` of the browser: `closing` from a call of `close()` to the close event, `closed` after
-- that event. Messages come only while it is open.
pub data Socket : Type 0 where
  absent connecting open_ closing closed : Socket

-- `ws?.close()`
unfoldable pub close : Socket → Socket
close absent = absent
close connecting = closing
close open_ = closing
close closing = closing
close closed = closed

-- `Math.min(30_000, 1000 * 2 ** (attempt - 1))`
unfoldable pub backoff : ℕ → ℕ
backoff attempt = min 30_000 (1000 * 2 ^ (attempt - 1))
