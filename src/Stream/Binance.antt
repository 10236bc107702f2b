-- ===== src/Stream/Binance.antt =====
-- frontend/src/infrastructure/websocket/binance-price-stream.ts: one subscription as a state machine,
-- with the pending trades, the animation frame and the fallback timer. `loading` says that a call of
-- `getSymbols` is awaited; `can_frame` that the browser has `requestAnimationFrame`.
pub mod Coalescing
pub mod Life
pub mod Stall
use crypto_dashboard.Prelude.{
  ◌||◌, str_eq, not, ◌∷◌, some, map, false, [], ◌+◌, ◌&&◌, true, none, if◌then◌else◌, Option, List,
  Bool, ℕ, String,
}
use crypto_dashboard.Prelude.Maps.{insert}
use crypto_dashboard.Texts.{◌<>◌, upper, lower, strip_ending, join}
use crypto_dashboard.Price.{Price}
use crypto_dashboard.Stream.{Socket, absent, connecting, closed, close, backoff}

pub record Feed {ℓ} (A : Type ℓ) : Type ℓ where
  pub ws : Socket
  pub url : String
  pub loading : Bool
  pub stopped : Bool
  pub attempt : ℕ
  pub timer : Option ℕ
  pub frame : Bool
  pub fallback : Bool
  pub pending : List (String × Price A)

-- The fields of a trade message that are read: pair, price and time.
pub record Trade : Type 0 where
  pub s : String
  pub p : String
  pub t : Option ℕ

-- `symbols.filter((s) => s.toUpperCase() !== "USDT")`
unfoldable pub tradable : List String → List String
tradable [] = []
tradable (s ∷ symbols) =
    let rest = tradable symbols in if str_eq (upper s) "USDT" then rest else s ∷ rest

abbrev pub stream_name : String → String
stream_name s = lower s <> "usdt@trade"

unfoldable pub stream_names : List String → String
unfolding tradable
stream_names symbols = join "/" (map stream_name (tradable symbols))

abbrev pub coin_of : Trade → String
coin_of d = strip_ending "USDT" d.s

abbrev pub time_of : ℕ → Option ℕ → ℕ
time_of now (some t) = t
time_of now none = now

module _ {ℓ} {A : Type ℓ} where
  -- The part of `connect` before `await this.getSymbols()`.
  unfoldable pub connect : Feed A → Feed A
  connect f = if f.stopped then f else record f { loading = true }

  unfoldable pub schedule_reconnect : Feed A → Feed A
  schedule_reconnect f =
      if f.stopped
      then f
      else record f { attempt = f.attempt + 1; timer = some (backoff (f.attempt + 1)) }

  -- The rest of `connect`: `none` is a rejection of `getSymbols`.
  unfoldable pub symbols_arrive : String → Feed A → Option (List String) → Feed A
  unfolding schedule_reconnect
  symbols_arrive base f none = schedule_reconnect f
  symbols_arrive base f (some symbols) =
      let streams = stream_names symbols in
      if str_eq streams "" || f.stopped
      then f
      else record f { ws = connecting; url = base <> "/stream?streams=" <> streams }

  unfoldable pub subscribe : Bool → Feed A
  unfolding connect
  subscribe can_frame = connect (record {
    ws = absent;
    url = "";
    loading = false;
    stopped = false;
    attempt = 0;
    timer = none;
    frame = can_frame;
    fallback = true;
    pending = [];
  })

  -- The new state, and the batch for the subscriber if there is one.
  unfoldable pub deliver : List (String × Price A) → Feed A → Feed A × List (List (Price A))
  deliver [] f = (f, [])
  deliver (entry ∷ entries) f = (record f { pending = [] }, map (λ e. e.1) (entry ∷ entries) ∷ [])

  unfoldable pub flush : Bool → Feed A → Feed A × List (List (Price A))
  unfolding deliver
  flush paused f = if paused then (f, []) else deliver f.pending f

  unfoldable pub tick : Bool → Feed A → Feed A × List (List (Price A))
  unfolding flush
  tick paused f =
      if f.stopped
      then (f, [])
      else (record (flush paused f).0 { frame = true }, (flush paused f).1)

  -- A round of the interval: with animation frames it flushes only in a hidden tab.
  unfoldable pub fallback_round : Bool → Bool → Bool → Feed A → Feed A × List (List (Price A))
  unfolding flush
  fallback_round can_frame hidden paused f =
      if can_frame && not hidden then (f, []) else flush paused f

  unfoldable pub on_open : Feed A → Feed A
  on_open f = record f { attempt = 0 }

  abbrev pub price_of : ℕ → Trade → Price A
  price_of now d = record {
    coin = coin_of d;
    currency = "USD";
    value = d.p;
    observed_at = time_of now d.t;
    change_24h = none;
  }

  -- `none` is a frame that does not parse, or that is no trade.
  unfoldable pub on_message : ℕ → Option Trade → Feed A → Feed A
  unfolding insert
  on_message now none f = f
  on_message now (some d) f = record f { pending = insert (coin_of d) (price_of now d) f.pending }

  unfoldable pub on_close : Feed A → Feed A
  unfolding schedule_reconnect
  on_close f = schedule_reconnect f

  unfoldable pub on_error : Feed A → Feed A
  unfolding close
  on_error f = record f { ws = close f.ws }

  -- The function that `subscribe` returns.
  unfoldable pub unsubscribe : Feed A → Feed A
  unfolding close
  unsubscribe f = record f {
    stopped = true;
    frame = false;
    fallback = false;
    timer = none;
    ws = close f.ws;
  }
