-- ===== src/Stream/Tests.antt =====
-- Runs of the adapters, and the theorems at concrete runs.
use crypto_dashboard.Stream.Held
use crypto_dashboard.Stream.Held.{held_then_released}
use crypto_dashboard.Stream.Composite.{first}
use crypto_dashboard.Stream.Composite.{no_source, compose, composite}
use crypto_dashboard.Stream.Composite.Adapters.{
  price_stream_silent, binance_stream, backend_stream, price_stream, both,
}
use crypto_dashboard.Stream.Binance.Stall.{no_symbols_stall}
use crypto_dashboard.Price.{Price}
use crypto_dashboard.Prelude.Maps.{mem_key, or_else, insert, latest, lookup, HasUniqueKeys}
use crypto_dashboard.Stream.Binance.Coalescing.{flush_coalesces, entries, values, batches, messages}
use crypto_dashboard.Stream.Backoff.{backoff_lem}
use crypto_dashboard.Stream.Backend.Life.{start, next, opens, message, closes}
use crypto_dashboard.Texts
use crypto_dashboard.Prelude.{
  List, true, ◌≤◌, ◌*◌, min, ◌≡◌, map, false, ℕ, String, none, some, [], ◌∷◌, refl,
}
use crypto_dashboard.Stream.{absent, open_, closed, backoff}
use crypto_dashboard.Stream.Backend
use crypto_dashboard.Stream.Binance
use crypto_dashboard.Stream.Source

delays :
    map backoff (1 ∷ 2 ∷ 3 ∷ 4 ∷ 5 ∷ 6 ∷ 7 ∷ [])
    ≡ 1000 ∷ 2000 ∷ 4000 ∷ 8000 ∷ 16_000 ∷ 30_000 ∷ 30_000 ∷ []
unfolding backoff
delays = refl

names : Binance.stream_names ("BTC" ∷ "usdt" ∷ "eth" ∷ []) ≡ "btcusdt@trade/ethusdt@trade"
unfolding Binance.stream_names Texts.upper Texts.lower Texts.join
names = refl

backoff_lem_run :
    (backoff 1 ≡ 1000)
    × (backoff 4 ≡ min 30_000 (2 * backoff 3))
    × (1000 ≤ backoff 2)
    × (backoff 2 ≤ 30_000)
backoff_lem_run = backoff_lem 2

abbrev same : ℕ → ℕ
same k = k

-- Connect, open, one batch, and the close of the socket.
abbrev dropped : Backend.Feed
dropped = record { ws = closed; stopped = false; attempt = 1; timer = some 1000 }

dropped-Run : Backend.Life.Run same Backend.subscribe dropped ((7 ∷ []) ∷ [])
unfolding Backend.subscribe Backend.on_open Backend.on_message Backend.on_close backoff
dropped-Run =
    next (next (next start (opens _ refl) refl) (message _ false (some (7 ∷ [])) refl) refl)
      (closes _ (cc) (cc)) refl

backend-IsSound_example : Backend.Life.IsSound dropped
backend-IsSound_example = Backend.Life.backend-IsSound same dropped-Run

-- A trade waits in the table when the caller leaves: the frame that was asked for is gone with it.
abbrev connected : Binance.Feed ℕ
connected = record {
  ws = open_;
  url = "w/stream?streams=btcusdt@trade";
  loading = false;
  stopped = false;
  attempt = 0;
  timer = none;
  frame = true;
  fallback = true;
  pending = [];
}

connected-Run : Binance.Life.Run "w" true (Binance.subscribe true) connected []
unfolding Binance.subscribe Binance.symbols_arrive Binance.on_open Binance.stream_names Texts.upper
    Texts.lower Texts.join
connected-Run =
    Binance.Life.next
      (Binance.Life.next Binance.Life.start
        (Binance.Life.arrives _ (some ("BTC" ∷ "USDT" ∷ [])) refl) refl)
      (Binance.Life.opens _ refl) refl

binance-IsSound_example : Binance.Life.IsSound connected
binance-IsSound_example = Binance.Life.binance-IsSound "w" true connected-Run

abbrev trade : String → String → Binance.Trade
trade s p = record { s = s; p = p; t = none }

flush_coalesces_example :
    let trades : List (ℕ × Binance.Trade) =
      (1, trade "BTCUSDT" "10") ∷ (2, trade "ETHUSDT" "5") ∷ (3, trade "BTCUSDT" "11") ∷ [] in
    let held = messages trades connected in
    (Binance.flush true held ≡ (held, []))
    × ((Binance.flush false held).0.pending ≡ [])
    × ((Binance.flush false held).1 ≡ batches (values held.pending))
    × HasUniqueKeys held.pending
    × (lookup "BTC" held.pending ≡ latest "BTC" (entries trades))
flush_coalesces_example =
    flush_coalesces
      ((1, trade "BTCUSDT" "10") ∷ (2, trade "ETHUSDT" "5") ∷ (3, trade "BTCUSDT" "11") ∷ [])
      connected "BTC" refl

abbrev idle : Binance.Feed ℕ
idle = record {
  ws = absent;
  url = "";
  loading = false;
  stopped = false;
  attempt = 0;
  timer = none;
  frame = true;
  fallback = true;
  pending = [];
}

no_symbols_stall_example :
    (idle.ws ≡ absent) × (idle.timer ≡ none) × ◌≡◌ {A = List (List (Price ℕ))} [] []
unfolding Binance.tick Binance.subscribe Binance.symbols_arrive Binance.stream_names Texts.upper
    Texts.join
no_symbols_stall_example =
    no_symbols_stall {A = ℕ} "w" true ("USDT" ∷ []) {g = idle} {all = []} refl
      (Binance.Life.next Binance.Life.start (Binance.Life.paints _ false refl) refl)

abbrev stream : Source.Source (List (Price ℕ))
stream = both {A = ℕ} {D = Price ℕ} (λ p. p) "w" true

abbrev left : stream.State
left = stream.unsubscribe stream.subscribe

price_stream_silent_example : ◌≡◌ {A = List (List (Price ℕ))} [] []
unfolding price_stream composite compose no_source backend_stream binance_stream Backend.subscribe
    Backend.unsubscribe
price_stream_silent_example =
    price_stream_silent {A = ℕ} {D = Price ℕ} (λ p. p) "w" true {s = stream.subscribe} {before = []}
      {after = []} Source.start (Source.next Source.start (first (closes _ (cc) (cc))) refl)

abbrev waiting : Binance.Feed ℕ
waiting = record connected { pending = ("ETH", Binance.price_of 0 (trade "ETHUSDT" "5")) ∷ [] }

-- A trade and a frame under hold; the coin of the pending price has no trade.
held_then_released_example :
    let g = Binance.on_message 1 (some (trade "BTCUSDT" "10")) waiting in
    (◌≡◌ {A = List (List (Price ℕ))} [] [])
    × ((Binance.flush false g).1 ≡ batches (values g.pending))
    × HasUniqueKeys g.pending
    × (lookup "ETH" g.pending
        ≡ or_else
            (latest "ETH" (entries ((1, trade "BTCUSDT" "10") ∷ [])))
            (lookup "ETH" waiting.pending))
unfolding Binance.tick Binance.flush Binance.on_message insert mem_key
held_then_released_example =
    held_then_released "w" true {f = waiting} {ts = (1, trade "BTCUSDT" "10") ∷ []} {all = []} "ETH"
      (refl, tt)
      (Held.next
        (Held.next Held.start (Binance.Life.message _ 1 (some (trade "BTCUSDT" "10")) refl) tt refl
          refl)
        (Binance.Life.paints _ true refl) refl refl refl)
