-- ===== src/Terminal/Tests.antt =====
-- A few clicks on the shell, and a frame of the exchange's stream.
use crypto_dashboard.Stream.Binance
use crypto_dashboard.Stream.Composite.{no_source, compose, composite, first, rest}
use crypto_dashboard.Price.{Price}
use crypto_dashboard.Stream.Composite.Adapters.{binance_stream, backend_stream, both, price_stream}
use crypto_dashboard.Terminal.Page.{streamed, clicked, held_silent, StreamReads, Page, start, next}
use crypto_dashboard.Prelude.{ℕ, ◌≡◌, refl, str_eq, not, ◌&&◌, true, false, List, [], ◌∷◌}
use crypto_dashboard.FeedGate.{set_feed_paused, is_feed_paused}
use crypto_dashboard.Terminal.{
  Shell, toggle_hold, set_tab, select, live_label, streaming, hint, hint_in, tabs,
}
use crypto_dashboard.Terminal.Hold.{Click, hold, tab, pair, clicks, label-gate}

abbrev shell : Shell
shell = record {
  tab = "markets";
  selected = "BTC";
  held = false;
  gate = record { paused = false; listeners = 1 ∷ [] };
  calls = [];
}

abbrev some_clicks : List Click
some_clicks = tab "risk" ∷ hold ∷ pair "ETH" ∷ []

held_now :
    (live_label true (clicks some_clicks shell) ≡ "Held")
    × ((clicks some_clicks shell).calls ≡ (1, true) ∷ [])
    × (hint (clicks some_clicks shell) ≡ "correlation · volatility · movers")
unfolding live_label toggle_hold set_tab select set_feed_paused hint hint_in tabs
held_now = (refl, refl, refl)

label-gate_run :
    (str_eq (live_label true (clicks some_clicks shell)) "Held"
      ≡ is_feed_paused (clicks some_clicks shell).gate)
    × (streaming true (clicks some_clicks shell)
        ≡ (true && not (is_feed_paused (clicks some_clicks shell).gate)))
label-gate_run = label-gate some_clicks shell true refl

abbrev page : Page (λ (p : Price ℕ). p) "w" true
page = record { shell = shell; streams = (both (λ (p : Price ℕ). p) "w" true).subscribe }

-- The hold switch is clicked, and the browser paints a frame.
held_silent_example : ◌≡◌ {A = List (List (Price ℕ))} [] []
unfolding price_stream composite compose no_source backend_stream binance_stream StreamReads
    toggle_hold set_feed_paused live_label Binance.subscribe Binance.tick Binance.flush
held_silent_example =
    held_silent (λ (p : Price ℕ). p) "w" true {p = page} true refl (next start (clicked hold)) refl
      (streamed _ _ (rest (first (Binance.Life.paints _ true refl))) refl)
