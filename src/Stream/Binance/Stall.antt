-- ===== src/Stream/Binance/Stall.antt =====
-- What becomes of a Binance subscription whose symbol list has nothing to trade.
use crypto_dashboard.Texts.{join}
use crypto_dashboard.Prelude.{map, ap, false, arith, ◌≡◌, List, Bool, String, none, some, [], refl}
use crypto_dashboard.Price.{Price}
use crypto_dashboard.Stream.{absent, close}
use crypto_dashboard.Stream.Binance.{
  Feed, connect, symbols_arrive, subscribe, deliver, flush, tick, fallback_round, on_open,
  on_message, on_close, on_error, unsubscribe, stream_names, tradable, stream_name,
}
use crypto_dashboard.Stream.Binance.Life.{
  Step, arrives, opens, message, fails, closes, fires, paints, drains, leaves, Run, start, next,
}

module _ {ℓ} {A : Type ℓ} (base : String) (can_frame : Bool) where
  -- Neither a socket nor a timer nor an awaited list: nothing is left that could start one.
  pub record IsStalled (f : Feed A) : Type ℓ where
    pub no_socket : f.ws ≡ absent
    pub no_timer : f.timer ≡ none
    pub not_loading : f.loading ≡ false
    pub nothing_pending : f.pending ≡ []

  tick_idle :
      (paused : Bool) (f : Feed A)
      → IsStalled f
      → IsStalled (tick paused f).0 × ((tick paused f).1 ≡ [])
  unfolding tick flush deliver
  tick_idle paused f s = ground arith

  round_idle :
      (hidden paused : Bool) (f : Feed A)
      → IsStalled f
      → let after = fallback_round can_frame hidden paused f in IsStalled after.0 × (after.1 ≡ [])
  unfolding fallback_round flush deliver
  round_idle hidden paused f s = ground arith

  Step-IsStalled :
      {f g : Feed A} {out : List (List (Price A))}
      → Step base can_frame f g out
      → IsStalled f
      → IsStalled g × (out ≡ [])
  unfolding connect symbols_arrive close on_open on_message on_close on_error unsubscribe
  Step-IsStalled (arrives f result e) s = cc s.not_loading
  Step-IsStalled (opens f e) s = cc s.no_socket
  Step-IsStalled (message f now frame e) s = cc s.no_socket
  Step-IsStalled (fails f a c) s = absurd (a s.no_socket)
  Step-IsStalled (closes f a c) s = absurd (a s.no_socket)
  Step-IsStalled (fires f delay e) s = cc s.no_timer
  Step-IsStalled (paints f paused e) s = tick_idle paused _ (record {
    no_socket = s.no_socket;
    no_timer = s.no_timer;
    not_loading = s.not_loading;
    nothing_pending = s.nothing_pending;
  })
  Step-IsStalled (drains f hidden paused e) s = round_idle hidden paused f s
  Step-IsStalled (leaves f) s = ground arith

  Run-IsStalled :
      {f g : Feed A} {all : List (List (Price A))}
      → IsStalled f
      → Run base can_frame f g all
      → IsStalled g × (all ≡ [])
  Run-IsStalled s start = (s, refl)
  Run-IsStalled s (next r st e) =
      let (still, quiet) = Run-IsStalled s r in
      let (after, silent) = Step-IsStalled st still in (after, rw (e, quiet, silent))

  empty_list-IsStalled :
      (symbols : List String)
      → tradable symbols ≡ []
      → IsStalled
          (symbols_arrive base (record (subscribe can_frame) { loading = false }) (some symbols))
  unfolding symbols_arrive subscribe connect stream_names join
  empty_list-IsStalled symbols none_left =
      let e : stream_names symbols ≡ "" = ap (λ l. join "/" (map stream_name l)) none_left in
      rw e
        (record { no_socket = refl; no_timer = refl; not_loading = refl; nothing_pending = refl })

  -- If the first symbol list arrives with no tradable symbol, the subscription is over: it opens no
  -- socket, sets no timer and delivers nothing, whatever happens later.
  pub no_symbols_stall :
      (symbols : List String) {g : Feed A} {all : List (List (Price A))}
      → tradable symbols ≡ []
      → Run base can_frame
          (symbols_arrive base (record (subscribe can_frame) { loading = false }) (some symbols))
          g
          all
      → (g.ws ≡ absent) × (g.timer ≡ none) × (all ≡ [])
  no_symbols_stall symbols none_left r =
      let (stalled, quiet) = Run-IsStalled (empty_list-IsStalled symbols none_left) r in
      (stalled.no_socket, stalled.no_timer, quiet)
