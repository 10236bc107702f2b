-- ===== src/Stream/Binance/Life.antt =====
-- Runs of a Binance subscription: which events the runtime can send, and what holds in every state
-- that they reach.
use crypto_dashboard.Prelude.{
  arith, ◌<◌, ◌⊎◌, ◌≢◌, false, Option, ◌++◌, true, List, ◌≡◌, Bool, ℕ, String, none, some, [], refl,
}
use crypto_dashboard.Price.{Price}
use crypto_dashboard.Stream.{absent, connecting, open_, closed, close, backoff}
use crypto_dashboard.Stream.Binance.{
  Feed, Trade, connect, symbols_arrive, subscribe, tick, fallback_round, on_open, on_message,
  on_close, on_error, unsubscribe,
}

module _ {ℓ} {A : Type ℓ} (base : String) (can_frame : Bool) where
  -- One event of the runtime, with the batches that it delivers. The feed gate, the visibility of the
  -- tab and the clock are the environment's.
  pub data Step : Feed A → Feed A → List (List (Price A)) → Type ℓ where
    arrives :
        (f : Feed A) (result : Option (List String))
        → f.loading ≡ true
        → Step f (symbols_arrive base (record f { loading = false }) result) []
    opens : (f : Feed A) → f.ws ≡ connecting → Step f (on_open (record f { ws = open_ })) []
    message :
        (f : Feed A) (now : ℕ) (frame : Option Trade)
        → f.ws ≡ open_
        → Step f (on_message now frame f) []
    fails : (f : Feed A) → f.ws ≢ absent → f.ws ≢ closed → Step f (on_error f) []
    closes :
        (f : Feed A)
        → f.ws ≢ absent
        → f.ws ≢ closed
        → Step f (on_close (record f { ws = closed })) []
    fires :
        (f : Feed A) (delay : ℕ)
        → f.timer ≡ some delay
        → Step f (connect (record f { timer = none })) []
    paints :
        (f : Feed A) (paused : Bool)
        → f.frame ≡ true
        → Step f
            (tick paused (record f { frame = false })).0
            (tick paused (record f { frame = false })).1
    drains :
        (f : Feed A) (hidden paused : Bool)
        → f.fallback ≡ true
        → Step f
            (fallback_round can_frame hidden paused f).0
            (fallback_round can_frame hidden paused f).1
    leaves : (f : Feed A) → Step f (unsubscribe f) []

  pub data Run (f : Feed A) : Feed A → List (List (Price A)) → Type ℓ where
    start : Run f f []
    next :
        {g h : Feed A} {seen new all : List (List (Price A))}
        → Run f g seen
        → Step g h new
        → all ≡ seen ++ new
        → Run f h all

module _ {ℓ} {A : Type ℓ} where
  -- Stopped: no frame, no interval, no timer, and no socket that can still speak. Not stopped: the
  -- interval runs, and at most one of these goes on: an awaited symbol list, a socket before its close
  -- event, a reconnect timer set to the delay of the failures so far.
  pub record IsSound (f : Feed A) : Type 0 where
    pub when_stopped :
        f.stopped ≡ true
        → (f.timer ≡ none)
          × (f.frame ≡ false)
          × (f.fallback ≡ false)
          × (f.ws ≢ connecting)
          × (f.ws ≢ open_)
    pub interval : f.stopped ≡ false → f.fallback ≡ true
    pub loads_alone :
        f.stopped ≡ false
        → f.loading ≡ true
        → (f.timer ≡ none) × ((f.ws ≡ absent) ⊎ (f.ws ≡ closed))
    pub timer_fits :
        (f.timer ≡ none)
        ⊎ ((f.timer ≡ some (backoff f.attempt))
            × (0 < f.attempt)
            × ((f.ws ≡ absent) ⊎ (f.ws ≡ closed)))

  pub unsubscribe-stopped : (f : Feed A) → (unsubscribe f).stopped ≡ true
  unfolding unsubscribe
  unsubscribe-stopped f = refl

  pub subscribe-IsSound : (can_frame : Bool) → IsSound (subscribe can_frame)
  unfolding subscribe
  subscribe-IsSound can_frame = ground arith

module _ {ℓ} {A : Type ℓ} (base : String) (can_frame : Bool) where
  pub Step-IsSound :
      {f g : Feed A} {out : List (List (Price A))}
      → Step base can_frame f g out
      → IsSound f
      → IsSound g
  unfolding connect symbols_arrive close tick fallback_round on_open on_message on_close on_error
      unsubscribe
  Step-IsSound (arrives f none e) s = ground arith
  Step-IsSound (arrives f (some symbols) e) s = ground arith
  Step-IsSound (opens f e) s = ground arith
  Step-IsSound (message f now none e) s = s
  Step-IsSound (message f now (some d) e) s = ground arith
  Step-IsSound (fails f a c) s = ground arith
  Step-IsSound (closes f a c) s = ground arith
  Step-IsSound (fires f delay e) s = ground arith
  Step-IsSound (paints f paused e) s = ground arith
  Step-IsSound (drains f hidden paused e) s = ground arith
  Step-IsSound (leaves f) s = ground arith

  Run-IsSound :
      {f g : Feed A} {all : List (List (Price A))}
      → IsSound f
      → Run base can_frame f g all
      → IsSound g
  Run-IsSound s start = s
  Run-IsSound s (next r st e) = Step-IsSound st (Run-IsSound s r)

  -- From the subscription on, in every state that any order of events reaches: while not stopped the
  -- fallback interval runs, and a symbol list is awaited only with no timer and no socket; a timer is
  -- set to the delay of the failures so far, and only with no socket; once stopped, no timer, frame
  -- or interval is left and the socket can deliver nothing more.
  pub binance-IsSound :
      {g : Feed A} {all : List (List (Price A))}
      → Run base can_frame (subscribe can_frame) g all
      → IsSound g
  binance-IsSound r = Run-IsSound (subscribe-IsSound can_frame) r

  pub Step-stopped :
      {f g : Feed A} {out : List (List (Price A))}
      → Step base can_frame f g out
      → IsSound f
      → f.stopped ≡ true
      → (g.stopped ≡ true) × (out ≡ [])
  unfolding connect symbols_arrive close on_open on_message on_close on_error unsubscribe
  Step-stopped (arrives f none e) s h = ground arith
  Step-stopped (arrives f (some symbols) e) s h = ground arith
  Step-stopped (opens f e) s h = ground arith
  Step-stopped (message f now frame e) s h = absurd ((s.when_stopped h).4 e)
  Step-stopped (fails f a c) s h = ground arith
  Step-stopped (closes f a c) s h = ground arith
  Step-stopped (fires f delay e) s h = ground arith
  Step-stopped (paints f paused e) s h = cc (s.when_stopped h).1
  Step-stopped (drains f hidden paused e) s h = cc (s.when_stopped h).2
  Step-stopped (leaves f) s h = ground arith
