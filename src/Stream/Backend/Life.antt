-- ===== src/Stream/Backend/Life.antt =====
-- Runs of a subscription: which events the runtime can send, and what holds in every state reached.
use crypto_dashboard.Prelude.{
  refl, ◌<◌, ◌⊎◌, false, true, arith, ◌++◌, none, some, ◌≢◌, Option, Bool, [], ◌≡◌, List, ℕ,
}
use crypto_dashboard.Stream.{absent, connecting, open_, closed, close, backoff}
use crypto_dashboard.Stream.Backend.{
  Feed, connect, schedule_reconnect, subscribe, on_open, on_message, on_close, on_error,
  unsubscribe,
}

module _ {ℓ κ} {D : Type ℓ} {P : Type κ} (read : D → P) where
  -- One event of the runtime, with the batches that it delivers. The runtime moves the socket on
  -- before it calls the handler, and takes the timer off when it fires.
  pub data Step : Feed → Feed → List (List P) → Type (ℓ ⊔ κ) where
    opens : (f : Feed) → f.ws ≡ connecting → Step f (on_open (record f { ws = open_ })) []
    message :
        (f : Feed) (paused : Bool) (frame : Option (List D))
        → f.ws ≡ open_
        → Step f f (on_message read paused frame)
    fails : (f : Feed) → f.ws ≢ absent → f.ws ≢ closed → Step f (on_error f) []
    closes :
        (f : Feed) → f.ws ≢ absent → f.ws ≢ closed → Step f (on_close (record f { ws = closed })) []
    fires :
        (f : Feed) (delay : ℕ)
        → f.timer ≡ some delay
        → Step f (connect (record f { timer = none })) []
    leaves : (f : Feed) → Step f (unsubscribe f) []

  -- What is reached from a state, with all that was delivered on the way, oldest first.
  pub data Run (f : Feed) : Feed → List (List P) → Type (ℓ ⊔ κ) where
    start : Run f f []
    next :
        {g h : Feed} {seen new all : List (List P)}
        → Run f g seen
        → Step g h new
        → all ≡ seen ++ new
        → Run f h all

-- Stopped: no timer, and no socket that can still speak. Not stopped: either a socket is there, in
-- whatever state before its close event, or a timer is set, and never both.
pub record IsSound (f : Feed) : Type 0 where
  pub when_stopped : f.stopped ≡ true → (f.timer ≡ none) × (f.ws ≢ connecting) × (f.ws ≢ open_)
  pub when_running :
      f.stopped ≡ false
      → ((f.timer ≡ none) × (f.ws ≢ absent) × (f.ws ≢ closed))
        ⊎ ((f.ws ≡ closed) × (f.timer ≡ some (backoff f.attempt)) × (0 < f.attempt))

pub unsubscribe-stopped : (f : Feed) → (unsubscribe f).stopped ≡ true
unfolding unsubscribe
unsubscribe-stopped f = refl

pub subscribe-IsSound : IsSound subscribe
unfolding subscribe connect
subscribe-IsSound = ground arith

module _ {ℓ κ} {D : Type ℓ} {P : Type κ} (read : D → P) where
  pub Step-IsSound : {f g : Feed} {out : List (List P)} → Step read f g out → IsSound f → IsSound g
  unfolding connect on_open on_close on_error schedule_reconnect unsubscribe close
  Step-IsSound (opens f e) s = ground arith
  Step-IsSound (message f paused frame e) s = s
  Step-IsSound (fails f a c) s = ground arith
  Step-IsSound (closes f a c) s = ground arith
  Step-IsSound (fires f delay e) s = ground arith
  Step-IsSound (leaves f) s = ground arith

  Run-IsSound : {f g : Feed} {all : List (List P)} → IsSound f → Run read f g all → IsSound g
  Run-IsSound s start = s
  Run-IsSound s (next r st e) = Step-IsSound st (Run-IsSound s r)

  -- From the subscription on, in every state that any order of events reaches: while not stopped, there
  -- is a socket that has not closed and no timer, or the socket has closed and a reconnect is set to
  -- the delay of the failures so far; once stopped, no timer is left and the socket can deliver
  -- nothing more.
  pub backend-IsSound : {g : Feed} {all : List (List P)} → Run read subscribe g all → IsSound g
  backend-IsSound r = Run-IsSound subscribe-IsSound r

  pub Step-stopped :
      {f g : Feed} {out : List (List P)}
      → Step read f g out
      → IsSound f
      → f.stopped ≡ true
      → (g.stopped ≡ true) × (out ≡ [])
  unfolding connect on_open on_close on_error schedule_reconnect unsubscribe
  Step-stopped (opens f e) s h = ground arith
  Step-stopped (message f paused frame e) s h = absurd ((s.when_stopped h).2 e)
  Step-stopped (fails f a c) s h = ground arith
  Step-stopped (closes f a c) s h = ground arith
  Step-stopped (fires f delay e) s h = ground arith
  Step-stopped (leaves f) s h = ground arith
