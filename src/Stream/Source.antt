-- ===== src/Stream/Source.antt =====
-- frontend/src/application/ports/price-stream.ts: what a client may rely on from any price stream. A
-- stream is a state machine: a subscription starts it, the returned function stops it, and its steps
-- call the subscriber with batches. The laws are what each adapter proves.
use crypto_dashboard.Prelude.{refl, ◌++◌, ◌≡◌, [], List}

pub record Source (B : Type 0) : Type 1 where
  pub State : Type 0
  pub Step : State → State → List B → Type 0
  pub subscribe : State
  pub unsubscribe : State → State
  pub IsSound : State → Type 0
  pub IsStopped : State → Type 0
  pub subscribe_sound : IsSound subscribe
  pub step_sound : {s t : State} {out : List B} → Step s t out → IsSound s → IsSound t
  pub unsubscribe_stops : (s : State) → IsSound s → IsStopped (unsubscribe s)
  pub step_stopped :
      {s t : State} {out : List B} → Step s t out → IsStopped s → IsStopped t × (out ≡ [])

module _ {B : Type 0} (source : Source B) where
  open source use {State, Step, subscribe, unsubscribe, IsSound, IsStopped}

  pub data Run (s : State) : State → List B → Type 0 where
    start : Run s s []
    next :
        {t u : State} {seen new all : List B}
        → Run s t seen
        → Step t u new
        → all ≡ seen ++ new
        → Run s u all

  Run-IsSound : {s t : State} {all : List B} → IsSound s → Run s t all → IsSound t
  Run-IsSound h start = h
  Run-IsSound h (next r st e) = source.step_sound st (Run-IsSound h r)

  Run-IsStopped :
      {s t : State} {all : List B} → IsStopped s → Run s t all → IsStopped t × (all ≡ [])
  Run-IsStopped h start = (h, refl)
  Run-IsStopped h (next r st e) =
      let (still, quiet) = Run-IsStopped h r in
      let (after, silent) = source.step_stopped st still in (after, rw (e, quiet, silent))

  -- A client that unsubscribes from any price stream hears nothing more, whatever it had heard before.
  pub unsubscribe_silent :
      {s t : State} {before after : List B}
      → Run subscribe s before
      → Run (unsubscribe s) t after
      → after ≡ []
  unsubscribe_silent {s} r later =
      (Run-IsStopped (source.unsubscribe_stops s (Run-IsSound source.subscribe_sound r)) later).1
