-- ===== src/Stream/Composite.antt =====
-- frontend/src/infrastructure/websocket/composite-price-stream.ts: fan-in over several sources, itself
-- a price stream. Each source is given the same callback, so a step of one source is a step of the
-- composite with its batches; the composite's state is the states of the sources.
pub mod Adapters
use crypto_dashboard.Prelude.{[], ◌∷◌, ◌≡◌, List, ℕ}
use crypto_dashboard.Stream.Source.{Source}

-- No source at all: nothing ever happens.
pub data NoStep (B : Type 0) : Unit {0} → Unit {0} → List B → Type 0 where

-- One source in front of a composite.
pub data Either {B : Type 0} (a b : Source B)
    : a.State × b.State → a.State × b.State → List B → Type 0 where
  first :
      {s t : a.State} {u : b.State} {out : List B} → a.Step s t out → Either a b (s, u) (t, u) out
  rest :
      {s : a.State} {u v : b.State} {out : List B} → b.Step u v out → Either a b (s, u) (s, v) out

no_step_out : {B : Type 0} {P : Type 0} {s t : Unit {0}} {out : List B} → NoStep B s t out → P
no_step_out st = elim st [ ]

module _ {B : Type 0} (a b : Source B) where
  abbrev pub BothSound : a.State × b.State → Type 0
  BothSound p = a.IsSound p.0 × b.IsSound p.1

  abbrev pub BothStopped : a.State × b.State → Type 0
  BothStopped p = a.IsStopped p.0 × b.IsStopped p.1

  pub Either-sound :
      {p q : a.State × b.State} {out : List B} → Either a b p q out → BothSound p → BothSound q
  Either-sound (first st) h = (a.step_sound st h.0, h.1)
  Either-sound (rest st) h = (h.0, b.step_sound st h.1)

  pub Either-stopped :
      {p q : a.State × b.State} {out : List B}
      → Either a b p q out
      → BothStopped p
      → BothStopped q × (out ≡ [])
  Either-stopped (first st) h = let (still, quiet) = a.step_stopped st h.0 in ((still, h.1), quiet)
  Either-stopped (rest st) h = let (still, quiet) = b.step_stopped st h.1 in ((h.0, still), quiet)

  -- `sources.map((s) => s.subscribe(onPrices))` and `for (const u of unsubscribes) u()`, for a source
  -- in front of the others.
  unfoldable pub compose : Source B
  compose = record {
    State = a.State × b.State;
    Step = Either a b;
    subscribe = (a.subscribe, b.subscribe);
    unsubscribe = λ p. (a.unsubscribe p.0, b.unsubscribe p.1);
    IsSound = BothSound;
    IsStopped = BothStopped;
    subscribe_sound = (a.subscribe_sound, b.subscribe_sound);
    step_sound = Either-sound;
    unsubscribe_stops = λ p h. (a.unsubscribe_stops p.0 h.0, b.unsubscribe_stops p.1 h.1);
    step_stopped = Either-stopped;
  }

unfoldable pub no_source : (B : Type 0) → Source B
unfolding no_step_out
no_source B = record {
  State = Unit;
  Step = NoStep B;
  subscribe = tt;
  unsubscribe = λ s. s;
  IsSound = λ s. Unit;
  IsStopped = λ s. Unit;
  subscribe_sound = tt;
  step_sound = λ st h. tt;
  unsubscribe_stops = λ s h. tt;
  step_stopped = λ st h. no_step_out st;
}

unfoldable pub composite : {B : Type 0} → List (Source B) → Source B
unfolding compose no_source
composite {B} [] = no_source B
composite (s ∷ ss) = compose s (composite ss)
