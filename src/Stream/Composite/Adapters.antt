-- ===== src/Stream/Composite/Adapters.antt =====
-- The two socket adapters as price streams, and the composite that frontend/src/infrastructure/
-- container.ts builds from them.
use crypto_dashboard.Prelude.{true, [], ◌≡◌, ◌∷◌, List, Bool, String}
use crypto_dashboard.Price.{Price}
use crypto_dashboard.Stream.Source.{Source, Run, unsubscribe_silent}
use crypto_dashboard.Stream.Composite.{composite}
use crypto_dashboard.Stream.Backend
use crypto_dashboard.Stream.Binance

-- `new WebSocketPriceStream()`, over the frames of the backend and `toPrice`.
unfoldable pub backend_stream : {D : Type 0} {P : Type 0} → (D → P) → Source (List P)
backend_stream read = record {
  State = Backend.Feed;
  Step = Backend.Life.Step read;
  subscribe = Backend.subscribe;
  unsubscribe = Backend.unsubscribe;
  IsSound = Backend.Life.IsSound;
  IsStopped = λ f. Backend.Life.IsSound f × (f.stopped ≡ true);
  subscribe_sound = Backend.Life.subscribe-IsSound;
  step_sound = Backend.Life.Step-IsSound read;
  unsubscribe_stops = λ f h. (
    Backend.Life.Step-IsSound read (Backend.Life.leaves f) h,
    Backend.Life.unsubscribe-stopped f,
  );
  step_stopped = λ st h.
      let after = Backend.Life.Step-stopped read st h.0 h.1 in
      ((Backend.Life.Step-IsSound read st h.0, after.0), after.1);
}

-- `new BinancePriceStream(...)`
unfoldable pub binance_stream : {A : Type 0} → String → Bool → Source (List (Price A))
binance_stream {A} base can_frame = record {
  State = Binance.Feed A;
  Step = Binance.Life.Step base can_frame;
  subscribe = Binance.subscribe can_frame;
  unsubscribe = Binance.unsubscribe;
  IsSound = Binance.Life.IsSound;
  IsStopped = λ f. Binance.Life.IsSound f × (f.stopped ≡ true);
  subscribe_sound = Binance.Life.subscribe-IsSound can_frame;
  step_sound = Binance.Life.Step-IsSound base can_frame;
  unsubscribe_stops = λ f h. (
    Binance.Life.Step-IsSound base can_frame (Binance.Life.leaves f) h,
    Binance.Life.unsubscribe-stopped f,
  );
  step_stopped = λ st h.
      let after = Binance.Life.Step-stopped base can_frame st h.0 h.1 in
      ((Binance.Life.Step-IsSound base can_frame st h.0, after.0), after.1);
}

-- `priceStream`
unfoldable pub price_stream :
    {A D : Type 0} → (D → Price A) → String → Bool → Source (List (Price A))
unfolding composite backend_stream binance_stream
price_stream read base can_frame =
    composite (backend_stream read ∷ binance_stream base can_frame ∷ [])

module _ {A D : Type 0} (read : D → Price A) (base : String) (can_frame : Bool) where
  abbrev pub both : Source (List (Price A))
  both = price_stream read base can_frame

  -- After the caller unsubscribes from the composite, in whatever state the two sockets are, it is
  -- given no batch any more, whatever either socket, its timers and its frames do later.
  pub price_stream_silent :
      {s t : both.State} {before after : List (List (Price A))}
      → Run both both.subscribe s before
      → Run both (both.unsubscribe s) t after
      → after ≡ []
  price_stream_silent = unsubscribe_silent both
