-- ===== src/Terminal/Page.antt =====
-- The page with its two streams: the clicks of the user and the events of the streams in any order. The
-- events read the gate that the clicks set.
use crypto_dashboard.Prelude.{◌∙◌, sym, ◌≡◌, refl, String, str_eq, Bool, true, List, []}
use crypto_dashboard.Price.{Price}
use crypto_dashboard.FeedGate.{is_feed_paused}
use crypto_dashboard.Stream.Composite.{first, rest, composite, compose, no_source}
use crypto_dashboard.Stream.Composite.Adapters.{both, price_stream, backend_stream, binance_stream}
use crypto_dashboard.Stream.Held.{BackendReads, ExchangeReads, backend_held, exchange_held}
use crypto_dashboard.Terminal.{Shell, live_label}
use crypto_dashboard.Terminal.Hold.{Click, click, click-Agrees, label_held}

module _ {A D : Type 0} (read : D → Price A) (base : String) (can_frame : Bool) where
  abbrev pub Streams : Type 0
  Streams = (both read base can_frame).State

  -- The gate reads `p` in the event of the composite.
  unfoldable pub StreamReads :
      Bool
      → (s t : Streams) (out : List (List (Price A))) → (both read base can_frame).Step s t out
      → Type 0
  unfolding price_stream composite compose no_source backend_stream binance_stream
  StreamReads p s t out (first st) = BackendReads read p st
  StreamReads p s t out (rest (first st)) = ExchangeReads base can_frame p st
  StreamReads p s t out (rest (rest st)) = Unit

  composite_held :
      (s t : Streams) (out : List (List (Price A))) (st : (both read base can_frame).Step s t out)
      → StreamReads true s t out st
      → out ≡ []
  unfolding StreamReads price_stream composite compose no_source backend_stream binance_stream
  composite_held s t out (first st) h = backend_held read st h
  composite_held s t out (rest (first st)) h = (exchange_held base can_frame st h).0
  composite_held s t out (rest (rest st)) h = elim st [ ]

  pub record Page : Type 0 where
    pub shell : Shell
    pub streams : Streams

  pub data Event (p : Page) : Page → List (List (Price A)) → Type 0 where
    clicked : (c : Click) → Event p (record p { shell = click c p.shell }) []
    streamed :
        (t : Streams) (out : List (List (Price A)))
        (st : (both read base can_frame).Step p.streams t out)
        → StreamReads (is_feed_paused p.shell.gate) p.streams t out st
        → Event p (record p { streams = t }) out

  pub data Session (p : Page) : Page → Type 0 where
    start : Session p p
    next : {q r : Page} {out : List (List (Price A))} → Session p q → Event q r out → Session p r

  abbrev pub Agrees : Page → Type 0
  Agrees p = p.shell.held ≡ is_feed_paused p.shell.gate

  Event-Agrees : {p q : Page} {out : List (List (Price A))} → Event p q out → Agrees p → Agrees q
  Event-Agrees {p} (clicked c) h = click-Agrees c p.shell h
  Event-Agrees (streamed t out st reads) h = h

  Session-Agrees : {p q : Page} → Session p q → Agrees p → Agrees q
  Session-Agrees start h = h
  Session-Agrees (next s e) h = Event-Agrees e (Session-Agrees s h)

  -- In every state that clicks and events of the two streams reach, in any order: while the page says Held,
  -- the next event, whichever it is, gives the page no batch. The switch and the gate agree before.
  pub held_silent :
      {p q r : Page} {out : List (List (Price A))} (live : Bool)
      → Agrees p
      → Session p q
      → str_eq (live_label live q.shell) "Held" ≡ true
      → Event q r out
      → out ≡ []
  held_silent live h s says (clicked c) = refl
  held_silent {q = q} live h s says (streamed t out st reads) =
      let gate : is_feed_paused q.shell.gate ≡ true =
        sym (Session-Agrees s h) ∙ sym (label_held live q.shell) ∙ says in
      composite_held q.streams t out st (rw gate at reads)
