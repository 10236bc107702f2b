-- ===== src/Stream/Held.antt =====
-- The two streams while the feed is held: nothing is delivered, and no coin's last trade is lost.
use crypto_dashboard.Prelude.{
  arith, ◌≡◌, refl, ap, ℕ, String, Bool, true, false, none, some, List, [], ◌∷◌, ◌++◌,
}
use crypto_dashboard.Price.{Price}
use crypto_dashboard.Prelude.Maps.{
  lookup, latest, or_else, insert, insert_all, lookup-insert_all, HasUniqueKeys,
  insert_all-HasUniqueKeys,
}
use crypto_dashboard.Stream.Backend
use crypto_dashboard.Stream.Binance
use crypto_dashboard.Stream.Binance.{Feed, Trade, tick, fallback_round, flush}
use crypto_dashboard.Stream.Binance.Life.{
  Step, arrives, opens, message, fails, closes, fires, paints, drains, leaves,
}
use crypto_dashboard.Stream.Binance.Coalescing.{entries, values, batches, deliver_lem}

module _ {ℓ κ} {D : Type ℓ} {P : Type κ} (read : D → P) where
  -- The gate reads `p` in the event of the backend's stream, if the event asks it.
  abbrev pub BackendReads :
      Bool → {f g : Backend.Feed} {out : List (List P)} → Backend.Life.Step read f g out → Type 0
  BackendReads p (Backend.Life.message f paused frame e) = paused ≡ p
  BackendReads p other = Unit

  pub backend_held :
      {f g : Backend.Feed} {out : List (List P)} (st : Backend.Life.Step read f g out)
      → BackendReads true st
      → out ≡ []
  unfolding Backend.on_message
  backend_held (Backend.Life.opens f e) h = refl
  backend_held (Backend.Life.message f paused none e) h = refl
  backend_held (Backend.Life.message f paused (some dtos) e) h = rw h refl
  backend_held (Backend.Life.fails f a c) h = refl
  backend_held (Backend.Life.closes f a c) h = refl
  backend_held (Backend.Life.fires f delay e) h = refl
  backend_held (Backend.Life.leaves f) h = refl

insert_all-append {ℓ} :
    {V : Type ℓ} (ps qs m : List (String × V))
    → insert_all (ps ++ qs) m ≡ insert_all qs (insert_all ps m)
unfolding insert_all
insert_all-append [] qs m = refl
insert_all-append ((k, v) ∷ ps) qs m = insert_all-append ps qs (insert k v m)

module _ {ℓ} {A : Type ℓ} where
  entries-append :
      (ts us : List (ℕ × Trade)) → entries {A = A} (ts ++ us) ≡ entries ts ++ entries us
  entries-append [] us = refl
  entries-append ((now, d) ∷ ts) us =
      ap (◌∷◌ (Binance.coin_of d, Binance.price_of now d)) (entries-append ts us)

module _ {ℓ} {A : Type ℓ} (base : String) (can_frame : Bool) where
  -- The same for an event of the exchange's stream, and the trade that it brings with its time.
  abbrev pub ExchangeReads :
      Bool → {f g : Feed A} {out : List (List (Price A))} → Step base can_frame f g out → Type 0
  ExchangeReads p (paints f paused e) = paused ≡ p
  ExchangeReads p (drains f hidden paused e) = paused ≡ p
  ExchangeReads p other = Unit

  abbrev pub trades_of :
      {f g : Feed A} {out : List (List (Price A))} → Step base can_frame f g out → List (ℕ × Trade)
  trades_of (message f now (some d) e) = (now, d) ∷ []
  trades_of other = []

  -- A run of events under hold, with the trades that came and the batches that were delivered.
  pub data HeldRun (f : Feed A) : Feed A → List (ℕ × Trade) → List (List (Price A)) → Type ℓ where
    start : HeldRun f f [] []
    next :
        {g h : Feed A} {ts us : List (ℕ × Trade)} {seen new all : List (List (Price A))}
        → HeldRun f g ts seen
        → (st : Step base can_frame g h new) → ExchangeReads true st
        → us ≡ ts ++ trades_of st
        → all ≡ seen ++ new
        → HeldRun f h us all

  abbrev Keeps : Feed A → Feed A → List (ℕ × Trade) → List (List (Price A)) → Type ℓ
  Keeps f g ts out = (out ≡ []) × (g.pending ≡ insert_all (entries ts) f.pending)

  pub exchange_held :
      {f g : Feed A} {out : List (List (Price A))} (st : Step base can_frame f g out)
      → ExchangeReads true st
      → Keeps f g (trades_of st) out
  unfolding insert_all Binance.symbols_arrive Binance.on_open Binance.on_message Binance.on_error
      Binance.on_close Binance.connect Binance.unsubscribe tick fallback_round flush
  exchange_held (arrives f none e) h = ground arith
  exchange_held (arrives f (some symbols) e) h = ground arith
  exchange_held (opens f e) h = (refl, refl)
  exchange_held (message f now none e) h = (refl, refl)
  exchange_held (message f now (some d) e) h = (refl, refl)
  exchange_held (fails f a c) h = (refl, refl)
  exchange_held (closes f a c) h = ground arith
  exchange_held (fires f delay e) h = ground arith
  exchange_held (paints f paused e) h = ground arith
  exchange_held (drains f hidden paused e) h = ground arith
  exchange_held (leaves f) h = (refl, refl)

  held-Keeps :
      {f g : Feed A} {ts : List (ℕ × Trade)} {all : List (List (Price A))}
      → HeldRun f g ts all
      → Keeps f g ts all
  held-Keeps start = (refl, unfold insert_all in refl)
  held-Keeps {f} (next {ts = ts} r st gate e q) =
      let (quiet, kept) = held-Keeps r in
      let (silent, added) = exchange_held st gate in
      (
        rw (q, quiet, silent) refl,
        rw
            (
              e,
              entries-append ts (trades_of st),
              insert_all-append (entries ts) (entries (trades_of st)) f.pending,
              ← kept,
            )
            added,
      )

  -- However long the feed is held, and whatever the exchange's socket, the symbol lists, the timers and the
  -- frames do meanwhile: no batch is delivered. The first flush after the release delivers what is pending,
  -- which has no coin twice, and for each coin the last trade that came under hold, or the one that waited
  -- before if none came. What waited before had no coin twice.
  pub held_then_released :
      {f g : Feed A} {ts : List (ℕ × Trade)} {all : List (List (Price A))} (coin : String)
      → HasUniqueKeys f.pending
      → HeldRun f g ts all
      → (all ≡ [])
        × ((flush false g).1 ≡ batches (values g.pending))
        × HasUniqueKeys g.pending
        × (lookup coin g.pending ≡ or_else (latest coin (entries ts)) (lookup coin f.pending))
  unfolding flush
  held_then_released {f} {g} {ts} coin unique r =
      let (quiet, kept) = held-Keeps r in
      (
        quiet,
        (deliver_lem g.pending g refl).1,
        rw kept (insert_all-HasUniqueKeys (entries ts) f.pending unique),
        rw kept (lookup-insert_all coin (entries ts) f.pending),
      )
