-- ===== src/Stream/Binance/Coalescing.antt =====
-- Trades are coalesced by coin: a flush delivers the last one of each coin since the flush before.
use crypto_dashboard.Prelude.{
  ◌∙◌, ap, [], ◌∷◌, some, refl, false, true, [], ◌≡◌, map, List, ℕ, String,
}
use crypto_dashboard.Price.{Price}
use crypto_dashboard.Prelude.Maps.{
  or_else-none, lookup-insert_all, insert_all-HasUniqueKeys, latest, lookup, HasUniqueKeys,
  insert_all,
}
use crypto_dashboard.Stream.Binance.{deliver, Feed, Trade, coin_of, price_of, on_message, flush}

module _ {ℓ} {A : Type ℓ} where
  -- A run of trade messages, each with the time of its arrival.
  abbrev pub messages : List (ℕ × Trade) → Feed A → Feed A
  messages [] f = f
  messages ((now, d) ∷ ts) f = messages ts (on_message now (some d) f)

  abbrev pub entries : List (ℕ × Trade) → List (String × Price A)
  entries [] = []
  entries ((now, d) ∷ ts) = (coin_of d, price_of now d) ∷ entries ts

  abbrev pub values : List (String × Price A) → List (Price A)
  values = map (λ e. e.1)

  -- `onPrices` is called with a batch only if there is something in it.
  abbrev pub batches : List (Price A) → List (List (Price A))
  batches [] = []
  batches (p ∷ ps) = (p ∷ ps) ∷ []

  messages-eq :
      (ts : List (ℕ × Trade)) (f : Feed A)
      → messages ts f ≡ record f { pending = insert_all (entries ts) f.pending }
  unfolding on_message insert_all
  messages-eq [] f = refl
  messages-eq ((now, d) ∷ ts) f = messages-eq ts (on_message now (some d) f)

  pub deliver_lem :
      (table : List (String × Price A)) (f : Feed A)
      → f.pending ≡ table
      → ((deliver table f).0.pending ≡ []) × ((deliver table f).1 ≡ batches (values table))
  unfolding deliver
  deliver_lem [] f e = (e, refl)
  deliver_lem (x ∷ xs) f e = (refl, refl)

  -- While the feed is held a flush delivers nothing and keeps every pending trade. Otherwise, with
  -- nothing pending before a run of trades, the flush after it leaves nothing pending; the batch
  -- has no coin twice, and holds for each coin its last trade of the run, and no other coin.
  pub flush_coalesces :
      (ts : List (ℕ × Trade)) (f : Feed A) (coin : String)
      → f.pending ≡ []
      → let held = messages ts f in
        let table = held.pending in
        (flush true held ≡ (held, []))
        × ((flush false held).0.pending ≡ [])
        × ((flush false held).1 ≡ batches (values table))
        × HasUniqueKeys table
        × (lookup coin table ≡ latest coin (entries ts))
  unfolding flush lookup latest
  flush_coalesces ts f coin e =
      let held = messages ts f in
      let table : held.pending ≡ insert_all (entries ts) [] =
        ap (λ (g : Feed A). g.pending) (messages-eq ts f) ∙ ap (insert_all (entries ts)) e in
      let delivered = deliver_lem held.pending held refl in
      (
        refl,
        delivered.0,
        delivered.1,
        rw table (insert_all-HasUniqueKeys (entries ts) [] tt),
        rw table (lookup-insert_all coin (entries ts) [] ∙ or_else-none (latest coin (entries ts))),
      )
