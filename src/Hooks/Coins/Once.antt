-- ===== src/Hooks/Coins/Once.antt =====
-- The coin list is requested once, and is never empty.
use crypto_dashboard.Prelude.{
  if◌then◌else◌, inr, inl, Bool-cases, ◌≡◌, true, Option, none, some, List, [], ◌∷◌, refl, arith,
}
use crypto_dashboard.Price.{CoinMeta}
use crypto_dashboard.Hooks.Coins.{
  Registry, fresh, load, load_from, arrive, list_of, fallback_coins, fallback_from,
}

module _ {ℓ} {A : Type ℓ} where
  -- Components load at any time; a reply arrives once, for the request that is on its way.
  pub data Run : Registry A → Type ℓ where
    start : Run fresh
    loads : {r : Registry A} → Run r → Run (load r)
    arrives :
        {r : Registry A} (reply : Option (List (CoinMeta A)))
        → r.inflight ≡ true
        → r.cache ≡ none
        → Run r
        → Run (arrive reply r)

  abbrev pub IsFilled : Option (List (CoinMeta A)) → Type 0
  IsFilled none = Unit
  IsFilled (some []) = ⊥
  IsFilled (some (c ∷ list)) = Unit

  pub record IsSound (r : Registry A) : Type 0 where
    pub filled : IsFilled r.cache
    pub once : r.requests ≡ (if r.inflight then 1 else 0)

  list_of-IsFilled : (reply : Option (List (CoinMeta A))) → IsFilled (some (list_of reply))
  unfolding list_of fallback_coins fallback_from
  list_of-IsFilled none = tt
  list_of-IsFilled (some []) = tt
  list_of-IsFilled (some (c ∷ list)) = tt

  load_from-IsSound :
      (cache : Option (List (CoinMeta A))) (r : Registry A)
      → IsSound r
      → IsSound (load_from cache r)
  unfolding load_from
  load_from-IsSound (some list) r s = s
  load_from-IsSound none r s = record {
    filled = elim (Bool-cases r.inflight) [
      | inl going ↦ rw going s.filled
      | inr waiting ↦ rw waiting s.filled
    ];
    once = ground (arith, s.once);
  }

  -- However many components load, before and after the reply, one request is made if any
  -- component has loaded, and none before; and when the list is there it has a coin, whatever the reply was.
  pub coins_once : {r : Registry A} → Run r → IsSound r
  unfolding load arrive
  coins_once start = record { filled = tt; once = refl }
  coins_once (loads {r} run) = load_from-IsSound r.cache r (coins_once run)
  coins_once (arrives {r} reply e c run) =
      let s = coins_once run in record { filled = list_of-IsFilled reply; once = s.once }
