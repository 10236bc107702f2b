-- ===== src/Hooks/LivePrices.antt =====
-- frontend/src/presentation/hooks/useLivePrices.ts: the snapshot and the merge of the live batches.
pub mod Merge
use crypto_dashboard.Prelude.{
  ℕ, String, Bool, true, false, Option, none, some, List, [], ◌∷◌, map, if◌then◌else◌,
}
use crypto_dashboard.Prelude.Maps.{insert_all}
use crypto_dashboard.Texts.{◌<>◌}
use crypto_dashboard.Price.{Price}

pub record LivePricesState {ℓ} (A : Type ℓ) : Type ℓ where
  pub prices : List (Price A)
  pub loading : Bool
  pub error : Option String
  pub live : Bool

-- The hook with the `cancelled` flag of its effect.
pub record Hook {ℓ} (A : Type ℓ) : Type ℓ where
  pub state : LivePricesState A
  pub cancelled : Bool

module _ {ℓ} {A : Type ℓ} where
  unfoldable pub key_of : Price A → String
  key_of p = p.coin <> ":" <> p.currency

  unfoldable pub entries : List (Price A) → List (String × Price A)
  entries [] = []
  entries (p ∷ ps) = (key_of p, p) ∷ entries ps

  unfoldable pub values : List (String × Price A) → List (Price A)
  values [] = []
  values ((k, p) ∷ table) = p ∷ values table

  -- `new Map(s.prices.map(...))`, the loop of `merged.set`, and `Array.from(merged.values())`
  unfoldable pub merge : List (Price A) → List (Price A) → List (Price A)
  unfolding entries values
  merge prices incoming = values (insert_all (entries incoming) (insert_all (entries prices) []))

  abbrev pub no_prices : LivePricesState A
  no_prices = record { prices = []; loading = true; error = none; live = false }

  unfoldable pub mount : Hook A
  mount = record { state = no_prices; cancelled = false }

  -- The snapshot arrives, or its request fails.
  unfoldable pub snapshot : List (Price A) → Hook A → Hook A
  snapshot prices h =
      if h.cancelled
      then h
      else record h { state = record h.state { prices = prices; loading = false; error = none } }

  unfoldable pub snapshot_failed : String → Hook A → Hook A
  snapshot_failed err h =
      if h.cancelled
      then h
      else record h { state = record h.state { loading = false; error = some err } }

  -- A live batch.
  unfoldable pub receive : List (Price A) → Hook A → Hook A
  unfolding merge
  receive incoming h = if h.cancelled then h else record h {
    state = record h.state { prices = merge h.state.prices incoming; loading = false; live = true };
  }

  -- The function that the effect returns; the stream is unsubscribed from as well.
  unfoldable pub unmount : Hook A → Hook A
  unmount h = record h { cancelled = true }
