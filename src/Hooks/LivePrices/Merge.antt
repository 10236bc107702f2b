-- ===== src/Hooks/LivePrices/Merge.antt =====
-- What the merge keeps: one price for each pair, the latest.
use crypto_dashboard.Texts.{◌<>◌}
use crypto_dashboard.Prelude.{false, ◌≡◌, refl, ap, ◌∙◌, arith, String, List, [], ◌∷◌, eq_iff, none}
use crypto_dashboard.Prelude.Maps.{
  lookup, insert, insert_all, latest, or_else, or_else-none, mem_key, HasUniqueKeys,
  lookup-insert_all, insert_all-HasUniqueKeys,
}
use crypto_dashboard.Price.{Price}
use crypto_dashboard.Hooks.LivePrices.{key_of, entries, values, merge}

module _ {ℓ} {A : Type ℓ} where
  -- Each price stands under its own key.
  abbrev IsKeyed : List (String × Price A) → Type 0
  IsKeyed [] = Unit
  IsKeyed ((k, p) ∷ table) = (key_of p ≡ k) × IsKeyed table

  insert-IsKeyed :
      (p : Price A) (table : List (String × Price A))
      → IsKeyed table
      → IsKeyed (insert (key_of p) p table)
  unfolding insert
  insert-IsKeyed p [] h = (refl, tt)
  insert-IsKeyed p ((k, q) ∷ table) h =
      ground (arith, eq_iff k (key_of p), insert-IsKeyed p table h.1)

  insert_all-IsKeyed :
      (ps : List (Price A)) (table : List (String × Price A))
      → IsKeyed table
      → IsKeyed (insert_all (entries ps) table)
  unfolding insert_all entries
  insert_all-IsKeyed [] table h = h
  insert_all-IsKeyed (p ∷ ps) table h =
      insert_all-IsKeyed ps (insert (key_of p) p table) (insert-IsKeyed p table h)

  entries-values :
      (table : List (String × Price A)) → IsKeyed table → entries (values table) ≡ table
  unfolding entries values
  entries-values [] h = refl
  entries-values ((k, p) ∷ table) h = rw (h.0, entries-values table h.1) refl

  latest_absent :
      (k : String) (table : List (String × Price A))
      → mem_key k table ≡ false
      → latest k table ≡ none
  unfolding latest mem_key
  latest_absent k [] h = refl
  latest_absent k ((j, p) ∷ table) h = ground (arith, latest_absent k table)

  latest_unique :
      (k : String) (table : List (String × Price A))
      → HasUniqueKeys table
      → latest k table ≡ lookup k table
  unfolding latest lookup mem_key
  latest_unique k [] h = refl
  latest_unique k ((j, p) ∷ table) h =
      ground (arith, latest_unique k table h.1, latest_absent k table, eq_iff j k, h.0)

  -- Each price with its coin and its currency.
  abbrev pub by_pair : List (Price A) → List (String × Price A)
  by_pair [] = []
  by_pair (p ∷ ps) = (p.coin <> ":" <> p.currency, p) ∷ by_pair ps

  entries-by_pair : (ps : List (Price A)) → entries ps ≡ by_pair ps
  unfolding entries key_of
  entries-by_pair [] = refl
  entries-by_pair (p ∷ ps) = ap (◌∷◌ (p.coin <> ":" <> p.currency, p)) (entries-by_pair ps)

  merge-entries :
      (prices incoming : List (Price A)) (pair : String)
      → HasUniqueKeys (entries (merge prices incoming))
        × (latest pair (entries (merge prices incoming))
            ≡ or_else (latest pair (entries incoming)) (latest pair (entries prices)))
  unfolding merge lookup latest
  merge-entries prices incoming pair =
      let old = insert_all (entries prices) [] in
      let table = insert_all (entries incoming) old in
      let keyed = insert_all-IsKeyed incoming old (insert_all-IsKeyed prices [] tt) in
      let unique =
        insert_all-HasUniqueKeys (entries incoming) old
          (insert_all-HasUniqueKeys (entries prices) [] tt) in
      let before : lookup pair old ≡ latest pair (entries prices) =
        lookup-insert_all pair (entries prices) [] ∙ or_else-none (latest pair (entries prices)) in
      rw (entries-values table keyed) (
        unique,
        latest_unique pair table unique
            ∙ lookup-insert_all pair (entries incoming) old
            ∙ ap (or_else (latest pair (entries incoming))) before,
      )

  -- After a batch the page shows one price for each pair of a coin and a currency: the last one of the
  -- batch if the batch has the pair, or else the last one it had.
  pub merge_lem :
      (prices incoming : List (Price A)) (pair : String)
      → let shown = by_pair (merge prices incoming) in
        HasUniqueKeys shown
        × (latest pair shown
            ≡ or_else (latest pair (by_pair incoming)) (latest pair (by_pair prices)))
  merge_lem prices incoming pair =
      rw
        (
          ← entries-by_pair (merge prices incoming),
          ← entries-by_pair incoming,
          ← entries-by_pair prices,
        )
        (merge-entries prices incoming pair)
