-- ===== src/Prelude/Maps.antt =====
-- The part of JavaScript's `Map` that the program uses, with text keys: an association list in
-- insertion order. `set` on a present key keeps the key's place and replaces its value.
use crypto_dashboard.Prelude.{
  ◌≡◌, refl, Bool, false, ◌||◌, Option, none, some, List, [], ◌∷◌, arith, String, if◌then◌else◌,
  str_eq, eq_iff,
}

module _ {ℓ} {V : Type ℓ} where
  unfoldable pub lookup : String → List (String × V) → Option V
  lookup key [] = none
  lookup key ((k, v) ∷ rest) = if str_eq k key then some v else lookup key rest

  unfoldable pub insert : String → V → List (String × V) → List (String × V)
  insert key new [] = (key, new) ∷ []
  insert key new ((k, old) ∷ rest) =
      if str_eq k key then (k, new) ∷ rest else (k, old) ∷ insert key new rest

  -- Inserts the entries one after the other, as `for (const p of ps) m.set(...)` does.
  unfoldable pub insert_all : List (String × V) → List (String × V) → List (String × V)
  insert_all [] m = m
  insert_all ((k, v) ∷ ps) m = insert_all ps (insert k v m)

  -- The last entry of a key in a list of entries.
  unfoldable pub latest : String → List (String × V) → Option V
  latest k [] = none
  latest k ((j, v) ∷ ps) = elim (latest k ps) [
    | some w ↦ some w
    | none ↦ if str_eq j k then some v else none
  ]

  abbrev pub or_else : Option V → Option V → Option V
  or_else (some v) o = some v
  or_else none o = o

  pub or_else-none : (o : Option V) → or_else o none ≡ o
  or_else-none none = refl
  or_else-none (some v) = refl

  pub lookup-insert :
      (k j : String) (v : V) (m : List (String × V))
      → lookup j (insert k v m) ≡ (if str_eq k j then some v else lookup j m)
  unfolding lookup insert
  lookup-insert k j v [] = refl
  lookup-insert k j v ((other, old) ∷ rest) =
      let later = lookup-insert k j v rest in
      ground (arith, later, eq_iff other k, eq_iff other j, eq_iff k j)

  -- After a batch of writes a key holds its last write, or what it held before.
  pub lookup-insert_all :
      (j : String) (ps m : List (String × V))
      → lookup j (insert_all ps m) ≡ or_else (latest j ps) (lookup j m)
  unfolding insert_all latest
  lookup-insert_all j [] m = refl
  lookup-insert_all j ((k, v) ∷ ps) m =
      ground (arith, lookup-insert_all j ps (insert k v m), lookup-insert k j v m)

  unfoldable pub mem_key : String → List (String × V) → Bool
  mem_key k [] = false
  mem_key k ((j, v) ∷ m) = str_eq j k || mem_key k m

  -- No key occurs twice.
  abbrev pub HasUniqueKeys : List (String × V) → Type 0
  HasUniqueKeys [] = Unit
  HasUniqueKeys ((k, v) ∷ m) = (mem_key k m ≡ false) × HasUniqueKeys m

  mem_key-insert :
      (j k : String) (v : V) (m : List (String × V))
      → mem_key j (insert k v m) ≡ (str_eq k j || mem_key j m)
  unfolding mem_key insert
  mem_key-insert j k v [] = refl
  mem_key-insert j k v ((i, w) ∷ m) =
      ground (arith, eq_iff k j, eq_iff i k, eq_iff i j, mem_key-insert j k v m)

  pub insert-HasUniqueKeys :
      (k : String) (v : V) (m : List (String × V)) → HasUniqueKeys m → HasUniqueKeys (insert k v m)
  unfolding insert mem_key
  insert-HasUniqueKeys k v [] h = (refl, tt)
  insert-HasUniqueKeys k v ((i, w) ∷ m) h =
      ground (arith, eq_iff i k, eq_iff k i, insert-HasUniqueKeys k v m h.1, mem_key-insert i k v m)

  pub insert_all-HasUniqueKeys :
      (ps m : List (String × V)) → HasUniqueKeys m → HasUniqueKeys (insert_all ps m)
  unfolding insert_all
  insert_all-HasUniqueKeys [] m h = h
  insert_all-HasUniqueKeys ((k, v) ∷ ps) m h =
      insert_all-HasUniqueKeys ps (insert k v m) (insert-HasUniqueKeys k v m h)
