-- ===== src/Charts/Window.antt =====
-- The window of live prices, over any run of batches.
use crypto_dashboard.Prelude.{
  ℕ, ◌+◌, ◌-◌, ◌≤◌, ◌≡◌, refl, ap, arith, ◌==◌, String, str_eq, Option, none, some, List, [], ◌∷◌,
  ◌++◌, Bool-cases, Option-cases, inl, inr, length, drop, last?, init, length-append, length-drop,
  last?-append, append-init-last?, zero, suc,
}
use crypto_dashboard.Numbers.{Num}
use crypto_dashboard.Price.{Price}
use crypto_dashboard.Charts.Realtime.{
  Tick, Chart, max_ticks, reset, keep_ticks, add_tick, take, take_hit, find_price, receive,
}

module _ {ℓ} {A : Type ℓ} where
  abbrev pub value_of : Option (Tick A) → Option A
  value_of none = none
  value_of (some k) = some k.v

  -- At most 600 ticks, of which the last one has the value of the headline; and the next direction is
  -- taken from that value.
  pub record IsWindow (c : Chart A) : Type ℓ where
    pub few : length c.ticks ≤ max_ticks
    pub shown : value_of (last? c.ticks) ≡ c.last
    pub compared : c.previous ≡ c.last

  last?-drop :
      (k : ℕ) (xs : List (Tick A)) (x : Tick A)
      → k ≤ length xs
      → last? (drop k (xs ++ x ∷ [])) ≡ some x
  last?-drop zero xs x h = last?-append xs x
  last?-drop (suc k) [] x h = absurd (omega arith)
  last?-drop (suc k) (y ∷ xs) x h = last?-drop k xs x (omega arith)

  length-init :
      (xs : List (Tick A)) (x : Tick A) → last? xs ≡ some x → length (init xs) + 1 ≡ length xs
  length-init xs x h =
      omega (arith, length-append (init xs) (x ∷ []), ap length (append-init-last? xs x h))

  keep_ticks-append :
      (xs : List (Tick A)) (k : Tick A)
      → length xs ≤ max_ticks
      → (length (keep_ticks (xs ++ k ∷ [])) ≤ max_ticks)
        × (last? (keep_ticks (xs ++ k ∷ [])) ≡ some k)
  keep_ticks-append xs k few =
      let size = length-append xs (k ∷ []) in
      (
        omega (arith, length-drop (length (xs ++ k ∷ []) - max_ticks) (xs ++ k ∷ [])),
        last?-drop (length (xs ++ k ∷ []) - max_ticks) xs k (omega (arith, size)),
      )

  add_tick-IsWindow :
      (xs : List (Tick A)) (k : Tick A)
      → length xs ≤ max_ticks
      → (length (add_tick xs k (last? xs)) ≤ max_ticks)
        × (last? (add_tick xs k (last? xs)) ≡ some k)
  unfolding add_tick
  add_tick-IsWindow xs k few = elim (Option-cases (last? xs)) [
    | inl e ↦ rw e (keep_ticks-append xs k few)
    | inr (old, e) ↦ elim (Bool-cases (old.t == k.t)) [
      | inl same ↦
          rw (e, same)
            (
              omega (arith, length-append (init xs) (k ∷ []), length-init xs old e),
              last?-append (init xs) k,
            )
      | inr other ↦ rw (e, other) (keep_ticks-append xs k few)
    ]
  ]

module _ {ℓ} {A : Type ℓ} ⦃n : Num A⦄ (number : String → A) where
  take-IsWindow : (v : A) (t : ℕ) (c : Chart A) → IsWindow c → IsWindow (take v t c)
  unfolding take
  take-IsWindow v t c w =
      let next = add_tick-IsWindow c.ticks (record { t = t; v = v }) w.few in
      record { few = next.0; shown = ap value_of next.1; compared = refl }

  take_hit-IsWindow :
      (hit : Option (Price A)) (c : Chart A) → IsWindow c → IsWindow (take_hit number hit c)
  take_hit-IsWindow none c w = w
  take_hit-IsWindow (some p) c w = take-IsWindow (number p.value) p.observed_at c w

  receive-IsWindow :
      (prices : List (Price A)) (c : Chart A) → IsWindow c → IsWindow (receive number prices c)
  unfolding receive
  receive-IsWindow prices c w = elim (Bool-cases (str_eq c.coin "")) [
    | inl no_coin ↦ rw no_coin w
    | inr coin ↦ rw coin (take_hit-IsWindow (find_price c.coin c.currency prices) c w)
  ]

  -- The batches of a subscription, one after the other.
  abbrev pub receive_all : List (List (Price A)) → Chart A → Chart A
  receive_all [] c = c
  receive_all (prices ∷ batches) c = receive_all batches (receive number prices c)

  receive_all-IsWindow :
      (batches : List (List (Price A))) (c : Chart A)
      → IsWindow c
      → IsWindow (receive_all batches c)
  receive_all-IsWindow [] c w = w
  receive_all-IsWindow (prices ∷ batches) c w =
      receive_all-IsWindow batches (receive number prices c) (receive-IsWindow prices c w)

  -- From a reset on, whatever batches come and in whatever order: the chart holds at most 600 ticks, the
  -- value of the last one is the headline, also where two trades share a millisecond, and it is the
  -- value that the next one is compared with.
  pub realtime-IsWindow :
      (batches : List (List (Price A))) (c : Chart A) → IsWindow (receive_all batches (reset c))
  unfolding reset
  realtime-IsWindow batches c =
      receive_all-IsWindow batches (reset c)
        (record { few = omega arith; shown = refl; compared = refl })
