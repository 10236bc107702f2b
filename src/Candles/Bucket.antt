-- ===== src/Candles/Bucket.antt =====
-- What `foldTick` does to the open bucket, and over a whole bucket.
use crypto_dashboard.Candles.{
  Candle, bucket_start, keep_latest, extend_candle, open_candle, fold_into, fold_tick, fold_ticks,
}
use crypto_dashboard.Prelude.{
  refl, ◌||◌, zero, inr, suc, not, inl, last?-append, ◌∙◌, none, ltb, init, [], ◌==◌, ◌-◌, ◌∷◌,
  some, false, drop, Bool-cases, ◌++◌, ◌+◌, ◌≤◌, ◌≡◌, length, last?, Option, All, List, ◌<◌, ℕ,
  arith,
}
use crypto_dashboard.Numbers.{min_of, max_of, Num, IsFinite}

bucket_start_bounds :
    (at_ms bucket_ms : ℕ)
    → 0 < bucket_ms
    → let start = bucket_start at_ms bucket_ms in (start ≤ at_ms) × (at_ms < start + bucket_ms)
bucket_start_bounds at_ms bucket_ms h = grind arith

module _ {ℓ} {A : Type ℓ} where
  pub last?-drop : (k : ℕ) (xs : List A) → k < length xs → last? (drop k xs) ≡ last? xs
  last?-drop zero xs h = refl
  last?-drop (suc k) [] h = refl
  last?-drop (suc k) (x ∷ []) h = absurd (omega arith)
  last?-drop (suc k) (x ∷ y ∷ xs) h = last?-drop k (y ∷ xs) (omega arith)

  last?-keep_latest : (most : ℕ) (xs : List A) → 0 < most → last? (keep_latest most xs) ≡ last? xs
  unfolding keep_latest
  last?-keep_latest most xs h = elim (Bool-cases (ltb most (length xs))) [
    | inl long ↦ rw long (last?-drop (length xs - most) xs (ground arith))
    | inr short ↦ rw short
  ]

  last?-keep_latest-push :
      (most : ℕ) (xs : List A) (k : A) → 0 < most → last? (keep_latest most (xs ++ k ∷ [])) ≡ some k
  last?-keep_latest-push most xs k h = last?-keep_latest most (xs ++ k ∷ []) h ∙ last?-append xs k

module _ {ℓ} {A : Type ℓ} ⦃n : Num A⦄ where
  -- The trade is not older than the open bucket.
  abbrev pub IsCurrent : List (Candle A) → ℕ → Type ℓ
  IsCurrent xs start = (k : Candle A) → last? xs ≡ some k → k.t ≤ start

  last?-fold_into :
      (xs : List (Candle A)) (value : A) (start most : ℕ) (o : Option (Candle A))
      → last? xs ≡ o
      → 0 < most
      → IsCurrent xs start
      → (k : Candle A) × (last? (fold_into xs value start most o) ≡ some k)
        × (k.t ≡ start)
        × (k.c ≡ value)
  unfolding fold_into
  last?-fold_into xs value start most none e pos now =
      (open_candle value value start, last?-keep_latest-push most xs _ pos, refl, refl)
  last?-fold_into xs value start most (some last) e pos now = elim (Bool-cases (last.t == start)) [
    | inl same ↦
        rw same (
          extend_candle last value,
          last?-keep_latest-push most (init xs) _ pos,
          ground arith,
          refl,
        )
    | inr other ↦ elim (Bool-cases (ltb start last.t)) [
      | inl older ↦ absurd (ground (arith, now last e))
      | inr newer ↦
          rw (other, newer)
            (open_candle last.c value start, last?-keep_latest-push most xs _ pos, refl, refl)
    ]
  ]

  -- A finite trade that is not older than the open bucket ends the series: the last candle closes at
  -- the trade's value, and the trade's time lies in its bucket. The width and the limit are positive.
  pub fold_tick_last :
      (xs : List (Candle A)) (value : A) (at_ms bucket_ms most : ℕ)
      → IsFinite value
      → 0 < bucket_ms
      → 0 < most
      → IsCurrent xs (bucket_start at_ms bucket_ms)
      → (k : Candle A) × (last? (fold_tick xs value at_ms bucket_ms most) ≡ some k)
        × (k.c ≡ value)
        × (k.t ≤ at_ms)
        × (at_ms < k.t + bucket_ms)
  unfolding fold_tick
  fold_tick_last xs value at_ms bucket_ms most fv width pos now =
      let start = bucket_start at_ms bucket_ms in
      let (k, is_last, at_start, closes) =
        last?-fold_into xs value start most (last? xs) refl pos now in
      let passed : (not (n.is_finite value) || bucket_ms == 0) ≡ false = ground arith in
      let bounds = bucket_start_bounds at_ms bucket_ms width in
      rw passed (k, is_last, closes, omega arith, omega arith)

  -- The greatest and the least of a value and the trades after it, and the last of them.
  abbrev pub highest : A → List (A × ℕ) → A
  highest m [] = m
  highest m ((v, at_ms) ∷ ticks) = highest (max_of m v) ticks

  abbrev pub lowest : A → List (A × ℕ) → A
  lowest m [] = m
  lowest m ((v, at_ms) ∷ ticks) = lowest (min_of m v) ticks

  abbrev pub closing : A → List (A × ℕ) → A
  closing c [] = c
  closing c ((v, at_ms) ∷ ticks) = closing v ticks

  -- Every trade is finite and falls into the bucket from `start` on.
  abbrev pub AllWithin : ℕ → ℕ → List (A × ℕ) → Type 0
  AllWithin bucket_ms start =
      All (λ tick. IsFinite tick.0 × (bucket_start tick.1 bucket_ms ≡ start))

  fold_tick_within :
      (k : Candle A) (value : A) (at_ms bucket_ms most : ℕ)
      → IsFinite value
      → 0 < bucket_ms
      → 0 < most
      → bucket_start at_ms bucket_ms ≡ k.t
      → fold_tick (k ∷ []) value at_ms bucket_ms most ≡ extend_candle k value ∷ []
  unfolding fold_tick fold_into keep_latest
  fold_tick_within k value at_ms bucket_ms most fv width pos e = ground arith

  fold_tick_first :
      (value : A) (at_ms bucket_ms most start : ℕ)
      → IsFinite value
      → 0 < bucket_ms
      → 0 < most
      → bucket_start at_ms bucket_ms ≡ start
      → fold_tick [] value at_ms bucket_ms most
        ≡ record { t = start; o = value; h = value; l = value; c = value } ∷ []
  unfolding fold_tick fold_into keep_latest
  fold_tick_first value at_ms bucket_ms most start fv width pos e = ground arith

  fold_ticks_within :
      (bucket_ms most : ℕ) (k : Candle A) (ticks : List (A × ℕ))
      → 0 < bucket_ms
      → 0 < most
      → AllWithin bucket_ms k.t ticks
      → fold_ticks bucket_ms most (k ∷ []) ticks
        ≡ record {
          t = k.t;
          o = k.o;
          h = highest k.h ticks;
          l = lowest k.l ticks;
          c = closing k.c ticks;
        }
          ∷ []
  unfolding fold_ticks
  fold_ticks_within bucket_ms most k [] width pos all = refl
  fold_ticks_within bucket_ms most k ((v, at_ms) ∷ ticks) width pos all =
      rw (fold_tick_within k v at_ms bucket_ms most all.0.0 width pos all.0.1)
        (fold_ticks_within bucket_ms most (extend_candle k v) ticks width pos all.1)

  -- A run of finite trades that all fall into one bucket, folded into the empty series, gives the one
  -- candle that summarises them: it opens at the first, closes at the last, and its range is from the
  -- least to the greatest. The width and the limit are positive.
  pub fold_ticks_one_bucket :
      (bucket_ms most start : ℕ) (v : A) (at_ms : ℕ) (ticks : List (A × ℕ))
      → 0 < bucket_ms
      → 0 < most
      → AllWithin bucket_ms start ((v, at_ms) ∷ ticks)
      → fold_ticks bucket_ms most [] ((v, at_ms) ∷ ticks)
        ≡ record { t = start; o = v; h = highest v ticks; l = lowest v ticks; c = closing v ticks }
          ∷ []
  unfolding fold_ticks
  fold_ticks_one_bucket bucket_ms most start v at_ms ticks width pos all =
      rw (fold_tick_first v at_ms bucket_ms most start all.0.0 width pos all.0.1)
        (fold_ticks_within bucket_ms most _ ticks width pos all.1)
