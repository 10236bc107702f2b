-- ===== src/Candles/Series.antt =====
-- The invariant of a candle series and its preservation by `foldTick`.
use crypto_dashboard.Prelude.{
  none, ◌||◌, ◌==◌, not, last?-eq-none, Option, ℕ, zero, suc, ◌-◌, ◌*◌, ◌/◌, ◌<◌, ◌≡◌, refl, inl,
  inr, some, List, [], ◌∷◌, ◌++◌, arith, length, drop, last?, init, All, All-append, All-drop,
  All-init, All-last?, Bool-cases, ltb, ap,
}
use native.Mathlib.Nat.{mul-div_cancel}
use crypto_dashboard.Numbers.{Num, IsOrdered, ◌≼◌, IsFinite}
use crypto_dashboard.Numbers.Order.{
  le-max_of_left, le-max_of_right, min_of-le_left, min_of-le_right, max_of-IsFinite,
  min_of-IsFinite,
}
use crypto_dashboard.Candles.{
  fold_ticks, fold_tick, Candle, bucket_start, keep_latest, fold_into, extend_candle, open_candle,
}

pub bucket_start_idem : (a b : ℕ) → bucket_start (bucket_start a b) b ≡ bucket_start a b
bucket_start_idem a zero = omega arith
bucket_start_idem a (suc b) = ap (λ (k : ℕ). k * suc b) (mul-div_cancel (a / suc b) (omega arith))

module _ {ℓ} {A : Type ℓ} ⦃n : Num A⦄ where
  -- One candle: finite prices, the range holds the open and the close, and the time is a boundary.
  pub record IsCandle (bucket_ms : ℕ) (k : Candle A) : Type 0 where
    pub o_finite : IsFinite k.o
    pub h_finite : IsFinite k.h
    pub l_finite : IsFinite k.l
    pub c_finite : IsFinite k.c
    pub o-le-h : k.o ≼ k.h
    pub c-le-h : k.c ≼ k.h
    pub l-le-o : k.l ≼ k.o
    pub l-le-c : k.l ≼ k.c
    pub aligned : bucket_start k.t bucket_ms ≡ k.t

module _ {ℓ} {A : Type ℓ} where
  -- Neighbours: later boundaries follow, and a bucket opens where the one before it closed.
  abbrev pub IsLinked : List (Candle A) → Type ℓ
  IsLinked [] = Unit
  IsLinked (x ∷ []) = Unit
  IsLinked (x ∷ y ∷ xs) = (x.t < y.t) × (y.o ≡ x.c) × IsLinked (y ∷ xs)

  pub IsLinked-drop : (k : ℕ) (xs : List (Candle A)) → IsLinked xs → IsLinked (drop k xs)
  IsLinked-drop zero xs h = h
  IsLinked-drop (suc k) [] h = h
  IsLinked-drop (suc k) (x ∷ []) h = IsLinked-drop k [] tt
  IsLinked-drop (suc k) (x ∷ y ∷ xs) h = IsLinked-drop k (y ∷ xs) h.2

  pub IsLinked-push :
      (xs : List (Candle A)) (last new : Candle A)
      → IsLinked xs
      → last? xs ≡ some last
      → last.t < new.t
      → new.o ≡ last.c
      → IsLinked (xs ++ new ∷ [])
  IsLinked-push [] last new h e later open_ = cc
  IsLinked-push (x ∷ []) last new h e later open_ = ground arith
  IsLinked-push (x ∷ y ∷ xs) last new h e later open_ =
      (h.0, h.1, IsLinked-push (y ∷ xs) last new h.2 e later open_)

  pub IsLinked-replace :
      (xs : List (Candle A)) (last new : Candle A)
      → IsLinked xs
      → last? xs ≡ some last
      → new.t ≡ last.t
      → new.o ≡ last.o
      → IsLinked (init xs ++ new ∷ [])
  IsLinked-replace [] last new h e same_t same_o = tt
  IsLinked-replace (x ∷ []) last new h e same_t same_o = tt
  IsLinked-replace (x ∷ y ∷ []) last new h e same_t same_o = ground arith
  IsLinked-replace (x ∷ y ∷ z ∷ xs) last new h e same_t same_o =
      (h.0, h.1, IsLinked-replace (y ∷ z ∷ xs) last new h.2 e same_t same_o)

module _ {ℓ} {A : Type ℓ} ⦃n : Num A⦄ where
  -- A series with one width of bucket.
  pub record IsSeries (bucket_ms : ℕ) (xs : List (Candle A)) : Type ℓ where
    pub each : All (IsCandle bucket_ms) xs
    pub linked : IsLinked xs

module _ {ℓ} {A : Type ℓ} ⦃n : Num A⦄ (laws : IsOrdered A) where
  open_candle-IsCandle :
      (bucket_ms : ℕ) (o value : A) (at_ms : ℕ)
      → IsFinite o
      → IsFinite value
      → IsCandle bucket_ms (open_candle o value (bucket_start at_ms bucket_ms))
  open_candle-IsCandle bucket_ms o value at_ms fo fv = record {
    o_finite = fo;
    h_finite = max_of-IsFinite o value fo fv;
    l_finite = min_of-IsFinite o value fo fv;
    c_finite = fv;
    o-le-h = le-max_of_left laws o value fo fv;
    c-le-h = le-max_of_right laws o value fo fv;
    l-le-o = min_of-le_left laws o value fo fv;
    l-le-c = min_of-le_right laws o value fo fv;
    aligned = bucket_start_idem at_ms bucket_ms;
  }

  extend_candle-IsCandle :
      (bucket_ms : ℕ) (k : Candle A) (value : A)
      → IsCandle bucket_ms k
      → IsFinite value
      → IsCandle bucket_ms (extend_candle k value)
  extend_candle-IsCandle bucket_ms k value v fv = record {
    o_finite = v.o_finite;
    h_finite = max_of-IsFinite k.h value v.h_finite fv;
    l_finite = min_of-IsFinite k.l value v.l_finite fv;
    c_finite = fv;
    o-le-h = laws.le_trans _ _ _ v.o-le-h (le-max_of_left laws k.h value v.h_finite fv);
    c-le-h = le-max_of_right laws k.h value v.h_finite fv;
    l-le-o = laws.le_trans _ _ _ (min_of-le_left laws k.l value v.l_finite fv) v.l-le-o;
    l-le-c = min_of-le_right laws k.l value v.l_finite fv;
    aligned = v.aligned;
  }

  keep_latest-IsSeries :
      (bucket_ms most : ℕ) (xs : List (Candle A))
      → IsSeries bucket_ms xs
      → IsSeries bucket_ms (keep_latest most xs)
  unfolding keep_latest
  keep_latest-IsSeries bucket_ms most xs s = elim (Bool-cases (ltb most (length xs))) [
    | inl long ↦ rw long (record {
      each = All-drop (IsCandle bucket_ms) (length xs - most) xs s.each;
      linked = IsLinked-drop (length xs - most) xs s.linked;
    })
    | inr short ↦ rw short s
  ]

  push-IsSeries :
      (bucket_ms at_ms : ℕ) (value : A) (xs : List (Candle A)) (last : Candle A)
      → IsSeries bucket_ms xs
      → last? xs ≡ some last
      → last.t < bucket_start at_ms bucket_ms
      → IsFinite value
      → IsSeries bucket_ms (xs ++ open_candle last.c value (bucket_start at_ms bucket_ms) ∷ [])
  push-IsSeries bucket_ms at_ms value xs last s e later fv =
      let v = All-last? (IsCandle bucket_ms) xs last s.each e in
      record {
        each =
            All-append (IsCandle bucket_ms) xs _ s.each
              (open_candle-IsCandle bucket_ms last.c value at_ms v.c_finite fv, tt);
        linked = IsLinked-push xs last _ s.linked e later refl;
      }

  replace-IsSeries :
      (bucket_ms : ℕ) (value : A) (xs : List (Candle A)) (last : Candle A)
      → IsSeries bucket_ms xs
      → last? xs ≡ some last
      → IsFinite value
      → IsSeries bucket_ms (init xs ++ extend_candle last value ∷ [])
  replace-IsSeries bucket_ms value xs last s e fv =
      let v = All-last? (IsCandle bucket_ms) xs last s.each e in
      record {
        each =
            All-append (IsCandle bucket_ms) (init xs) _ (All-init (IsCandle bucket_ms) xs s.each)
              (extend_candle-IsCandle bucket_ms last value v fv, tt);
        linked = IsLinked-replace xs last _ s.linked e refl refl;
      }

  start-IsSeries :
      (value : A) (at_ms bucket_ms : ℕ)
      → IsFinite value
      → IsSeries bucket_ms (open_candle value value (bucket_start at_ms bucket_ms) ∷ [])
  start-IsSeries value at_ms bucket_ms fv = record {
    each = (open_candle-IsCandle bucket_ms value value at_ms fv fv, tt);
    linked = tt;
  }

  fold_into-IsSeries :
      (xs : List (Candle A)) (value : A) (at_ms bucket_ms most : ℕ) (o : Option (Candle A))
      → last? xs ≡ o
      → IsSeries bucket_ms xs
      → IsFinite value
      → IsSeries bucket_ms (fold_into xs value (bucket_start at_ms bucket_ms) most o)
  unfolding fold_into
  fold_into-IsSeries xs value at_ms bucket_ms most none e s fv =
      keep_latest-IsSeries bucket_ms most _
        (rw (last?-eq-none xs e) (start-IsSeries value at_ms bucket_ms fv))
  fold_into-IsSeries xs value at_ms bucket_ms most (some last) e s fv =
      elim (Bool-cases (last.t == bucket_start at_ms bucket_ms)) [
        | inl same ↦ rw same (
            keep_latest-IsSeries bucket_ms most _ (replace-IsSeries bucket_ms value xs last s e fv))
        | inr other ↦ elim (Bool-cases (ltb (bucket_start at_ms bucket_ms) last.t)) [
          | inl older ↦ rw (other, older) s
          | inr newer ↦
              rw (other, newer)
                (keep_latest-IsSeries bucket_ms most _
                  (push-IsSeries bucket_ms at_ms value xs last s e (ground arith) fv))
        ]
      ]

  -- `foldTick` keeps the invariant of a series, for every value, NaN included, every time and
  -- every limit, if the trade has the width of bucket of the series: each candle is finite,
  -- starts on a boundary and holds its open and close in its range; the times rise; and each
  -- bucket opens where the one before it closed. The finite numbers are ordered.
  pub fold_tick-IsSeries :
      (xs : List (Candle A)) (value : A) (at_ms bucket_ms most : ℕ)
      → IsSeries bucket_ms xs
      → IsSeries bucket_ms (fold_tick xs value at_ms bucket_ms most)
  unfolding fold_tick
  fold_tick-IsSeries xs value at_ms bucket_ms most s =
      elim (Bool-cases (not (n.is_finite value) || bucket_ms == 0)) [
        | inl refused ↦ rw refused s
        | inr passed ↦
            rw passed
              (fold_into-IsSeries xs value at_ms bucket_ms most (last? xs) refl s (ground arith))
      ]

  -- The same for a run of trades.
  pub fold_ticks-IsSeries :
      (bucket_ms most : ℕ) (xs : List (Candle A)) (ticks : List (A × ℕ))
      → IsSeries bucket_ms xs
      → IsSeries bucket_ms (fold_ticks bucket_ms most xs ticks)
  unfolding fold_ticks
  fold_ticks-IsSeries bucket_ms most xs [] s = s
  fold_ticks-IsSeries bucket_ms most xs ((value, at_ms) ∷ ticks) s =
      fold_ticks-IsSeries bucket_ms most (fold_tick xs value at_ms bucket_ms most) ticks
        (fold_tick-IsSeries xs value at_ms bucket_ms most s)
