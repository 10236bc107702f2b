-- ===== src/Indicators/Exponential.antt =====
-- `ema` against the weights of an exponential average.
use native.Mathlib.Nat.{zero-add}
use crypto_dashboard.Prelude.{
  ◌≡◌, refl, ap, sym, ◌∙◌, arith, ℕ, zero, suc, ◌+◌, ◌-◌, ◌==◌, ◌<◌, ◌≤◌, ltb, ◌||◌, false, Option,
  none, some, List, [], ◌∷◌, ◌++◌, get_elem?, replicate, take, drop, length, length-drop,
}
use crypto_dashboard.Numbers.{Num, IsExact, sum}
use crypto_dashboard.Indicators.{smoothing, seed_mean, smooth, ema_from, ema}

module _ {ℓ} {A : Type ℓ} ⦃n : Num A⦄ where
  -- A share that is scaled by `q` once for each of `age` later values.
  abbrev pub decayed : A → ℕ → A → A
  decayed q zero share = share
  decayed q (suc age) share = decayed q age (n.mul share q)

  -- The shares of the values, `k` of each, scaled once for each value behind it.
  abbrev pub shares : A → A → List A → A
  shares k q [] = n.of_ℕ 0
  shares k q (v ∷ rest) = n.add (decayed q (length rest) (n.mul v k)) (shares k q rest)

  -- The average of a start and the values that follow it: the start has the weight `q ^ m` for `m`
  -- values, and the value with `j` behind it the weight `k * q ^ j`.
  abbrev pub weighted : A → A → A → List A → A
  weighted k q start values = n.add (decayed q (length values) start) (shares k q values)

  -- What the loop holds after all of the values.
  abbrev ema_after : A → A → List A → A
  ema_after k prev [] = prev
  ema_after k prev (v ∷ rest) = ema_after k (smooth k prev v) rest

  get_elem?-ema_from :
      (k prev : A) (rest : List A) (j : ℕ)
      → j ≤ length rest
      → get_elem? (some prev ∷ ema_from k prev rest) j
        ≡ some (some (ema_after k prev (take j rest)))
  unfolding ema_from
  get_elem?-ema_from k prev rest zero h = refl
  get_elem?-ema_from k prev [] (suc j) h = absurd (omega arith)
  get_elem?-ema_from k prev (v ∷ rest) (suc j) h =
      get_elem?-ema_from k (smooth k prev v) rest j (omega arith)

  get_elem?-replicate_append :
      (w : ℕ) (out : List (Option A)) (i j : ℕ)
      → i ≡ w + j
      → get_elem? (replicate w none ++ out) i ≡ get_elem? out j
  get_elem?-replicate_append zero out i j e = rw (e, zero-add)
  get_elem?-replicate_append (suc w) out zero j e = absurd (omega arith)
  get_elem?-replicate_append (suc w) out (suc i) j e =
      get_elem?-replicate_append w out i j (omega arith)

module _ {ℓ} {A : Type ℓ} ⦃n : Num A⦄ (laws : IsExact A) where
  open laws use {distrib, sums}
  open sums use {add_assoc, add_comm, zero_add}

  decayed-add :
      (q : A) (age : ℕ) (a b : A)
      → decayed q age (n.add a b) ≡ n.add (decayed q age a) (decayed q age b)
  decayed-add q zero a b = refl
  decayed-add q (suc age) a b =
      ap (decayed q age) (distrib a b q) ∙ decayed-add q age (n.mul a q) (n.mul b q)

  ema_after-weighted :
      (k prev : A) (values : List A)
      → ema_after k prev values ≡ weighted k (n.sub (n.of_ℕ 1) k) prev values
  ema_after-weighted k prev [] = sym (add_comm prev (n.of_ℕ 0) ∙ zero_add prev)
  ema_after-weighted k prev (v ∷ rest) =
      let q = n.sub (n.of_ℕ 1) k in
      let age = length rest in
      let new = decayed q age (n.mul v k) in
      let old = decayed q age (n.mul prev q) in
      ema_after-weighted k (smooth k prev v) rest
      ∙ ap (λ a. n.add a (shares k q rest))
          (decayed-add q age (n.mul v k) (n.mul prev q) ∙ add_comm new old)
      ∙ add_assoc old new (shares k q rest)

  -- In exact arithmetic, with k = 2 / (period + 1) and q = 1 - k: the entry of `ema` that stands `j` places
  -- behind index `period - 1` is the weighted sum in which the mean of the first `period` values has
  -- the weight q ^ j, and of the `j` values that follow those each has the weight k * q ^ i, for `i`
  -- of the `j` values behind it. The period is positive and the input has `period + j` values.
  pub get_elem?-ema :
      (values : List A) (period j : ℕ)
      → 0 < period
      → period + j ≤ length values
      → let k = n.div (n.of_ℕ 2) (n.of_ℕ (period + 1)) in
        let mean = n.div (sum (take period values)) (n.of_ℕ period) in
        get_elem? (ema values period) (period - 1 + j)
        ≡ some (some (weighted k (n.sub (n.of_ℕ 1) k) mean (take j (drop period values))))
  unfolding ema
  get_elem?-ema values period j pos long =
      let passed : (period == 0 || ltb (length values) period) ≡ false = ground arith in
      let later = drop period values in
      rw passed (
        get_elem?-replicate_append (period - 1) _ (period - 1 + j) j refl
        ∙ get_elem?-ema_from (smoothing period) (seed_mean values period) later j
            (omega (arith, length-drop {ℓ} period values))
        ∙ ap (λ a. some (some a))
            (ema_after-weighted (smoothing period) (seed_mean values period) (take j later)))
