-- ===== src/Hooks/PriceFlash/Flashing.antt =====
-- When the flash ends, and when it does not.
use crypto_dashboard.Prelude.{
  inr, inl, Bool-cases, not, ◌&&◌, ◌≡◌, Bool, true, false, Option, none, some, List, [], ◌∷◌, refl,
  arith,
}
use crypto_dashboard.Numbers.{Num}
use crypto_dashboard.Hooks.PriceFlash.{
  Flash, Input, null, undefined, number, on_price, effect, flash_after, cleanup, timeout,
  keep_first, is_seen,
}

-- A render, or the end of the 450 ms of a timer.
pub data Event {ℓ} (A : Type ℓ) : Type ℓ where
  render : Input A → Event A
  elapse : Event A

module _ {ℓ} {A : Type ℓ} ⦃n : Num A⦄ where
  abbrev pub after : Event A → Flash A → Flash A
  after (render price) f = on_price price f
  after elapse f = timeout f

  abbrev pub run : List (Event A) → Flash A → Flash A
  run [] f = f
  run (e ∷ events) f = run events (after e f)

  -- Whether a price is a move: finite, and other than the finite price before it.
  abbrev pub is_move : Option A → Input A → Bool
  is_move (some before) (number price) = n.is_finite price && not (n.eq before price)
  is_move before price = false

  -- No render of a run is a move.
  abbrev pub Still : List (Event A) → Flash A → Type 0
  Still [] f = Unit
  Still (render price ∷ events) f = (is_move f.prev price ≡ false) × Still events (on_price price f)
  Still (elapse ∷ events) f = Still events (timeout f)

  -- A flash that shows, and no timer that would end it.
  abbrev pub IsStuck : Flash A → Type 0
  IsStuck f = (f.flashing ≡ true) × (f.timer ≡ false)

  flash_after-still :
      (prev : Option A) (price : A) (f : Flash A)
      → n.is_finite price ≡ true
      → is_move prev (number price) ≡ false
      → flash_after prev price f ≡ f
  unfolding flash_after
  flash_after-still none price f h still = refl
  flash_after-still (some before) price f h still =
      let same : n.eq before price ≡ true = ground arith in rw same refl

  effect-IsStuck :
      (price : Input A) (f : Flash A)
      → IsStuck f
      → is_move f.prev price ≡ false
      → IsStuck (effect price f)
  unfolding effect
  effect-IsStuck null f s still = s
  effect-IsStuck undefined f s still = s
  effect-IsStuck (number price) f s still = elim (Bool-cases (n.is_finite price)) [
    | inl h ↦
        let later = record f { prev = some price; first = keep_first f.first price } in
        rw (h, flash_after-still f.prev price later h still) s
    | inr h ↦ rw h s
  ]

  on_price-IsStuck :
      (price : Input A) (f : Flash A)
      → IsStuck f
      → is_move f.prev price ≡ false
      → IsStuck (on_price price f)
  unfolding on_price cleanup
  on_price-IsStuck price f s still = elim (Bool-cases (is_seen f.seen price)) [
    | inl h ↦ rw h s
    | inr h ↦
        rw h
          (effect-IsStuck price (record f { seen = some price; timer = false }) (s.0, refl) still)
  ]

  run-IsStuck :
      (events : List (Event A)) (f : Flash A) → IsStuck f → Still events f → IsStuck (run events f)
  unfolding timeout
  run-IsStuck [] f s still = s
  run-IsStuck (render price ∷ events) f s still =
      run-IsStuck events (on_price price f) (on_price-IsStuck price f s still.0) still.1
  run-IsStuck (elapse ∷ events) f s still =
      run-IsStuck events (timeout f) (rw s.1 (s.0, refl)) still

  -- A flash shows, and a render brings another price than the last one that is no move: it is missing, or
  -- not finite, or equal to the finite price before it. Then the flash shows from there on, whatever
  -- time passes and whatever renders follow, until one of them is a move: no timer ends it.
  pub flash_sticks :
      (f : Flash A) (price : Input A) (later : List (Event A))
      → f.flashing ≡ true
      → is_seen f.seen price ≡ false
      → is_move f.prev price ≡ false
      → Still later (on_price price f)
      → IsStuck (run later (on_price price f))
  unfolding on_price cleanup
  flash_sticks f price later s other still more =
      let cleaned = record f { seen = some price; timer = false } in
      let stuck : IsStuck (on_price price f) =
        rw other (effect-IsStuck price cleaned (s, refl) still) in
      run-IsStuck later (on_price price f) stuck more

  -- A render with the same price leaves the timer, and the timer ends the flash.
  pub flash_ends :
      (f : Flash A) (price : Input A)
      → f.timer ≡ true
      → is_seen f.seen price ≡ true
      → (timeout (on_price price f)).flashing ≡ false
  unfolding on_price timeout
  flash_ends f price t same = rw (same, t) refl
