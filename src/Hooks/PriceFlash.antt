-- ===== src/Hooks/PriceFlash.antt =====
-- frontend/src/presentation/hooks/usePriceFlash.ts: the direction of the last move, and the flash.
pub mod Flashing
use crypto_dashboard.Prelude.{Bool, true, false, Option, none, some, not, ◌&&◌, ◌||◌, if◌then◌else◌}
use crypto_dashboard.Numbers.{Num}

pub data Move : Type 0 where
  up down : Move

-- The argument of the hook, `number | null | undefined`.
pub data Input {ℓ} (A : Type ℓ) : Type ℓ where
  null undefined : Input A
  number : A → Input A

-- The state, the references, the dependency of the last effect run (`none` before the first), and whether
-- the timer that ends the flash is set.
pub record Flash {ℓ} (A : Type ℓ) : Type ℓ where
  pub dir : Option Move
  pub flashing : Bool
  pub prev : Option A
  pub first : Option A
  pub seen : Option (Input A)
  pub timer : Bool

module _ {ℓ} {A : Type ℓ} where
  unfoldable pub mount : Flash A
  mount = record {
    dir = none;
    flashing = false;
    prev = none;
    first = none;
    seen = none;
    timer = false;
  }

  abbrev pub keep_first : Option A → A → Option A
  keep_first none price = some price
  keep_first (some first) price = some first

  -- The cleanup of the last effect run: `clearTimeout`.
  unfoldable pub cleanup : Flash A → Flash A
  cleanup f = record f { timer = false }

  -- The timer, 450 ms after the move: `setFlashing(false)`.
  unfoldable pub timeout : Flash A → Flash A
  timeout f = if f.timer then record f { flashing = false; timer = false } else f

module _ {ℓ} {A : Type ℓ} ⦃n : Num A⦄ where
  -- The effect's end: compared with the price before.
  unfoldable pub flash_after : Option A → A → Flash A → Flash A
  flash_after none price f = f
  flash_after (some before) price f = if n.eq before price then f else record f {
    dir = some (if n.le price before then down else up);
    flashing = true;
    timer = true;
  }

  -- The body of the effect.
  unfoldable pub effect : Input A → Flash A → Flash A
  unfolding flash_after
  effect null f = f
  effect undefined f = f
  effect (number price) f =
      if n.is_finite price
      then flash_after f.prev price
          (record f { prev = some price; first = keep_first f.first price })
      else f

  -- `Object.is`, which compares a dependency: NaN is itself, and the two zeros differ.
  abbrev pub is_same_number : A → A → Bool
  is_same_number a b =
      let one = n.of_ℕ 1 in
      if n.eq a b
      then not (n.eq a (n.of_ℕ 0)) || n.eq (n.div one a) (n.div one b)
      else not (n.eq a a) && not (n.eq b b)

  abbrev pub is_same : Input A → Input A → Bool
  is_same null null = true
  is_same undefined undefined = true
  is_same (number a) (number b) = is_same_number a b
  is_same a b = false

  abbrev pub is_seen : Option (Input A) → Input A → Bool
  is_seen none price = false
  is_seen (some seen) price = is_same seen price

  -- A render with a price: if it is not the one of the last run, that run is cleaned up and the effect runs.
  unfoldable pub on_price : Input A → Flash A → Flash A
  unfolding effect cleanup
  on_price price f =
      if is_seen f.seen price then f else effect price (record (cleanup f) { seen = some price })

  unfoldable pub session_delta : Input A → Option A → Option A
  session_delta null first = none
  session_delta undefined first = none
  session_delta (number price) none = none
  session_delta (number price) (some first) = some (n.sub price first)
