-- ===== src/Hooks/LocalState/Sessions.antt =====
-- What one visit leaves for the next, when the storage may refuse a write.
use crypto_dashboard.Prelude.{
  ◌≡◌, refl, String, Bool, true, false, Option, none, some, List, [], ◌∷◌,
}
use crypto_dashboard.Hooks.LocalState.{Local, mount, load, restored, set_value, save}

module _ {ℓ} {B : Type ℓ} (parse : String → Option B) (text : B → String) where
  -- Renders with another value each, in order, each with whether the storage refuses its save: what is
  -- stored at the end.
  abbrev pub changes : List (B × Bool) → Local B → Option String → Option String
  changes [] s raw = raw
  changes ((v, full) ∷ later) s raw =
      let next = set_value v s in changes later next (save text full next raw)

  -- A visit: mount and the save of the first render, which comes before the load has taken effect; the
  -- load and the save of the value that it gives, refused if `full`; and the changes.
  abbrev pub visit : B → Bool → List (B × Bool) → Option String → Option String
  visit initial full later raw =
      let first = mount initial in
      let kept = save text full first raw in
      let loaded = load parse kept first in changes later loaded (save text full loaded kept)

  -- The last value of a run whose save was taken, or `old` if none was.
  abbrev pub last_taken : Option B → List (B × Bool) → Option B
  last_taken old [] = old
  last_taken old ((v, true) ∷ later) = last_taken old later
  last_taken old ((v, false) ∷ later) = last_taken (some v) later

  -- The text of the last value that was taken, or what was stored before.
  abbrev pub stored_as : Option B → Option String → Option String
  stored_as none raw = raw
  stored_as (some v) raw = some (text v)

  -- What a mount with `initial` finds: a value that was stored, or what the text before gives.
  abbrev pub found : B → Option String → Option B → B
  found initial raw none = restored parse initial raw
  found initial raw (some v) = v

  abbrev holds : B → Local B
  holds v = record { value = v; loaded = true }

  changes-stored_as :
      (later : List (B × Bool)) (now : B) (taken : Option B) (raw : Option String)
      → changes later (holds now) (stored_as taken raw) ≡ stored_as (last_taken taken later) raw
  unfolding set_value save
  changes-stored_as [] now taken raw = refl
  changes-stored_as ((v, true) ∷ later) now taken raw = changes-stored_as later v taken raw
  changes-stored_as ((v, false) ∷ later) now taken raw = changes-stored_as later v (some v) raw

  visit-stored_as :
      (initial : B) (full : Bool) (later : List (B × Bool)) (raw : Option String)
      → visit initial full later raw
        ≡ stored_as (last_taken none ((restored parse initial raw, full) ∷ later)) raw
  unfolding mount load save
  visit-stored_as initial true later raw = changes-stored_as later _ none raw
  visit-stored_as initial false later raw =
      changes-stored_as later _ (some (restored parse initial raw)) raw

  -- After a visit with any changes of the value, of whose saves the storage refuses any: what is stored is
  -- the text of the last value that was taken, the one the visit began with among them, and what was
  -- stored before if none was taken. The first save of the next visit does not overwrite it, whether
  -- it is taken or not, and the next visit then has that last value, or what the text of before
  -- gives. JSON gives each value back from its text.
  pub local_state_roundtrip :
      ((v : B) → parse (text v) ≡ some v)
      → (initial again : B) (full again_full : Bool) (later : List (B × Bool)) (raw : Option String)
      → let stored = visit initial full later raw in
        let taken = last_taken none ((restored parse initial raw, full) ∷ later) in
        (stored ≡ stored_as taken raw)
        × (save text again_full (mount again) stored ≡ stored)
        × ((load parse stored (mount again)).value ≡ found again raw taken)
  unfolding save mount load restored
  local_state_roundtrip back initial again full again_full later raw =
      let taken = last_taken none ((restored parse initial raw, full) ∷ later) in
      let stored = visit-stored_as initial full later raw in
      (stored, refl, rw stored (value_of taken))
    where
      value_of : (o : Option B) → restored parse again (stored_as o raw) ≡ found again raw o
      value_of none = refl
      value_of (some v) = rw (back v) refl
