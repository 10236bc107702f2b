-- ===== src/Clocks/Tests.antt =====
-- Clicks on the clocks that the page starts with.
use crypto_dashboard.Prelude.{◌≡◌, refl, String, List, [], ◌∷◌, arith, length}
use crypto_dashboard.Prelude.Sets.{has, delete}
use crypto_dashboard.Clocks.{toggle, default_codes, zones, find_zone, catalog}
use crypto_dashboard.Clocks.Choice.{IsChoice, toggles, toggles-IsChoice}

abbrev clicks : List String
clicks = "NYC" ∷ "DXB" ∷ "SIN" ∷ "HKG" ∷ "SHA" ∷ "SYD" ∷ []

-- The last click comes when eight clocks are there, and does nothing.
after_clicks :
    (toggles clicks default_codes
      ≡ "LDN" ∷ "TYO" ∷ "MAD" ∷ "MOW" ∷ "DXB" ∷ "SIN" ∷ "HKG" ∷ "SHA" ∷ [])
    × (length (zones ("NYC" ∷ "XXX" ∷ [])) ≡ 1)
unfolding toggle has delete zones find_zone catalog
after_clicks = (refl, refl)

default_codes-IsChoice : IsChoice default_codes
unfolding has
default_codes-IsChoice = record {
  some_clock = omega arith;
  few = omega arith;
  distinct = (refl, (refl, (refl, (refl, (refl, tt)))));
}

toggles-IsChoice_example : IsChoice (toggles clicks default_codes)
toggles-IsChoice_example = toggles-IsChoice clicks default_codes default_codes-IsChoice
