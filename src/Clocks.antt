-- ===== src/Clocks.antt =====
-- frontend/src/presentation/components/WorldClocks.tsx: the chosen market clocks; and the fixed ones of
-- terminal/HeaderClocks.tsx beside it. A time zone's clock is a parameter.
pub mod Choice
pub mod Tests
use crypto_dashboard.Prelude.{
  ℕ, String, str_eq, not, ltb, Bool, Option, none, some, List, [], ◌∷◌, ◌++◌, map, if◌then◌else◌,
  length,
}
use crypto_dashboard.Prelude.Sets.{has, delete}

pub record Zone : Type 0 where
  pub label : String
  pub code : String
  pub tz : String

abbrev zone : String → String → String → Zone
zone label code tz = record { label = label; code = code; tz = tz }

-- `CATALOG`
unfoldable pub catalog : List Zone
catalog =
    zone "New York" "NYC" "America/New_York"
    ∷ zone "London" "LDN" "Europe/London"
    ∷ zone "Tokyo" "TYO" "Asia/Tokyo"
    ∷ zone "Madrid" "MAD" "Europe/Madrid"
    ∷ zone "Moscow" "MOW" "Europe/Moscow"
    ∷ zone "Berlin" "BER" "Europe/Berlin"
    ∷ zone "Zurich" "ZRH" "Europe/Zurich"
    ∷ zone "Dubai" "DXB" "Asia/Dubai"
    ∷ zone "Singapore" "SIN" "Asia/Singapore"
    ∷ zone "Hong Kong" "HKG" "Asia/Hong_Kong"
    ∷ zone "Shanghai" "SHA" "Asia/Shanghai"
    ∷ zone "Sydney" "SYD" "Australia/Sydney"
    ∷ zone "São Paulo" "SAO" "America/Sao_Paulo"
    ∷ zone "San Francisco" "SFO" "America/Los_Angeles"
    ∷ []

abbrev pub default_codes : List String
default_codes = "NYC" ∷ "LDN" ∷ "TYO" ∷ "MAD" ∷ "MOW" ∷ []

abbrev pub max_clocks : ℕ
max_clocks = 8

-- `CATALOG.find((z) => z.code === c)`
unfoldable pub find_zone : String → List Zone → Option Zone
find_zone code [] = none
find_zone code (z ∷ zs) = if str_eq z.code code then some z else find_zone code zs

abbrev pub cons_found : Option Zone → List Zone → List Zone
cons_found none zs = zs
cons_found (some z) zs = z ∷ zs

-- The clocks on the page: a code that is not in the catalog has none.
unfoldable pub zones : List String → List Zone
unfolding find_zone catalog
zones [] = []
zones (c ∷ codes) = cons_found (find_zone c catalog) (zones codes)

unfoldable pub toggle : String → List String → List String
unfolding has delete
toggle code prev =
    if has code prev
    then (if ltb 1 (length prev) then delete code prev else prev)
    else if ltb (length prev) max_clocks
    then prev ++ code ∷ []
    else prev

-- The clocks of the header, before the first tick of its timer and after.
unfoldable pub header_zones : List (String × String)
header_zones =
    ("New York", "America/New_York")
    ∷ ("London", "Europe/London")
    ∷ ("Frankfurt", "Europe/Berlin")
    ∷ ("Tokyo", "Asia/Tokyo")
    ∷ []

abbrev pub time_or_blank : (String → ℕ → String) → String → Option ℕ → String
time_or_blank time_in tz none = "--:--"
time_or_blank time_in tz (some now) = time_in tz now

unfoldable pub header_clocks : (String → ℕ → String) → Option ℕ → List (String × String)
unfolding header_zones
header_clocks time_in now =
    map (λ (z : String × String). (z.0, time_or_blank time_in z.1 now)) header_zones
