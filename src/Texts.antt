-- ===== src/Texts.antt =====
-- The methods of JavaScript's strings that the program uses on ticker symbols and stream names.
-- `toUpperCase` and `toLowerCase` are modelled on ASCII letters, the alphabet of tickers; any other
-- character is left as it is.
pub mod Laws
use Prim.Native.Nat.{compare, Ordering}
use Prim.Native.Char.{Char, char, code, IsScalar, nul}
use Prim.Native.String
use mathlib.Core.Logic.{dite}
use crypto_dashboard.Prelude.{
  ◌∷◌, arith, [], ◌&&◌, ◌≡◌, str_eq, leb, List, ◌-◌, ◌+◌, if◌then◌else◌, String, Bool, ◌<◌, ℕ,
  dec_lt,
}

scalar_below : (k : ℕ) → k < 55296 → IsScalar k
scalar_below k h = let e : compare k 55296 ≡ Ordering.lt = ground arith in rw e tt

-- The character of a number below the surrogates.
unfoldable pub of_code : ℕ → Char
unfolding dec_lt scalar_below
of_code k = dite (dec_lt k 55296) (λ h. char k (scalar_below k h)) (λ _. nul)

abbrev pub is_lower : ℕ → Bool
is_lower c = leb b'a' c && leb c b'z'

abbrev pub is_upper : ℕ → Bool
is_upper c = leb b'A' c && leb c b'Z'

unfoldable pub upper_char : Char → Char
unfolding of_code
upper_char c = if is_lower (code c) then of_code (code c - 32) else c

unfoldable pub lower_char : Char → Char
unfolding of_code
lower_char c = if is_upper (code c) then of_code (code c + 32) else c

-- `s.toUpperCase()`
unfoldable pub upper : String → String
unfolding upper_char
upper String.[] = String.[]
upper (String.◌∷◌ c s) = String.◌∷◌ (upper_char c) (upper s)

-- `s.toLowerCase()`
unfoldable pub lower : String → String
unfolding lower_char
lower String.[] = String.[]
lower (String.◌∷◌ c s) = String.◌∷◌ (lower_char c) (lower s)

-- `s.replace(/USDT$/, "")` for a given ending.
unfoldable pub strip_ending : String → String → String
strip_ending ending String.[] = String.[]
strip_ending ending (String.◌∷◌ c s) =
    let rest = strip_ending ending s in
    if str_eq (String.◌∷◌ c s) ending then "" else String.◌∷◌ c rest

infixr 65 ◌<>◌
abbrev pub ◌<>◌ : String → String → String
s <> t = String.◌++◌ s t

-- `parts.join(separator)`
unfoldable pub join : String → List String → String
join separator [] = ""
join separator (s ∷ []) = s
join separator (s ∷ t ∷ parts) = s <> separator <> join separator (t ∷ parts)

-- The numbers of the characters, `s.charCodeAt(i)`, on text without surrogate pairs.
abbrev pub codes : String → List ℕ
codes String.[] = []
codes (String.◌∷◌ c s) = code c ∷ codes s
