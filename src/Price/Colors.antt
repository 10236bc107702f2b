-- ===== src/Price/Colors.antt =====
-- `colorForSymbol` and `nameForSymbol` of frontend/src/domain/price.ts. The hash is a 32-bit word: the
-- source keeps it as a signed word between the steps and reads it unsigned at the end, so the model
-- keeps the bits.
pub mod Tests
use crypto_dashboard.Prelude.Maps.{lookup}
use crypto_dashboard.Prelude.{
  Option, none, [], ◌∷◌, ◌∷◌, some, ◌%◌, ◌^◌, List, ◌*◌, ℕ, String, bit_xor,
}
use crypto_dashboard.Texts.{upper, codes}

abbrev pub word : ℕ
word = 2 ^ 32

abbrev pub fnv_offset : ℕ
fnv_offset = 2166136261

abbrev pub fnv_prime : ℕ
fnv_prime = 16777619

-- `h ^= c; h = Math.imul(h, 16777619)`
abbrev pub mix : ℕ → ℕ → ℕ
mix h c = bit_xor h c * fnv_prime % word

unfoldable pub hash : ℕ → List ℕ → ℕ
hash h [] = h
hash h (c ∷ cs) = hash (mix h c) cs

unfoldable pub brand_colors : List (String × String)
brand_colors =
    ("BTC", "#f7931a")
    ∷ ("ETH", "#627eea")
    ∷ ("SOL", "#14f195")
    ∷ ("LTC", "#345d9d")
    ∷ ("BNB", "#f3ba2f")
    ∷ ("XRP", "#9aa4b2")
    ∷ ("ADA", "#3cc8c8")
    ∷ ("DOGE", "#c2a633")
    ∷ ("AVAX", "#e84142")
    ∷ ("DOT", "#e6007a")
    ∷ ("LINK", "#2a5ada")
    ∷ ("BCH", "#8dc351")
    ∷ ("USDT", "#26a17b")
    ∷ ("USDC", "#2775ca")
    ∷ ("TRX", "#ef0027")
    ∷ ("TON", "#0098ea")
    ∷ ("MATIC", "#8247e5")
    ∷ ("SHIB", "#f00500")
    ∷ ("NEAR", "#00ec97")
    ∷ ("UNI", "#ff007a")
    ∷ ("ICP", "#3b00b9")
    ∷ ("APT", "#06f5d2")
    ∷ ("XLM", "#14b6e7")
    ∷ ("ATOM", "#2e3148")
    ∷ ("ETC", "#3ab83a")
    ∷ ("FIL", "#0090ff")
    ∷ ("HBAR", "#222222")
    ∷ ("ARB", "#28a0f0")
    ∷ ("OP", "#ff0420")
    ∷ ("SUI", "#4da2ff")
    ∷ ("PEPE", "#3d8c40")
    ∷ ("XMR", "#ff6600")
    ∷ []

unfoldable pub brand_names : List (String × String)
brand_names =
    ("BTC", "BITCOIN")
    ∷ ("ETH", "ETHEREUM")
    ∷ ("SOL", "SOLANA")
    ∷ ("LTC", "LITECOIN")
    ∷ ("BNB", "BNB")
    ∷ ("XRP", "XRP")
    ∷ ("ADA", "CARDANO")
    ∷ ("DOGE", "DOGECOIN")
    ∷ ("AVAX", "AVALANCHE")
    ∷ ("DOT", "POLKADOT")
    ∷ ("LINK", "CHAINLINK")
    ∷ ("BCH", "BITCOIN CASH")
    ∷ []

-- `name ?? other`
unfoldable pub or_text : Option String → String → String
or_text (some name) other = name
or_text none other = other

-- A colour is one of the table's texts, or `hsl(hue 68% 58%)`.
pub data Color : Type 0 where
  brand : String → Color
  hsl : ℕ → Color

-- What the table gives for an upper-case ticker, or else the generated colour.
unfoldable pub color_of : String → Option String → Color
color_of up (some color) = brand color
color_of up none = hsl (hash fnv_offset (codes up) % 360)

unfoldable pub color_for_symbol : String → Color
color_for_symbol symbol = let up = upper symbol in color_of up (lookup up brand_colors)

unfoldable pub name_for_symbol : String → String
name_for_symbol symbol = let up = upper symbol in or_text (lookup up brand_names) up
