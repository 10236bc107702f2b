-- ===== src/Panels/Icons.antt =====
-- Small parts of a page: the logo of a coin (frontend/src/presentation/components/CoinIcon.tsx), the shares of
-- PriceOverview.tsx and the line of MarketStatus.tsx beside it.
use crypto_dashboard.Prelude.{
  ◌≡◌, arith, ℕ, ◌+◌, ◌==◌, String, str_eq, Bool, true, false, Option, none, some, List, [], ◌∷◌,
  if◌then◌else◌,
}
use crypto_dashboard.Price.{CoinMeta}
use crypto_dashboard.Price.Colors.{Color, color_for_symbol}
use crypto_dashboard.Texts.{◌<>◌}

-- What is drawn: the provider's logo, or a disc with the first letter of the symbol.
pub data Icon : Type 0 where
  logo : String → Icon
  disc : Color → String → Icon

abbrev pub image_of {ℓ} : {A : Type ℓ} → Option (CoinMeta A) → Option String
image_of none = none
image_of (some m) = m.image

abbrev pub disc_color {ℓ} : {A : Type ℓ} → Option (CoinMeta A) → String → Color
disc_color none symbol = color_for_symbol symbol
disc_color (some m) symbol = m.color

-- `img && !failed`; `failed` is set by `onError` and never taken back.
abbrev pub logo_or : Option String → Bool → Icon → Icon
logo_or none failed icon = icon
logo_or (some image) true icon = icon
logo_or (some image) false icon = if str_eq image "" then icon else logo image

module _ {ℓ} {A : Type ℓ} (first_char : String → String) where
  unfoldable pub coin_icon : Option (CoinMeta A) → String → Bool → Icon
  coin_icon meta symbol failed =
      logo_or (image_of meta) failed (disc (disc_color meta symbol) (first_char symbol))

-- `SHARES`, in hundredths of a percent.
unfoldable pub shares : List (String × ℕ × String)
shares =
    ("BTC", 5231, "#ff9f0a")
    ∷ ("ETH", 1642, "#9b5cff")
    ∷ ("USDT", 521, "#2fd1c5")
    ∷ ("BNB", 312, "#f3ba2f")
    ∷ ("SOL", 271, "#14f195")
    ∷ ("XRP", 235, "#ff7f7f")
    ∷ ("ADA", 124, "#3c7cff")
    ∷ ("DOGE", 98, "#d0b84f")
    ∷ ("Others", 1566, "#8d96a8")
    ∷ []

-- A sector of the ring: its colour, where it starts and where it ends.
pub record Sector : Type 0 where
  pub color : String
  pub start : ℕ
  pub end : ℕ

-- The loop that makes the gradient, from an offset on.
unfoldable pub sectors : ℕ → List (String × ℕ × String) → List Sector
sectors offset [] = []
sectors offset ((coin, pct, color) ∷ rest) =
    record { color = color; start = offset; end = offset + pct } ∷ sectors (offset + pct) rest

-- The sectors lie side by side from one place to another.
abbrev pub Tile : ℕ → ℕ → List Sector → Type 0
Tile from to [] = from ≡ to
Tile from to (s ∷ rest) = (s.start ≡ from) × Tile s.end to rest

-- The ring is closed: its sectors lie side by side from 0 to 100 percent.
ring-Tile : Tile 0 10_000 (sectors 0 shares)
unfolding shares sectors
ring-Tile = ground arith

-- The line of MarketStatus; `text` writes a number.
unfoldable pub status_line : (ℕ → String) → Bool → ℕ → String
status_line text loading count =
    (if loading then "LOADING" else "LIVE")
    <> " · "
    <> (if count == 0 then "…" else "TOP " <> text count)
    <> " BY MKT CAP · USD EUR JPY RUB"
