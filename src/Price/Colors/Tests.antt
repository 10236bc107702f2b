-- ===== src/Price/Colors/Tests.antt =====
-- Runs of the colours and of the names.
use crypto_dashboard.Texts.{upper}
use crypto_dashboard.Prelude.Maps.{lookup}
use crypto_dashboard.Prelude.{refl, ◌≡◌}
use crypto_dashboard.Price.Colors.{
  hash, brand_names, or_text, color_of, brand_colors, hsl, brand, color_for_symbol, name_for_symbol,
}

-- A ticker of the table gets the table's colour.
runs :
    (color_for_symbol "btc" ≡ brand "#f7931a")
    × (color_for_symbol "ZZZ" ≡ hsl 333)
    × (name_for_symbol "BTC" ≡ "BITCOIN")
    × (name_for_symbol "zzz" ≡ "ZZZ")
unfolding color_for_symbol color_of name_for_symbol or_text upper lookup hash brand_colors
    brand_names
runs = (refl, refl, refl, refl)
