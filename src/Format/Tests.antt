-- ===== src/Format/Tests.antt =====
-- Prices and caps of every size, with digits that say how they were asked for.
use crypto_dashboard.Prelude.{◌≡◌, refl, none, some, if◌then◌else◌, ◌==◌}
use crypto_dashboard.Prelude.Int.{ℤ, pos, negsuc, ◌-ℤ◌}
use crypto_dashboard.Numbers.Integers.{int_num}
use crypto_dashboard.Format.{
  NumberTexts, usd, pct, arrow, compact, fmt_compact, fmt_tile, fmt_supply,
}

abbrev texts : NumberTexts ℤ
texts = record {
  to_fixed = λ d a. if d == 0 then "n" else if d == 1 then "n.n" else "n.nn";
  to_locale = λ lo hi a. if hi == 0 then "n,n" else "n,n.nn";
}

formats :
    (usd texts (pos 5000) ≡ "$n,n")
    × (usd texts (pos 5) ≡ "$n,n.nn")
    × (pct texts (pos 1) ≡ "+n.nn%")
    × (arrow texts (negsuc 1) ≡ "▼ n.nn%")
    × (compact texts (pos 2_000_000_000_000) ≡ "$n.nnT")
    × (compact texts (pos 7) ≡ "$n")
    × (fmt_compact texts none ≡ "—")
    × (fmt_tile texts (some (pos 5000)) ≡ "$n,n")
    × (fmt_supply texts (some (pos 3_000_000)) ≡ "n.nnM")
unfolding usd pct arrow compact fmt_compact fmt_tile fmt_supply ◌-ℤ◌
formats = (refl, refl, refl, refl, refl, refl, refl, refl, refl)
