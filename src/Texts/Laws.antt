-- ===== src/Texts/Laws.antt =====
-- Laws and runs of the string methods.
use native.Mathlib.Bridge.{le_prop}
use mathlib.Core.Logic.{dif_pos}
use crypto_dashboard.Prelude.{dec_lt, [], ◌-◌, ◌∷◌, refl, arith, ◌≡◌, String, ◌<◌, ℕ}
use Prim.Native.Char.{Char, code}
use crypto_dashboard.Texts.{of_code, upper_char, upper, lower, strip_ending, join}

code-of_code : (k : ℕ) → k < 55296 → code (of_code k) ≡ k
unfolding of_code
code-of_code k h = rw (dif_pos (dec_lt k 55296) le_prop h)

upper_char_idem : (c : Char) → upper_char (upper_char c) ≡ upper_char c
unfolding upper_char
upper_char_idem c = ground (arith, code-of_code (code c - 32))

-- Upper case is upper case already.
pub upper_idem : (s : String) → upper (upper s) ≡ upper s
unfolding upper
upper_idem String.[] = refl
upper_idem (String.◌∷◌ c s) = cc (upper_char_idem c, upper_idem s)

runs :
    (upper "btc2-x" ≡ "BTC2-X")
    × (lower "BTC" ≡ "btc")
    × (strip_ending "USDT" "BTCUSDT" ≡ "BTC")
    × (strip_ending "USDT" "USDTBTC" ≡ "USDTBTC")
    × (join "/" ("a" ∷ "b" ∷ []) ≡ "a/b")
unfolding upper lower strip_ending join
runs = (refl, refl, refl, refl, refl)
