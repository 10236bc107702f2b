-- ===== src/Observability/Exposition/Tests.antt =====
-- A small answer of /metrics, and a line that the reader drops.
use crypto_dashboard.Prelude.{map, ◌≡◌, refl, List, [], ◌∷◌, arith}
use crypto_dashboard.Texts.{codes}
use crypto_dashboard.Observability.Exposition.{
  RawSample, parse_exposition, parse_lines, match_line, span, braces, is_value, split, trim,
  trim_start, trim_end, same_chars,
}
use crypto_dashboard.Observability.Exposition.Escapes.{
  IsWritable, escape, unescape, with_values, write_all, parse_exposition-write,
}
use crypto_dashboard.Observability.Exposition.RoundTrip.{Line, note, sample}

abbrev polls : RawSample
polls = record {
  name = codes "cw_polls_total";
  labels = (codes "result", codes "\"ok\"") ∷ (codes "source", codes "coin gecko") ∷ [];
  value = codes "12";
}

abbrev answer : List Line
answer = note (codes " HELP cw_polls_total Poll cycles.") ∷ sample polls ∷ []

polls-IsWritable : IsWritable polls
unfolding is_value same_chars
polls-IsWritable = record {
  starts = (b'c', codes "w_polls_total", refl, refl);
  name = ground arith;
  labels = ground arith;
  fresh = ground arith;
  value = refl;
}

-- The quotes of "ok" are read back with their backslashes.
parse_exposition-write_example :
    (parse_exposition (write_all answer) ≡ with_values escape polls ∷ [])
    × (map (with_values unescape) (parse_exposition (write_all answer)) ≡ polls ∷ [])
parse_exposition-write_example =
    parse_exposition-write answer (ground arith, (polls-IsWritable, tt))

escaped_quote : escape (codes "\"ok\"") ≡ codes "\\\"ok\\\""
unfolding escape
escaped_quote = refl

-- The values of the format that are written with a negative exponent, or are infinite, are dropped.
dropped :
    (parse_exposition (codes "latency 5e-05") ≡ [])
    × (parse_exposition (codes "le +Inf") ≡ [])
    × (parse_exposition (codes "latency 5 1700000000") ≡ [])
unfolding parse_exposition parse_lines match_line span braces is_value split trim trim_start
    trim_end same_chars
dropped = (refl, refl, refl)
