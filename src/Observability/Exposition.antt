-- ===== src/Observability/Exposition.antt =====
-- `parseExposition` of frontend/src/presentation/components/terminal/prometheus.ts, on texts as lists of
-- character numbers. The regular expression
--   ^([a-zA-Z_:][a-zA-Z0-9_:]*)(\{[^}]*\})?\s+(-?[0-9.eE+]+|NaN)$
-- is matched part by part: no part can give back what it took, since the characters that may follow a
-- part are not its own. `Number` is a parameter.
pub mod Pieces
pub mod Labels
pub mod Match
pub mod RoundTrip
pub mod Escapes
pub mod Tests
use crypto_dashboard.Prelude.{
  ℕ, ◌==◌, leb, not, ◌&&◌, ◌||◌, Bool, true, false, String, Option, none, some, List, [], ◌∷◌, ◌++◌,
  map, if◌then◌else◌,
}
use Prim.Native.String
use crypto_dashboard.Texts.{codes, of_code}
use crypto_dashboard.Observability.{Sample}

abbrev pub Chars : Type 0
Chars = List ℕ

-- A sample as texts: the value is the one that `Number` reads.
pub record RawSample : Type 0 where
  pub name : Chars
  pub labels : List (Chars × Chars)
  pub value : Chars

-- `\s`, which is also what `trim` takes off.
abbrev pub is_blank : ℕ → Bool
is_blank c =
    leb 9 c && leb c 13
    || c == 32
    || c == 160
    || c == 0x1680
    || leb 0x2000 c && leb c 0x200a
    || leb 0x2028 c && leb c 0x2029
    || c == 0x202f
    || c == 0x205f
    || c == 0x3000
    || c == 0xfeff

abbrev pub is_letter : ℕ → Bool
is_letter c = leb b'a' c && leb c b'z' || (leb b'A' c && leb c b'Z')

abbrev pub is_digit : ℕ → Bool
is_digit c = leb b'0' c && leb c b'9'

abbrev pub is_name_start : ℕ → Bool
is_name_start c = is_letter c || c == b'_' || c == b':'

abbrev pub is_name_char : ℕ → Bool
is_name_char c = is_name_start c || is_digit c

-- `[0-9.eE+]`
abbrev pub is_value_char : ℕ → Bool
is_value_char c = is_digit c || c == b'.' || c == b'e' || c == b'E' || c == b'+'

-- The longest front part whose characters pass a test, and the rest.
unfoldable pub span : (ℕ → Bool) → Chars → Chars × Chars
span test [] = ([], [])
span test (c ∷ cs) =
    let rest = span test cs in if test c then (c ∷ rest.0, rest.1) else ([], c ∷ cs)

unfoldable pub trim_start : Chars → Chars
trim_start [] = []
trim_start (c ∷ cs) = let rest = trim_start cs in if is_blank c then rest else c ∷ cs

abbrev pub cons_end : ℕ → Chars → Chars
cons_end c [] = if is_blank c then [] else c ∷ []
cons_end c (d ∷ cs) = c ∷ d ∷ cs

unfoldable pub trim_end : Chars → Chars
trim_end [] = []
trim_end (c ∷ cs) = cons_end c (trim_end cs)

unfoldable pub trim : Chars → Chars
unfolding trim_start trim_end
trim cs = trim_end (trim_start cs)

abbrev pub cons_part : ℕ → List Chars → List Chars
cons_part c [] = (c ∷ []) ∷ []
cons_part c (part ∷ parts) = (c ∷ part) ∷ parts

-- `text.split(separator)`, for one character.
unfoldable pub split : ℕ → Chars → List Chars
split separator [] = [] ∷ []
split separator (c ∷ cs) =
    let parts = split separator cs in if c == separator then [] ∷ parts else cons_part c parts

abbrev pub cons_before : ℕ → Option (Chars × Chars) → Option (Chars × Chars)
cons_before c none = none
cons_before c (some (before, behind)) = some (c ∷ before, behind)

-- The place of the first `=`: what stands before it and behind it, `none` where there is none.
unfoldable pub cut_at : ℕ → Chars → Option (Chars × Chars)
cut_at separator [] = none
cut_at separator (c ∷ cs) =
    if c == separator then some ([], cs) else cons_before c (cut_at separator cs)

abbrev pub strip_first : Chars → Chars
strip_first [] = []
strip_first (c ∷ cs) = if c == b'"' then cs else c ∷ cs

unfoldable pub strip_last : Chars → Chars
strip_last [] = []
strip_last (c ∷ []) = if c == b'"' then [] else c ∷ []
strip_last (c ∷ d ∷ cs) = c ∷ strip_last (d ∷ cs)

-- `.replace(/^"|"$/g, "")`
abbrev pub unquote : Chars → Chars
unquote cs = strip_last (strip_first cs)

-- `labels[key] = value`, on a table in the order of insertion.
unfoldable pub same_chars : Chars → Chars → Bool
same_chars [] [] = true
same_chars (c ∷ cs) (d ∷ ds) = c == d && same_chars cs ds
same_chars cs ds = false

unfoldable pub put_label : Chars → Chars → List (Chars × Chars) → List (Chars × Chars)
unfolding same_chars
put_label key value [] = (key, value) ∷ []
put_label key value ((k, v) ∷ labels) =
    if same_chars k key then (k, value) ∷ labels else (k, v) ∷ put_label key value labels

-- The one key that an object does not take for its own.
abbrev pub proto : Chars
proto = b'_' ∷ b'_' ∷ b'p' ∷ b'r' ∷ b'o' ∷ b't' ∷ b'o' ∷ b'_' ∷ b'_' ∷ []

unfoldable pub set_label : Chars → Chars → List (Chars × Chars) → List (Chars × Chars)
unfolding put_label same_chars
set_label key value labels = if same_chars key proto then labels else put_label key value labels

abbrev pub put_pair : Option (Chars × Chars) → List (Chars × Chars) → List (Chars × Chars)
put_pair none labels = labels
put_pair (some (key, value)) labels = set_label (trim key) (unquote (trim value)) labels

-- The loop over the pairs; one without `=` is skipped.
unfoldable pub labels_from : List Chars → List (Chars × Chars) → List (Chars × Chars)
unfolding set_label cut_at trim strip_last
labels_from [] labels = labels
labels_from (pair ∷ pairs) labels = labels_from pairs (put_pair (cut_at b'=' pair) labels)

-- The labels of a sample, `m[2].slice(1, -1)` split at its commas; none without braces.
abbrev pub labels_of : Option Chars → List (Chars × Chars)
labels_of none = []
labels_of (some inner) = labels_from (split b',' inner) []

-- `-?[0-9.eE+]+|NaN`, as the whole of the rest.
abbrev pub all_value : Chars → Bool
all_value [] = true
all_value (c ∷ cs) = is_value_char c && all_value cs

unfoldable pub is_value : Chars → Bool
is_value [] = false
is_value (c ∷ []) = is_value_char c
is_value (c ∷ d ∷ cs) =
    (c == b'-' || is_value_char c) && all_value (d ∷ cs)
    || (same_chars (c ∷ d ∷ cs) (b'N' ∷ b'a' ∷ b'N' ∷ []))

-- The optional labels: what is between the braces, and the rest behind them; `none` where a brace that
-- opens is not closed, so that nothing matches.
abbrev pub close_braces : Chars × Chars → Option (Option Chars × Chars)
close_braces (inner, []) = none
close_braces (inner, c ∷ rest) = some (some inner, rest)

unfoldable pub braces : Chars → Option (Option Chars × Chars)
unfolding span
braces [] = some (none, [])
braces (c ∷ cs) =
    if c == b'{' then close_braces (span (λ d. not (d == b'}')) cs) else some (none, c ∷ cs)

-- `\s+` and the value, up to the end.
abbrev pub value_part : Chars → Chars × Chars → Option Chars
value_part whole ([], rest) = none
value_part whole (c ∷ blanks, rest) = if is_value rest then some rest else none

abbrev pub sample_of : Chars → Option Chars → Option Chars → Option RawSample
sample_of name inner none = none
sample_of name inner (some value) =
    some (record { name = name; labels = labels_of inner; value = value })

abbrev pub match_rest : Chars → Option (Option Chars × Chars) → Option RawSample
match_rest name none = none
match_rest name (some (inner, rest)) = sample_of name inner (value_part rest (span is_blank rest))

-- A trimmed line against the expression.
unfoldable pub match_line : Chars → Option RawSample
unfolding span braces is_value labels_from split
match_line [] = none
match_line (c ∷ cs) =
    if is_name_start c
    then (let (name, rest) = span is_name_char (c ∷ cs) in match_rest name (braces rest))
    else none

abbrev pub is_comment : Chars → Bool
is_comment [] = true
is_comment (c ∷ cs) = c == b'#'

abbrev pub cons_sample : Option RawSample → List RawSample → List RawSample
cons_sample none out = out
cons_sample (some s) out = s ∷ out

-- The loop over the lines.
unfoldable pub parse_lines : List Chars → List RawSample
unfolding match_line trim
parse_lines [] = []
parse_lines (raw ∷ lines) =
    let rest = parse_lines lines in
    let line = trim raw in if is_comment line then rest else cons_sample (match_line line) rest

unfoldable pub parse_exposition : Chars → List RawSample
unfolding parse_lines split
parse_exposition text = parse_lines (split b'\n' text)

-- The text of character numbers.
unfoldable pub text_of : Chars → String
unfolding of_code
text_of [] = String.[]
text_of (c ∷ cs) = String.◌∷◌ (of_code c) (text_of cs)

abbrev pub text_labels : List (Chars × Chars) → List (String × String)
text_labels [] = []
text_labels ((k, v) ∷ labels) = (text_of k, text_of v) ∷ text_labels labels

module _ {ℓ} {A : Type ℓ} (number : String → A) where
  abbrev pub sample_with : RawSample → Sample A
  sample_with s = record {
    name = text_of s.name;
    labels = text_labels s.labels;
    value = number (text_of s.value);
  }

  unfoldable pub samples_of : String → List (Sample A)
  unfolding parse_exposition text_of
  samples_of text = map sample_with (parse_exposition (codes text))
