-- ===== src/Observability/Exposition/Escapes.antt =====
-- The text format 0.0.4 as a service writes it: a quote, a backslash and a line feed of a label's value are
-- escaped. The reader takes the text between the quotes as it stands.
use crypto_dashboard.Prelude.{
  ℕ, ◌==◌, not, ◌&&◌, ◌≡◌, refl, ap, ◌∙◌, arith, Bool, true, false, List, [], ◌∷◌, ◌++◌, map, All,
  if◌then◌else◌,
}
use crypto_dashboard.Observability.Exposition.{
  Chars, RawSample, is_name_start, is_name_char, is_value, same_chars, proto, parse_exposition,
}
use crypto_dashboard.Observability.Exposition.Pieces.{Lacks, Passes}
use crypto_dashboard.Observability.Exposition.Labels.{IsLabel, Absent, AreFresh}
use crypto_dashboard.Observability.Exposition.Match.{IsPrintable}
use crypto_dashboard.Observability.Exposition.RoundTrip.{
  Line, note, sample, samples, print_all, IsReadable, parse_exposition-print,
}

-- One character as the format writes it in a label's value.
abbrev pub escaped_char : ℕ → Chars
escaped_char c =
    if c == b'\n'
    then b'\\' ∷ b'n' ∷ []
    else if c == b'\\'
    then b'\\' ∷ b'\\' ∷ []
    else if c == b'"'
    then b'\\' ∷ b'"' ∷ []
    else c ∷ []

unfoldable pub escape : Chars → Chars
escape [] = []
escape (c ∷ cs) = escaped_char c ++ escape cs

-- What a character behind a backslash stands for.
abbrev pub plain_char : ℕ → ℕ
plain_char c = if c == b'n' then b'\n' else c

-- The format's own reading of an escaped text; `pending` says that a backslash came just before.
unfoldable pub unescape_from : Bool → Chars → Chars
unescape_from pending [] = []
unescape_from pending (c ∷ cs) =
    let opens = not pending && c == b'\\' in
    let rest = unescape_from opens cs in
    if opens then rest else (if pending then plain_char c else c) ∷ rest

abbrev pub unescape : Chars → Chars
unescape = unescape_from false

-- The labels of a sample, with a change of their values.
abbrev pub map_values : (Chars → Chars) → List (Chars × Chars) → List (Chars × Chars)
map_values f [] = []
map_values f ((k, v) ∷ labels) = (k, f v) ∷ map_values f labels

abbrev pub with_values : (Chars → Chars) → RawSample → RawSample
with_values f s = record s { labels = map_values f s.labels }

abbrev escaped_line : Line → Line
escaped_line (note text) = note text
escaped_line (sample s) = sample (with_values escape s)

abbrev escaped_lines : List Line → List Line
escaped_lines [] = []
escaped_lines (l ∷ lines) = escaped_line l ∷ escaped_lines lines

-- What a service writes.
abbrev pub write_all : List Line → Chars
write_all lines = print_all (escaped_lines lines)

-- A label that the reader can tell apart: a key of name characters other than the one that an object does not
-- take, and a value with no comma and no closing brace.
abbrev pub IsPlainLabel : Chars × Chars → Type 0
IsPlainLabel (k, v) =
    Passes is_name_char k
    × Lacks (λ c. c == b',') v
    × Lacks (λ c. c == b'}') v
    × (same_chars k proto ≡ false)

pub record IsWritable (s : RawSample) : Type 0 where
  pub starts : (c : ℕ) × (cs : Chars) × (s.name ≡ c ∷ cs) × (is_name_start c ≡ true)
  pub name : Passes is_name_char s.name
  pub labels : All IsPlainLabel s.labels
  pub fresh : AreFresh [] s.labels
  pub value : is_value s.value ≡ true

abbrev pub IsWritten : Line → Type 0
IsWritten (note text) = Lacks (λ c. c == b'\n') text
IsWritten (sample s) = IsWritable s

unescape-char :
    (c : ℕ) (cs : Chars) → unescape_from false (escaped_char c ++ cs) ≡ c ∷ unescape_from false cs
unfolding unescape_from
unescape-char c cs = ground arith

unescape-escape : (cs : Chars) → unescape (escape cs) ≡ cs
unfolding escape unescape_from
unescape-escape [] = refl
unescape-escape (c ∷ cs) = unescape-char c (escape cs) ∙ ap (◌∷◌ c) (unescape-escape cs)

escape-Lacks :
    (d : ℕ) (cs : Chars)
    → (b'\\' == d) ≡ false
    → (b'n' == d) ≡ false
    → (b'"' == d) ≡ false
    → Lacks (λ c. c == d) cs
    → Lacks (λ c. c == d) (escape cs)
unfolding escape
escape-Lacks d [] s e q h = tt
escape-Lacks d (c ∷ cs) s e q h = ground (arith, escape-Lacks d cs s e q h.1)

escape_feed : (cs : Chars) → Lacks (λ c. c == b'\n') (escape cs)
unfolding escape
escape_feed [] = tt
escape_feed (c ∷ cs) = ground (arith, escape_feed cs)

escaped-IsLabel :
    (labels : List (Chars × Chars))
    → All IsPlainLabel labels
    → All IsLabel (map_values escape labels)
escaped-IsLabel [] h = tt
escaped-IsLabel ((k, v) ∷ labels) h = (
  (
    h.0.0,
    escape-Lacks b',' v refl refl refl h.0.1,
    escape-Lacks b'}' v refl refl refl h.0.2,
    escape_feed v,
    h.0.3,
  ),
  escaped-IsLabel labels h.1,
)

escaped-Absent :
    (key : Chars) (labels : List (Chars × Chars))
    → Absent key labels
    → Absent key (map_values escape labels)
escaped-Absent key [] h = tt
escaped-Absent key ((k, v) ∷ labels) h = (h.0, escaped-Absent key labels h.1)

map_values-append :
    (f : Chars → Chars) (ls ms : List (Chars × Chars))
    → map_values f (ls ++ ms) ≡ map_values f ls ++ map_values f ms
map_values-append f [] ms = refl
map_values-append f ((k, v) ∷ ls) ms = ap (◌∷◌ (k, f v)) (map_values-append f ls ms)

escaped-AreFresh :
    (before labels : List (Chars × Chars))
    → AreFresh before labels
    → AreFresh (map_values escape before) (map_values escape labels)
escaped-AreFresh before [] h = tt
escaped-AreFresh before ((k, v) ∷ labels) h = (
  escaped-Absent k before h.0,
  rw (← map_values-append escape before ((k, v) ∷ []))
      (escaped-AreFresh (before ++ (k, v) ∷ []) labels h.1),
)

escaped-IsPrintable : (s : RawSample) → IsWritable s → IsPrintable (with_values escape s)
escaped-IsPrintable s h = record {
  starts = h.starts;
  name = h.name;
  labels = escaped-IsLabel s.labels h.labels;
  fresh = escaped-AreFresh [] s.labels h.fresh;
  value = h.value;
}

escaped-IsReadable :
    (lines : List Line) → All IsWritten lines → All IsReadable (escaped_lines lines)
escaped-IsReadable [] h = tt
escaped-IsReadable (note text ∷ lines) h = (h.0, escaped-IsReadable lines h.1)
escaped-IsReadable (sample s ∷ lines) h = (escaped-IsPrintable s h.0, escaped-IsReadable lines h.1)

samples-escaped :
    (lines : List Line) → samples (escaped_lines lines) ≡ map (with_values escape) (samples lines)
samples-escaped [] = refl
samples-escaped (note text ∷ lines) = samples-escaped lines
samples-escaped (sample s ∷ lines) = ap (◌∷◌ (with_values escape s)) (samples-escaped lines)

labels-unescaped :
    (labels : List (Chars × Chars)) → map_values unescape (map_values escape labels) ≡ labels
labels-unescaped [] = refl
labels-unescaped ((k, v) ∷ labels) = rw (unescape-escape v, labels-unescaped labels) refl

unescaped : (ss : List RawSample) → map (with_values unescape) (map (with_values escape) ss) ≡ ss
unescaped [] = refl
unescaped (s ∷ ss) = rw (labels-unescaped s.labels, unescaped ss) refl

-- What a service writes in the text format, with comments and samples in any order, each line with its line
-- feed, and a quote, a backslash and a line feed of a label's value escaped, is read back: exactly the
-- samples, in order, each with its name, its value and its labels, the value of a label in its
-- escaped form. With the escapes undone these are the samples that were written. The samples are ones
-- that the reader takes: a name of the format, labels with different keys of name characters, none
-- of them `__proto__`, and with values that have no comma and no closing brace, and a value of the digits,
-- points, exponents and plus signs of the expression, with a minus in front or not, or NaN. A comment
-- has no line feed in it.
pub parse_exposition-write :
    (lines : List Line)
    → All IsWritten lines
    → let read = parse_exposition (write_all lines) in
      (read ≡ map (with_values escape) (samples lines))
      × (map (with_values unescape) read ≡ samples lines)
parse_exposition-write lines h =
    let read : parse_exposition (write_all lines) ≡ map (with_values escape) (samples lines) =
      parse_exposition-print (escaped_lines lines) (escaped-IsReadable lines h)
      ∙ samples-escaped lines in
    (read, rw read (unescaped (samples lines)))
