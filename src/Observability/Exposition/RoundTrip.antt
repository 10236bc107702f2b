-- ===== src/Observability/Exposition/RoundTrip.antt =====
-- Lines with raw label values are read back, sample by sample.
use crypto_dashboard.Prelude.{
  ℕ, ◌==◌, ◌≡◌, refl, ap, sym, ◌∙◌, arith, true, false, List, [], ◌∷◌, ◌++◌, All, All-append,
  append_assoc, inl, inr, last?, init, append-init-last?, All-last?, Option-cases, last?-eq-none,
}
use crypto_dashboard.Observability.Exposition.{
  trim_start, trim_end, cons_end, Chars, RawSample, is_blank, is_name_start, is_name_char, is_value,
  is_comment, parse_lines, parse_exposition, split, trim,
}
use crypto_dashboard.Observability.Exposition.Pieces.{
  Lacks, Passes, trim_closed, split-append, name_char,
}
use crypto_dashboard.Observability.Exposition.Match.{
  print_braces, print_sample, IsPrintable, is_value-Lacks, match_line-print,
}
use crypto_dashboard.Observability.Exposition.Labels.{
  print_labels, IsLabel, AreFresh, print_labels_marks,
}

-- A line of the text: a comment, or a sample.
pub data Line : Type 0 where
  note : Chars → Line
  sample : RawSample → Line

abbrev pub print_line : Line → Chars
print_line (note text) = b'#' ∷ text
print_line (sample s) = print_sample s

-- Each line with the line feed behind it.
abbrev pub print_all : List Line → Chars
print_all [] = []
print_all (l ∷ lines) = print_line l ++ (b'\n' ∷ print_all lines)

abbrev pub samples : List Line → List RawSample
samples [] = []
samples (note text ∷ lines) = samples lines
samples (sample s ∷ lines) = s ∷ samples lines

abbrev pub IsReadable : Line → Type 0
IsReadable (note text) = Lacks (λ c. c == b'\n') text
IsReadable (sample s) = IsPrintable s

blank-Lacks : (cs : Chars) → Lacks is_blank cs → Lacks (λ c. c == b'\n') cs
blank-Lacks [] h = tt
blank-Lacks (c ∷ cs) h = (no_feed c h.0, blank-Lacks cs h.1)
  where
    no_feed : (d : ℕ) → is_blank d ≡ false → (d == b'\n') ≡ false
    no_feed d k = ground arith

print_braces-Lacks :
    (ls : List (Chars × Chars)) → All IsLabel ls → Lacks (λ c. c == b'\n') (print_braces ls)
print_braces-Lacks [] h = tt
print_braces-Lacks (l ∷ ls) h = (
  refl,
  All-append (λ c. (c == b'\n') ≡ false) (print_labels (l ∷ ls)) (b'}' ∷ [])
      (print_labels_marks (l ∷ ls) h).1 (refl, tt),
)

name-Lacks : (cs : Chars) → Passes is_name_char cs → Lacks (λ c. c == b'\n') cs
name-Lacks [] p = tt
name-Lacks (c ∷ cs) p = ((name_char c p.0).4, name-Lacks cs p.1)

print_sample-Lacks : (s : RawSample) → IsPrintable s → Lacks (λ c. c == b'\n') (print_sample s)
print_sample-Lacks s h =
    All-append (λ c. (c == b'\n') ≡ false) s.name (print_braces s.labels ++ (b' ' ∷ s.value))
      (name-Lacks s.name h.name)
      (All-append (λ c. (c == b'\n') ≡ false) (print_braces s.labels) (b' ' ∷ s.value)
        (print_braces-Lacks s.labels h.labels)
        (refl, blank-Lacks s.value (is_value-Lacks s.value h.value)))

-- The last character of a value.
value_end :
    (v : Chars)
    → is_value v ≡ true
    → (front : Chars) × (d : ℕ) × (front ++ d ∷ [] ≡ v) × (is_blank d ≡ false)
unfolding is_value
value_end [] h = absurd (ground arith)
value_end (c ∷ cs) h = elim (Option-cases (last? (c ∷ cs))) [
  | inl e ↦ absurd (ground (arith, last?-eq-none (c ∷ cs) e))
  | inr (d, e) ↦ (
    init (c ∷ cs),
    d,
    append-init-last? (c ∷ cs) d e,
    All-last? (λ x. is_blank x ≡ false) (c ∷ cs) d (is_value-Lacks (c ∷ cs) h) e,
  )
]

trim-print :
    (c : ℕ) (cs : Chars) (ls : List (Chars × Chars)) (v : Chars)
    → is_blank c ≡ false
    → is_value v ≡ true
    → trim ((c ∷ cs) ++ (print_braces ls ++ (b' ' ∷ v)))
      ≡ (c ∷ cs) ++ (print_braces ls ++ (b' ' ∷ v))
trim-print c cs ls v h k =
    let (front, d, whole, solid) = value_end v k in rw (← whole) (regroup front d solid)
  where
    regroup :
        (front : Chars) (d : ℕ)
        → is_blank d ≡ false
        → trim ((c ∷ cs) ++ (print_braces ls ++ (b' ' ∷ (front ++ d ∷ []))))
          ≡ (c ∷ cs) ++ (print_braces ls ++ (b' ' ∷ (front ++ d ∷ [])))
    regroup front d solid =
        let braced = print_braces ls in
        let inner = append_assoc braced (b' ' ∷ front) (d ∷ []) in
        let outer = append_assoc cs (braced ++ (b' ' ∷ front)) (d ∷ []) in
        let whole = ap (λ (xs : Chars). cs ++ xs) (sym inner) ∙ sym outer in
        rw whole (trim_closed c (cs ++ (braced ++ (b' ' ∷ front))) d h solid)

name_start : (c : ℕ) → is_name_start c ≡ true → (is_blank c ≡ false) × ((c == b'#') ≡ false)
name_start c h = (ground arith, ground arith)

read_sample :
    (c : ℕ) (cs : Chars) (ls : List (Chars × Chars)) (v : Chars) (rest : List Chars)
    → is_name_start c ≡ true
    → Passes is_name_char (c ∷ cs)
    → All IsLabel ls
    → AreFresh [] ls
    → is_value v ≡ true
    → parse_lines (((c ∷ cs) ++ (print_braces ls ++ (b' ' ∷ v))) ∷ rest)
      ≡ record { name = c ∷ cs; labels = ls; value = v } ∷ parse_lines rest
unfolding parse_lines
read_sample c cs ls v rest s p h f k =
    rw (trim-print c cs ls v (name_start c s).0 k)
      (rw ((name_start c s).1, match_line-print c cs ls v s p h f k) refl)

read_printable :
    (s : RawSample) (rest : List Chars)
    → IsPrintable s
    → parse_lines (print_sample s ∷ rest) ≡ s ∷ parse_lines rest
read_printable s rest h =
    let (c, cs, e, start) = h.starts in
    rw e (read_sample c cs s.labels s.value rest start (rw e at h.name) h.labels h.fresh h.value)

comment_end : (cs : Chars) → is_comment (cons_end b'#' cs) ≡ true
comment_end [] = refl
comment_end (c ∷ cs) = refl

read_note :
    (text : Chars) (rest : List Chars) → parse_lines ((b'#' ∷ text) ∷ rest) ≡ parse_lines rest
unfolding parse_lines trim trim_end
read_note text rest = rw (comment_end (trim_end text)) refl

-- Lines whose label values stand between the quotes as they are, with no line feed in them, are read back
-- sample by sample.
pub parse_exposition-print :
    (lines : List Line) → All IsReadable lines → parse_exposition (print_all lines) ≡ samples lines
unfolding parse_exposition
parse_exposition-print [] h = unfold parse_lines trim trim_start trim_end split in refl
parse_exposition-print (note text ∷ lines) h =
    rw (split-append b'\n' (b'#' ∷ text) (print_all lines) (refl, h.0))
      (read_note text (split b'\n' (print_all lines)) ∙ parse_exposition-print lines h.1)
parse_exposition-print (sample s ∷ lines) h =
    rw (split-append b'\n' (print_sample s) (print_all lines) (print_sample-Lacks s h.0)) (
      read_printable s (split b'\n' (print_all lines)) h.0
      ∙ ap (◌∷◌ s) (parse_exposition-print lines h.1))
