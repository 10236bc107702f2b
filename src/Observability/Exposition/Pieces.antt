-- ===== src/Observability/Exposition/Pieces.antt =====
-- The pieces of a line: what each step of the reader makes of a well-formed piece with any rest behind it.
use crypto_dashboard.Prelude.{
  ℕ, ◌==◌, ◌≡◌, refl, ap, arith, Bool, true, false, some, [], ◌∷◌, ◌++◌, All,
}
use crypto_dashboard.Observability.Exposition.{
  Chars, is_blank, is_name_char, span, trim, trim_start, trim_end, cons_end, split, cut_at,
  strip_last, unquote,
}

-- All characters fail a test, and a rest at whose head a test fails.
abbrev pub Lacks : (ℕ → Bool) → Chars → Type 0
Lacks test cs = All (λ c. test c ≡ false) cs

abbrev pub Stops : (ℕ → Bool) → Chars → Type 0
Stops test [] = Unit
Stops test (c ∷ cs) = test c ≡ false

abbrev pub Passes : (ℕ → Bool) → Chars → Type 0
Passes test cs = All (λ c. test c ≡ true) cs

pub span-append :
    (test : ℕ → Bool) (cs rest : Chars)
    → Passes test cs
    → Stops test rest
    → span test (cs ++ rest) ≡ (cs, rest)
unfolding span
span-append test [] [] h s = refl
span-append test [] (c ∷ rest) h s = rw s refl
span-append test (c ∷ cs) rest h s = rw (h.0, span-append test cs rest h.1 s) refl

pub trim_end-append :
    (cs : Chars) (d : ℕ) → is_blank d ≡ false → trim_end (cs ++ d ∷ []) ≡ cs ++ d ∷ []
unfolding trim_end
trim_end-append [] d h = rw h refl
trim_end-append (c ∷ []) d h = rw h refl
trim_end-append (c ∷ x ∷ cs) d h = ap (cons_end c) (trim_end-append (x ∷ cs) d h)

pub trim_start-cons : (c : ℕ) (cs : Chars) → is_blank c ≡ false → trim_start (c ∷ cs) ≡ c ∷ cs
unfolding trim_start
trim_start-cons c cs h = rw h refl

-- A text with no blank at either end is trimmed already.
pub trim_closed :
    (c : ℕ) (cs : Chars) (d : ℕ)
    → is_blank c ≡ false
    → is_blank d ≡ false
    → trim (c ∷ cs ++ d ∷ []) ≡ c ∷ cs ++ d ∷ []
unfolding trim
trim_closed c cs d h k = rw (trim_start-cons c (cs ++ d ∷ []) h) (trim_end-append (c ∷ cs) d k)

trim_end_solid : (cs : Chars) → Lacks is_blank cs → trim_end cs ≡ cs
unfolding trim_end
trim_end_solid [] h = refl
trim_end_solid (c ∷ []) h = rw h.0 refl
trim_end_solid (c ∷ d ∷ cs) h = ap (cons_end c) (trim_end_solid (d ∷ cs) h.1)

-- A text with no blank in it.
pub trim_solid : (cs : Chars) → Lacks is_blank cs → trim cs ≡ cs
unfolding trim trim_start
trim_solid [] h = trim_end_solid [] h
trim_solid (c ∷ cs) h = rw h.0 (trim_end_solid (c ∷ cs) h)

-- A first part that lacks the separator.
pub split-append :
    (separator : ℕ) (cs rest : Chars)
    → Lacks (λ c. c == separator) cs
    → split separator (cs ++ separator ∷ rest) ≡ cs ∷ split separator rest
unfolding split
split-append separator [] rest h = ground arith
split-append separator (c ∷ cs) rest h = rw (h.0, split-append separator cs rest h.1) refl

pub split_whole :
    (separator : ℕ) (cs : Chars) → Lacks (λ c. c == separator) cs → split separator cs ≡ cs ∷ []
unfolding split
split_whole separator [] h = refl
split_whole separator (c ∷ cs) h = rw (h.0, split_whole separator cs h.1) refl

pub cut_at-append :
    (separator : ℕ) (cs rest : Chars)
    → Lacks (λ c. c == separator) cs
    → cut_at separator (cs ++ separator ∷ rest) ≡ some (cs, rest)
unfolding cut_at
cut_at-append separator [] rest h = ground arith
cut_at-append separator (c ∷ cs) rest h = rw (h.0, cut_at-append separator cs rest h.1) refl

strip_last-append : (cs : Chars) → strip_last (cs ++ b'"' ∷ []) ≡ cs
unfolding strip_last
strip_last-append [] = refl
strip_last-append (c ∷ []) = refl
strip_last-append (c ∷ d ∷ cs) = ap (◌∷◌ c) (strip_last-append (d ∷ cs))

pub unquote_lem : (cs : Chars) → unquote (b'"' ∷ cs ++ b'"' ∷ []) ≡ cs
unquote_lem cs = strip_last-append cs

-- The characters of a name and of a value are no blanks, nor any of the marks of a line.
pub name_char :
    (c : ℕ)
    → is_name_char c ≡ true
    → (is_blank c ≡ false)
      × ((c == b'=') ≡ false)
      × ((c == b',') ≡ false)
      × ((c == b'}') ≡ false)
      × ((c == b'\n') ≡ false)
name_char c h = (ground arith, ground arith, ground arith, ground arith, ground arith)
