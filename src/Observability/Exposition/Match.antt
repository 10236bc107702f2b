-- ===== src/Observability/Exposition/Match.antt =====
-- A written sample against the expression.
use crypto_dashboard.Prelude.{
  ℕ, ◌==◌, not, ◌&&◌, ◌||◌, ◌≡◌, refl, ap, ◌∙◌, arith, Bool, true, false, Option, none, some, List,
  [], ◌∷◌, ◌++◌, All, append_assoc, Bool-cases, inl, inr,
}
use crypto_dashboard.Observability.Exposition.{
  Chars, RawSample, is_blank, is_name_start, is_name_char, is_value_char, is_value, all_value,
  same_chars, span, braces, close_braces, value_part, match_line, labels_of,
}
use crypto_dashboard.Observability.Exposition.Pieces.{Lacks, Passes, Stops, span-append}
use crypto_dashboard.Observability.Exposition.Labels.{
  print_labels, IsLabel, AreFresh, labels_of-print, print_labels_marks,
}

abbrev pub print_braces : List (Chars × Chars) → Chars
print_braces [] = []
print_braces (l ∷ ls) = b'{' ∷ print_labels (l ∷ ls) ++ b'}' ∷ []

-- `name{key="value",...} value`
abbrev pub print_sample : RawSample → Chars
print_sample s = s.name ++ (print_braces s.labels ++ (b' ' ∷ s.value))

-- A sample that the reader takes: a name, labels with different keys, and a value of its expression.
pub record IsPrintable (s : RawSample) : Type 0 where
  pub starts : (c : ℕ) × (cs : Chars) × (s.name ≡ c ∷ cs) × (is_name_start c ≡ true)
  pub name : Passes is_name_char s.name
  pub labels : All IsLabel s.labels
  pub fresh : AreFresh [] s.labels
  pub value : is_value s.value ≡ true

-- A value has a first and a last character, and no blanks.
value_char : (c : ℕ) → is_value_char c ≡ true → (is_blank c ≡ false) × ((c == b'\n') ≡ false)
value_char c h = (ground arith, ground arith)

all_value-Lacks : (cs : Chars) → all_value cs ≡ true → Lacks is_blank cs
all_value-Lacks [] h = tt
all_value-Lacks (c ∷ cs) h = elim (Bool-cases (is_value_char c)) [
  | inl e ↦ ((value_char c e).0, all_value-Lacks cs (rw e at h))
  | inr e ↦ absurd (cc (rw e at h))
]

and_left : (a b : Bool) → (a && b) ≡ true → a ≡ true
and_left a b h = ground arith

and_right : (a b : Bool) → (a && b) ≡ true → b ≡ true
and_right a b h = ground arith

or_right : (a b : Bool) → a ≡ false → (a || b) ≡ true → b ≡ true
or_right a b h k = ground arith

same_chars-eq : (cs ds : Chars) → same_chars cs ds ≡ true → cs ≡ ds
unfolding same_chars
same_chars-eq [] [] h = refl
same_chars-eq [] (d ∷ ds) h = cc
same_chars-eq (c ∷ cs) [] h = cc
same_chars-eq (c ∷ cs) (d ∷ ds) h = ground (arith, same_chars-eq cs ds)

NaN-Lacks : (cs : Chars) → same_chars cs (b'N' ∷ b'a' ∷ b'N' ∷ []) ≡ true → Lacks is_blank cs
NaN-Lacks cs h = rw (same_chars-eq cs (b'N' ∷ b'a' ∷ b'N' ∷ []) h) (refl, (refl, (refl, tt)))

sign_char : (c : ℕ) → (c == b'-' || is_value_char c) ≡ true → is_blank c ≡ false
sign_char c h = ground arith

pub is_value-Lacks : (v : Chars) → is_value v ≡ true → Lacks is_blank v
unfolding is_value
is_value-Lacks [] h = cc
is_value-Lacks (c ∷ []) h = ((value_char c h).0, tt)
is_value-Lacks (c ∷ d ∷ cs) h =
    elim (Bool-cases ((c == b'-' || is_value_char c) && all_value (d ∷ cs))) [
      | inl e ↦ (sign_char c (and_left _ _ e), all_value-Lacks (d ∷ cs) (and_right _ _ e))
      | inr e ↦ NaN-Lacks (c ∷ d ∷ cs) (or_right _ _ e h)
    ]

abbrev inner_of : List (Chars × Chars) → Option Chars
inner_of [] = none
inner_of (l ∷ ls) = some (print_labels (l ∷ ls))

Lacks-Stops : (test : ℕ → Bool) (cs : Chars) → Lacks test cs → Stops test cs
Lacks-Stops test [] h = tt
Lacks-Stops test (c ∷ cs) h = h.0

Lacks-Passes : (cs : Chars) → Lacks (λ c. c == b'}') cs → Passes (λ c. not (c == b'}')) cs
Lacks-Passes [] h = tt
Lacks-Passes (c ∷ cs) h = (rw h.0 refl, Lacks-Passes cs h.1)

braces-print :
    (ls : List (Chars × Chars)) (v : Chars)
    → All IsLabel ls
    → braces (print_braces ls ++ (b' ' ∷ v)) ≡ some (inner_of ls, b' ' ∷ v)
unfolding braces
braces-print [] v h = refl
braces-print (l ∷ ls) v h =
    let inner = print_labels (l ∷ ls) in
    let stop = λ (d : ℕ). not (d == b'}') in
    ap (λ (cs : Chars). close_braces (span stop cs)) (append_assoc inner (b'}' ∷ []) (b' ' ∷ v))
    ∙ ap close_braces (
        span-append stop inner (b'}' ∷ (b' ' ∷ v))
          (Lacks-Passes inner (print_labels_marks (l ∷ ls) h).0) refl)

labels_of-inner :
    (ls : List (Chars × Chars)) → All IsLabel ls → AreFresh [] ls → labels_of (inner_of ls) ≡ ls
labels_of-inner [] h f = refl
labels_of-inner (l ∷ ls) h f = labels_of-print (l ∷ ls) h f (cc)

value_part-print :
    (v : Chars) → is_value v ≡ true → value_part (b' ' ∷ v) (span is_blank (b' ' ∷ v)) ≡ some v
value_part-print v h =
    rw (span-append is_blank (b' ' ∷ []) v (refl, tt) (Lacks-Stops is_blank v (is_value-Lacks v h)))
      (rw h refl)

braces-Stops :
    (ls : List (Chars × Chars)) (v : Chars) → Stops is_name_char (print_braces ls ++ (b' ' ∷ v))
braces-Stops [] v = refl
braces-Stops (l ∷ ls) v = refl

pub match_line-print :
    (c : ℕ) (cs : Chars) (ls : List (Chars × Chars)) (v : Chars)
    → is_name_start c ≡ true
    → Passes is_name_char (c ∷ cs)
    → All IsLabel ls
    → AreFresh [] ls
    → is_value v ≡ true
    → match_line ((c ∷ cs) ++ (print_braces ls ++ (b' ' ∷ v)))
      ≡ some (record { name = c ∷ cs; labels = ls; value = v })
unfolding match_line
match_line-print c cs ls v s p h f k =
    rw
      (
        s,
        span-append is_name_char cs (print_braces ls ++ (b' ' ∷ v)) p.1 (braces-Stops ls v),
        braces-print ls v h,
        value_part-print v k,
        labels_of-inner ls h f,
      )
      refl
