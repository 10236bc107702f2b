-- ===== src/Observability/Exposition/Labels.antt =====
-- The labels of a sample, written and read back.
use crypto_dashboard.Prelude.{
  ℕ, ◌==◌, ◌≡◌, ◌≢◌, refl, ap, ◌∙◌, Bool, true, false, some, List, [], ◌∷◌, ◌++◌, All, All-append,
  append_assoc,
}
use crypto_dashboard.Observability.Exposition.{
  Chars, is_blank, is_name_char, split, cut_at, same_chars, proto, put_label, set_label, put_pair,
  labels_from, labels_of,
}
use crypto_dashboard.Observability.Exposition.Pieces.{
  Lacks, Passes, trim_solid, trim_closed, split-append, split_whole, cut_at-append, unquote_lem,
  name_char,
}

-- `key="value"`
abbrev pub quoted : Chars → Chars
quoted v = b'"' ∷ v ++ b'"' ∷ []

abbrev pub print_label : Chars × Chars → Chars
print_label (k, v) = k ++ (b'=' ∷ quoted v)

abbrev pub print_labels : List (Chars × Chars) → Chars
print_labels [] = []
print_labels (l ∷ []) = print_label l
print_labels (l ∷ m ∷ ls) = print_label l ++ (b',' ∷ print_labels (m ∷ ls))

-- A label that the reader takes: a key of name characters, and a value with no comma, no closing brace and no
-- line feed. The key is not the one that an object does not take.
abbrev pub IsLabel : Chars × Chars → Type 0
IsLabel (k, v) =
    Passes is_name_char k
    × Lacks (λ c. c == b',') v
    × Lacks (λ c. c == b'}') v
    × Lacks (λ c. c == b'\n') v
    × (same_chars k proto ≡ false)

abbrev pub Absent : Chars → List (Chars × Chars) → Type 0
Absent key labels = All (λ l. same_chars l.0 key ≡ false) labels

-- No key is one before it.
abbrev pub AreFresh : List (Chars × Chars) → List (Chars × Chars) → Type 0
AreFresh before [] = Unit
AreFresh before ((k, v) ∷ ls) = Absent k before × AreFresh (before ++ (k, v) ∷ []) ls

-- What a name lacks, and so what a written label lacks.
Passes-Lacks :
    (test : ℕ → Bool)
    → ((c : ℕ) → is_name_char c ≡ true → test c ≡ false)
    → (cs : Chars) → Passes is_name_char cs
    → Lacks test cs
Passes-Lacks test h [] p = tt
Passes-Lacks test h (c ∷ cs) p = (h c p.0, Passes-Lacks test h cs p.1)

pub print_label-Lacks :
    (test : ℕ → Bool) (k v : Chars)
    → Lacks test k
    → test b'=' ≡ false
    → test b'"' ≡ false
    → Lacks test v
    → Lacks test (print_label (k, v))
print_label-Lacks test k v hk e q hv =
    All-append (λ c. test c ≡ false) k (b'=' ∷ quoted v) hk
      (e, (q, All-append (λ c. test c ≡ false) v (b'"' ∷ []) hv (q, tt)))

pub key-Lacks :
    (k : Chars)
    → Passes is_name_char k
    → Lacks is_blank k
      × Lacks (λ c. c == b'=') k
      × Lacks (λ c. c == b',') k
      × Lacks (λ c. c == b'}') k
      × Lacks (λ c. c == b'\n') k
key-Lacks k p = (
  Passes-Lacks is_blank (λ c h. (name_char c h).0) k p,
  Passes-Lacks (λ c. c == b'=') (λ c h. (name_char c h).1) k p,
  Passes-Lacks (λ c. c == b',') (λ c h. (name_char c h).2) k p,
  Passes-Lacks (λ c. c == b'}') (λ c h. (name_char c h).3) k p,
  Passes-Lacks (λ c. c == b'\n') (λ c h. (name_char c h).4) k p,
)

put_label-Absent :
    (key value : Chars) (labels : List (Chars × Chars))
    → Absent key labels
    → put_label key value labels ≡ labels ++ (key, value) ∷ []
unfolding put_label
put_label-Absent key value [] h = refl
put_label-Absent key value ((k, v) ∷ labels) h =
    rw (h.0, put_label-Absent key value labels h.1) refl

read_label :
    (k v : Chars) (labels : List (Chars × Chars))
    → Passes is_name_char k
    → same_chars k proto ≡ false
    → Absent k labels
    → put_pair (cut_at b'=' (print_label (k, v))) labels ≡ labels ++ (k, v) ∷ []
unfolding set_label
read_label k v labels p own h =
    rw
      (
        cut_at-append b'=' k (quoted v) (key-Lacks k p).1,
        trim_solid k (key-Lacks k p).0,
        trim_closed b'"' v b'"' refl refl,
        unquote_lem v,
        own,
      )
      (put_label-Absent k v labels h)

labels_from-print :
    (ls labels : List (Chars × Chars))
    → All IsLabel ls
    → AreFresh labels ls
    → ls ≢ []
    → labels_from (split b',' (print_labels ls)) labels ≡ labels ++ ls
unfolding labels_from
labels_from-print [] labels h f ne = absurd (ne refl)
labels_from-print ((k, v) ∷ []) labels h f ne =
    rw
      (split_whole b',' (print_label (k, v))
        (print_label-Lacks (λ c. c == b',') k v (key-Lacks k h.0.0).2 refl refl h.0.1))
      (read_label k v labels h.0.0 h.0.4 f.0)
labels_from-print ((k, v) ∷ m ∷ ls) labels h f ne =
    let rest = split b',' (print_labels (m ∷ ls)) in
    ap (λ (parts : List Chars). labels_from parts labels)
      (split-append b',' (print_label (k, v)) (print_labels (m ∷ ls))
        (print_label-Lacks (λ c. c == b',') k v (key-Lacks k h.0.0).2 refl refl h.0.1))
    ∙ ap (λ (read : List (Chars × Chars)). labels_from rest read)
        (read_label k v labels h.0.0 h.0.4 f.0)
    ∙ labels_from-print (m ∷ ls) (labels ++ (k, v) ∷ []) h.1 f.1 (cc)
    ∙ append_assoc labels ((k, v) ∷ []) (m ∷ ls)

-- Labels that are there and have different keys are read back from what is written between the braces.
pub labels_of-print :
    (ls : List (Chars × Chars))
    → All IsLabel ls
    → AreFresh [] ls
    → ls ≢ []
    → labels_of (some (print_labels ls)) ≡ ls
labels_of-print ls h f ne = labels_from-print ls [] h f ne

print_labels-Lacks :
    (test : ℕ → Bool) (ls : List (Chars × Chars))
    → All (λ l. Lacks test l.0 × Lacks test l.1) ls
    → test b'=' ≡ false
    → test b'"' ≡ false
    → test b',' ≡ false
    → Lacks test (print_labels ls)
print_labels-Lacks test [] h e q c = tt
print_labels-Lacks test ((k, v) ∷ []) h e q c = print_label-Lacks test k v h.0.0 e q h.0.1
print_labels-Lacks test ((k, v) ∷ m ∷ ls) h e q c =
    All-append (λ d. test d ≡ false) (print_label (k, v)) (b',' ∷ print_labels (m ∷ ls))
      (print_label-Lacks test k v h.0.0 e q h.0.1) (c, print_labels-Lacks test (m ∷ ls) h.1 e q c)

All-brace :
    (ls : List (Chars × Chars))
    → All IsLabel ls
    → All (λ l. Lacks (λ c. c == b'}') l.0 × Lacks (λ c. c == b'}') l.1) ls
All-brace [] h = tt
All-brace ((k, v) ∷ ls) h = (((key-Lacks k h.0.0).3, h.0.2), All-brace ls h.1)

All-feed :
    (ls : List (Chars × Chars))
    → All IsLabel ls
    → All (λ l. Lacks (λ c. c == b'\n') l.0 × Lacks (λ c. c == b'\n') l.1) ls
All-feed [] h = tt
All-feed ((k, v) ∷ ls) h = (((key-Lacks k h.0.0).4, h.0.3), All-feed ls h.1)

-- Written labels have no closing brace and no line feed in them.
pub print_labels_marks :
    (ls : List (Chars × Chars))
    → All IsLabel ls
    → Lacks (λ c. c == b'}') (print_labels ls) × Lacks (λ c. c == b'\n') (print_labels ls)
print_labels_marks ls h = (
  print_labels-Lacks (λ c. c == b'}') ls (All-brace ls h) refl refl refl,
  print_labels-Lacks (λ c. c == b'\n') ls (All-feed ls h) refl refl refl,
)
