-- ===== src/Clocks/Choice.antt =====
-- The chosen clocks, over any run of clicks.
use crypto_dashboard.Prelude.{
  ◌-◌, ◌≤◌, ◌≡◌, refl, String, str_eq, eq_iff, ◌||◌, true, false, List, [], ◌∷◌, ◌++◌,
  if◌then◌else◌, length, length-append, arith,
}
use crypto_dashboard.Prelude.Sets.{has, delete, has-delete}
use crypto_dashboard.Clocks.{toggle, max_clocks}

-- No code is chosen twice.
abbrev pub IsDistinct : List String → Type 0
IsDistinct [] = Unit
IsDistinct (c ∷ cs) = (has c cs ≡ false) × IsDistinct cs

pub record IsChoice (codes : List String) : Type 0 where
  pub some_clock : 1 ≤ length codes
  pub few : length codes ≤ max_clocks
  pub distinct : IsDistinct codes

length-delete_absent :
    (c : String) (cs : List String) → has c cs ≡ false → length (delete c cs) ≡ length cs
unfolding has delete
length-delete_absent c [] h = refl
length-delete_absent c (j ∷ js) h = ground (arith, length-delete_absent c js)

length-delete :
    (c : String) (cs : List String)
    → IsDistinct cs
    → length (delete c cs) ≡ length cs - (if has c cs then 1 else 0)
unfolding has delete
length-delete c [] d = refl
length-delete c (j ∷ js) d =
    ground (arith, length-delete c js d.1, eq_iff j c, length-delete_absent c js, length-has c js)
  where
    length-has : (c : String) (cs : List String) → has c cs ≡ true → 1 ≤ length cs
    length-has c [] h = absurd (ground arith)
    length-has c (j ∷ js) h = omega arith

delete-IsDistinct : (c : String) (cs : List String) → IsDistinct cs → IsDistinct (delete c cs)
unfolding delete
delete-IsDistinct c [] d = tt
delete-IsDistinct c (j ∷ js) d =
    ground (arith, delete-IsDistinct c js d.1, has-delete j c js, eq_iff c j)

has-append_one : (k c : String) (cs : List String) → has k (cs ++ c ∷ []) ≡ (has k cs || str_eq c k)
unfolding has
has-append_one k c [] = ground arith
has-append_one k c (j ∷ js) = ground (arith, has-append_one k c js)

append-IsDistinct :
    (c : String) (cs : List String) → IsDistinct cs → has c cs ≡ false → IsDistinct (cs ++ c ∷ [])
unfolding has
append-IsDistinct c [] d h = (refl, tt)
append-IsDistinct c (j ∷ js) d h =
    ground (arith, append-IsDistinct c js d.1, has-append_one j c js, eq_iff c j, eq_iff j c)

toggle-IsChoice : (c : String) (cs : List String) → IsChoice cs → IsChoice (toggle c cs)
unfolding toggle
toggle-IsChoice c cs h = ground (
  arith,
  length-delete c cs h.distinct,
  delete-IsDistinct c cs h.distinct,
  append-IsDistinct c cs h.distinct,
  length-append cs (c ∷ []),
)

-- The clicks on codes, one after the other.
abbrev pub toggles : List String → List String → List String
toggles [] codes = codes
toggles (c ∷ clicks) codes = toggles clicks (toggle c codes)

-- Whatever codes are clicked, in whatever order, from a choice of one to eight different clocks: there are
-- still one to eight clocks, no two the same.
pub toggles-IsChoice :
    (clicks codes : List String) → IsChoice codes → IsChoice (toggles clicks codes)
toggles-IsChoice [] codes h = h
toggles-IsChoice (c ∷ clicks) codes h =
    toggles-IsChoice clicks (toggle c codes) (toggle-IsChoice c codes h)
