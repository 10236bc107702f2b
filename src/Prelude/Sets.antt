-- ===== src/Prelude/Sets.antt =====
-- The part of JavaScript's `Set` that the program uses, with text members, in insertion order.
use crypto_dashboard.Prelude.{
  eq_iff, arith, ◌&&◌, ◌||◌, str_eq, not, ◌≡◌, if◌then◌else◌, Bool, ◌++◌, List, String, [], ◌∷◌,
  false,
}

unfoldable pub has : String → List String → Bool
has k [] = false
has k (j ∷ js) = str_eq j k || has k js

-- `set.add(k)`
unfoldable pub add : String → List String → List String
add k js = if has k js then js else js ++ k ∷ []

-- `set.delete(k)`
unfoldable pub delete : String → List String → List String
delete k [] = []
delete k (j ∷ js) = let rest = delete k js in if str_eq j k then rest else j ∷ rest

has-append : (k j : String) (js : List String) → has k (js ++ j ∷ []) ≡ (has k js || str_eq j k)
unfolding has
has-append k j [] = ground arith
has-append k j (i ∷ is) = ground (arith, has-append k j is)

pub has-add : (k j : String) (js : List String) → has k (add j js) ≡ (str_eq j k || has k js)
unfolding add
has-add k j js = ground (arith, has-append k j js, eq_iff j k)

pub has-delete :
    (k j : String) (js : List String) → has k (delete j js) ≡ (not (str_eq j k) && has k js)
unfolding has delete
has-delete k j [] = ground arith
has-delete k j (i ∷ is) = ground (arith, has-delete k j is, eq_iff i j, eq_iff i k, eq_iff j k)
