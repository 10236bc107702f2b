-- ===== src/Alerts/Desks.antt =====
-- Every state of the alerts that the page can reach is one in which notifications are exact.
use crypto_dashboard.Prelude.{
  ◌≡◌, refl, arith, ℕ, String, str_eq, eq_iff, false, not, ◌&&◌, ◌||◌, List, [], ◌∷◌, ◌++◌,
  Bool-cases, inl, inr,
}
use crypto_dashboard.Prelude.Sets.{has, delete, has-delete}
use crypto_dashboard.Numbers.{Num}
use crypto_dashboard.Alerts.{
  Alert, Desk, Direction, is_empty, without, remove, armed, rearm, add_alert, evaluate,
}
use crypto_dashboard.Alerts.Arming.{has_id, HasUniqueIds, AreFresh, IsSound, evaluate_notes, firing}

module _ {ℓ} {A : Type ℓ} where
  AreFresh-nil : (alerts : List (Alert A)) → AreFresh [] alerts
  unfolding has
  AreFresh-nil [] = tt
  AreFresh-nil (a ∷ more) = (ground arith, AreFresh-nil more)

  has_id-append :
      (j : String) (xs : List (Alert A)) (a : Alert A)
      → has_id j (xs ++ a ∷ []) ≡ (has_id j xs || str_eq a.id j)
  has_id-append j [] a = ground arith
  has_id-append j (x ∷ xs) a = ground (arith, has_id-append j xs a)

  push-HasUniqueIds :
      (xs : List (Alert A)) (a : Alert A)
      → HasUniqueIds xs
      → has_id a.id xs ≡ false
      → HasUniqueIds (xs ++ a ∷ [])
  push-HasUniqueIds [] a u h = (refl, tt)
  push-HasUniqueIds (x ∷ xs) a u h = ground (
    arith,
    has_id-append x.id xs a,
    push-HasUniqueIds xs a u.1,
    eq_iff x.id a.id,
    eq_iff a.id x.id,
  )

  push-AreFresh :
      (fired : List String) (xs : List (Alert A)) (a : Alert A)
      → AreFresh fired xs
      → has a.id fired ≡ false
      → AreFresh fired (xs ++ a ∷ [])
  push-AreFresh fired [] a f h = (ground arith, tt)
  push-AreFresh fired (x ∷ xs) a f h = (f.0, push-AreFresh fired xs a f.1 h)

  has_id-without :
      (j id : String) (xs : List (Alert A))
      → has_id j (without id xs) ≡ (not (str_eq id j) && has_id j xs)
  unfolding without
  has_id-without j id [] = ground arith
  has_id-without j id (x ∷ xs) =
      ground (arith, has_id-without j id xs, eq_iff x.id id, eq_iff x.id j, eq_iff id j)

  without-HasUniqueIds :
      (id : String) (xs : List (Alert A)) → HasUniqueIds xs → HasUniqueIds (without id xs)
  unfolding without
  without-HasUniqueIds id [] u = tt
  without-HasUniqueIds id (x ∷ xs) u =
      ground (arith, has_id-without x.id id xs, without-HasUniqueIds id xs u.1, u.0)

  without-AreFresh :
      (id : String) (fired : List String) (xs : List (Alert A))
      → AreFresh fired xs
      → AreFresh (delete id fired) (without id xs)
  unfolding without
  without-AreFresh id fired [] f = tt
  without-AreFresh id fired (x ∷ xs) f =
      ground (arith, has-delete x.id id fired, without-AreFresh id fired xs f.1, f.0)

  has_id-armed : (j id : String) (xs : List (Alert A)) → has_id j (armed id xs) ≡ has_id j xs
  unfolding armed
  has_id-armed j id [] = refl
  has_id-armed j id (x ∷ xs) = ground (arith, has_id-armed j id xs)

  armed-HasUniqueIds :
      (id : String) (xs : List (Alert A)) → HasUniqueIds xs → HasUniqueIds (armed id xs)
  unfolding armed
  armed-HasUniqueIds id [] u = tt
  armed-HasUniqueIds id (x ∷ xs) u =
      ground (arith, has_id-armed x.id id xs, armed-HasUniqueIds id xs u.1, u.0)

  armed-AreFresh :
      (id : String) (fired : List String) (xs : List (Alert A))
      → AreFresh fired xs
      → AreFresh (delete id fired) (armed id xs)
  unfolding armed
  armed-AreFresh id fired [] f = tt
  armed-AreFresh id fired (x ∷ xs) f = ground (
    arith,
    has-delete x.id id fired,
    armed-AreFresh id fired xs f.1,
    f.0,
    eq_iff x.id id,
    eq_iff id x.id,
  )

module _ {ℓ} {A : Type ℓ} ⦃n : Num A⦄ where
  -- The page: it starts with the stored alerts and an empty set, and the user and the ticks act in any
  -- order. A new id is one that no alert and no fired id has.
  pub data Run : Desk A → Type ℓ where
    start :
        (alerts : List (Alert A))
        → HasUniqueIds alerts
        → Run (record { alerts = alerts; fired = [] })
    adds :
        {d : Desk A} (id coin currency : String) (direction : Direction) (threshold : A)
        → has_id id d.alerts ≡ false
        → has id d.fired ≡ false
        → Run d
        → Run (add_alert id coin currency direction threshold d)
    removes : {d : Desk A} (id : String) → Run d → Run (remove id d)
    rearms : {d : Desk A} (id : String) → Run d → Run (rearm id d)
    evaluates :
        {d : Desk A} (now : ℕ) (table : List (String × A)) → Run d → Run (evaluate now table d).0

  add_alert-IsSound :
      (id coin currency : String) (direction : Direction) (t : A) (d : Desk A)
      → has_id id d.alerts ≡ false
      → has id d.fired ≡ false
      → IsSound d
      → IsSound (add_alert id coin currency direction t d)
  unfolding add_alert
  add_alert-IsSound id coin currency direction t d new unfired s =
      elim (Bool-cases (is_empty coin || not (n.eq t t) || n.le t (n.of_ℕ 0))) [
        | inl refused ↦ rw refused s
        | inr taken ↦ rw taken (record {
          unique = push-HasUniqueIds d.alerts _ s.unique new;
          fresh = push-AreFresh d.fired d.alerts _ s.fresh unfired;
        })
      ]

  desk-IsSound : {d : Desk A} → Run d → IsSound d
  unfolding remove rearm
  desk-IsSound (start alerts u) = record { unique = u; fresh = AreFresh-nil alerts }
  desk-IsSound (adds {d} id coin currency direction t new unfired r) =
      add_alert-IsSound id coin currency direction t d new unfired (desk-IsSound r)
  desk-IsSound (removes {d} id r) =
      let s = desk-IsSound r in
      record {
        unique = without-HasUniqueIds id d.alerts s.unique;
        fresh = without-AreFresh id d.fired d.alerts s.fresh;
      }
  desk-IsSound (rearms {d} id r) =
      let s = desk-IsSound r in
      record {
        unique = armed-HasUniqueIds id d.alerts s.unique;
        fresh = armed-AreFresh id d.fired d.alerts s.fresh;
      }
  desk-IsSound (evaluates {d} now table r) = (evaluate_notes now table d (desk-IsSound r)).1

  -- In every state that adding, removing and re-arming alerts and evaluations reach, in any order, from
  -- stored alerts with unique ids: the ids are unique, no armed alert is among the fired ids, and an
  -- evaluation notifies exactly the alerts that fire in it, each once and in the order of the list, a
  -- re-armed one again. The id of an added alert is one that no alert and no fired id has.
  pub desk_notes :
      {d : Desk A} (now : ℕ) (table : List (String × A))
      → Run d
      → IsSound d × ((evaluate now table d).1 ≡ firing table d.alerts)
  desk_notes {d} now table r = let s = desk-IsSound r in (s, (evaluate_notes now table d s).0)
