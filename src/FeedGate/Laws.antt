-- ===== src/FeedGate/Laws.antt =====
-- Listeners are a set, and hear of every change of the switch once.
use crypto_dashboard.Prelude.{
  refl, ◌+◌, ◌||◌, [], ◌&&◌, ◌∷◌, not, map, if◌then◌else◌, false, arith, ◌==◌, ◌++◌, ◌≡◌, List,
  Bool, ℕ,
}
use crypto_dashboard.FeedGate.{
  same_bool, Gate, contains, add_listener, delete_listener, set_feed_paused, on_feed_pause_change,
  stop_listening,
}

-- No listener is in the list twice.
abbrev pub IsDistinct : List ℕ → Type 0
IsDistinct [] = Unit
IsDistinct (k ∷ ks) = (contains k ks ≡ false) × IsDistinct ks

contains-append : (j l : ℕ) (ks : List ℕ) → contains j (ks ++ l ∷ []) ≡ (contains j ks || l == j)
unfolding contains
contains-append j l [] = ground arith
contains-append j l (k ∷ ks) = ground (arith, contains-append j l ks)

push-IsDistinct :
    (l : ℕ) (ks : List ℕ) → IsDistinct ks → contains l ks ≡ false → IsDistinct (ks ++ l ∷ [])
unfolding contains
push-IsDistinct l [] d h = (refl, tt)
push-IsDistinct l (k ∷ ks) d h = ground (arith, contains-append k l ks, push-IsDistinct l ks d.1)

add_listener-IsDistinct : (l : ℕ) (ks : List ℕ) → IsDistinct ks → IsDistinct (add_listener l ks)
unfolding add_listener
add_listener-IsDistinct l ks d = ground (arith, push-IsDistinct l ks d)

contains-add_listener :
    (j l : ℕ) (ks : List ℕ) → contains j (add_listener l ks) ≡ (l == j || contains j ks)
unfolding add_listener
contains-add_listener j l ks = ground (arith, contains-append j l ks)

contains-delete_listener :
    (j l : ℕ) (ks : List ℕ)
    → IsDistinct ks
    → contains j (delete_listener l ks) ≡ (not (l == j) && contains j ks)
unfolding contains delete_listener
contains-delete_listener j l [] d = ground arith
contains-delete_listener j l (k ∷ ks) d = ground (arith, contains-delete_listener j l ks d.1)

delete_listener-IsDistinct :
    (l : ℕ) (ks : List ℕ) → IsDistinct ks → IsDistinct (delete_listener l ks)
unfolding delete_listener
delete_listener-IsDistinct l [] d = tt
delete_listener-IsDistinct l (k ∷ ks) d =
    ground (arith, contains-delete_listener k l ks d.1, delete_listener-IsDistinct l ks d.1)

-- Subscribing and unsubscribing keep the listeners a set; a listener hears the switch exactly
-- from its subscription to its own unsubscription, and the other listeners are left alone. No
-- listener is in the list twice before.
pub listeners_lem :
    (g : Gate) (l j : ℕ)
    → IsDistinct g.listeners
    → let on = on_feed_pause_change g l in
      let off = stop_listening g l in
      IsDistinct on.listeners
      × IsDistinct off.listeners
      × (contains j on.listeners ≡ (l == j || contains j g.listeners))
      × (contains j off.listeners ≡ (not (l == j) && contains j g.listeners))
unfolding on_feed_pause_change stop_listening
listeners_lem g l j d = (
  add_listener-IsDistinct l g.listeners d,
  delete_listener-IsDistinct l g.listeners d,
  contains-add_listener j l g.listeners,
  contains-delete_listener j l g.listeners d,
)

-- How often a listener is called, with a value.
abbrev pub calls_of : ℕ → Bool → List (ℕ × Bool) → ℕ
calls_of l b [] = 0
calls_of l b ((k, c) ∷ cs) = (if k == l && same_bool b c then 1 else 0) + calls_of l b cs

calls_of-map_absent :
    (l : ℕ) (b c : Bool) (ks : List ℕ)
    → contains l ks ≡ false
    → calls_of l b (map (λ k. (k, c)) ks) ≡ 0
unfolding contains
calls_of-map_absent l b c [] h = refl
calls_of-map_absent l b c (k ∷ ks) h = ground (arith, calls_of-map_absent l b c ks)

calls_of-map :
    (l : ℕ) (b c : Bool) (ks : List ℕ)
    → IsDistinct ks
    → calls_of l b (map (λ k. (k, c)) ks) ≡ (if contains l ks && same_bool b c then 1 else 0)
unfolding contains
calls_of-map l b c [] d = refl
calls_of-map l b c (k ∷ ks) d =
    ground (arith, calls_of-map l b c ks d.1, calls_of-map_absent l b c ks)

-- After the call the switch has the given value. A subscribed listener is called once, with that
-- value, if the switch changed; otherwise nobody is called. The listeners stay. No listener is in
-- the list twice before.
pub set_feed_paused_lem :
    (g : Gate) (next : Bool) (l : ℕ) (b : Bool)
    → IsDistinct g.listeners
    → let (g', calls) = set_feed_paused g next in
      (g'.paused ≡ next)
      × (g'.listeners ≡ g.listeners)
      × (calls_of l b calls ≡ (
          if not (same_bool g.paused next) && (contains l g.listeners && same_bool b next)
          then 1
          else 0))
unfolding set_feed_paused
set_feed_paused_lem g next l b d = ground (arith, calls_of-map l b next g.listeners d)
