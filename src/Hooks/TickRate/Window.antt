-- ===== src/Hooks/TickRate/Window.antt =====
-- The samples lose no update that is still in the window.
use crypto_dashboard.Prelude.{
  ◌≡◌, refl, sym, ap, ◌∙◌, arith, ℕ, ◌-◌, ◌≤◌, replicate, List, [], ◌∷◌, ◌++◌, append-nil,
  append_assoc,
}
use crypto_dashboard.Hooks.TickRate.{since, receive, sample}

pub data Event : Type 0 where
  batch : ℕ → ℕ → Event
  timer : ℕ → Event

abbrev pub time_of : Event → ℕ
time_of (batch now count) = now
time_of (timer now) = now

-- The stamps after a run of events.
abbrev pub after : ℕ → List Event → List ℕ → List ℕ
after window_ms [] stamps = stamps
after window_ms (batch now count ∷ events) stamps =
    after window_ms events (receive now count stamps)
after window_ms (timer now ∷ events) stamps = after window_ms events (sample window_ms now stamps)

-- All the updates of a run.
abbrev pub updates : List Event → List ℕ
updates [] = []
updates (batch now count ∷ events) = replicate count now ++ updates events
updates (timer now ∷ events) = updates events

abbrev pub AllBefore : ℕ → List Event → Type 0
AllBefore now [] = Unit
AllBefore now (e ∷ events) = (time_of e ≤ now) × AllBefore now events

since-append : (c : ℕ) (xs ys : List ℕ) → since c (xs ++ ys) ≡ since c xs ++ since c ys
unfolding since
since-append c [] ys = refl
since-append c (x ∷ xs) ys = ground (arith, since-append c xs ys)

since-since : (c d : ℕ) (xs : List ℕ) → c ≤ d → since d (since c xs) ≡ since d xs
unfolding since
since-since c d [] h = refl
since-since c d (x ∷ xs) h = ground (arith, since-since c d xs h)

after-since :
    (window_ms now : ℕ) (events : List Event) (stamps : List ℕ)
    → AllBefore now events
    → since (now - window_ms) (after window_ms events stamps)
      ≡ since (now - window_ms) (stamps ++ updates events)
unfolding receive sample
after-since window_ms now [] stamps h = rw (append-nil stamps) refl
after-since window_ms now (batch t count ∷ events) stamps h =
    rw (after-since window_ms now events (stamps ++ replicate count t) h.1)
      (ap (since (now - window_ms)) (append_assoc stamps (replicate count t) (updates events)))
after-since window_ms now (timer t ∷ events) stamps h =
    let c = now - window_ms in
    let early = since (t - window_ms) stamps in
    after-since window_ms now events early h.1
    ∙ since-append c early (updates events)
    ∙ ap (λ (xs : List ℕ). xs ++ since c (updates events))
        (since-since (t - window_ms) c stamps (omega arith))
    ∙ sym (since-append c stamps (updates events))

-- A sample leaves exactly the updates of the last window, however many samples came before it and
-- purged the list: each update of the run from the cutoff on, once, in order. No event of the run is
-- later than the sample.
pub sample_window :
    (window_ms now : ℕ) (events : List Event)
    → AllBefore now events
    → sample window_ms now (after window_ms events []) ≡ since (now - window_ms) (updates events)
unfolding sample
sample_window window_ms now events h = after-since window_ms now events [] h
