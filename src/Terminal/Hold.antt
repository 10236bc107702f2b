-- ===== src/Terminal/Hold.antt =====
-- The label of the page and the gate of the feed agree.
use crypto_dashboard.Prelude.{
  ◌≡◌, refl, arith, String, str_eq, not, ◌&&◌, Bool, true, false, List, [], ◌∷◌, Bool-cases, inl,
  inr,
}
use crypto_dashboard.FeedGate.{set_feed_paused, is_feed_paused}
use crypto_dashboard.Terminal.{Shell, toggle_hold, set_tab, select, live_label, streaming}

pub data Click : Type 0 where
  hold : Click
  tab pair : String → Click

abbrev pub click : Click → Shell → Shell
click hold s = toggle_hold s
click (tab key) s = set_tab key s
click (pair symbol) s = select symbol s

abbrev pub clicks : List Click → Shell → Shell
clicks [] s = s
clicks (c ∷ cs) s = clicks cs (click c s)

pub click-Agrees :
    (c : Click) (s : Shell)
    → s.held ≡ is_feed_paused s.gate
    → (click c s).held ≡ is_feed_paused (click c s).gate
unfolding toggle_hold set_tab select set_feed_paused
click-Agrees hold s h = ground arith
click-Agrees (tab key) s h = h
click-Agrees (pair symbol) s h = h

clicks-Agrees :
    (cs : List Click) (s : Shell)
    → s.held ≡ is_feed_paused s.gate
    → (clicks cs s).held ≡ is_feed_paused (clicks cs s).gate
clicks-Agrees [] s h = h
clicks-Agrees (c ∷ cs) s h = clicks-Agrees cs (click c s) (click-Agrees c s h)

pub label_held : (live : Bool) (s : Shell) → str_eq (live_label live s) "Held" ≡ s.held
unfolding live_label
label_held true s = elim (Bool-cases s.held) [ inl h ↦ rw h refl | inr h ↦ rw h refl ]
label_held false s = elim (Bool-cases s.held) [ inl h ↦ rw h refl | inr h ↦ rw h refl ]

-- After any clicks, on the hold switch, on tabs and on pairs: the page says Held exactly if the gate of the
-- feed is paused, and it says that it streams only if the gate is open. The switch and the gate agree
-- before.
pub label-gate :
    (cs : List Click) (s : Shell) (live : Bool)
    → s.held ≡ is_feed_paused s.gate
    → let after = clicks cs s in
      (str_eq (live_label live after) "Held" ≡ is_feed_paused after.gate)
      × (streaming live after ≡ (live && not (is_feed_paused after.gate)))
label-gate cs s live h =
    let agree = clicks-Agrees cs s h in (rw (label_held live (clicks cs s)) agree, rw agree refl)
