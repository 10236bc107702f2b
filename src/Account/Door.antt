-- ===== src/Account/Door.antt =====
-- Leaving by the header's cell and coming in at the gate.
use crypto_dashboard.Prelude.{◌≡◌, refl, arith, true, false, none}
use crypto_dashboard.Prelude.Maps.{lookup, lookup-insert}
use crypto_dashboard.CloudSync.{Storage, token_key, user_key, current_session, logout}
use crypto_dashboard.CloudSync.Session.{lookup-erase, lookup-logout}
use crypto_dashboard.Account.{Gate, guest_key, arrive, guest, sign_out, cell_of}

-- A visit of the gate in a browser with this storage.
abbrev pub visit : Storage → Gate → Gate
visit storage g = arrive (record g { storage = storage; left = false })

lookup-sign_out :
    (storage : Storage)
    → (lookup token_key (sign_out storage) ≡ none)
      × (lookup user_key (sign_out storage) ≡ none)
      × (lookup guest_key (sign_out storage) ≡ none)
unfolding sign_out
lookup-sign_out storage = (
  ground (arith, lookup-erase token_key guest_key (logout storage), lookup-logout storage),
  ground (arith, lookup-erase user_key guest_key (logout storage), lookup-logout storage),
  ground (arith, lookup-erase guest_key guest_key (logout storage)),
)

-- Whatever the storage had, a session, a guest's flag or both: after the sign-out of the cell nobody is
-- signed in or a guest, and the gate keeps the visitor until they sign in or go on as a guest; a
-- visitor that has gone on as a guest is let in at once by the next visit.
pub door_lem :
    (storage : Storage) (g : Gate)
    → ((visit (sign_out storage) g).left ≡ false)
      × (cell_of (sign_out storage) ≡ record { session = none; guest = false })
      × ((visit (guest g).storage g).left ≡ true)
unfolding arrive guest cell_of current_session
door_lem storage g =
    let gone = lookup-sign_out storage in
    (
      rw (gone.0, gone.2) refl,
      rw (gone.0, gone.2) refl,
      ground (arith, lookup-insert guest_key guest_key "1" g.storage),
    )
