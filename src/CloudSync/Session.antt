-- ===== src/CloudSync/Session.antt =====
-- The session in the storage.
use crypto_dashboard.Prelude.{
  ◌≡◌, refl, arith, ℕ, String, str_eq, eq_iff, none, some, [], ◌∷◌, if◌then◌else◌, true, false,
}
use crypto_dashboard.Prelude.Maps.{lookup, insert, lookup-insert}
use crypto_dashboard.CloudSync.{
  Storage, UserSession, token_key, user_key, current_session, store_session, erase, logout,
  auth_request, response, is_ok,
}

pub lookup-erase :
    (k key : String) (storage : Storage)
    → lookup k (erase key storage) ≡ (if str_eq key k then none else lookup k storage)
unfolding lookup erase
lookup-erase k key [] = ground arith
lookup-erase k key ((j, v) ∷ storage) =
    ground (arith, lookup-erase k key storage, eq_iff j key, eq_iff j k, eq_iff key k)

lookup-token :
    (s : UserSession) (storage : Storage)
    → (lookup token_key (store_session s storage) ≡ some s.token)
      × (lookup user_key (store_session s storage) ≡ some s.username)
unfolding store_session
lookup-token s storage = (
  ground (
    arith,
    lookup-insert user_key token_key s.username (insert token_key s.token storage),
    lookup-insert token_key token_key s.token storage,
  ),
  ground (arith, lookup-insert user_key user_key s.username (insert token_key s.token storage)),
)

pub lookup-logout :
    (storage : Storage)
    → (lookup token_key (logout storage) ≡ none) × (lookup user_key (logout storage) ≡ none)
unfolding logout
lookup-logout storage = (
  ground (
    arith,
    lookup-erase token_key user_key (erase token_key storage),
    lookup-erase token_key token_key storage,
  ),
  ground (arith, lookup-erase user_key user_key (erase token_key storage)),
)

-- A sign-in that the backend accepts leaves a session with its token and name, in the role "user"
-- whatever role the backend named; signing out leaves none. The token and the name are not empty.
pub session_lem :
    (status : ℕ) (s : UserSession) (body : String) (storage : Storage)
    → is_ok status ≡ true
    → str_eq s.token "" ≡ false
    → str_eq s.username "" ≡ false
    → let signed = (auth_request (response status (some s, body)) storage).0 in
      (current_session signed
        ≡ some (record { token = s.token; username = s.username; role = "user" }))
      × (current_session (logout signed) ≡ none)
unfolding auth_request current_session
session_lem status s body storage ok t u =
    let stored = lookup-token s storage in
    let gone = lookup-logout (store_session s storage) in
    rw (ok, stored.0, stored.1, gone.0, t, u) (refl, refl)
