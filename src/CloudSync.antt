-- ===== src/CloudSync.antt =====
-- frontend/src/infrastructure/auth/cloud-sync.ts: the session, and the copy of the dashboard's settings
-- that the backend keeps. The storage is a table of texts that takes every write. JSON is a parameter:
-- `parse` and `text` for one value, `parse_blob` and `text_blob` for an object of values; a parser gives
-- `none` where JSON.parse throws, or where the text is not an object.
pub mod Session
pub mod Settings
pub mod Tests
use crypto_dashboard.Prelude.{
  ℕ, ◌+◌, ◌==◌, String, str_eq, not, ◌&&◌, leb, Bool, Option, none, some, List, [], ◌∷◌,
  if◌then◌else◌,
}
use crypto_dashboard.Prelude.Maps.{lookup, insert}

abbrev pub Storage : Type 0
Storage = List (String × String)

abbrev pub token_key : String
token_key = "cw.token"

abbrev pub user_key : String
user_key = "cw.user"

abbrev pub synced_keys : List String
synced_keys = "cw.favorites" ∷ "cw.alerts" ∷ "cw.holdings" ∷ "cw:clocks" ∷ []

pub record UserSession : Type 0 where
  pub token : String
  pub username : String
  pub role : String

-- `token && username ? {...} : null`: an absent or empty text gives no session.
abbrev pub session_of : Option String → Option String → Option UserSession
session_of none username = none
session_of (some token) none = none
session_of (some token) (some username) =
    if not (str_eq token "") && not (str_eq username "")
    then some (record { token = token; username = username; role = "user" })
    else none

unfoldable pub current_session : Storage → Option UserSession
unfolding lookup
current_session storage = session_of (lookup token_key storage) (lookup user_key storage)

unfoldable pub store_session : UserSession → Storage → Storage
unfolding insert
store_session s storage = insert user_key s.username (insert token_key s.token storage)

-- `localStorage.removeItem(key)`
unfoldable pub erase : String → Storage → Storage
erase key [] = []
erase key ((k, v) ∷ storage) =
    let rest = erase key storage in if str_eq k key then rest else (k, v) ∷ rest

unfoldable pub logout : Storage → Storage
unfolding erase
logout storage = erase user_key (erase token_key storage)

-- What a request comes to: it fails, or a status and a body come.
pub data Reply (D : Type 0) : Type 0 where
  unreachable : Reply D
  response : ℕ → D → Reply D

-- How a call ends. The error of the sign-in has the body's text, or the status if that is empty.
pub data Outcome (B : Type 0) : Type 0 where
  value : B → Outcome B
  message : String → Outcome B
  http : ℕ → Outcome B
  expired fetch_error json_error : Outcome B

abbrev pub is_ok : ℕ → Bool
is_ok status = leb 200 status && leb status 299

-- The body of a sign-in: the session of an answer in the 200s, `none` if it is no JSON, and its text.
unfoldable pub auth_request :
    Reply (Option UserSession × String) → Storage → Storage × Outcome UserSession
unfolding store_session
auth_request unreachable storage = (storage, fetch_error)
auth_request (response status (none, body)) storage =
    if is_ok status
    then (storage, json_error)
    else if str_eq body ""
    then (storage, http status)
    else (storage, message body)
auth_request (response status (some session, body)) storage =
    if is_ok status
    then (store_session session storage, value session)
    else if str_eq body ""
    then (storage, http status)
    else (storage, message body)

-- The error of a status that is not in the 200s.
abbrev pub refusal : {B : Type 0} → ℕ → Outcome B
refusal status = if status == 401 then expired else http status

module _ {J : Type 0} where
  abbrev pub put_value : String → Option J → List (String × J) → List (String × J)
  put_value key none blob = blob
  put_value key (some v) blob = insert key v blob

  abbrev pub count_value : Option J → ℕ → ℕ
  count_value none applied = applied
  count_value (some v) applied = applied + 1

module _ {J : Type 0} (parse : String → Option J) where
  abbrev pub parsed : Option String → Option J
  parsed none = none
  parsed (some raw) = parse raw

  -- The loop of `collectLocalPrefs`.
  unfoldable pub collect : List String → Storage → List (String × J) → List (String × J)
  collect [] storage blob = blob
  collect (key ∷ keys) storage blob =
      collect keys storage (put_value key (parsed (lookup key storage)) blob)

  unfoldable pub collect_local_prefs : (List (String × J) → String) → Storage → String
  unfolding collect
  collect_local_prefs text_blob storage = text_blob (collect synced_keys storage [])

module _ {J : Type 0} (text : J → String) where
  -- A write, if the object has the key.
  abbrev pub write_value : String → Option J → Storage → Storage
  write_value key none storage = storage
  write_value key (some v) storage = insert key (text v) storage

  -- The loop of `applyPrefs`, with the number of writes.
  unfoldable pub apply_values : List String → List (String × J) → Storage → ℕ → Storage × ℕ
  apply_values [] blob storage applied = (storage, applied)
  apply_values (key ∷ keys) blob storage applied =
      let found = lookup key blob in
      apply_values keys blob (write_value key found storage) (count_value found applied)

  unfoldable pub apply_blob : Option (List (String × J)) → Storage → Storage × ℕ
  unfolding apply_values
  apply_blob none storage = (storage, 0)
  apply_blob (some blob) storage = apply_values synced_keys blob storage 0

  unfoldable pub apply_prefs :
      (String → Option (List (String × J))) → String → Storage → Storage × ℕ
  unfolding apply_blob
  apply_prefs parse_blob prefs storage = apply_blob (parse_blob prefs) storage

  unfoldable pub pull_prefs :
      (String → Option (List (String × J))) → Reply (Option String) → Storage → Storage × Outcome ℕ
  unfolding apply_prefs
  pull_prefs parse_blob unreachable storage = (storage, fetch_error)
  pull_prefs parse_blob (response status none) storage =
      (storage, if is_ok status then json_error else refusal status)
  pull_prefs parse_blob (response status (some prefs)) storage =
      let (after, applied) = apply_prefs parse_blob prefs storage in
      if is_ok status then (after, value applied) else (storage, refusal status)

unfoldable pub push_prefs : Reply Unit → Outcome Unit
push_prefs unreachable = fetch_error
push_prefs (response status body) = if is_ok status then value tt else refusal status
