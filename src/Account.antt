-- ===== src/Account.antt =====
-- The account: frontend/src/presentation/components/AccountPanel.tsx, LoginGate.tsx and terminal/AuthCell.tsx
-- beside them, over CloudSync. A call of the backend is one step of a component, given what its requests
-- come to: while it runs the buttons are off, and what the fields take meanwhile is left out.
pub mod Door
pub mod Calls
pub mod Tests
use crypto_dashboard.Prelude.{
  ℕ, ◌==◌, String, str_eq, not, ◌||◌, Bool, true, false, Option, none, some, List, [], ◌∷◌,
  if◌then◌else◌,
}
use crypto_dashboard.Prelude.Maps.{lookup, insert}
use crypto_dashboard.Texts.{upper, ◌<>◌}
use crypto_dashboard.CloudSync.{
  Storage, UserSession, Reply, Outcome, value, message, http, expired, fetch_error, json_error,
  auth_request, current_session, pull_prefs, push_prefs, logout, erase,
}

pub data Mode : Type 0 where
  login register : Mode

-- How a call of the component ends; an error is its text.
pub data Result {ℓ} (B : Type ℓ) : Type ℓ where
  ok : B → Result B
  err : String → Result B

-- The state of AccountPanel; a message has its text and says whether it is an error.
pub record Panel : Type 0 where
  pub session : Option UserSession
  pub mode : Mode
  pub username : String
  pub password : String
  pub busy : Bool
  pub msg : Option (String × Bool)

-- The panel with the browser's storage.
pub record Desk : Type 0 where
  pub storage : Storage
  pub panel : Panel

-- What `status` writes of a number, and the texts of a failed fetch and of a body that is not JSON.
pub record ErrorTexts : Type 0 where
  pub digits : ℕ → String
  pub no_network : String
  pub no_json : String

abbrev pub Call : Type 0 → Type 0
Call B = Desk → Desk × Result B

abbrev after {ℓ} :
    {B : Type 0} {C : Type ℓ} → (B → Desk → Desk × Result C) → Desk × Result B → Desk × Result C
after f (d, ok b) = f b d
after f (d, err e) = (d, err e)

infixl 5 ◌>>=◌ ◌>>◌
abbrev pub ◌>>=◌ : {B C : Type 0} → Call B → (B → Call C) → Call C
◌>>=◌ m f d = after f (m d)

abbrev pub ◌>>◌ : {C : Type 0} → Call (Unit {0}) → Call C → Call C
m >> k = m >>= λ _. k

module _ (t : ErrorTexts) where
  -- `e.message`
  unfoldable pub result_of : {B : Type 0} → Outcome B → Result B
  result_of (value b) = ok b
  result_of (message e) = err e
  result_of (http status) = err ("HTTP " <> t.digits status)
  result_of expired = err "session expired — log in again"
  result_of fetch_error = err t.no_network
  result_of json_error = err t.no_json

  -- `await login(...)` and `await register(...)`, which end the same for the same reply.
  unfoldable pub sign_in : Reply (Option UserSession × String) → Call UserSession
  unfolding result_of auth_request
  sign_in reply d =
      let (storage, outcome) = auth_request reply d.storage in
      (record d { storage = storage }, result_of outcome)

  unfoldable pub push : Reply Unit → Call (Unit {0})
  unfolding result_of push_prefs
  push reply d = (d, result_of (push_prefs reply))

  module _ {J : Type 0} (text : J → String) (parse_blob : String → Option (List (String × J))) where
    unfoldable pub pull : Reply (Option String) → Call ℕ
    unfolding result_of pull_prefs
    pull reply d =
        let (storage, outcome) = pull_prefs text parse_blob reply d.storage in
        (record d { storage = storage }, result_of outcome)

-- `setSession(s)` with `setPassword("")`, and `setMsg({ text })`.
abbrev pub set_session : UserSession → Call (Unit {0})
set_session s d = (record d { panel = record d.panel { session = some s; password = "" } }, ok tt)

abbrev pub set_msg : String → Call (Unit {0})
set_msg text d = (record d { panel = record d.panel { msg = some (text, false) } }, ok tt)

-- The `catch` and the `finally` of `run`.
unfoldable pub settle : Desk × Result (Unit {0}) → Desk
unfolding upper
settle (d, ok _) = record d { panel = record d.panel { busy = false } }
settle (d, err e) = record d { panel = record d.panel { msg = some (upper e, true); busy = false } }

unfoldable pub run : Call (Unit {0}) → Desk → Desk
unfolding settle
run action d = settle (action (record d { panel = record d.panel { busy = true; msg = none } }))

abbrev pub pulled_text : ℕ → String
pulled_text applied =
    if applied == 0 then "SIGNED IN" else "SIGNED IN · CLOUD STATE PULLED — RELOAD TO APPLY"

module _ (t : ErrorTexts) {J : Type 0} (text : J → String)
    (parse_blob : String → Option (List (String × J))) where
  unfoldable pub submit_by :
      Mode
      → Reply (Option UserSession × String)
      → Reply (Option String)
      → Reply Unit
      → Call (Unit {0})
  unfolding sign_in pull push
  submit_by login auth prefs pushed = do
    s ← sign_in t auth
    set_session s
    applied ← pull t text parse_blob prefs
    set_msg (pulled_text applied)
  submit_by register auth prefs pushed = do
    s ← sign_in t auth
    set_session s
    push t pushed
    set_msg "ACCOUNT CREATED · LOCAL STATE PUSHED TO CLOUD"

  -- `submit`, with the replies to the sign-in, to the pull and to the push.
  unfoldable pub submit :
      Reply (Option UserSession × String) → Reply (Option String) → Reply Unit → Desk → Desk
  unfolding run submit_by
  submit auth prefs pushed d = run (submit_by d.panel.mode auth prefs pushed) d

  abbrev pub if_signed_in : Option UserSession → (Desk → Desk) → Desk → Desk
  if_signed_in none f d = d
  if_signed_in (some s) f d = f d

  unfoldable pub do_push : Reply Unit → Desk → Desk
  unfolding run push
  do_push pushed d =
      if_signed_in d.panel.session
        (run (do push t pushed; set_msg "PUSHED — WATCHLIST · ALERTS · HOLDINGS · CLOCKS SAVED")) d

  abbrev pub sections_text : ℕ → String
  sections_text applied =
      if applied == 0
      then "NOTHING STORED IN CLOUD YET"
      else "PULLED " <> t.digits applied <> " SECTIONS — RELOAD TO APPLY"

  unfoldable pub do_pull : Reply (Option String) → Desk → Desk
  unfolding run pull
  do_pull prefs d =
      if_signed_in d.panel.session
        (run (do applied ← pull t text parse_blob prefs; set_msg (sections_text applied))) d

-- The effect of the panel, and its sign-out.
unfoldable pub mount : Desk → Desk
unfolding current_session
mount d = record d { panel = record d.panel { session = current_session d.storage } }

unfoldable pub sign_out_panel : Desk → Desk
unfolding logout
sign_out_panel d = record d {
  storage = logout d.storage;
  panel = record d.panel {
    session = none;
    msg = some ("SIGNED OUT — LOCAL DATA UNTOUCHED", false);
  };
}

abbrev pub guest_key : String
guest_key = "cw.guest"

-- The state of LoginGate; `left` says that the page was replaced by the terminal.
pub record Gate : Type 0 where
  pub storage : Storage
  pub mode : Mode
  pub busy : Bool
  pub error : Option String
  pub left : Bool

-- `currentSession() || localStorage.getItem("cw.guest")`
abbrev pub lets_in : Option UserSession → Option String → Bool
lets_in (some s) guest = true
lets_in none none = false
lets_in none (some guest) = not (str_eq guest "")

-- The effect of the gate.
unfoldable pub arrive : Gate → Gate
unfolding current_session lookup
arrive g =
    if lets_in (current_session g.storage) (lookup guest_key g.storage)
    then record g { left = true }
    else g

module _ (t : ErrorTexts) {J : Type 0} (text : J → String)
    (parse_blob : String → Option (List (String × J))) where
  -- The rest of `submit` after the sign-in; a pull that fails is ignored.
  unfoldable pub enter : Reply (Option String) → Storage → Result UserSession → Gate → Gate
  unfolding pull_prefs upper
  enter prefs storage (ok s) g = record g {
    storage = (pull_prefs text parse_blob prefs storage).0;
    left = true;
  }
  enter prefs storage (err e) g = record g {
    storage = storage;
    error = some (upper e);
    busy = false;
  }

  unfoldable pub submit_gate :
      Reply (Option UserSession × String) → Reply (Option String) → Gate → Gate
  unfolding auth_request enter result_of
  submit_gate auth prefs g =
      let (storage, outcome) = auth_request auth g.storage in
      enter prefs storage (result_of t outcome) (record g { busy = true; error = none })

unfoldable pub guest : Gate → Gate
unfolding insert
guest g = record g { storage = insert guest_key "1" g.storage; left = true }

-- AuthCell: who is signed in, and whether a guest came in; `signOut` leaves for the gate.
pub record Cell : Type 0 where
  pub session : Option UserSession
  pub guest : Bool

abbrev pub is_one : Option String → Bool
is_one none = false
is_one (some flag) = str_eq flag "1"

unfoldable pub cell_of : Storage → Cell
unfolding current_session lookup
cell_of storage = record {
  session = current_session storage;
  guest = is_one (lookup guest_key storage);
}

abbrev pub cell_title : Option UserSession → Bool → String
cell_title none guest = if guest then "Guest" else "Account"
cell_title (some s) guest = s.username

unfoldable pub sign_out : Storage → Storage
unfolding logout erase
sign_out storage = erase guest_key (logout storage)
