-- ===== src/Account/Calls.antt =====
-- How a submitted form ends, on every branch.
use crypto_dashboard.Prelude.{◌≡◌, refl, arith, String, Bool, true, false, Option, some, List}
use crypto_dashboard.Texts.{upper}
use crypto_dashboard.CloudSync.{
  Storage, UserSession, Reply, Outcome, auth_request, pull_prefs, push_prefs,
}
use crypto_dashboard.Account.{
  Mode, login, register, Result, ok, err, Desk, ErrorTexts, result_of, sign_in, pull, push, settle,
  run, submit_by, submit, pulled_text,
}

-- The message that a call leaves: its own if it ended well, or else its error in upper case.
abbrev pub closing : {B : Type 0} → Result B → (B → String) → Option (String × Bool)
closing (ok b) text = some (text b, false)
closing (err e) text = some (upper e, true)

-- The message of a form: of a sign-in that failed, or of the call that follows it.
abbrev pub closing_of :
    {B : Type 0} → Result UserSession → Result B → (B → String) → Option (String × Bool)
closing_of (ok s) next text = closing next text
closing_of (err e) next text = some (upper e, true)

abbrev pub session_after : Result UserSession → Option UserSession → Option UserSession
session_after (ok s) before = some s
session_after (err e) before = before

abbrev pub password_after : Result UserSession → String → String
password_after (ok s) before = ""
password_after (err e) before = before

abbrev pub storage_after : Result UserSession → Storage → Storage → Storage
storage_after (ok s) after before = after
storage_after (err e) after before = before

-- What a form leaves, where `signed` is how its sign-in ended, `next` how the call after that did,
-- and `stored` what the storage has then.
pub record IsSubmitted {B : Type 0} (signed : Result UserSession) (next : Result B)
    (text : B → String) (stored : Storage) (before after : Desk) : Type 0 where
  pub not_busy : after.panel.busy ≡ false
  pub session : after.panel.session ≡ session_after signed before.panel.session
  pub password : after.panel.password ≡ password_after signed before.panel.password
  pub msg : after.panel.msg ≡ closing_of signed next text
  pub storage : after.storage ≡ stored

abbrev pub created_text : Unit {0} → String
created_text done = "ACCOUNT CREATED · LOCAL STATE PUSHED TO CLOUD"

module _ (t : ErrorTexts) {J : Type 0} (text : J → String)
    (parse_blob : String → Option (List (String × J))) where
  -- The end of a form, of a sign-in with the pull after it, or of a registration with the push after it.
  abbrev pub EndsWell :
      Mode
      → Storage × Outcome UserSession
      → Reply (Option String)
      → Reply Unit
      → Desk
      → Desk
      → Type 0
  EndsWell login (stored, signed) prefs pushed before after =
      let (pulled, applied) = pull_prefs text parse_blob prefs stored in
      IsSubmitted (result_of t signed) (result_of t applied) pulled_text
        (storage_after (result_of t signed) pulled stored) before after
  EndsWell register (stored, signed) prefs pushed before after =
      IsSubmitted (result_of t signed) (result_of t (push_prefs pushed)) created_text stored before
        after

  submit_by_ends :
      (mode : Mode) (stored : Storage) (signed : Outcome UserSession)
      (prefs : Reply (Option String)) (pushed : Reply Unit)
      (auth : Reply (Option UserSession × String)) (d : Desk)
      → auth_request auth d.storage ≡ (stored, signed)
      → EndsWell mode
          (stored, signed)
          prefs
          pushed
          d
          (run (submit_by t text parse_blob mode auth prefs pushed) d)
  unfolding run settle submit_by sign_in pull push
  submit_by_ends login stored signed prefs pushed auth d e = ground arith
  submit_by_ends register stored signed prefs pushed auth d e = ground arith

  -- A submitted form, in both modes and for every reply to its requests: the panel is not busy any more.
  -- If the sign-in fails, the session and the password stay, the storage is what the sign-in left and
  -- the message is its error. Otherwise the session is the new one, also when the call that follows
  -- fails, and the password is gone; the message tells how that call ended, an error if it failed;
  -- and the storage has what a pull wrote after a login, and is left alone after a registration.
  pub submit-EndsWell :
      (auth : Reply (Option UserSession × String)) (prefs : Reply (Option String))
      (pushed : Reply Unit) (d : Desk)
      → EndsWell d.panel.mode
          (auth_request auth d.storage)
          prefs
          pushed
          d
          (submit t text parse_blob auth prefs pushed d)
  unfolding submit
  submit-EndsWell auth prefs pushed d =
      let (stored, signed) = auth_request auth d.storage in
      submit_by_ends d.panel.mode stored signed prefs pushed auth d refl
