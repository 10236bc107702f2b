-- ===== src/CloudSync/Tests.antt =====
-- The theorems at two small devices.
use crypto_dashboard.Prelude.{◌≡◌, refl, String, Option, none, some, List, [], ◌∷◌, if◌then◌else◌}
use crypto_dashboard.Prelude.Maps.{insert, lookup}
use crypto_dashboard.Prelude.Sets.{has}
use crypto_dashboard.CloudSync.{
  value, apply_values, apply_blob, collect, apply_prefs, Storage, UserSession, response, pull_prefs,
  collect_local_prefs, current_session, logout, auth_request, parsed, synced_keys,
}
use crypto_dashboard.CloudSync.Session.{session_lem}
use crypto_dashboard.CloudSync.Settings.{settings_roundtrip, text_or}

abbrev user : UserSession
user = record { token = "t"; username = "ann"; role = "admin" }

session_lem_run :
    let signed = (auth_request (response 200 (some user, "")) []).0 in
    (current_session signed ≡ some (record { token = "t"; username = "ann"; role = "user" }))
    × (current_session (logout signed) ≡ none)
session_lem_run = session_lem 200 user "" [] refl refl refl

abbrev same_text : String → Option String
same_text s = some s

abbrev own_text : String → String
own_text s = s

-- A codec that knows one object.
abbrev known : String → Option (List (String × String))
known s = some (("cw.alerts", "[1]") ∷ [])

abbrev named : List (String × String) → String
named blob = "{...}"

abbrev phone : Storage
phone = ("cw.token", "t1") ∷ ("cw.alerts", "[1]") ∷ []

abbrev laptop : Storage
laptop = ("cw.token", "t2") ∷ ("cw.alerts", "[]") ∷ ("cw:clocks", "[2]") ∷ []

pulled :
    pull_prefs own_text known (response 200 (some "{...}")) laptop
    ≡ (("cw.token", "t2") ∷ ("cw.alerts", "[1]") ∷ ("cw:clocks", "[2]") ∷ [], value 1)
unfolding pull_prefs apply_prefs apply_blob apply_values lookup insert
pulled = refl

settings_roundtrip_example :
    let pushed = collect_local_prefs same_text named phone in
    lookup "cw.alerts" (pull_prefs own_text known (response 200 (some pushed)) laptop).0 ≡ (
      if has "cw.alerts" synced_keys
      then text_or own_text
          (parsed same_text (lookup "cw.alerts" phone))
          (lookup "cw.alerts" laptop)
      else lookup "cw.alerts" laptop)
unfolding collect lookup insert
settings_roundtrip_example =
    settings_roundtrip same_text own_text known named 200 phone laptop "cw.alerts" refl refl
