-- ===== src/Account/Tests.antt =====
-- A form that is submitted while the backend forgets to answer the second request, and a visit.
use crypto_dashboard.Prelude.{◌≡◌, refl, String, Option, none, some, List, [], ◌∷◌, true, false}
use crypto_dashboard.Texts.{upper}
use crypto_dashboard.CloudSync.{Storage, UserSession, unreachable, response, auth_request}
use crypto_dashboard.Account.{
  login, Desk, ErrorTexts, submit, run, settle, submit_by, sign_in, pull, result_of, Gate, sign_out,
  cell_of, guest,
}
use crypto_dashboard.Account.Calls.{EndsWell, submit-EndsWell}
use crypto_dashboard.Account.Door.{visit, door_lem}

abbrev texts : ErrorTexts
texts = record { digits = λ k. "500"; no_network = "failed to fetch"; no_json = "bad json" }

abbrev same_text : String → String
same_text s = s

abbrev no_blob : String → Option (List (String × String))
no_blob s = none

abbrev ann : UserSession
ann = record { token = "t"; username = "ann"; role = "user" }

abbrev desk : Desk
desk = record {
  storage = [];
  panel = record {
    session = none;
    mode = login;
    username = "ann";
    password = "12345678";
    busy = false;
    msg = none;
  };
}

-- Signed in, with the error of the pull.
half_way :
    (submit texts same_text no_blob
      (response 200 (some ann, ""))
      unreachable
      unreachable
      desk).panel.msg
    ≡ some ("FAILED TO FETCH", true)
unfolding submit run settle submit_by sign_in pull result_of upper
half_way = refl

submit-EndsWell_example :
    EndsWell texts same_text no_blob login
      (auth_request (response 200 (some ann, "")) [])
      unreachable
      unreachable
      desk
      (submit texts same_text no_blob (response 200 (some ann, "")) unreachable unreachable desk)
submit-EndsWell_example =
    submit-EndsWell texts same_text no_blob (response 200 (some ann, "")) unreachable unreachable
      desk

abbrev stored : Storage
stored = ("cw.token", "t") ∷ ("cw.user", "ann") ∷ ("cw.guest", "1") ∷ []

abbrev gate : Gate
gate = record { storage = []; mode = login; busy = false; error = none; left = false }

door_lem_example :
    ((visit (sign_out stored) gate).left ≡ false)
    × (cell_of (sign_out stored) ≡ record { session = none; guest = false })
    × ((visit (guest gate).storage gate).left ≡ true)
door_lem_example = door_lem stored gate
