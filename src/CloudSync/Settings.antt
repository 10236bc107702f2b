-- ===== src/CloudSync/Settings.antt =====
-- Settings go to the backend from one device and come back on another.
use crypto_dashboard.Prelude.{
  ◌≡◌, refl, arith, ℕ, String, str_eq, eq_iff, Bool, true, false, Option, none, some, List, [], ◌∷◌,
  if◌then◌else◌,
}
use crypto_dashboard.Prelude.Maps.{lookup, lookup-insert}
use crypto_dashboard.Prelude.Sets.{has}
use crypto_dashboard.CloudSync.{
  is_ok, Storage, synced_keys, parsed, put_value, collect, collect_local_prefs, write_value,
  count_value, apply_values, apply_blob, apply_prefs, response, pull_prefs,
}

module _ {J : Type 0} where
  abbrev pub or_old : Option J → Option J → Option J
  or_old (some v) old = some v
  or_old none old = old

  lookup-put_value :
      (k key : String) (found : Option J) (blob : List (String × J))
      → lookup k (put_value key found blob)
        ≡ (if str_eq key k then or_old found (lookup k blob) else lookup k blob)
  lookup-put_value k key none blob = ground arith
  lookup-put_value k key (some v) blob = ground (arith, lookup-insert key k v blob)

module _ {J : Type 0} (parse : String → Option J) where
  lookup-collect :
      (k : String) (keys : List String) (storage : Storage) (blob : List (String × J))
      → lookup k (collect parse keys storage blob) ≡ (
          if has k keys
          then or_old (parsed parse (lookup k storage)) (lookup k blob)
          else lookup k blob)
  unfolding collect has
  lookup-collect k [] storage blob = refl
  lookup-collect k (key ∷ keys) storage blob =
      let found = parsed parse (lookup key storage) in
      ground (
        arith,
        lookup-collect k keys storage (put_value key found blob),
        lookup-put_value k key found blob,
        eq_iff key k,
      )

module _ {J : Type 0} (text : J → String) where
  -- The text of a value, if there is one, or else the old text.
  abbrev pub text_or : Option J → Option String → Option String
  text_or (some v) old = some (text v)
  text_or none old = old

  lookup-write_value :
      (k key : String) (found : Option J) (storage : Storage)
      → lookup k (write_value text key found storage)
        ≡ (if str_eq key k then text_or found (lookup k storage) else lookup k storage)
  lookup-write_value k key none storage = ground arith
  lookup-write_value k key (some v) storage = ground (arith, lookup-insert key k (text v) storage)

  lookup-apply_values :
      (k : String) (keys : List String) (blob : List (String × J)) (storage : Storage) (applied : ℕ)
      → lookup k (apply_values text keys blob storage applied).0
        ≡ (if has k keys then text_or (lookup k blob) (lookup k storage) else lookup k storage)
  unfolding apply_values has
  lookup-apply_values k [] blob storage applied = refl
  lookup-apply_values k (key ∷ keys) blob storage applied =
      let found = lookup key blob in
      let later =
        lookup-apply_values k keys blob (write_value text key found storage)
          (count_value found applied) in
      ground (arith, later, lookup-write_value k key found storage, eq_iff key k)

  text_or-or_old :
      (synced : Bool) (found : Option J) (old : Option String)
      → (if synced then text_or (if synced then or_old found none else none) old else old)
        ≡ (if synced then text_or found old else old)
  text_or-or_old true none old = refl
  text_or-or_old true (some v) old = refl
  text_or-or_old false found old = refl

module _ {J : Type 0} (parse : String → Option J) (text : J → String)
    (parse_blob : String → Option (List (String × J)))
    (text_blob : List (String × J) → String) where
  -- What one device pushes and another pulls: each synced setting that the first has, in JSON, is on the
  -- second as the text of the same value; every other entry of the second, its session among them, is
  -- as it was. The backend answers with a status in the 200s and the text that was pushed, and JSON
  -- reads the pushed object back from its text.
  pub settings_roundtrip :
      (status : ℕ) (first second : Storage) (k : String)
      → is_ok status ≡ true
      → (let blob = collect parse synced_keys first [] in parse_blob (text_blob blob) ≡ some blob)
      → let pushed = collect_local_prefs parse text_blob first in
        lookup k (pull_prefs text parse_blob (response status (some pushed)) second).0 ≡ (
          if has k synced_keys
          then text_or text (parsed parse (lookup k first)) (lookup k second)
          else lookup k second)
  unfolding collect_local_prefs pull_prefs apply_prefs apply_blob lookup
  settings_roundtrip status first second k ok json =
      let blob = collect parse synced_keys first [] in
      rw
        (
          ok,
          json,
          lookup-apply_values text k synced_keys blob second 0,
          lookup-collect parse k synced_keys first [],
        )
        (text_or-or_old text (has k synced_keys) (parsed parse (lookup k first)) (lookup k second))
