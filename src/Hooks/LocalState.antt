-- ===== src/Hooks/LocalState.antt =====
-- frontend/src/presentation/hooks/useLocalState.ts: a value that is kept in the browser's storage. The
-- storage is the text under the hook's key. `parse` is JSON.parse, `none` where it throws, and `text`
-- is JSON.stringify.
pub mod Sessions
use crypto_dashboard.Prelude.{String, Bool, true, false, Option, none, some, if◌then◌else◌}

pub record Local {ℓ} (B : Type ℓ) : Type ℓ where
  pub value : B
  pub loaded : Bool

module _ {ℓ} {B : Type ℓ} where
  unfoldable pub mount : B → Local B
  mount initial = record { value = initial; loaded = false }

  abbrev pub parsed_or : B → Option B → B
  parsed_or old none = old
  parsed_or old (some new) = new

  -- The value that the first effect sets.
  unfoldable pub restored : (String → Option B) → B → Option String → B
  restored parse old none = old
  restored parse old (some raw) = parsed_or old (parse raw)

  -- The first effect: `localStorage.getItem` gives the text, or `null`.
  unfoldable pub load : (String → Option B) → Option String → Local B → Local B
  unfolding restored
  load parse raw s = record { value = restored parse s.value raw; loaded = true }

  unfoldable pub set_value : B → Local B → Local B
  set_value v s = record s { value = v }

  -- The second effect, on the stored text; `full` says that the storage refuses the write.
  unfoldable pub save : (B → String) → Bool → Local B → Option String → Option String
  save text full s raw = if s.loaded then if full then raw else some (text s.value) else raw
