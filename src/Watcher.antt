-- ===== src/Watcher.antt =====
-- internal/config/dynamic_config_watcher.go: the watcher of the file with the dynamic configuration, one
-- tick at a time. The file's bytes, their JSON and their SHA-256 are parameters; the period of its ticker is in
-- Program.
pub mod Follow
mod Tests
use text.Mathlib.Text.{◌==◌ as str_eq}
use strimzi_canary.Common.{
  ℕ, Bool, true, false, not, ◌&&◌, List, [], ◌∷◌, Option, none, some, if◌then◌else◌, ltb, String,
  Outcome, ok, crash, close_of_closed_channel, ◌>>=◌,
}
use strimzi_canary.Common.Int.{ℤ, pos, ltb_ℤ}

-- A configuration is what the bytes of a file decode to, over the defaults; `hash` is in hexadecimal digits.
pub record Files : Type 1 where
  pub Bytes : Type 0
  pub Config : Type 0
  pub parse : Bytes → Option Config
  pub hash : Bytes → String
  pub default : Config

-- `closed` is what the sync.Once keeps, `quit` whether the channel is closed.
pub record Watcher : Type 0 where
  pub exists : Bool
  pub hash : String
  pub closed : Bool
  pub quit : Bool

abbrev pub idle : Watcher
idle = record { exists = false; hash = ""; closed = false; quit = false }

unfoldable pub close : Watcher → Outcome Watcher
close w =
    if w.closed
    then ok w
    else if w.quit
    then crash close_of_closed_channel
    else ok (record w { closed = true; quit = true })

module _ (fs : Files) where
  -- What a tick finds: no file, another failure of os.Stat, or a file, which may not be readable.
  pub data Look : Type 0 where
    missing unknown : Look
    present : Option fs.Bytes → Look

  -- the bytes' configuration and hash, or none where the source has an error
  unfoldable pub read_and_hash : Option fs.Bytes → Option (fs.Config × String)
  read_and_hash none = none
  read_and_hash (some b) = elim (fs.parse b) [
    | none ↦ none
    | some target ↦ some (target, fs.hash b)
  ]

  -- A watcher applies the configuration of a file that is there at its start.
  unfoldable pub first_read : Option (fs.Config × String) → Watcher × Option fs.Config
  first_read none = (idle, none)
  first_read (some (target, h)) = (record idle { hash = h; exists = true }, some target)

  unfoldable pub new_dynamic_config_watcher :
      String → ℤ → Option fs.Bytes → Watcher × Option fs.Config
  unfolding read_and_hash first_read
  new_dynamic_config_watcher file interval contents =
      if not (str_eq file "") && ltb_ℤ (pos 0) interval
      then first_read (read_and_hash contents)
      else (idle, none)

  unfoldable pub apply_read : Watcher → Option (fs.Config × String) → Watcher × Option fs.Config
  apply_read w none = (w, none)
  apply_read w (some (target, h)) =
      if str_eq h w.hash then (w, none) else (record w { hash = h }, some target)

  -- One tick, with the configuration that it applies, if any.
  unfoldable pub tick : Watcher → Look → Watcher × Option fs.Config
  unfolding read_and_hash apply_read
  tick w (present contents) = apply_read (record w { exists = true }) (read_and_hash contents)
  tick w missing = if w.exists then (record w { exists = false }, some fs.default) else (w, none)
  tick w unknown = (w, none)
