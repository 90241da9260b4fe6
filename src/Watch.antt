-- ===== src/Watch.antt =====
-- internal/watch: the watcher's settings, its walk of the directories, its debounced channel.
pub mod Emit
pub mod Walk
pub mod Debounce
use mathlib.Core.Bool.{◌||◌, ◌&&◌}
use cs_sync.Prelude.{eqt, Text, txt, ℕ, Bool, true, false, List, [], ◌∷◌, ◌==◌, if◌then◌else◌}
use cs_sync.Os.Paths.{pieces}

abbrev pub backupdata : Text
backupdata = txt ".backupdata"

any_backupdata : List Text → Bool
any_backupdata [] = false
any_backupdata (p ∷ ps) = let rest = any_backupdata ps in if eqt p backupdata then true else rest

-- `isBackupdataPath`; `filepath.ToSlash` changes nothing on Unix.
unfoldable pub is_backupdata_path : Text → Bool
unfolding any_backupdata pieces
is_backupdata_path p = any_backupdata (pieces p)

-- Times are in milliseconds.
record Options : Type 0 where
  pub debounce_ms : ℕ
  pub safety_net_ms : ℕ
  pub max_watched_dirs : ℕ

with_defaults : Options → Options
with_defaults o = record o {
  debounce_ms = (if o.debounce_ms == 0 then 500 else o.debounce_ms);
  safety_net_ms = (if o.safety_net_ms == 0 then 86_400_000 else o.safety_net_ms);
}
