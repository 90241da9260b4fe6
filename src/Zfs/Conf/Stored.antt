-- ===== src/Zfs/Conf/Stored.antt =====
-- pveconf.go: `getConfProp` after `setConfProp`.
use cs_sync.Prelude.{eqt, Text, txt, ℕ, ◌+◌, ◌≡◌, false, List, [], ◌∷◌, ◌++◌, if◌then◌else◌}
use cs_sync.Os.{done, Act}
use cs_sync.Prelude.Split.{has_byte}
use cs_sync.Zfs.Command.{Host, zfs_get, zfs_run}
use cs_sync.Zfs.Conf.{conf_prop}
use cs_sync.Zfs.Conf.Props.{IsChunk}

-- The user properties of a target that inherits none from a parent: what is set is read back until it
-- is set again or inherited, and a property whose `zfs inherit` succeeded reads "-".
pub record IsStore (h : Host) (target : Text) : Type 0 where
  pub set_reads :
      (p q v : Text) (w : h.World)
      → has_byte b'=' p ≡ false
      → IsChunk v
      → (zfs_run h (txt "set" ∷ (p ++ txt "=" ++ v) ∷ target ∷ []) w).0 ≡ done tt
      → zfs_get h q target (zfs_run h (txt "set" ∷ (p ++ txt "=" ++ v) ∷ target ∷ []) w).1
        ≡ (if eqt p q then v else zfs_get h q target w)
  pub inherit_reads :
      (p q : Text) (w : h.World)
      → (zfs_run h (txt "inherit" ∷ p ∷ target ∷ []) w).0 ≡ done tt
      → zfs_get h q target (zfs_run h (txt "inherit" ∷ p ∷ target ∷ []) w).1
        ≡ (if eqt p q then txt "-" else zfs_get h q target w)

-- Every `zfs inherit` of a property of the target succeeds; `setConfProp` does not look at its error.
abbrev pub Inherits : (h : Host) → Text → Type 0
Inherits h target =
    (p : Text) (w : h.World) → (zfs_run h (txt "inherit" ∷ p ∷ target ∷ []) w).0 ≡ done tt

module _ (h : Host) (target : Text) (store : IsStore h target) (works : Inherits h target) where
  open h use {World}

  abbrev read_at : ℕ → World → Text
  read_at i w = zfs_get h (conf_prop i) target w

  -- The properties from i on hold these chunks.
  abbrev Reads : ℕ → List Text → World → Type 0
  Reads i [] w = Unit {0}
  Reads i (v ∷ vs) w = (read_at i w ≡ v) × Reads (i + 1) vs w

  abbrev set_at : ℕ → Text → Act World (Unit {0})
  set_at i v = zfs_run h (txt "set" ∷ (conf_prop i ++ txt "=" ++ v) ∷ target ∷ [])

  abbrev without : ℕ → World → World
  without i w = (zfs_run h (txt "inherit" ∷ conf_prop i ∷ target ∷ []) w).1
