-- ===== src/Zfs/Quiet.antt =====
-- pveconf.go: setting properties leaves the listings of snapshots alone.
use cs_sync.Prelude.{
  eqt, Text, txt, ℕ, zero, suc, ◌+◌, ◌≡◌, refl, ◌∙◌, inl, inr, Bool, true, false, List, [], ◌∷◌,
  ◌++◌, Bool-cases,
}
use cs_sync.Os.{Outcome, done, failed}
use cs_sync.Prelude.Dict.{Dict}
use cs_sync.Prelude.Split.{has_byte}
use cs_sync.Os.Keeps.{Keeps, Keeps-bind}
use cs_sync.Zfs.{Snap}
use cs_sync.Zfs.Command.{Host, ZfsConfig, is_unset, zfs_get, zfs_run, set_quietly, list_snaps_of}
use cs_sync.Zfs.Conf.{
  conf_prop, join_ds, chunks_of, set_chunks, drop_chunks, dropped_unless, set_conf_prop,
  apply_confs, mark_seen,
}

-- What `zfs set` and `zfs inherit`, and the process's memory, do to listings: nothing.
pub record IsQuiet (h : Host) (c : ZfsConfig) (ds : Text) : Type 0 where
  pub set_keeps :
      (assignment target : Text) (w : h.World)
      → list_snaps_of h c ds (h.command (txt "set" ∷ assignment ∷ target ∷ []) w).1
        ≡ list_snaps_of h c ds w
  pub inherit_keeps :
      (prop target : Text) (w : h.World)
      → list_snaps_of h c ds (h.command (txt "inherit" ∷ prop ∷ target ∷ []) w).1
        ≡ list_snaps_of h c ds w
  pub seen_keeps :
      (m : Dict Text) (w : h.World)
      → list_snaps_of h c ds (h.set_conf_seen m w) ≡ list_snaps_of h c ds w

zfs_run-world :
    (h : Host) (args : List Text) (w : h.World) → (zfs_run h args w).1 ≡ (h.command args w).1
unfolding zfs_run
zfs_run-world h args w = go (h.command args w)
  where
    go :
        (x : Outcome Text × h.World)
        → (elim x.0 as (λ _. Outcome (Unit {0}) × h.World) [
          | done out ↦ (done tt, x.1)
          | failed e ↦ (failed e, x.1)
        ]).1
          ≡ x.1
    go (done out, w') = refl
    go (failed e, w') = refl

module _ (h : Host) (c : ZfsConfig) (ds : Text) (law : IsQuiet h c ds)
    (listed : Outcome (List Snap)) where
  open h use {World}

  abbrev Shows : World → Type 0
  Shows w = list_snaps_of h c ds w ≡ listed

  set-Shows :
      (assignment target : Text) → Keeps Shows (zfs_run h (txt "set" ∷ assignment ∷ target ∷ []))
  set-Shows assignment target w e =
      rw (zfs_run-world h (txt "set" ∷ assignment ∷ target ∷ []) w)
        (law.set_keeps assignment target w ∙ e)

  inherit-Shows :
      (prop target : Text) → Keeps Shows (zfs_run h (txt "inherit" ∷ prop ∷ target ∷ []))
  inherit-Shows prop target w e =
      rw (zfs_run-world h (txt "inherit" ∷ prop ∷ target ∷ []) w)
        (law.inherit_keeps prop target w ∙ e)

  pub set_quietly-Shows :
      (assignment target : Text) (w : World) → Shows w → Shows (set_quietly h assignment target w)
  unfolding set_quietly
  set_quietly-Shows assignment target w e = set-Shows assignment target w e

  set_chunks-Shows :
      (i : ℕ) (vs : List Text) (target : Text) → Keeps Shows (set_chunks h i vs target)
  unfolding set_chunks
  set_chunks-Shows i [] target w e = e
  set_chunks-Shows i (v ∷ vs) target w e =
      Keeps-bind Shows (zfs_run h (txt "set" ∷ (conf_prop i ++ txt "=" ++ v) ∷ target ∷ []))
        (λ _. set_chunks h (i + 1) vs target) (set-Shows _ target)
        (λ _. set_chunks-Shows (i + 1) vs target) w e

  drop_chunks-Shows :
      (fuel i : ℕ) (target : Text) (w : World) → Shows w → Shows (drop_chunks h fuel i target w).1
  unfolding drop_chunks
  drop_chunks-Shows zero i target w e = e
  drop_chunks-Shows (suc fuel) i target w e =
      elim (Bool-cases (is_unset (zfs_get h (conf_prop i) target w))) [
        | inl ended ↦ rw ended e
        | inr in_use ↦
            rw in_use
              (drop_chunks-Shows fuel (i + 1) target _ (inherit-Shows (conf_prop i) target w e))
      ]

  dropped_unless-Shows :
      (snapshot : Bool) (fuel n : ℕ) (target : Text) (r : Outcome (Unit {0}) × World)
      → Shows r.1
      → Shows (dropped_unless h snapshot fuel n target r).1
  unfolding dropped_unless
  dropped_unless-Shows snapshot fuel n target (failed z, w) e = e
  dropped_unless-Shows true fuel n target (done u, w) e = e
  dropped_unless-Shows false fuel n target (done u, w) e = drop_chunks-Shows fuel n target w e

  set_conf_prop-Shows :
      (fuel : ℕ) (target enc : Text) → Keeps Shows (set_conf_prop h fuel target enc)
  unfolding set_conf_prop
  set_conf_prop-Shows fuel target enc w e =
      dropped_unless-Shows (has_byte b'@' target) fuel _ target _
        (set_chunks-Shows 0 (chunks_of 6000 enc) target w e)

  pub apply_confs-Shows :
      (fuel : ℕ) (base : Text) (confs : Dict Text) (snap : Text) (w : World)
      → Shows w
      → Shows (apply_confs h fuel base confs snap w)
  unfolding apply_confs
  apply_confs-Shows fuel base [] snap w e = e
  apply_confs-Shows fuel base ((below, enc) ∷ confs) snap w e =
      let on_dataset = set_conf_prop-Shows fuel (join_ds base below) enc w e in
      elim (Bool-cases (eqt snap [])) [
        | inl bare ↦ rw bare (apply_confs-Shows fuel base confs snap _ on_dataset)
        | inr named ↦ rw named (
            apply_confs-Shows fuel base confs snap _
              (set_conf_prop-Shows fuel (join_ds base below ++ txt "@" ++ snap) enc _ on_dataset))
      ]

  pub mark_seen-Shows : (m : Dict Text) (w : World) → Shows w → Shows (mark_seen h c m w)
  unfolding mark_seen
  mark_seen-Shows m w e = law.seen_keeps _ w ∙ e
