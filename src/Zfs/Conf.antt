-- ===== src/Zfs/Conf.antt =====
-- pveconf.go: the Proxmox configurations as user properties, in chunks.
pub mod Props
pub mod Stored
use cs_sync.Prelude.{
  eqt, Text, txt, ℕ, zero, suc, ◌+◌, Bool, true, false, not, Option, none, some, List, [], ◌∷◌,
  ◌++◌, ◌==◌, if◌then◌else◌, length, take, drop,
}
use cs_sync.Os.{Outcome, done, failed, Act, and_then}
use cs_sync.Prelude.Decimal.{decimal}
use cs_sync.Prelude.Dict.{Dict, lookup, insert}
use cs_sync.Prelude.Split.{has_byte}
use cs_sync.Zfs.Command.{Host, ZfsConfig, is_unset, zfs_exists, zfs_get, zfs_run}
use cs_sync.Zfs.Guests.{pve_confs}

abbrev pub conf_chunk : ℕ
conf_chunk = 6000

unfoldable pub conf_prop : ℕ → Text
unfolding decimal
conf_prop i = if i == 0 then txt "cs:pveconf" else txt "cs:pveconf." ++ decimal i

unfoldable pub join_ds : Text → Text → Text
join_ds base below = if eqt below [] then base else base ++ txt "/" ++ below

-- `enc[i*confChunk:end]` for each round of `setConfProp`; fuel for each byte is enough.
pub chunks_on : ℕ → ℕ → Text → List Text
chunks_on zero size s = []
chunks_on (suc fuel) size [] = []
chunks_on (suc fuel) size (c ∷ s) = take size (c ∷ s) ∷ chunks_on fuel size (drop size (c ∷ s))

unfoldable pub chunks_of : ℕ → Text → List Text
unfolding chunks_on
chunks_of size s = chunks_on (length s) size s

insert_all : Dict Text → Dict Text → Dict Text
unfolding insert
insert_all [] seen = seen
insert_all ((k, v) ∷ m) seen = insert_all m (insert k v seen)

is_empty : Dict Text → Bool
is_empty [] = true
is_empty (kv ∷ m) = false

module _ (h : Host) where
  open h use {World}

  -- `getConfProp` from property i on, with fuel for the chunks; `none` where it runs out.
  unfoldable pub get_chunks : ℕ → ℕ → Text → World → Option Text
  unfolding zfs_get is_unset conf_prop
  get_chunks zero i target w = none
  get_chunks (suc fuel) i target w =
      let v = zfs_get h (conf_prop i) target w in
      let rest = get_chunks fuel (i + 1) target w in
      if is_unset v then some [] else elim rest [ none ↦ none | some s ↦ some (v ++ s) ]

  -- The rounds that set the chunks from property i on.
  unfoldable pub set_chunks : ℕ → List Text → Text → Act World (Unit {0})
  unfolding zfs_run conf_prop
  set_chunks i [] target w = (done tt, w)
  set_chunks i (v ∷ vs) target w =
      and_then (zfs_run h (txt "set" ∷ (conf_prop i ++ txt "=" ++ v) ∷ target ∷ []) w).0
        (λ _ w'. set_chunks (i + 1) vs target w')
        (zfs_run h (txt "set" ∷ (conf_prop i ++ txt "=" ++ v) ∷ target ∷ []) w).1

  -- The loop that drops the chunks left over from property i on, with fuel; the Boolean says whether it ended.
  unfoldable pub drop_chunks : ℕ → ℕ → Text → World → Bool × World
  unfolding zfs_get zfs_run is_unset conf_prop
  drop_chunks zero i target w = (false, w)
  drop_chunks (suc fuel) i target w =
      let rest =
        drop_chunks fuel (i + 1) target
          (zfs_run h (txt "inherit" ∷ conf_prop i ∷ target ∷ []) w).1 in
      if is_unset (zfs_get h (conf_prop i) target w) then (true, w) else rest

  unfoldable pub dropped_unless :
      Bool → ℕ → ℕ → Text → Outcome (Unit {0}) × World → Outcome (Unit {0}) × World
  unfolding drop_chunks
  dropped_unless snapshot fuel n target (failed e, w) = (failed e, w)
  dropped_unless snapshot fuel n target (done u, w) =
      if snapshot then (done tt, w) else (done tt, (drop_chunks fuel n target w).1)

  -- `setConfProp`
  unfoldable pub set_conf_prop : ℕ → Text → Text → Act World (Unit {0})
  unfolding dropped_unless set_chunks chunks_of has_byte
  set_conf_prop fuel target enc w =
      let vs = chunks_of conf_chunk enc in
      dropped_unless (has_byte b'@' target) fuel (length vs) target (set_chunks 0 vs target w)

  -- `getConfProp`; where the fuel runs out, as if nothing were stored.
  get_conf_prop : ℕ → Text → World → Text
  unfolding get_chunks
  get_conf_prop fuel target w = elim (get_chunks fuel 0 target w) [ some s ↦ s | none ↦ [] ]

  -- `applyConfs`; failures are only logged.
  unfoldable pub apply_confs : ℕ → Text → Dict Text → Text → World → World
  unfolding set_conf_prop join_ds
  apply_confs fuel base [] snap w = w
  apply_confs fuel base ((below, enc) ∷ confs) snap w =
      let t = join_ds base below in
      let w1 = (set_conf_prop fuel t enc w).1 in
      let w2 = if eqt snap [] then w1 else (set_conf_prop fuel (t ++ txt "@" ++ snap) enc w1).1 in
      apply_confs fuel base confs snap w2

  module _ (c : ZfsConfig) where
    -- What is stored for each of the current configurations.
    stored_confs : ℕ → Dict Text → World → Dict Text
    unfolding get_conf_prop join_ds
    stored_confs fuel [] w = []
    stored_confs fuel ((below, enc) ∷ confs) w =
        let v = get_conf_prop fuel (join_ds c.primary_ds below) w in
        let rest = stored_confs fuel confs w in if eqt v [] then rest else insert below v rest

    seen_or_stored : ℕ → Dict Text → World → Dict Text
    unfolding stored_confs
    seen_or_stored fuel cur w = elim (h.conf_seen w) [
      | some seen ↦ seen
      | none ↦ stored_confs fuel cur w
    ]

    seen_as : Option Text → Text
    seen_as none = []
    seen_as (some v) = v

    differing : Dict Text → Dict Text → Dict Text
    unfolding lookup seen_as
    differing seen [] = []
    differing seen ((below, enc) ∷ confs) =
        let rest = differing seen confs in
        if eqt (seen_as (lookup below seen)) enc then rest else insert below enc rest

    -- `confDelta`
    unfoldable pub conf_delta : ℕ → World → Dict Text × World
    unfolding seen_or_stored differing pve_confs
    conf_delta fuel w =
        if not c.pve_on
        then ([], w)
        else (let seen = seen_or_stored fuel (pve_confs h c w) w in
            (differing seen (pve_confs h c w), h.set_conf_seen seen w))

    unfoldable pub confs_if_on : World → Dict Text
    confs_if_on w = if not c.pve_on then [] else pve_confs h c w

    -- `confMarkSeen`
    unfoldable pub mark_seen : Dict Text → World → World
    unfolding insert_all
    mark_seen m w =
        h.set_conf_seen (insert_all m (elim (h.conf_seen w) [ some seen ↦ seen | none ↦ [] ])) w

    -- `confOnlyLocal`
    unfoldable pub conf_only_local : ℕ → World → World
    unfolding conf_delta apply_confs zfs_exists mark_seen is_empty
    conf_only_local fuel w =
        let (d, w1) = conf_delta fuel w in
        let w2 = apply_confs fuel c.primary_ds d [] w1 in
        let w3 = if zfs_exists h c.backup_ds w2 then apply_confs fuel c.backup_ds d [] w2 else w2 in
        if is_empty d then w1 else mark_seen d w3
