-- ===== src/Zfs/Command.antt =====
-- zfs.go: the zfs command, the parsing of its output, and the files of a rollback's approval. `Host` is the system below:
-- the subcommands list and get only read. A snapshot is spelled dataset@prefix and slot.
use mathlib.Core.Bool.{◌||◌, ◌&&◌}
use cs_sync.Prelude.{
  eqt, Text, txt, ℕ, Bool, true, false, not, Option, none, some, List, [], ◌∷◌, ◌++◌, if◌then◌else◌,
  length, drop,
}
use cs_sync.Os.{Outcome, done, failed, Act, ◌>>◌, pure}
use cs_sync.Prelude.Decimal.{Signed, plus, atoi}
use cs_sync.Prelude.Dict.{Dict}
use cs_sync.Prelude.Split.{split_first, split_on, trim_space, fields}
use cs_sync.Prelude.Strings.{has_prefix}
use cs_sync.Zfs.{Snap, Zfs, Keep}

-- The commands, the clock, the files under _cfg/sync of a service id, the files of the Proxmox
-- configurations, the base64 text of gzip, and the process's memory of the configurations stored.
pub record Host : Type 1 where
  pub World : Type 0
  pub query : List Text → World → Outcome Text
  pub command : List Text → World → Outcome Text × World
  pub send_recv : List Text → List Text → World → Outcome (Unit {0}) × World
  pub now_unix : World → ℕ
  pub read_approval : Text → World → Outcome Text
  pub remove_approval : Text → World → World
  pub write_blocked : Text → Text → World → World
  pub remove_blocked : Text → World → World
  pub write_status : Text → Text → World → World
  pub freeze_due : World → Bool
  pub note_freeze : World → World
  pub freeze_snap : Text → Text → Bool → World → Outcome Text × World
  pub guests_of : Text → Option (List Text)
  pub stat_file : Text → World → Bool
  pub glob_files : Text → World → List Text
  pub read_conf : Text → World → Outcome Text
  pub gzip64 : Text → Text
  pub gunzip64 : Text → Option Text
  pub conf_seen : World → Option (Dict Text)
  pub set_conf_seen : Dict Text → World → World

-- `zcfg`
pub record ZfsConfig : Type 0 where
  pub primary_ds : Text
  pub backup_ds : Text
  pub nr : Text
  pub prefix : Text
  pub versions : Bool
  pub retention : Keep
  pub rollback_auto : Bool
  pub service_name : Text
  pub recursive : Bool
  pub pve_on : Bool

-- `frozenVal`
unfoldable pub frozen_val : Text → Bool
frozen_val v = eqt v (txt "app") || eqt v (txt "paused")

has_text : Text → Text → Bool
unfolding has_prefix
has_text [] p = eqt p []
has_text (c ∷ s) p = let rest = has_text s p in if has_prefix (c ∷ s) p then true else rest

is_freeze : Text → Bool
unfolding has_text
is_freeze s =
    eqt s (txt "qga")
    || (eqt s (txt "fsfreeze")
        || (eqt s (txt "cgroup")
            || (eqt s (txt "esxi-quiesce")
                || (eqt s (txt "esxi-mem")
                    || (has_text s (txt "mem") || has_text s (txt "vmstate"))))))

-- The loop of `consistencyOf` over the strategies of the guests.
consistency_from : Text → List Text → Text
unfolding is_freeze
consistency_from res [] = res
consistency_from res (s ∷ l) =
    let paused = consistency_from (txt "paused") l in
    let kept = consistency_from res l in
    if eqt s (txt "qmp-pause") then paused else if is_freeze s then kept else []

consistency_of : Option (List Text) → Text
unfolding consistency_from
consistency_of none = []
consistency_of (some []) = []
consistency_of (some (s ∷ l)) = consistency_from (txt "app") (s ∷ l)

-- The creation time; what is no number counts as 0.
created_at : Option Signed → ℕ
created_at (some (plus n)) = n
created_at _ = 0

snap_named : Text → Text → Text → Option (Text × Text) → Option Snap
unfolding has_prefix created_at atoi
snap_named prefix guid created none = none
snap_named prefix guid created (some (ds, name)) =
    if has_prefix name prefix
    then some (record {
      slot = drop (length prefix) name;
      guid = guid;
      created = created_at (atoi created);
    })
    else none

snap_of_parts : Text → List Text → Option Snap
unfolding snap_named split_first
snap_of_parts prefix (full_name ∷ guid ∷ created ∷ more) =
    snap_named prefix guid created (split_first b'@' full_name)
snap_of_parts prefix _ = none

cons_some : Option Snap → List Snap → List Snap
cons_some none l = l
cons_some (some s) l = s ∷ l

-- The lines of a listing, of which those that are no snapshot of the replication are left out.
unfoldable pub parse_snaps : Text → List Text → List Snap
unfolding snap_of_parts split_on trim_space cons_some
parse_snaps prefix [] = []
parse_snaps prefix (ln ∷ lns) =
    cons_some (snap_of_parts prefix (split_on 9 (trim_space ln))) (parse_snaps prefix lns)

-- The flags of `isZfsMode`.
is_zfs_mode : List Text → Bool
is_zfs_mode [] = false
is_zfs_mode (a ∷ []) = eqt a (txt "--mode=zfs") || eqt a (txt "-mode=zfs")
is_zfs_mode (a ∷ b ∷ args) =
    let rest = is_zfs_mode (b ∷ args) in
    if (eqt a (txt "--mode") || eqt a (txt "-mode")) && eqt b (txt "zfs")
    then true
    else if eqt a (txt "--mode=zfs") || eqt a (txt "-mode=zfs")
    then true
    else rest

-- `receive_resume_token`, and other properties, that stand for no value.
unfoldable pub is_unset : Text → Bool
is_unset v = eqt v [] || eqt v (txt "-")

module _ (h : Host) where
  open h use {World}

  abbrev pub zfs_query : List Text → World → Outcome Text
  zfs_query args w = elim (h.query args w) [
    | done out ↦ done (trim_space out)
    | failed e ↦ failed e
  ]

  unfoldable pub zfs_exists : Text → World → Bool
  zfs_exists ds w = elim (zfs_query (txt "list" ∷ txt "-H" ∷ txt "-o" ∷ txt "name" ∷ ds ∷ []) w) [
    | done out ↦ true
    | failed e ↦ false
  ]

  unfoldable pub zfs_get : Text → Text → World → Text
  unfolding trim_space
  zfs_get prop ds w =
      elim (zfs_query (txt "get" ∷ txt "-H" ∷ txt "-o" ∷ txt "value" ∷ prop ∷ ds ∷ []) w) [
        | done out ↦ out
        | failed e ↦ []
      ]

  -- A command whose output is not used.
  unfoldable pub zfs_run : List Text → Act World (Unit {0})
  zfs_run args w =
      let (r, w') = h.command args w in
      elim r [ done out ↦ (done tt, w') | failed e ↦ (failed e, w') ]

  -- `zfs set prop=value ds`, whose failure the source ignores.
  unfoldable pub set_quietly : Text → Text → World → World
  unfolding zfs_run
  set_quietly assignment ds w = (zfs_run (txt "set" ∷ assignment ∷ ds ∷ []) w).1

  module _ (c : ZfsConfig) where
    abbrev pub snap_name : Text → Text → Text
    snap_name ds slot = ds ++ txt "@" ++ c.prefix ++ slot

    unfoldable pub send_args : List Text → List Text
    send_args args = if c.recursive then txt "send" ∷ txt "-R" ∷ args else txt "send" ∷ args

    unfoldable pub list_snaps_of : Text → World → Outcome (List Snap)
    unfolding parse_snaps split_on trim_space
    list_snaps_of ds w =
        elim (zfs_query
          (txt "list"
            ∷ txt "-H"
            ∷ txt "-p"
            ∷ txt "-t"
            ∷ txt "snapshot"
            ∷ txt "-d"
            ∷ txt "1"
            ∷ txt "-o"
            ∷ txt "name,guid,creation"
            ∷ txt "-s"
            ∷ txt "createtxg"
            ∷ ds
            ∷ [])
          w) [ done out ↦ done (parse_snaps c.prefix (split_on 10 out)) | failed e ↦ failed e ]

    unfoldable pub rename_of : Text → Text → Text → Act World (Unit {0})
    unfolding zfs_run
    rename_of ds from to =
        let names = snap_name ds from ∷ snap_name ds to ∷ [] in
        zfs_run (txt "rename" ∷ (if c.recursive then txt "-r" ∷ names else names))

    unfoldable pub destroy_named : Text → Act World (Unit {0})
    unfolding zfs_run
    destroy_named full_name =
        zfs_run
          (txt "destroy" ∷ (if c.recursive then txt "-r" ∷ full_name ∷ [] else full_name ∷ []))

    -- The interface of a rotation, filled by the command.
    abbrev pub zfs_of : Zfs
    zfs_of = record {
      World = World;
      list_snaps = list_snaps_of;
      rename_snap = rename_of;
      destroy_snap = λ ds slot. destroy_named (snap_name ds slot);
      exists_ds = zfs_exists;
      is_consistent = λ ds slot w. frozen_val (zfs_get (txt "cs:consistent") (snap_name ds slot) w);
      unix_now = h.now_unix;
      clear_blocked = λ w. if eqt c.service_name [] then w else h.remove_blocked c.service_name w;
    }

    any_written : List Text → Bool
    any_written [] = false
    any_written (v ∷ vs) =
        let rest = any_written vs in
        if not (eqt v (txt "0")) && not (eqt v (txt "-")) then true else rest

    -- `changed`
    unfoldable pub changed : World → Bool
    unfolding any_written fields trim_space
    changed w =
        let prop = txt "written@" ++ c.prefix ++ txt "n0" in
        if not c.recursive
        then elim (zfs_query
            (txt "get" ∷ txt "-H" ∷ txt "-p" ∷ txt "-o" ∷ txt "value" ∷ prop ∷ c.primary_ds ∷ [])
            w) [ done v ↦ not (eqt (trim_space v) (txt "0")) | failed e ↦ true ]
        else elim (zfs_query
            (txt "get"
              ∷ txt "-H"
              ∷ txt "-p"
              ∷ txt "-r"
              ∷ txt "-t"
              ∷ txt "filesystem,volume"
              ∷ txt "-o"
              ∷ txt "value"
              ∷ prop
              ∷ c.primary_ds
              ∷ [])
            w) [ done out ↦ any_written (fields out) | failed e ↦ true ]

    fix_line : List Text → World → World
    unfolding set_quietly
    fix_line (name ∷ readonly ∷ canmount ∷ more) w =
        let w1 = if eqt readonly (txt "on") then w else set_quietly (txt "readonly=on") name w in
        if eqt canmount (txt "noauto") then w1 else set_quietly (txt "canmount=noauto") name w1
    fix_line _ w = w

    fix_lines : List Text → World → World
    unfolding fix_line split_on trim_space
    fix_lines [] w = w
    fix_lines (ln ∷ lns) w = fix_lines lns (fix_line (split_on 9 (trim_space ln)) w)

    -- `fixTree`
    unfoldable pub fix_tree : Text → World → World
    unfolding fix_lines split_on
    fix_tree ds w =
        elim (zfs_query
          (txt "list" ∷ txt "-r" ∷ txt "-H" ∷ txt "-o" ∷ txt "name,readonly,canmount" ∷ ds ∷ [])
          w) [ done out ↦ fix_lines (split_on 10 out) w | failed e ↦ w ]

    names_pair : Text → Text → List Text → Bool
    names_pair base newest (a ∷ b ∷ more) = eqt a base && eqt b newest
    names_pair base newest _ = false

    -- `approved`
    unfoldable pub is_approved : Text → Text → World → Bool
    unfolding names_pair fields
    is_approved base newest w =
        if eqt c.service_name [] then false else elim (h.read_approval c.service_name w) [
          | done b ↦ names_pair base newest (fields b)
          | failed e ↦ false
        ]

    unfoldable pub set_blocked : Text → Text → World → World
    set_blocked base newest w =
        if eqt c.service_name []
        then w
        else h.write_blocked c.service_name (base ++ txt " " ++ newest ++ 10 ∷ []) w

    -- `status`; the log is left out.
    unfoldable pub status : Text → World → World
    status line w = h.write_status c.service_name line w

    unfoldable pub snapshot_rec : Text → Act World (Unit {0})
    unfolding zfs_run
    snapshot_rec full_name =
        zfs_run
          (txt "snapshot" ∷ (if c.recursive then txt "-r" ∷ full_name ∷ [] else full_name ∷ []))

    -- `takeSnapshot`: what it returns is the snapshot's cs:consistent value.
    unfoldable pub take_snapshot : Text → Text → Act World Text
    unfolding snapshot_rec destroy_named consistency_of
    take_snapshot ds slot w =
        let full_name = snap_name ds slot in
        let plain_snapshot = λ (w' : World). (do snapshot_rec full_name; pure []) w' in
        if h.freeze_due w
        then (let (r, w') = h.freeze_snap ds (c.prefix ++ slot) c.recursive (h.note_freeze w) in
            elim r [
              | done out ↦ (done (consistency_of (h.guests_of out)), w')
              | failed e ↦ plain_snapshot (destroy_named full_name w').1
            ])
        else plain_snapshot w

-- `parseKeep` on the limits in hours and days: what is no number leaves a limit alone.
keep_part : Signed × Signed → Text → Signed × Signed
unfolding split_first trim_space atoi
keep_part (hours, days) p = elim (split_first b':' (trim_space p)) [
  | none ↦ (hours, days)
  | some (name, number) ↦ elim (atoi number) [
    | some n ↦
        if eqt name (txt "hours")
        then (n, days)
        else if eqt name (txt "days")
        then (hours, n)
        else (hours, days)
    | none ↦ (hours, days)
  ]
]

keep_parts : Signed × Signed → List Text → Signed × Signed
unfolding keep_part
keep_parts k [] = k
keep_parts k (p ∷ ps) = keep_parts (keep_part k p) ps

unfoldable parse_keep : Signed × Signed → Text → Signed × Signed
unfolding keep_parts split_on
parse_keep k s = keep_parts k (split_on b',' s)
