-- ===== src/Zfs/Guests.antt =====
-- pveconf.go: which datasets are disks of Proxmox guests, and the configurations of these guests as
-- the texts that are stored with the datasets.
pub mod Decoded
use cs_sync.Prelude.{
  eqt, Text, txt, ◌/◌, Bool, false, not, ◌&&◌, Option, none, some, List, [], ◌∷◌, ◌++◌,
  if◌then◌else◌, drop,
}
use cs_sync.Model.{file}
use cs_sync.Os.{other_error, errorf, Outcome, done, failed}
use cs_sync.Prelude.Decimal.{is_digit}
use cs_sync.Prelude.Dict.{Dict, insert}
use cs_sync.Prelude.Split.{split_first, split_last, fields}
use cs_sync.Prelude.Strings.{has_prefix, trim_prefix}
use cs_sync.Reconcile.{sort_texts}
use cs_sync.Zfs.Command.{Host, ZfsConfig, zfs_query}

-- The digits that a text begins with, and the rest.
pub digits_of : Text → Text × Text
digits_of [] = ([], [])
digits_of (c ∷ s) =
    let (ds, rest) = digits_of s in if is_digit c then (c ∷ ds, rest) else ([], c ∷ s)

starts_digit : Text → Bool
starts_digit [] = false
starts_digit (c ∷ s) = is_digit c

-- The id, where `(\d+)-disk-\d+` matches.
pub disk_id : Text → Option Text
unfolding digits_of starts_digit
disk_id s =
    let (id, rest) = digits_of s in
    if not (eqt id []) && (has_prefix rest (txt "-disk-") && starts_digit (drop 6 rest))
    then some id
    else none

pub with_kind : Text → Option Text → Option (Text × Text)
with_kind kind none = none
with_kind kind (some id) = some (kind, id)

-- `diskRe`: the guest's kind, as it is spelled there, and its id.
unfoldable pub disk_of : Text → Option (Text × Text)
unfolding disk_id with_kind
disk_of s =
    if has_prefix s (txt "vm-")
    then with_kind (txt "vm") (disk_id (drop 3 s))
    else if has_prefix s (txt "subvol-")
    then with_kind (txt "subvol") (disk_id (drop 7 s))
    else if has_prefix s (txt "base-")
    then with_kind (txt "base") (disk_id (drop 5 s))
    else none

-- `n[strings.LastIndex(n, "/")+1:]`
pub last_part : Text → Text
last_part n = elim (split_last b'/' n) [ some (l, r) ↦ r | none ↦ n ]

first_or_none : List Text → Text
first_or_none [] = []
first_or_none (p ∷ ps) = p

unfoldable pub sub_dir : Text → Text
sub_dir prefix = if eqt prefix (txt "subvol") then txt "lxc" else txt "qemu-server"

unfoldable pub guest_kind : Text → Text
guest_kind sub = if eqt sub (txt "lxc") then txt "lxc" else txt "qemu"

unfoldable pub first_line : Text → Text → Text
first_line kind id = txt "#cs-pve " ++ (kind ++ 32 ∷ id)

-- What `decodeConf` makes of the fields of the first line and the text behind it.
header_of : List Text → Text → Outcome (Text × Text × Text)
header_of (mark ∷ kind ∷ id ∷ []) body =
    if eqt mark (txt "#cs-pve")
    then done (kind, id, body)
    else failed (errorf (txt "cs:pveconf without header"))
header_of _ body = failed (errorf (txt "cs:pveconf without header"))

decoded_parts : Option (Text × Text) → Outcome (Text × Text × Text)
unfolding header_of
decoded_parts none = failed (errorf (txt "cs:pveconf without header"))
decoded_parts (some (line, body)) = header_of (fields line) body

module _ (h : Host) where
  open h use {World}

  -- `encodeConf`
  unfoldable pub encode_conf : Text → Text → Text → Text
  unfolding first_line
  encode_conf kind id body = txt "gz1:" ++ h.gzip64 (first_line kind id ++ 10 ∷ body)

  -- `decodeConf`
  unfoldable pub decode_conf : Text → Outcome (Text × Text × Text)
  unfolding decoded_parts
  decode_conf s =
      if not (has_prefix s (txt "gz1:"))
      then failed (errorf (txt "unknown cs:pveconf format"))
      else elim (h.gunzip64 (drop 4 s)) [
        | none ↦ failed other_error
        | some all ↦ decoded_parts (split_first 10 all)
      ]

  -- `findConfFile`; the empty text where there is none.
  unfoldable pub find_conf_file : Text → Text → World → Text
  unfolding first_or_none sort_texts
  find_conf_file sub id w =
      let path = txt "/etc/pve/" ++ sub ++ txt "/" ++ id ++ txt ".conf" in
      if h.stat_file path w
      then path
      else first_or_none (
          sort_texts
            (h.glob_files (txt "/etc/pve/nodes/*/" ++ sub ++ txt "/" ++ id ++ txt ".conf") w))

  -- The configuration of one disk's guest.
  unfoldable pub conf_read : Text → Text → Outcome Text → Option Text
  conf_read sub id (failed e) = none
  conf_read sub id (done []) = none
  conf_read sub id (done (b ∷ body)) = some (encode_conf (guest_kind sub) id (b ∷ body))

  unfoldable pub conf_of_disk : Option (Text × Text) → World → Option Text
  unfolding conf_read
  conf_of_disk none w = none
  conf_of_disk (some (prefix, id)) w =
      let sub = sub_dir prefix in
      let file = find_conf_file sub id w in
      if eqt file [] then none else conf_read sub id (h.read_conf file w)

  module _ (c : ZfsConfig) where
    -- The datasets of the tree, or the primary where the listing fails.
    pub dataset_names : World → List Text
    unfolding fields
    dataset_names w =
        let listed : List Text =
          elim (zfs_query h
            (txt "list"
              ∷ txt "-r"
              ∷ txt "-H"
              ∷ txt "-o"
              ∷ txt "name"
              ∷ txt "-t"
              ∷ txt "filesystem,volume"
              ∷ c.primary_ds
              ∷ [])
            w) [ done out ↦ fields out | failed e ↦ c.primary_ds ∷ [] ] in
        if c.recursive then listed else c.primary_ds ∷ []

    pub relative : Text → Text
    unfolding trim_prefix
    relative n = trim_prefix (trim_prefix n c.primary_ds) (txt "/")

    pub note_conf : Text → Option Text → Dict Text → Dict Text
    unfolding insert
    note_conf n none m = m
    note_conf n (some enc) m = insert (relative n) enc m

    unfoldable pub confs_on : List Text → Dict Text → World → Dict Text
    unfolding note_conf relative conf_of_disk disk_of last_part
    confs_on [] m w = m
    confs_on (n ∷ ns) m w = confs_on ns (note_conf n (conf_of_disk (disk_of (last_part n)) w) m) w

    -- `pveConfs`
    unfoldable pub pve_confs : World → Dict Text
    unfolding confs_on dataset_names
    pve_confs w = confs_on (dataset_names w) [] w
