-- ===== src/Zfscheck.antt =====
-- internal/zfscheck/zfscheck.go: the dataset that a folder lies on, and the type of its ACLs. Paths are
-- those of Unix.
pub mod Parent
use cs_sync.Prelude.{
  eqt, Text, txt, Bool, true, false, not, ◌&&◌, ◌||◌, Option, none, some, List, [], ◌∷◌, ◌++◌, ltb,
  ◌==◌, if◌then◌else◌, length,
}
use cs_sync.Os.{Error, errorf, Outcome, done, failed, Act}
use cs_sync.Os.Paths.{FilePath, clean}
use cs_sync.Prelude.Split.{split_on, trim_space}
use cs_sync.Prelude.Strings.{has_prefix}

pub record Dataset : Type 0 where
  pub ds_name : Text
  pub mountpoint : Text

-- `runtime.GOOS`
pub data Goos : Type 0 where
  windows darwin illumos solaris freebsd linux other_goos : Goos

-- The runs of the zfs program by their arguments, of which those of list and get only read, and
-- `filepath.Abs`.
pub record ZfsTool : Type 1 where
  pub World : Type 0
  pub output : List Text → World → Outcome Text
  pub run : List Text → Act World (Unit {0})
  pub abs : Text → World → Outcome Text

dataset_of : List Text → List Dataset → List Dataset
dataset_of (name ∷ mount ∷ []) ds = record { ds_name = name; mountpoint = mount } ∷ ds
dataset_of _ ds = ds

-- A line of a `bufio.Scanner`, which takes off one carriage return at the end; lines may have any
-- length here.
drop_return : Text → Text
drop_return [] = []
drop_return (c ∷ []) = if c == 13 then [] else c ∷ []
drop_return (c ∷ d ∷ s) = c ∷ drop_return (d ∷ s)

datasets_of : List Text → List Dataset
unfolding dataset_of split_on drop_return
datasets_of [] = []
datasets_of (line ∷ lines) = dataset_of (split_on 9 (drop_return line)) (datasets_of lines)

unfoldable pub parse_datasets : Text → List Dataset
unfolding datasets_of
parse_datasets out = datasets_of (split_on 10 out)

joined : List Text → Text
joined [] = []
joined (p ∷ []) = p
joined (p ∷ q ∷ ps) = p ++ txt "/" ++ joined (q ∷ ps)

-- A clean path as text.
path_text : FilePath → Text
unfolding joined
path_text p =
    if p.rooted
    then b'/' ∷ joined p.parts
    else if eqt (joined p.parts) []
    then txt "."
    else joined p.parts

-- `filepath.Clean(d.Mountpoint)`
unfoldable pub mount_path : Dataset → Text
unfolding path_text clean
mount_path d = path_text (clean d.mountpoint)

-- Whether the loop of `ParentDataset` takes the dataset into account. A mount point "/" is tested as the
-- prefix "//", which no clean path has.
unfoldable pub is_over : Text → Dataset → Bool
unfolding mount_path
is_over path d =
    not (eqt d.mountpoint (txt "-") || eqt d.mountpoint (txt "none"))
    && (eqt path (mount_path d) || has_prefix path (mount_path d ++ txt "/"))

unfoldable pub is_longer : Dataset → Option Dataset → Bool
unfolding mount_path
is_longer d none = true
is_longer d (some b) = ltb (length (mount_path b)) (length (mount_path d))

-- The loop; `none` is a `bestLen` of -1.
unfoldable pub best_of : Text → Option Dataset → List Dataset → Option Dataset
unfolding is_over is_longer
best_of path best [] = best
best_of path best (d ∷ ds) =
    best_of path (if is_over path d && is_longer d best then some d else best) ds

abbrev reads_acltype : Goos → Bool
reads_acltype linux = true
reads_acltype darwin = true
reads_acltype other_goos = true
reads_acltype _ = false

-- The answer where the dataset is not known.
unfoldable pub without_dataset : Goos → Error → Outcome Text
without_dataset windows e = done (txt "nfs4")
without_dataset darwin e = done (txt "none")
without_dataset _ e = failed e

unfoldable pub acltype_of : Text → Outcome Text
acltype_of raw =
    if eqt raw (txt "off")
    then failed (errorf (txt "dataset has acltype=off"))
    else if eqt raw (txt "posixacl") || eqt raw (txt "posix")
    then done (txt "posix")
    else if eqt raw (txt "nfsv4") || eqt raw (txt "nfs4")
    then done (txt "nfs4")
    else failed (errorf (txt "dataset has unexpected acltype"))

module _ (tool : ZfsTool) where
  open tool use {World}

  -- `listDatasets`
  unfoldable pub list_datasets : World → Outcome (List Dataset)
  unfolding parse_datasets
  list_datasets w =
      elim (tool.output
        (txt "list"
          ∷ txt "-H"
          ∷ txt "-o"
          ∷ txt "name,mountpoint"
          ∷ txt "-t"
          ∷ txt "filesystem"
          ∷ [])
        w) [ done out ↦ done (parse_datasets out) | failed e ↦ failed e ]

  -- `ParentDataset`, with `none` for the empty dataset.
  unfoldable pub parent_dataset : Text → World → Outcome (Option Dataset)
  unfolding list_datasets best_of
  parent_dataset given w = elim (tool.abs given w) [
    | failed e ↦ failed e
    | done path ↦ elim (list_datasets w) [
      | failed e ↦ failed e
      | done ds ↦ done (best_of path none ds)
    ]
  ]

  -- `GetProp`
  unfoldable pub get_prop : Text → Text → World → Outcome Text
  unfolding trim_space
  get_prop ds prop w =
      elim (tool.output (txt "get" ∷ txt "-H" ∷ txt "-o" ∷ txt "value" ∷ prop ∷ ds ∷ []) w) [
        | done out ↦ done (trim_space out)
        | failed e ↦ failed e
      ]

  -- `SetProp`
  unfoldable pub set_prop : Text → Text → Text → Act World (Unit {0})
  set_prop ds prop value = tool.run (txt "set" ∷ (prop ++ txt "=" ++ value) ∷ ds ∷ [])

  -- What the acltype of the dataset says, where it is read.
  unfoldable pub acltype_on : Goos → Text → World → Outcome Text
  unfolding get_prop acltype_of
  acltype_on goos ds w =
      let read : Outcome Text = elim (get_prop ds (txt "acltype") w) [
        | done raw ↦ acltype_of raw
        | failed e ↦ failed e
      ] in
      if reads_acltype goos then read else done (txt "nfs4")

  prepared : Text → Outcome Text → Act World Text
  unfolding set_prop
  prepared ds (failed e) w = (failed e, w)
  prepared ds (done acltype) w =
      (done acltype, (set_prop ds (txt "aclinherit") (txt "passthrough") w).1)

  unfoldable pub prepare_on : Goos → Outcome (Option Dataset) → Act World Text
  unfolding without_dataset acltype_on prepared
  prepare_on goos (failed e) w = (without_dataset goos e, w)
  prepare_on goos (done none) w = (without_dataset goos (errorf (txt "no ZFS dataset found")), w)
  prepare_on goos (done (some d)) w =
      if eqt d.ds_name []
      then (without_dataset goos (errorf (txt "no ZFS dataset found")), w)
      else prepared d.ds_name (acltype_on goos d.ds_name w) w

  -- `CheckAndPrepare`
  unfoldable pub check_and_prepare : Goos → Text → Act World Text
  unfolding parent_dataset prepare_on
  check_and_prepare goos given w = prepare_on goos (parent_dataset given w) w
