-- ===== src/Model.antt =====
-- internal/model/entry.go: what the program knows of a path, and a snapshot of one side.
-- A Go `int64` or `uint64` that is only compared for equality is the number of its bit pattern.
use cs_sync.Prelude.{
  ℕ, Text, eqt, eqt_iff, ◌≡◌, Bool, true, false, ◌&&◌, ◌==◌, if◌then◌else◌, arith, [],
}
use cs_sync.Prelude.Dict.{Dict}

-- `unset` is the empty string of a zero `Entry`.
pub data EntryType : Type 0 where
  unset file dir symlink : EntryType

abbrev pub type_eq : EntryType → EntryType → Bool
type_eq unset unset = true
type_eq file file = true
type_eq dir dir = true
type_eq symlink symlink = true
type_eq _ _ = false

pub record Entry : Type 0 where
  pub path : Text
  pub type : EntryType
  pub size : ℕ
  pub mtime_ns : ℕ
  pub mode : ℕ
  pub dev : ℕ
  pub ino : ℕ
  pub link_target : Text
  pub acl : Text
  pub hash : Text

-- What `tree[p]` gives for a missing path.
abbrev pub zero_entry : Entry
zero_entry = record {
  path = [];
  type = unset;
  size = 0;
  mtime_ns = 0;
  mode = 0;
  dev = 0;
  ino = 0;
  link_target = [];
  acl = [];
  hash = [];
}

abbrev pub Tree : Type 0
Tree = Dict Entry

pub record State : Type 0 where
  pub baseline : Tree
  pub acl_type : Text

same_content : EntryType → Entry → Entry → Bool
same_content dir a b = true
same_content symlink a b = eqt a.link_target b.link_target
same_content _ a b = a.size == b.size && a.mtime_ns == b.mtime_ns

unfoldable pub same_identity : Entry → Entry → Bool
unfolding same_content
same_identity a b = if type_eq a.type b.type then same_content a.type a b else false

pub same_identity_refl : (a : Entry) → same_identity a a ≡ true
unfolding same_identity
same_identity_refl a = ground (arith, eqt_iff a.link_target a.link_target)

same_identity_sym : (a b : Entry) → same_identity a b ≡ true → same_identity b a ≡ true
unfolding same_identity
same_identity_sym a b h =
    ground (arith, eqt_iff a.link_target b.link_target, eqt_iff b.link_target a.link_target)

same_identity_trans :
    (a b c : Entry) → same_identity a b ≡ true → same_identity b c ≡ true → same_identity a c ≡ true
unfolding same_identity
same_identity_trans a b c p q = ground (
  arith,
  eqt_iff a.link_target b.link_target,
  eqt_iff b.link_target c.link_target,
  eqt_iff a.link_target c.link_target,
)
