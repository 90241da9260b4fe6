-- ===== src/Reconcile/Ops.antt =====
-- internal/reconcile/reconcile.go: the operations of a pass, its result, and the builders that
-- queue operations and record the baseline entries that they lead to.
use cs_sync.Prelude.{Text, txt, ℕ, ◌+◌, Option, none, some, List, [], ◌∷◌, ◌++◌, if◌then◌else◌}
use cs_sync.Model.{EntryType, dir, type_eq, Entry, Tree}
use cs_sync.Prelude.Dict.{insert}

pub data Side : Type 0 where
  primary secondary : Side

pub data OpKind : Type 0 where
  mkdir copy delete rmdir rename conflict_rename : OpKind

-- `src` is `none` where the source leaves `SrcSide` empty.
pub record Op : Type 0 where
  pub kind : OpKind
  pub dst : Side
  pub src : Option Side
  pub path : Text
  pub old_path : Text
  pub type : EntryType

pub record Result : Type 0 where
  pub ops : List Op
  pub new_baseline : Tree
  pub conflicts : ℕ

abbrev pub empty_result : Result
empty_result = record { ops = []; new_baseline = []; conflicts = 0 }

abbrev other : Side → Side
other primary = secondary
other secondary = primary

del_kind : EntryType → OpKind
del_kind dir = rmdir
del_kind _ = delete

-- The operation that `addCreate` queues.
unfoldable pub create_op : Side → Side → Text → Entry → Op
create_op dst src p e =
    if type_eq e.type dir
    then record { kind = mkdir; dst = dst; src = some src; path = p; old_path = []; type = dir }
    else record { kind = copy; dst = dst; src = some src; path = p; old_path = []; type = e.type }

unfoldable pub add_create : Side → Side → Text → Entry → Result → Result
unfolding create_op
add_create dst src p e r = record r {
  ops = r.ops ++ create_op dst src p e ∷ [];
  new_baseline = insert p e r.new_baseline;
}

unfoldable pub delete_op : Side → Text → Entry → Op
unfolding del_kind
delete_op side p e = record {
  kind = del_kind e.type;
  dst = side;
  src = none;
  path = p;
  old_path = [];
  type = e.type;
}

-- `stamp p` is the time at which a conflict at `p` is resolved, printed by `nowStamp`: a pass
-- resolves at most one for each path.
module _ (stamp : Text → Text) where
  unfoldable pub conflict_path : Text → Text
  conflict_path p = p ++ (txt "_conflict_" ++ stamp p)

  unfoldable pub conflict : Text → Entry → Entry → Result → Result
  unfolding conflict_path
  conflict p pe se r = record {
    ops =
        r.ops
        ++ record {
          kind = conflict_rename;
          dst = secondary;
          src = none;
          path = conflict_path p;
          old_path = p;
          type = se.type;
        }
          ∷ record {
            kind = copy;
            dst = primary;
            src = some secondary;
            path = conflict_path p;
            old_path = [];
            type = se.type;
          }
          ∷ record {
            kind = copy;
            dst = secondary;
            src = some primary;
            path = p;
            old_path = [];
            type = pe.type;
          }
          ∷ [];
    new_baseline = insert (conflict_path p) se (insert p pe r.new_baseline);
    conflicts = r.conflicts + 1;
  }

  unfoldable pub conflict_delete : Side → Text → Entry → Result → Result
  unfolding conflict_path
  conflict_delete loser p e r = record {
    ops =
        r.ops
        ++ record {
          kind = conflict_rename;
          dst = loser;
          src = none;
          path = conflict_path p;
          old_path = p;
          type = e.type;
        }
          ∷ record {
            kind = copy;
            dst = other loser;
            src = some loser;
            path = conflict_path p;
            old_path = [];
            type = e.type;
          }
          ∷ [];
    new_baseline = insert (conflict_path p) e r.new_baseline;
    conflicts = r.conflicts + 1;
  }
