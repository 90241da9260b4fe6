-- ===== src/Watch/Walk.antt =====
-- `addRecursive` of watch_fsnotify.go and of watch_eventport_illumossolaris.go, with `associate` and one round
-- of its `pollLoop`. `filepath.WalkDir` gives its entries as a tree: an entry that cannot be read, or is no directory, is
-- passed over, and the walk does not descend into a directory that it is told to skip.
use mathlib.Core.Bool.{◌||◌, ◌&&◌}
use mathlib.Core.List.{reverse, reverse-append, append_assoc}
use cs_sync.Prelude.{
  eqt, Text, eqt_iff, ℕ, ◌+◌, ◌≤◌, ◌<◌, ◌≡◌, refl, sym, ◌∙◌, inl, inr, Bool, true, false, not, List,
  [], ◌∷◌, ◌++◌, arith, ltb, leb, if◌then◌else◌, Bool-cases, length, keep_if,
}
use cs_sync.Prelude.Dict.{contains}
use cs_sync.Watch.{backupdata, is_backupdata_path}

mutual
  pub data Node : Type 0 where
    unreadable : Text → Node
    plain : Text → Node
    folder : Text → Text → Nodes → Node

  pub data Nodes : Type 0 where
    nil : Nodes
    cons : Node → Nodes → Nodes

-- The watcher's counters, with the paths for which a watch was asked, the last first.
pub record FsWatcher : Type 0 where
  pub asked : List Text
  pub watched_dirs : ℕ
  pub max_dirs : ℕ
  pub poll_fallback : Bool

-- A directory that is reached: `folder path name entries`.
unfoldable pub watch_dir : Text → FsWatcher → FsWatcher
watch_dir p fw =
    if fw.poll_fallback || (ltb 0 fw.max_dirs && leb fw.max_dirs fw.watched_dirs)
    then record fw { poll_fallback = true }
    else record fw { watched_dirs = fw.watched_dirs + 1; asked = p ∷ fw.asked }

-- The callback that both watchers pass to `WalkDir`: an error, a file and .backupdata are passed
-- over, and each other directory is visited before its entries.
unfoldable mutual
  pub walk_dirs : {S : Type 0} → (Text → S → S) → Node → S → S
  walk_dirs visit (unreadable p) s = s
  walk_dirs visit (plain p) s = s
  walk_dirs visit (folder p name entries) s =
      let below = walk_entries visit entries (visit p s) in if eqt name backupdata then s else below

  pub walk_entries : {S : Type 0} → (Text → S → S) → Nodes → S → S
  walk_entries visit nil s = s
  walk_entries visit (cons n ns) s = walk_entries visit ns (walk_dirs visit n s)

-- `fsWatcher.addRecursive`
unfoldable pub add_recursive : Node → FsWatcher → FsWatcher
unfolding walk_dirs watch_dir
add_recursive n fw = walk_dirs watch_dir n fw

-- `portWatcher`: the directories associated, and whether a raw signal waits.
pub record PortWatcher : Type 0 where
  pub watched : List Text
  pub raw_pending : Bool

-- `associate`; `can_watch` says whether `os.Stat` and `AssociatePath` succeed on a path.
unfoldable pub associate : (Text → Bool) → Text → PortWatcher → PortWatcher
unfolding contains
associate can_watch p pw =
    if contains p pw.watched
    then pw
    else if can_watch p
    then record pw { watched = p ∷ pw.watched }
    else pw

-- One round of `pollLoop`: the association that has fired is gone, and the tree at it is walked again.
unfoldable pub poll_round : (Text → Bool) → Text → Node → PortWatcher → PortWatcher
unfolding walk_dirs is_backupdata_path
poll_round can_watch fired n pw =
    let pw' =
      walk_dirs (associate can_watch) n
        (record pw { watched = keep_if (λ p. not (eqt p fired)) pw.watched }) in
    if is_backupdata_path fired then pw' else record pw' { raw_pending = true }

-- The directories of a tree that are to be watched, in the order of the walk.
mutual
  pub watchable : Node → List Text
  watchable (unreadable p) = []
  watchable (plain p) = []
  watchable (folder p name entries) =
      let below = watchable_entries entries in if eqt name backupdata then [] else p ∷ below

  pub watchable_entries : Nodes → List Text
  watchable_entries nil = []
  watchable_entries (cons n ns) = watchable n ++ watchable_entries ns

-- What the counters say: never more watches than the limit, and each is one that was asked for.
pub record IsWithin (fw : FsWatcher) : Type 0 where
  pub counted : fw.watched_dirs ≡ length fw.asked
  pub limited : 0 < fw.max_dirs → fw.watched_dirs ≤ fw.max_dirs

-- What one walk does for the directories `ps`: the limit stays, the counters stay right, and unless the watcher polls now, each of them is watched.
pub record IsAdded (ps : List Text) (fw fw' : FsWatcher) : Type 0 where
  pub within : IsWithin fw'
  pub same_limit : fw'.max_dirs ≡ fw.max_dirs
  pub complete : fw'.poll_fallback ≡ false → fw'.asked ≡ reverse ps ++ fw.asked
  pub fell_back : fw'.poll_fallback ≡ false → fw.poll_fallback ≡ false

IsAdded-none : {fw : FsWatcher} → IsWithin fw → IsAdded [] fw fw
IsAdded-none h = record { within = h; same_limit = refl; complete = λ e. refl; fell_back = λ e. e }

watch_dir-IsAdded : (p : Text) (fw : FsWatcher) → IsWithin fw → IsAdded (p ∷ []) fw (watch_dir p fw)
unfolding watch_dir
watch_dir-IsAdded p fw h = ground arith

IsAdded-then :
    {ps qs : List Text} {a b c : FsWatcher}
    → IsAdded ps a b
    → IsAdded qs b c
    → IsAdded (ps ++ qs) a c
IsAdded-then {ps} {qs} {a} {b} {c} h k = record {
  within = k.within;
  same_limit = k.same_limit ∙ h.same_limit;
  complete = λ e.
      rw (reverse-append ps qs, k.complete e, h.complete (k.fell_back e))
        (sym (append_assoc (reverse qs) (reverse ps) a.asked));
  fell_back = λ e. h.fell_back (k.fell_back e);
}

-- A walk visits the directories to be watched, in their order, and nothing else.
abbrev visit_all : {S : Type 0} → (Text → S → S) → List Text → S → S
visit_all visit [] s = s
visit_all visit (p ∷ ps) s = visit_all visit ps (visit p s)

visit_all-append :
    {S : Type 0} (visit : Text → S → S) (ps qs : List Text) (s : S)
    → visit_all visit (ps ++ qs) s ≡ visit_all visit qs (visit_all visit ps s)
visit_all-append visit [] qs s = refl
visit_all-append visit (p ∷ ps) qs s = visit_all-append visit ps qs (visit p s)

mutual
  unfolding walk_dirs watchable

  walk_dirs-visit_all :
      {S : Type 0} (visit : Text → S → S) (n : Node) (s : S)
      → walk_dirs visit n s ≡ visit_all visit (watchable n) s
  walk_dirs-visit_all visit (unreadable p) s = refl
  walk_dirs-visit_all visit (plain p) s = refl
  walk_dirs-visit_all visit (folder p name entries) s = elim (Bool-cases (eqt name backupdata)) [
    | inl e ↦ rw e refl
    | inr e ↦ rw e (walk_entries-visit_all visit entries (visit p s))
  ]

  walk_entries-visit_all :
      {S : Type 0} (visit : Text → S → S) (ns : Nodes) (s : S)
      → walk_entries visit ns s ≡ visit_all visit (watchable_entries ns) s
  walk_entries-visit_all visit nil s = refl
  walk_entries-visit_all visit (cons n ns) s =
      rw
        (
          walk_dirs-visit_all visit n s,
          walk_entries-visit_all visit ns (visit_all visit (watchable n) s),
        )
        (sym (visit_all-append visit (watchable n) (watchable_entries ns) s))

visit_all-IsAdded :
    (ps : List Text) (fw : FsWatcher) → IsWithin fw → IsAdded ps fw (visit_all watch_dir ps fw)
visit_all-IsAdded [] fw h = IsAdded-none h
visit_all-IsAdded (p ∷ ps) fw h =
    let top = watch_dir-IsAdded p fw h in
    IsAdded-then top (visit_all-IsAdded ps (watch_dir p fw) top.within)

-- A walk never asks for more watches than the limit, and asks for each directory outside .backupdata, in
-- the order of the walk and for nothing else, unless the watcher has fallen back to polling.
pub add_recursive_complete :
    (n : Node) (fw : FsWatcher)
    → IsWithin fw
    → IsWithin (add_recursive n fw)
      × ((add_recursive n fw).poll_fallback ≡ false
          → (add_recursive n fw).asked ≡ reverse (watchable n) ++ fw.asked)
unfolding add_recursive
add_recursive_complete n fw h =
    let added = visit_all-IsAdded (watchable n) fw h in
    rw (walk_dirs-visit_all watch_dir n fw) (added.within, added.complete)

associate-watched :
    (can_watch : Text → Bool) (p q : Text) (pw : PortWatcher)
    → contains q (associate can_watch p pw).watched
      ≡ (contains q pw.watched || (eqt p q && can_watch p))
unfolding associate contains
associate-watched can_watch p q pw = ground (arith, eqt_iff p q)

visit_all-watched :
    (can_watch : Text → Bool) (ps : List Text) (q : Text) (pw : PortWatcher)
    → contains q (visit_all (associate can_watch) ps pw).watched
      ≡ (contains q pw.watched || (contains q ps && can_watch q))
unfolding contains
visit_all-watched can_watch [] q pw = ground arith
visit_all-watched can_watch (p ∷ ps) q pw = ground (
  arith,
  eqt_iff p q,
  visit_all-watched can_watch ps q (associate can_watch p pw),
  associate-watched can_watch p q pw,
)

contains-drop :
    (fired q : Text) (ps : List Text)
    → contains q (keep_if (λ p. not (eqt p fired)) ps) ≡ (contains q ps && not (eqt q fired))
unfolding contains
contains-drop fired q [] = refl
contains-drop fired q (p ∷ ps) = ground (arith, eqt_iff p q, contains-drop fired q ps)

-- A round of polling renews what has fired: afterwards exactly those directories are watched that were
-- before, up to the one that fired, or that the walk of the fired directory reaches outside .backupdata and that
-- can be watched.
pub poll_round-renews :
    (can_watch : Text → Bool) (fired : Text) (n : Node) (pw : PortWatcher) (q : Text)
    → contains q (poll_round can_watch fired n pw).watched
      ≡ ((contains q pw.watched && not (eqt q fired)) || (contains q (watchable n) && can_watch q))
unfolding poll_round
poll_round-renews can_watch fired n pw q =
    let kept = keep_if (λ p. not (eqt p fired)) pw.watched in
    let left = record pw { watched = kept } in
    ground (
      arith,
      walk_dirs-visit_all (associate can_watch) n left,
      visit_all-watched can_watch (watchable n) q left,
      contains-drop fired q pw.watched,
    )
