-- ===== src/Examples/Watching.antt =====
-- internal/watch and the modes of main.go at small inputs.
use mathlib.Core.List.{reverse}
use cs_sync.Prelude.{
  eqt, Text, txt, ℕ, ◌≡◌, refl, inl, true, false, not, ◌&&◌, ◌||◌, none, some, List, [], ◌∷◌, ◌++◌,
  arith, keep_if, All,
}
use cs_sync.Endpoint.{local_path, Endpoint, parsed, parse, is_local}
use cs_sync.Prelude.Dict.{contains}
use cs_sync.Reconcile.{reconcile}
use cs_sync.Reconcile.Ops.{Op}
use cs_sync.Service.{force_oneway}
use cs_sync.Service.Modes.{Flags, accept, oneway, no_leg, Roles, is_mode, translate}
use cs_sync.Service.Modes.Aimed.{side_path, translate-one_direction}
use cs_sync.Watch.{is_backupdata_path}
use cs_sync.Watch.Debounce.{debounce, IsSpaced, is_outside, debounce-keep_if, debounce-IsSpaced}
use cs_sync.Watch.Emit.{
  event, safety_net, start, idle, sending, draining, keeping, kept_reason, emit_step, Channel,
  begin, select, Run, here, next, is_rescan, any_rescan, Run-keeps_rescan, emit_against,
  emit_against-ends,
}
use cs_sync.Watch.Walk.{
  Node, plain, folder, nil, cons, FsWatcher, add_recursive, poll_round, watchable, IsWithin,
  add_recursive_complete, poll_round-renews,
}

abbrev quiet_channel : Channel
quiet_channel = record { pending = some safety_net; pc = idle; taken = [] }

abbrev full_channel : Channel
full_channel = record { pending = some safety_net; pc = sending event; taken = [] }

abbrev seen_channel : Channel
seen_channel = record { pending = some safety_net; pc = draining event; taken = [] }

abbrev drained_channel : Channel
drained_channel = record { pending = none; pc = keeping safety_net; taken = [] }

abbrev refilled_channel : Channel
refilled_channel = record { pending = some safety_net; pc = idle; taken = [] }

an_emit : Run quiet_channel refilled_channel
unfolding emit_step kept_reason
an_emit =
    next
      (next (next (next here (begin quiet_channel event refl)) (select full_channel (λ e. cc)))
        (select seen_channel (λ e. cc)))
      (select drained_channel (λ e. cc))

Run-keeps_rescan_example : (is_rescan (some safety_net) || any_rescan []) ≡ true
Run-keeps_rescan_example = Run-keeps_rescan an_emit (inl refl) refl refl refl

emit_against-ends_example :
    emit_against (sending safety_net) (none ∷ some event ∷ none ∷ some start ∷ []) ≡ idle
emit_against-ends_example =
    emit_against-ends safety_net (none ∷ some event ∷ none ∷ some start ∷ []) (omega arith)

abbrev three_events : List (ℕ × Text)
three_events = (0, txt "/a/x") ∷ (700, txt "/a/.backupdata/cs-sync.log") ∷ (900, txt "/a/y") ∷ []

debounce-keep_if_example :
    debounce 500 none three_events ≡ debounce 500 none (keep_if is_outside three_events)
debounce-keep_if_example =
    debounce-keep_if 500 0 none three_events (omega arith, (omega arith, (omega arith, tt)))

two_emissions : debounce 500 none three_events ≡ 500 ∷ 1400 ∷ []
unfolding debounce is_backupdata_path eqt
two_emissions = refl

debounce-IsSpaced_example : IsSpaced 500 500 (debounce 500 none three_events)
debounce-IsSpaced_example =
    debounce-IsSpaced 500 0 three_events (omega arith, (omega arith, (omega arith, tt)))

abbrev tree : Node
tree = folder (txt "/a") (txt "a") (
    cons (plain (txt "/a/x")) (
      cons (folder (txt "/a/.backupdata") (txt ".backupdata") nil)
        (cons (folder (txt "/a/b") (txt "b") nil) nil)))

abbrev new_watcher : FsWatcher
new_watcher = record { asked = []; watched_dirs = 0; max_dirs = 2; poll_fallback = false }

add_recursive_complete_example :
    IsWithin (add_recursive tree new_watcher)
    × ((add_recursive tree new_watcher).poll_fallback ≡ false
        → (add_recursive tree new_watcher).asked ≡ reverse (watchable tree) ++ [])
add_recursive_complete_example =
    add_recursive_complete tree new_watcher (record { counted = refl; limited = λ h. omega arith })

poll_round-renews_example :
    contains
      (txt "/a/b")
      (poll_round
        (λ p. true)
        (txt "/a")
        tree
        (record { watched = []; raw_pending = false })).watched
    ≡ ((contains (txt "/a/b") [] && not (eqt (txt "/a/b") (txt "/a")))
        || (contains (txt "/a/b") (watchable tree) && true))
poll_round-renews_example =
    poll_round-renews (λ p. true) (txt "/a") tree (record { watched = []; raw_pending = false })
      (txt "/a/b")

abbrev pull_flags : Flags
pull_flags = record {
  mode_flag = txt "pull";
  primary_spec = txt "nas:9000/media";
  secondary_spec = [];
  backup_spec = txt "/tank/media";
  key_flag = txt "user:secret";
  primary_key = [];
  secondary_key = [];
  backup_key = [];
  storage_path = [];
}

abbrev pull_roles_made : Roles
pull_roles_made = record {
  internal_mode = oneway;
  from_secondary = true;
  anchor = txt "/tank/media";
  mirror = [];
  mirror_bucket = some (record {
    target_host = txt "nas";
    target_port = 9000;
    target_bucket = txt "media";
    access = txt "user";
    secret = txt "secret";
  });
  leg = no_leg;
}

is_translated : translate (λ p. p) pull_flags true ≡ accept pull_roles_made
unfolding translate parse is_mode is_local eqt
is_translated = refl

translate-one_direction_example :
    (ep : Endpoint) × (parse (txt "/tank/media") ≡ parsed ep)
    × (ep.kind ≡ local_path)
    × (no_leg ≡ no_leg)
    × All
        (λ (op : Op). side_path pull_roles_made op.dst ≡ ep.path)
        (reconcile (λ p. p) (force_oneway true [] []) [] []).ops
translate-one_direction_example =
    translate-one_direction (λ p. p) pull_flags true (λ p. p) [] [] is_translated refl
