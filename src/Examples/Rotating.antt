-- ===== src/Examples/Rotating.antt =====
-- zfs.go and the ACL tables of main.go at small inputs.
use cs_sync.Prelude.{eqt, Text, txt, ℕ, ◌≡◌, refl, true, false, none, List, [], ◌∷◌, arith}
use cs_sync.Os.{done}
use cs_sync.Zfs.{Snap, Zfs, find_slot, kept_slot, retire, shift_old, found_new, rotate_slots}
use cs_sync.Zfs.Rotated.{IsFaithful, Holds, rotate_slots-advances}
use cs_sync.Zfs.Slots.{rename_slot, drop_slot, guid_at}

-- One dataset whose world is its listing.
abbrev pool : Zfs
pool = record {
  World = List Snap;
  list_snaps = λ ds w. done w;
  rename_snap = λ ds from to w. (done tt, rename_slot from to w);
  destroy_snap = λ ds slot w. (done tt, drop_slot slot w);
  exists_ds = λ ds w. true;
  is_consistent = λ ds slot w. false;
  unix_now = λ w. 0;
  clear_blocked = λ w. w;
}

pool-IsFaithful : IsFaithful pool (txt "tank")
pool-IsFaithful = record {
  after_rename = λ from to w l e ok. rw (same w l e) refl;
  after_destroy = λ slot w l e ok. rw (same w l e) refl;
}
  where
    same : (w l : List Snap) → done w ≡ done l → w ≡ l
    same w l e = ground (arith, e)

abbrev three : List Snap
three =
    record { slot = txt "n1"; guid = txt "1"; created = 10 }
    ∷ record { slot = txt "n0"; guid = txt "2"; created = 20 }
    ∷ record { slot = txt "new"; guid = txt "3"; created = 30 }
    ∷ []

abbrev no_date : ℕ → Text
no_date t = []

rotates : (rotate_slots pool no_date no_date (txt "tank") true three).0 ≡ done tt
unfolding rotate_slots found_new retire find_slot kept_slot shift_old eqt
rotates = refl

rotate_slots-advances_example :
    Holds pool
      (txt "tank")
      none
      (guid_at (txt "new") three)
      (guid_at (txt "n0") three)
      (rotate_slots pool no_date no_date (txt "tank") true three).1
rotate_slots-advances_example =
    rotate_slots-advances pool no_date no_date (txt "tank") pool-IsFaithful true three three refl
      rotates
