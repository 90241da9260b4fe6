-- ===== src/Zfs/Rotated.antt =====
-- zfs.go: what a rotation does to the three slots.
use mathlib.Core.Bool.{◌&&◌}
use cs_sync.Prelude.{
  eqt, Text, txt, ℕ, ◌≡◌, refl, sym, ◌∙◌, inl, inr, Bool, true, false, Option, none, some, List,
  ◌∷◌, ◌++◌, arith, Bool-cases, is_none, is_none_lem,
}
use cs_sync.Os.{done, lift, reads}
use cs_sync.Os.Keeps.{bind-ends}
use cs_sync.Zfs.{Snap, Zfs, find_slot, kept_slot, retire, shift_old, found_new, rotate_slots}
use cs_sync.Zfs.Slots.{
  rename_slot, drop_slot, guid_at, guid_at-rename_slot, guid_at-drop_slot, guid_at-find_slot,
}

-- What `zfs rename` and `zfs destroy` do to the listing when they succeed.
pub record IsFaithful (zfs : Zfs) (ds : Text) : Type 0 where
  pub after_rename :
      (from to : Text) (w : zfs.World) (l : List Snap)
      → zfs.list_snaps ds w ≡ done l
      → (zfs.rename_snap ds from to w).0 ≡ done tt
      → zfs.list_snaps ds (zfs.rename_snap ds from to w).1 ≡ done (rename_slot from to l)
  pub after_destroy :
      (slot : Text) (w : zfs.World) (l : List Snap)
      → zfs.list_snaps ds w ≡ done l
      → (zfs.destroy_snap ds slot w).0 ≡ done tt
      → zfs.list_snaps ds (zfs.destroy_snap ds slot w).1 ≡ done (drop_slot slot l)

-- The listing of `w` holds these identities in the slots new, n0 and n1.
pub record Holds (zfs : Zfs) (ds : Text) (new n0 n1 : Option Text) (w : zfs.World) : Type 0 where
  pub listing : List Snap
  pub lists : zfs.list_snaps ds w ≡ done listing
  pub has_new : guid_at (txt "new") listing ≡ new
  pub has_n0 : guid_at (txt "n0") listing ≡ n0
  pub has_n1 : guid_at (txt "n1") listing ≡ n1

-- A name that is none of the three slots, and free in the listing.
abbrev IsSpare : List Snap → Text → Type 0
IsSpare l k =
    (eqt k (txt "new") ≡ false)
    × (eqt k (txt "n0") ≡ false)
    × (eqt k (txt "n1") ≡ false)
    × (eqt (txt "n1") k ≡ false)
    × (guid_at k l ≡ none)

kept-IsSpare :
    (l : List Snap) (c : ℕ) (m : Text)
    → is_none (find_slot (107 ∷ c ∷ m) l) ≡ true
    → IsSpare l (107 ∷ c ∷ m)
unfolding eqt
kept-IsSpare l c m free =
    (refl, refl, refl, refl, is_none_lem (sym (guid_at-find_slot (107 ∷ c ∷ m) l) ∙ free))

module _ (zfs : Zfs) (month_day month_day_hour : ℕ → Text) (ds : Text)
    (law : IsFaithful zfs ds) where
  open zfs use {World}

  kept_slot-IsSpare :
      (keep : Bool) (l : List Snap) (n1 : Snap) (w : World) (k : Text)
      → kept_slot zfs month_day month_day_hour ds keep l n1 w ≡ some k
      → IsSpare l k
  unfolding kept_slot
  kept_slot-IsSpare keep l n1 w k e =
      elim (Bool-cases (zfs.is_consistent ds n1.slot w && is_none (find_slot kf l))) [
        | inl a ↦
            settle kf (ground (arith, e, a))
              (kept-IsSpare l 102 (month_day n1.created) (ground (arith, a)))
        | inr a ↦ elim (Bool-cases (keep && is_none (find_slot kd l))) [
          | inl b ↦
              settle kd (ground (arith, e, a, b))
                (kept-IsSpare l 100 (month_day n1.created) (ground (arith, b)))
          | inr b ↦ elim (Bool-cases (keep && is_none (find_slot kh l))) [
            | inl d ↦
                settle kh (ground (arith, e, a, b, d))
                  (kept-IsSpare l 104 (month_day_hour n1.created) (ground (arith, d)))
            | inr d ↦ absurd (ground (arith, e, a, b, d))
          ]
        ]
      ]
    where
      kf : Text
      kf = txt "kf" ++ month_day n1.created

      kd : Text
      kd = txt "kd" ++ month_day n1.created

      kh : Text
      kh = txt "kh" ++ month_day_hour n1.created

      settle : (k' : Text) → k' ≡ k → IsSpare l k' → IsSpare l k
      settle k' same h = rw same at h

  retire-Holds :
      (keep : Bool) (l : List Snap) (w : World)
      → zfs.list_snaps ds w ≡ done l
      → (retire zfs month_day month_day_hour ds keep l w).0 ≡ done tt
      → Holds zfs ds
          (guid_at (txt "new") l)
          (guid_at (txt "n0") l)
          none
          (retire zfs month_day month_day_hour ds keep l w).1
  unfolding retire eqt
  retire-Holds keep l w lists ok = start (find_slot (txt "n1") l) refl
    where
      gone :
          (n1 : Snap) (o : Option Text)
          → kept_slot zfs month_day month_day_hour ds keep l n1 w ≡ o
          → find_slot (txt "n1") l ≡ some n1
          → Holds zfs ds
              (guid_at (txt "new") l)
              (guid_at (txt "n0") l)
              none
              (retire zfs month_day month_day_hour ds keep l w).1
      gone n1 none e f =
          rw (retire, f, e)
            (record {
              listing = drop_slot (txt "n1") l;
              lists = law.after_destroy (txt "n1") w l lists (rw (retire, f, e) at ok);
              has_new = guid_at-drop_slot (txt "n1") (txt "new") l;
              has_n0 = guid_at-drop_slot (txt "n1") (txt "n0") l;
              has_n1 = guid_at-drop_slot (txt "n1") (txt "n1") l;
            })
      gone n1 (some k) e f =
          let (no_new, no_n0, no_n1, apart, free) = kept_slot-IsSpare keep l n1 w k e in
          rw (retire, f, e)
            (record {
              listing = rename_slot (txt "n1") k l;
              lists = law.after_rename (txt "n1") k w l lists (rw (retire, f, e) at ok);
              has_new = guid_at-rename_slot (txt "n1") k (txt "new") l apart free ∙ rw no_new refl;
              has_n0 = guid_at-rename_slot (txt "n1") k (txt "n0") l apart free ∙ rw no_n0 refl;
              has_n1 = guid_at-rename_slot (txt "n1") k (txt "n1") l apart free ∙ rw no_n1 refl;
            })

      start :
          (o : Option Snap)
          → find_slot (txt "n1") l ≡ o
          → Holds zfs ds
              (guid_at (txt "new") l)
              (guid_at (txt "n0") l)
              none
              (retire zfs month_day month_day_hour ds keep l w).1
      start none f =
          rw (retire, f)
            (record {
              listing = l;
              lists = lists;
              has_new = refl;
              has_n0 = refl;
              has_n1 = is_none_lem (sym (guid_at-find_slot (txt "n1") l) ∙ rw f refl);
            })
      start (some n1) f = gone n1 _ refl f

  shift_old-Holds :
      (l : List Snap) (w : World) (new : Option Text)
      → Holds zfs ds new (guid_at (txt "n0") l) none w
      → (shift_old zfs month_day month_day_hour ds l w).0 ≡ done tt
      → Holds zfs ds new none
          (guid_at (txt "n0") l)
          (shift_old zfs month_day month_day_hour ds l w).1
  unfolding shift_old eqt
  shift_old-Holds l w new h ok = elim (Bool-cases (is_none (find_slot (txt "n0") l))) [
    | inl e ↦
        let empty : guid_at (txt "n0") l ≡ none =
          is_none_lem (sym (guid_at-find_slot (txt "n0") l) ∙ e) in
        rw e (record {
          listing = h.listing;
          lists = h.lists;
          has_new = h.has_new;
          has_n0 = h.has_n0 ∙ empty;
          has_n1 = h.has_n1 ∙ sym empty;
        })
    | inr e ↦ rw e (record {
      listing = rename_slot (txt "n0") (txt "n1") h.listing;
      lists = law.after_rename (txt "n0") (txt "n1") w h.listing h.lists (rw e at ok);
      has_new =
          guid_at-rename_slot (txt "n0") (txt "n1") (txt "new") h.listing refl h.has_n1 ∙ h.has_new;
      has_n0 = guid_at-rename_slot (txt "n0") (txt "n1") (txt "n0") h.listing refl h.has_n1;
      has_n1 =
          guid_at-rename_slot (txt "n0") (txt "n1") (txt "n1") h.listing refl h.has_n1 ∙ h.has_n0;
    })
  ]

  promote-Holds :
      (w : World) (new n1 : Option Text)
      → Holds zfs ds new none n1 w
      → (zfs.rename_snap ds (txt "new") (txt "n0") w).0 ≡ done tt
      → Holds zfs ds none new n1 (zfs.rename_snap ds (txt "new") (txt "n0") w).1
  unfolding eqt
  promote-Holds w new n1 h ok = record {
    listing = rename_slot (txt "new") (txt "n0") h.listing;
    lists = law.after_rename (txt "new") (txt "n0") w h.listing h.lists ok;
    has_new = guid_at-rename_slot (txt "new") (txt "n0") (txt "new") h.listing refl h.has_n0;
    has_n0 =
        guid_at-rename_slot (txt "new") (txt "n0") (txt "n0") h.listing refl h.has_n0 ∙ h.has_new;
    has_n1 =
        guid_at-rename_slot (txt "new") (txt "n0") (txt "n1") h.listing refl h.has_n0 ∙ h.has_n1;
  }

  -- A rotation that succeeds leaves no snapshot in new, the one that was in new in n0, and the one
  -- that was in n0 in n1, whether or not an old n1 was kept under another name; where renaming and
  -- destroying change the listing as they say.
  pub rotate_slots-advances :
      (keep : Bool) (l : List Snap) (w : World)
      → zfs.list_snaps ds w ≡ done l
      → (rotate_slots zfs month_day month_day_hour ds keep w).0 ≡ done tt
      → Holds zfs ds none
          (guid_at (txt "new") l)
          (guid_at (txt "n0") l)
          (rotate_slots zfs month_day month_day_hour ds keep w).1
  unfolding rotate_slots
  rotate_slots-advances keep l w lists ok =
      bind-ends (Q l) (reads (zfs.list_snaps ds)) _ w tt ok (λ l' listed ok1.
        let same : l' ≡ l = ground (arith, lists, listed) in
        moved l' same _ (
          bind-ends (Q l') (lift (found_new zfs month_day month_day_hour l')) _ w tt ok1
            (λ u fine ok2.
              bind-ends (Q l') (retire zfs month_day month_day_hour ds keep l') _ w tt ok2
                (λ v retired ok3.
                  let h1 = retire-Holds keep l' w listed retired in
                  bind-ends (Q l') (shift_old zfs month_day month_day_hour ds l') _ _ tt ok3
                    (λ x shifted ok4.
                      let h2 = shift_old-Holds l' _ (guid_at (txt "new") l') h1 shifted in
                      promote-Holds _ (guid_at (txt "new") l') (guid_at (txt "n0") l') h2 ok4)))))
    where
      Q : List Snap → World → Type 0
      Q l = Holds zfs ds none (guid_at (txt "new") l) (guid_at (txt "n0") l)

      moved : (l' : List Snap) → l' ≡ l → (w : World) → Q l' w → Q l w
      moved l' same w h = rw same at h
