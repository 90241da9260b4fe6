-- ===== src/Zfs/Slots.antt =====
-- What the commands do to the slots of a listing.
use cs_sync.Prelude.{
  eqt, Text, eqt_iff, ◌≡◌, refl, false, Option, none, some, List, [], ◌∷◌, arith, if◌then◌else◌,
  is_none,
}
use cs_sync.Zfs.{Snap, find_slot}

unfoldable pub rename_slot : Text → Text → List Snap → List Snap
rename_slot from to [] = []
rename_slot from to (s ∷ l) =
    (if eqt s.slot from then record s { slot = to } else s) ∷ rename_slot from to l

unfoldable pub drop_slot : Text → List Snap → List Snap
drop_slot slot [] = []
drop_slot slot (s ∷ l) = let rest = drop_slot slot l in if eqt s.slot slot then rest else s ∷ rest

-- The identity of the snapshot in a slot.
unfoldable pub guid_at : Text → List Snap → Option Text
guid_at slot [] = none
guid_at slot (s ∷ l) = let rest = guid_at slot l in if eqt s.slot slot then some s.guid else rest

pub guid_at-rename_slot :
    (from to slot : Text) (l : List Snap)
    → eqt from to ≡ false
    → guid_at to l ≡ none
    → guid_at slot (rename_slot from to l)
      ≡ (if eqt to slot then guid_at from l else if eqt from slot then none else guid_at slot l)
unfolding guid_at rename_slot
guid_at-rename_slot from to slot [] apart free = ground arith
guid_at-rename_slot from to slot (s ∷ l) apart free = ground (
  arith,
  eqt_iff from to,
  eqt_iff to slot,
  eqt_iff from slot,
  eqt_iff s.slot from,
  eqt_iff s.slot to,
  eqt_iff s.slot slot,
  guid_at-rename_slot from to slot l apart,
)

pub guid_at-drop_slot :
    (gone slot : Text) (l : List Snap)
    → guid_at slot (drop_slot gone l) ≡ (if eqt gone slot then none else guid_at slot l)
unfolding guid_at drop_slot
guid_at-drop_slot gone slot [] = ground arith
guid_at-drop_slot gone slot (s ∷ l) = ground (
  arith,
  eqt_iff gone slot,
  eqt_iff s.slot gone,
  eqt_iff s.slot slot,
  guid_at-drop_slot gone slot l,
)

pub guid_at-find_slot :
    (slot : Text) (l : List Snap) → is_none (find_slot slot l) ≡ is_none (guid_at slot l)
unfolding guid_at find_slot
guid_at-find_slot slot [] = refl
guid_at-find_slot slot (s ∷ l) = ground (arith, guid_at-find_slot slot l)
