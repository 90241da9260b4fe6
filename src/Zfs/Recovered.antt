-- ===== src/Zfs/Recovered.antt =====
-- zfs.go: what `recoverCycle` leaves on both sides.
use cs_sync.Prelude.{
  eqt, Text, txt, eqt_iff, ℕ, ◌≡◌, refl, sym, ◌∙◌, ◌≢◌, Bool, true, Option, none, some, List, [],
  ◌∷◌, arith, is_none_lem,
}
use cs_sync.Os.{done, Act, ◌>>◌}
use cs_sync.Os.Keeps.{bind-ends}
use cs_sync.Zfs.{
  Snap, Zfs, find_slot, Keep, rotate, discard, has_rotated, recover_from, recover_cycle,
}
use cs_sync.Zfs.Recovery.{IsPair, relisted, rotate-Holds, rotate-Holds_other}
use cs_sync.Zfs.Rotated.{Holds}
use cs_sync.Zfs.Slots.{drop_slot, guid_at, guid_at-drop_slot, guid_at-find_slot}

-- Where a cycle stopped, by the identities in new and n0 on both sides, and the one that they agree on after it
-- is completed or given up: the backup has received the snapshot, the primary has rotated it already, or
-- it has not arrived.
pub data IsInterrupted (pn p0 bn b0 agreed : Option Text) : Type 0 where
  received :
      (g : Text) → pn ≡ some g → bn ≡ some g → agreed ≡ some g → IsInterrupted pn p0 bn b0 agreed
  rotated_first :
      (g : Text)
      → pn ≡ none
      → p0 ≡ some g
      → bn ≡ some g
      → agreed ≡ some g
      → IsInterrupted pn p0 bn b0 agreed
  unreceived : bn ≡ none → p0 ≡ b0 → agreed ≡ b0 → IsInterrupted pn p0 bn b0 agreed

-- Both sides hold `agreed` in n0, and nothing waits in new.
pub record IsSettled (zfs : Zfs) (p b : Text) (agreed : Option Text) (w : zfs.World) : Type 0 where
  pub p1 : Option Text
  pub b1 : Option Text
  pub on_primary : Holds zfs p none agreed p1 w
  pub on_backup : Holds zfs b none agreed b1 w

pub find_slot-guid :
    (slot : Text) (l : List Snap) (s : Snap)
    → find_slot slot l ≡ some s
    → (guid_at slot l ≡ some s.guid) × (s.slot ≡ slot)
unfolding find_slot guid_at
find_slot-guid slot [] s h = absurd (ground (arith, h))
find_slot-guid slot (x ∷ l) s h = ground (arith, find_slot-guid slot l s, eqt_iff x.slot slot)

find_slot-absent : (slot : Text) (l : List Snap) → find_slot slot l ≡ none → guid_at slot l ≡ none
find_slot-absent slot l h = is_none_lem (sym (guid_at-find_slot slot l) ∙ rw h refl)

absent-some :
    (slot : Text) (l : List Snap) (o : Option Text) (g : Text)
    → find_slot slot l ≡ none
    → guid_at slot l ≡ o
    → o ≢ some g
absent-some slot l o g h e z = absurd (ground (arith, find_slot-absent slot l h, e, z))

present-none :
    (slot : Text) (l : List Snap) (s : Snap) (o : Option Text)
    → find_slot slot l ≡ some s
    → guid_at slot l ≡ o
    → o ≢ none
present-none slot l s o h e z = absurd (ground (arith, (find_slot-guid slot l s h).0, e, z))

reslotted :
    (zfs : Zfs) (ds : Text) (new n0 new' n0' n1 : Option Text) (w : zfs.World)
    → Holds zfs ds new n0 n1 w
    → new ≡ new'
    → n0 ≡ n0'
    → Holds zfs ds new' n0' n1 w
reslotted zfs ds new n0 new' n0' n1 w h e e' = record {
  listing = h.listing;
  lists = h.lists;
  has_new = h.has_new ∙ e;
  has_n0 = h.has_n0 ∙ e';
  has_n1 = h.has_n1;
}

module _ (zfs : Zfs) (month_day month_day_hour : ℕ → Text) where
  open zfs use {World}

  has_rotated-n0 :
      (g : Text) (l : List Snap)
      → guid_at (txt "n0") l ≡ some g
      → has_rotated zfs month_day month_day_hour g l ≡ true
  unfolding guid_at has_rotated
  has_rotated-n0 g [] h = absurd (ground (arith, h))
  has_rotated-n0 g (s ∷ l) h =
      ground (arith, has_rotated-n0 g l, eqt_iff s.guid g, eqt_iff s.slot (txt "n0"))

  module _ (p b : Text) (law_p : IsPair zfs p b) (law_b : IsPair zfs b p) (k : Keep)
      (versions : Bool) where
    abbrev rotate_p : Act World (Unit {0})
    rotate_p = rotate zfs month_day month_day_hour k p versions

    abbrev rotate_b : Act World (Unit {0})
    rotate_b = rotate zfs month_day month_day_hour k b true

    -- Both rotations, the primary's first.
    pub rotated-IsSettled :
        (g : Text) (p0 p1 b0 b1 : Option Text) (w : World)
        → Holds zfs p (some g) p0 p1 w
        → Holds zfs b (some g) b0 b1 w
        → (rotate_p w).0 ≡ done tt
        → (rotate_b (rotate_p w).1).0 ≡ done tt
        → IsSettled zfs p b (some g) (rotate_b (rotate_p w).1).1
    rotated-IsSettled g p0 p1 b0 b1 w hp hb first second = record {
      p1 = p0;
      b1 = b0;
      on_primary =
          rotate-Holds_other zfs month_day month_day_hour b p law_b k true none (some g) p0 _ (
            rotate-Holds zfs month_day month_day_hour p b law_p k versions (some g) p0 p1 w hp
              first);
      on_backup =
          rotate-Holds zfs month_day month_day_hour b p law_b k true (some g) b0 b1 _
            (rotate-Holds_other zfs month_day month_day_hour p b law_p k versions (some g) b0 b1 w
              hb)
            second;
    }

    rotate_both-IsSettled :
        (g : Text) (p0 p1 b0 b1 : Option Text) (w : World)
        → Holds zfs p (some g) p0 p1 w
        → Holds zfs b (some g) b0 b1 w
        → ((rotate_p >> rotate_b) w).0 ≡ done tt
        → IsSettled zfs p b (some g) ((rotate_p >> rotate_b) w).1
    rotate_both-IsSettled g p0 p1 b0 b1 w hp hb ok =
        bind-ends (IsSettled zfs p b (some g)) rotate_p (λ _. rotate_b) w tt ok
          (λ u first second. rotated-IsSettled g p0 p1 b0 b1 w hp hb first second)

    rotate_backup-IsSettled :
        (g : Text) (p1 b0 b1 : Option Text) (w : World)
        → Holds zfs p none (some g) p1 w
        → Holds zfs b (some g) b0 b1 w
        → (rotate_b w).0 ≡ done tt
        → IsSettled zfs p b (some g) (rotate_b w).1
    rotate_backup-IsSettled g p1 b0 b1 w hp hb ok = record {
      p1 = p1;
      b1 = b0;
      on_primary =
          rotate-Holds_other zfs month_day month_day_hour b p law_b k true none (some g) p1 w hp;
      on_backup = rotate-Holds zfs month_day month_day_hour b p law_b k true (some g) b0 b1 w hb ok;
    }

    discard-IsSettled :
        (pn p0 b0 p1 b1 : Option Text) (w : World) (found : Option Snap)
        → (h : Holds zfs p pn p0 p1 w) → p0 ≡ b0
        → Holds zfs b none b0 b1 w
        → find_slot (txt "new") h.listing ≡ found
        → (discard zfs month_day month_day_hour p found w).0 ≡ done tt
        → IsSettled zfs p b b0 (discard zfs month_day month_day_hour p found w).1
    unfolding discard eqt
    discard-IsSettled pn p0 b0 p1 b1 w none h same hb e ok = record {
      p1 = p1;
      b1 = b1;
      on_primary = record {
        listing = h.listing;
        lists = h.lists;
        has_new = find_slot-absent (txt "new") h.listing e;
        has_n0 = h.has_n0 ∙ same;
        has_n1 = h.has_n1;
      };
      on_backup = hb;
    }
    discard-IsSettled pn p0 b0 p1 b1 w (some s) h same hb e ok =
        let at_new = (find_slot-guid (txt "new") h.listing s e).1 in
        record {
          p1 = p1;
          b1 = b1;
          on_primary = record {
            listing = drop_slot s.slot h.listing;
            lists = law_p.faithful.after_destroy s.slot w h.listing h.lists ok;
            has_new = guid_at-drop_slot s.slot (txt "new") h.listing ∙ rw at_new refl;
            has_n0 = guid_at-drop_slot s.slot (txt "n0") h.listing ∙ rw at_new (h.has_n0 ∙ same);
            has_n1 = guid_at-drop_slot s.slot (txt "n1") h.listing ∙ rw at_new h.has_n1;
          };
          on_backup = relisted zfs b none b0 b1 w _ (law_p.destroy_apart s.slot w) hb;
        }

    -- The switch of `recoverCycle`.
    recover_from-IsSettled :
        (pn p0 p1 bn b0 b1 agreed : Option Text) (w : World) (x y : Option Snap)
        → (hp : Holds zfs p pn p0 p1 w) → (hb : Holds zfs b bn b0 b1 w)
        → find_slot (txt "new") hp.listing ≡ x
        → find_slot (txt "new") hb.listing ≡ y
        → IsInterrupted pn p0 bn b0 agreed
        → (recover_from zfs month_day month_day_hour k versions p b hp.listing x y w).0 ≡ done tt
        → IsSettled zfs p b agreed
            (recover_from zfs month_day month_day_hour k versions p b hp.listing x y w).1
    unfolding recover_from
    recover_from-IsSettled pn p0 p1 bn b0 b1 agreed w x none hp hb ex ey (unreceived none_b same a)
          ok =
        rw a (
          discard-IsSettled pn p0 b0 p1 b1 w x hp same
            (reslotted zfs b bn b0 none b0 b1 w hb none_b refl) ex ok)
    recover_from-IsSettled pn p0 p1 bn b0 b1 agreed w x none hp hb ex ey (received g e1 e2 a) ok =
        absurd (absent-some (txt "new") hb.listing bn g ey hb.has_new e2)
    recover_from-IsSettled pn p0 p1 bn b0 b1 agreed w x none hp hb ex ey
          (rotated_first g e1 e2 e3 a) ok =
        absurd (absent-some (txt "new") hb.listing bn g ey hb.has_new e3)
    recover_from-IsSettled pn p0 p1 bn b0 b1 agreed w x (some t) hp hb ex ey
          (unreceived none_b same a) ok =
        absurd (present-none (txt "new") hb.listing t bn ey hb.has_new none_b)
    recover_from-IsSettled pn p0 p1 bn b0 b1 agreed w none (some t) hp hb ex ey (received g e1 e2 a)
          ok =
        absurd (absent-some (txt "new") hp.listing pn g ex hp.has_new e1)
    recover_from-IsSettled pn p0 p1 bn b0 b1 agreed w (some s) (some t) hp hb ex ey
          (rotated_first g e1 e2 e3 a) ok =
        absurd (present-none (txt "new") hp.listing s pn ex hp.has_new e1)
    recover_from-IsSettled pn p0 p1 bn b0 b1 agreed w none (some t) hp hb ex ey
          (rotated_first g e1 e2 e3 a) ok =
        let is_g : t.guid ≡ g =
          ground (arith, (find_slot-guid (txt "new") hb.listing t ey).0, hb.has_new, e3) in
        let there : has_rotated zfs month_day month_day_hour t.guid hp.listing ≡ true =
          rw is_g (has_rotated-n0 g hp.listing (hp.has_n0 ∙ e2)) in
        rw (a, there)
          (rotate_backup-IsSettled g p1 b0 b1 w (reslotted zfs p pn p0 none (some g) p1 w hp e1 e2)
            (reslotted zfs b bn b0 (some g) b0 b1 w hb e3 refl) (rw there at ok))
    recover_from-IsSettled pn p0 p1 bn b0 b1 agreed w (some s) (some t) hp hb ex ey
          (received g e1 e2 a) ok =
        let agree : eqt s.guid t.guid ≡ true = ground (
          arith,
          (find_slot-guid (txt "new") hp.listing s ex).0,
          (find_slot-guid (txt "new") hb.listing t ey).0,
          hp.has_new,
          hb.has_new,
          eqt_iff s.guid t.guid,
        ) in
        rw (a, agree)
          (rotate_both-IsSettled g p0 p1 b0 b1 w (reslotted zfs p pn p0 (some g) p0 p1 w hp e1 refl)
            (reslotted zfs b bn b0 (some g) b0 b1 w hb e2 refl) (rw agree at ok))

    -- A recovery that succeeds leaves both sides with the same snapshot in n0 and none in new, where the
    -- backup exists and the cycle has stopped in one of three places: with one snapshot in new on both
    -- sides, or in new on the backup and in n0 on the primary already, and then it is this one; or with
    -- no new on the backup and one n0 on both sides, and then it is this n0. This is where renaming and
    -- destroying change the listing of their dataset as they say, and no other.
    pub recover_cycle-IsSettled :
        (pn p0 p1 bn b0 b1 agreed : Option Text) (w : World)
        → Holds zfs p pn p0 p1 w
        → Holds zfs b bn b0 b1 w
        → zfs.exists_ds b w ≡ true
        → IsInterrupted pn p0 bn b0 agreed
        → (recover_cycle zfs month_day month_day_hour k versions p b w).0 ≡ done tt
        → IsSettled zfs p b agreed (recover_cycle zfs month_day month_day_hour k versions p b w).1
    unfolding recover_cycle
    recover_cycle-IsSettled pn p0 p1 bn b0 b1 agreed w hp hb there how ok =
        rw (hp.lists, there, hb.lists)
          (recover_from-IsSettled pn p0 p1 bn b0 b1 agreed w _ _ hp hb refl refl how
            (rw (hp.lists, there, hb.lists) at ok))
