-- ===== src/Zfs/Recovery.antt =====
-- zfs.go: `recoverCycle` after a cycle that stopped anywhere between the snapshot and the second
-- rotation.
use cs_sync.Prelude.{
  eqt, Text, txt, ℕ, ◌≡◌, refl, ◌∙◌, inl, inr, Bool, true, false, Option, none, some, List, [], ◌∷◌,
  arith, Bool-cases, is_none,
}
use cs_sync.Os.{Error, Outcome, done, failed, lift, reads}
use cs_sync.Prelude.Strings.{has_prefix}
use cs_sync.Os.Keeps.{Keeps, Keeps-bind}
use cs_sync.Zfs.{
  Snap, Zfs, find_slot, Keep, kept_slot, retire, shift_old, found_new, rotate_slots, is_expired,
  prune_each, prune, tidied, rotate,
}
use cs_sync.Zfs.Rotated.{IsFaithful, Holds, rotate_slots-advances}
use cs_sync.Zfs.Slots.{drop_slot, guid_at, guid_at-drop_slot}

-- Two datasets of which commands on one leave the other's listing alone. A command that fails to
-- destroy leaves the listing as it was.
pub record IsPair (zfs : Zfs) (ds other_ds : Text) : Type 0 where
  pub faithful : IsFaithful zfs ds
  pub rename_apart :
      (from to : Text) (w : zfs.World)
      → zfs.list_snaps other_ds (zfs.rename_snap ds from to w).1 ≡ zfs.list_snaps other_ds w
  pub destroy_apart :
      (slot : Text) (w : zfs.World)
      → zfs.list_snaps other_ds (zfs.destroy_snap ds slot w).1 ≡ zfs.list_snaps other_ds w
  pub destroy_failed :
      (slot : Text) (w : zfs.World) (e : Error)
      → (zfs.destroy_snap ds slot w).0 ≡ failed e
      → zfs.list_snaps ds (zfs.destroy_snap ds slot w).1 ≡ zfs.list_snaps ds w
  pub clear_lists : (w : zfs.World) → zfs.list_snaps ds (zfs.clear_blocked w) ≡ zfs.list_snaps ds w
  pub clear_lists_apart :
      (w : zfs.World) → zfs.list_snaps other_ds (zfs.clear_blocked w) ≡ zfs.list_snaps other_ds w

kept_apart : (s p q : Text) → has_prefix s (107 ∷ p) ≡ true → eqt s (110 ∷ q) ≡ false
unfolding has_prefix eqt
kept_apart [] p q h = cc
kept_apart (a ∷ s) p q h = ground arith

pub relisted :
    (zfs : Zfs) (ds : Text) (new n0 n1 : Option Text) (w w' : zfs.World)
    → zfs.list_snaps ds w' ≡ zfs.list_snaps ds w
    → Holds zfs ds new n0 n1 w
    → Holds zfs ds new n0 n1 w'
relisted zfs ds new n0 n1 w w' same h = record {
  listing = h.listing;
  lists = same ∙ h.lists;
  has_new = h.has_new;
  has_n0 = h.has_n0;
  has_n1 = h.has_n1;
}

module _ (zfs : Zfs) (month_day month_day_hour : ℕ → Text) where
  open zfs use {World}

  expired-IsKept :
      (k : Keep) (now : ℕ) (s : Snap) (q : Text)
      → is_expired zfs month_day month_day_hour k now s ≡ true
      → eqt s.slot (110 ∷ q) ≡ false
  unfolding is_expired
  expired-IsKept k now s q h = ground (
    arith,
    kept_apart s.slot (104 ∷ []) q,
    kept_apart s.slot (100 ∷ []) q,
    kept_apart s.slot (102 ∷ []) q,
  )

  module _ (ds other_ds : Text) (law : IsPair zfs ds other_ds) where
    -- Destroying a slot that is none of the three.
    destroy-Holds :
        (slot : Text) (new n0 n1 : Option Text) (w : World)
        → ((q : Text) → eqt slot (110 ∷ q) ≡ false)
        → Holds zfs ds new n0 n1 w
        → Holds zfs ds new n0 n1 (zfs.destroy_snap ds slot w).1
    destroy-Holds slot new n0 n1 w apart h = go (zfs.destroy_snap ds slot w).0 refl
      where
        kept :
            (q : Text) → guid_at (110 ∷ q) (drop_slot slot h.listing) ≡ guid_at (110 ∷ q) h.listing
        kept q = rw (guid_at-drop_slot slot (110 ∷ q) h.listing, apart q) refl

        go :
            (o : Outcome (Unit {0}))
            → (zfs.destroy_snap ds slot w).0 ≡ o
            → Holds zfs ds new n0 n1 (zfs.destroy_snap ds slot w).1
        go (failed e) eq = relisted zfs ds new n0 n1 w _ (law.destroy_failed slot w e eq) h
        go (done u) eq = record {
          listing = drop_slot slot h.listing;
          lists = law.faithful.after_destroy slot w h.listing h.lists eq;
          has_new = kept (txt "ew") ∙ h.has_new;
          has_n0 = kept (txt "0") ∙ h.has_n0;
          has_n1 = kept (txt "1") ∙ h.has_n1;
        }

    prune_each-Holds :
        (k : Keep) (now : ℕ) (l : List Snap) (new n0 n1 : Option Text) (w : World)
        → Holds zfs ds new n0 n1 w
        → Holds zfs ds new n0 n1 (prune_each zfs month_day month_day_hour k now ds l w)
    unfolding prune_each
    prune_each-Holds k now [] new n0 n1 w h = h
    prune_each-Holds k now (s ∷ l) new n0 n1 w h =
        elim (Bool-cases (is_expired zfs month_day month_day_hour k now s)) [
          | inl e ↦ rw e (
              prune_each-Holds k now l new n0 n1 _
                (destroy-Holds s.slot new n0 n1 w (λ q. expired-IsKept k now s q e) h))
          | inr e ↦ rw e (prune_each-Holds k now l new n0 n1 w h)
        ]

    tidied-Holds :
        (k : Keep) (new n0 n1 : Option Text) (r : Outcome (Unit {0}) × World)
        → Holds zfs ds new n0 n1 r.1
        → Holds zfs ds new n0 n1 (tidied zfs month_day month_day_hour k ds r).1
    unfolding tidied prune
    tidied-Holds k new n0 n1 (failed e, w) h = h
    tidied-Holds k new n0 n1 (done u, w) h =
        relisted zfs ds new n0 n1 (prune zfs month_day month_day_hour k ds w) _ (law.clear_lists _)
          (pruned (zfs.list_snaps ds w) refl)
      where
        pruned :
            (o : Outcome (List Snap))
            → zfs.list_snaps ds w ≡ o
            → Holds zfs ds new n0 n1 (prune zfs month_day month_day_hour k ds w)
        pruned (failed e) eq = rw (eq, prune) h
        pruned (done l) eq = rw (eq, prune) (prune_each-Holds k (zfs.unix_now w) l new n0 n1 w h)

    tidied-ok :
        (k : Keep) (r : Outcome (Unit {0}) × World)
        → (tidied zfs month_day month_day_hour k ds r).0 ≡ done tt
        → r.0 ≡ done tt
    unfolding tidied
    tidied-ok k (done u, w) ok = refl
    tidied-ok k (failed e, w) ok = absurd (ground (arith, ok))

    -- A rotation with its pruning.
    pub rotate-Holds :
        (k : Keep) (keep : Bool) (new n0 n1 : Option Text) (w : World)
        → Holds zfs ds new n0 n1 w
        → (rotate zfs month_day month_day_hour k ds keep w).0 ≡ done tt
        → Holds zfs ds none new n0 (rotate zfs month_day month_day_hour k ds keep w).1
    unfolding rotate
    rotate-Holds k keep new n0 n1 w h ok =
        let slots = rotate_slots zfs month_day month_day_hour ds keep w in
        tidied-Holds k none new n0 slots (
          rw (h.has_new, h.has_n0) at
            (rotate_slots-advances zfs month_day month_day_hour ds law.faithful keep h.listing w
              h.lists (tidied-ok k slots ok)))

    module _ (listed : Outcome (List Snap)) where
      abbrev Shows : World → Type 0
      Shows w = zfs.list_snaps other_ds w ≡ listed

      destroy-apart : (slot : Text) → Keeps Shows (zfs.destroy_snap ds slot)
      destroy-apart slot w e = law.destroy_apart slot w ∙ e

      rename-apart : (from to : Text) → Keeps Shows (zfs.rename_snap ds from to)
      rename-apart from to w e = law.rename_apart from to w ∙ e

      retire-apart :
          (keep : Bool) (l : List Snap)
          → Keeps Shows (retire zfs month_day month_day_hour ds keep l)
      unfolding retire
      retire-apart keep l w e = start (find_slot (txt "n1") l) refl
        where
          gone :
              (n1 : Snap) (o : Option Text)
              → find_slot (txt "n1") l ≡ some n1
              → kept_slot zfs month_day month_day_hour ds keep l n1 w ≡ o
              → Shows (retire zfs month_day month_day_hour ds keep l w).1
          gone n1 none f g = rw (retire, f, g) (destroy-apart (txt "n1") w e)
          gone n1 (some slot) f g = rw (retire, f, g) (rename-apart (txt "n1") slot w e)

          start :
              (o : Option Snap)
              → find_slot (txt "n1") l ≡ o
              → Shows (retire zfs month_day month_day_hour ds keep l w).1
          start none f = rw (retire, f) e
          start (some n1) f = gone n1 _ f refl

      shift_old-apart : (l : List Snap) → Keeps Shows (shift_old zfs month_day month_day_hour ds l)
      unfolding shift_old
      shift_old-apart l w e = elim (Bool-cases (is_none (find_slot (txt "n0") l))) [
        | inl f ↦ rw f e
        | inr f ↦ rw f (rename-apart (txt "n0") (txt "n1") w e)
      ]

      rotate_slots-apart :
          (keep : Bool) → Keeps Shows (rotate_slots zfs month_day month_day_hour ds keep)
      unfolding rotate_slots
      rotate_slots-apart keep =
          Keeps-bind Shows (reads (zfs.list_snaps ds)) _ (λ w e. e)
            (λ l.
              Keeps-bind Shows (lift (found_new zfs month_day month_day_hour l)) _ (λ w e. e)
                (λ u.
                  Keeps-bind Shows (retire zfs month_day month_day_hour ds keep l) _
                    (retire-apart keep l)
                    (λ v.
                      Keeps-bind Shows (shift_old zfs month_day month_day_hour ds l) _
                        (shift_old-apart l) (λ x. rename-apart (txt "new") (txt "n0")))))

      prune_each-apart :
          (k : Keep) (now : ℕ) (l : List Snap) (w : World)
          → Shows w
          → Shows (prune_each zfs month_day month_day_hour k now ds l w)
      unfolding prune_each
      prune_each-apart k now [] w e = e
      prune_each-apart k now (s ∷ l) w e =
          elim (Bool-cases (is_expired zfs month_day month_day_hour k now s)) [
            | inl f ↦ rw f (prune_each-apart k now l _ (destroy-apart s.slot w e))
            | inr f ↦ rw f (prune_each-apart k now l w e)
          ]

      tidied-apart :
          (k : Keep) (r : Outcome (Unit {0}) × World)
          → Shows r.1
          → Shows (tidied zfs month_day month_day_hour k ds r).1
      unfolding tidied prune
      tidied-apart k (failed z, w) e = e
      tidied-apart k (done u, w) e = law.clear_lists_apart _ ∙ pruned (zfs.list_snaps ds w) refl
        where
          pruned :
              (o : Outcome (List Snap))
              → zfs.list_snaps ds w ≡ o
              → Shows (prune zfs month_day month_day_hour k ds w)
          pruned (failed z) eq = rw (eq, prune) e
          pruned (done l) eq = rw (eq, prune) (prune_each-apart k (zfs.unix_now w) l w e)

      pub rotate-apart :
          (k : Keep) (keep : Bool) → Keeps Shows (rotate zfs month_day month_day_hour k ds keep)
      unfolding rotate
      rotate-apart k keep w e =
          tidied-apart k (rotate_slots zfs month_day month_day_hour ds keep w)
            (rotate_slots-apart keep w e)

    pub rotate-Holds_other :
        (k : Keep) (keep : Bool) (new n0 n1 : Option Text) (w : World)
        → Holds zfs other_ds new n0 n1 w
        → Holds zfs other_ds new n0 n1 (rotate zfs month_day month_day_hour k ds keep w).1
    rotate-Holds_other k keep new n0 n1 w h =
        relisted zfs other_ds new n0 n1 w _ (rotate-apart (zfs.list_snaps other_ds w) k keep w refl)
          h
