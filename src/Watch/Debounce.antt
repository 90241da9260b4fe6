-- ===== src/Watch/Debounce.antt =====
-- `debounceLoop`: the timer that every event outside .backupdata sets anew. The list is of the events
-- with the times of their arrival; a timer that has run out when an event arrives has fired before.
use cs_sync.Prelude.{
  Text, ℕ, ◌+◌, ◌≤◌, ◌≡◌, refl, sym, ap, inl, inr, Bool, not, Option, none, some, List, [], ◌∷◌,
  ◌++◌, arith, leb, if◌then◌else◌, Bool-cases, keep_if,
}
use cs_sync.Watch.{is_backupdata_path}

-- What a timer has emitted by a time, and what is left of it then.
unfoldable pub fired_by : ℕ → Option ℕ → List ℕ
fired_by t none = []
fired_by t (some due) = if leb due t then due ∷ [] else []

unfoldable pub left_at : ℕ → Option ℕ → Option ℕ
left_at t none = none
left_at t (some due) = if leb due t then none else some due

-- An event under .backupdata is passed over; any other sets the timer.
unfoldable pub reset_by : ℕ → ℕ × Text → Option ℕ → Option ℕ
reset_by window (t, p) timer = if is_backupdata_path p then timer else some (t + window)

-- The times at which "event" is emitted, until the events end and the last timer has fired.
unfoldable pub debounce : ℕ → Option ℕ → List (ℕ × Text) → List ℕ
unfolding fired_by left_at reset_by
debounce window none [] = []
debounce window (some due) [] = due ∷ []
debounce window timer ((t, p) ∷ evs) =
    fired_by t timer ++ debounce window (reset_by window (t, p) (left_at t timer)) evs

-- The events come in the order of their times, none before `now`.
abbrev pub IsTimed : ℕ → List (ℕ × Text) → Type 0
IsTimed now [] = Unit
IsTimed now ((t, p) ∷ evs) = (now ≤ t) × IsTimed t evs

-- Each emission comes at least `window` after the one before, the first not before `lo`.
abbrev pub IsSpaced : ℕ → ℕ → List ℕ → Type 0
IsSpaced window lo [] = Unit
IsSpaced window lo (u ∷ us) = (lo ≤ u) × IsSpaced window (u + window) us

abbrev pub is_outside : ℕ × Text → Bool
is_outside ev = not (is_backupdata_path ev.1)

IsSpaced-le :
    (window lo lo' : ℕ) (us : List ℕ) → lo ≤ lo' → IsSpaced window lo' us → IsSpaced window lo us
IsSpaced-le window lo lo' [] le h = tt
IsSpaced-le window lo lo' (u ∷ us) le h = (omega (arith, h.0), h.1)

IsTimed-le :
    (now later : ℕ) (evs : List (ℕ × Text)) → now ≤ later → IsTimed later evs → IsTimed now evs
IsTimed-le now later [] le h = tt
IsTimed-le now later ((t, p) ∷ evs) le h = (omega (arith, h.0), h.1)

debounce-event :
    (window t : ℕ) (p : Text) (timer : Option ℕ) (evs : List (ℕ × Text))
    → debounce window timer ((t, p) ∷ evs)
      ≡ fired_by t timer ++ debounce window (reset_by window (t, p) (left_at t timer)) evs
unfolding debounce
debounce-event window t p none evs = refl
debounce-event window t p (some due) evs = refl

-- A timer that runs out before the next event fires.
debounce-fires :
    (window t : ℕ) (timer : Option ℕ) (evs : List (ℕ × Text))
    → IsTimed t evs
    → debounce window timer evs ≡ fired_by t timer ++ debounce window (left_at t timer) evs
unfolding debounce
debounce-fires window t none evs h = refl
debounce-fires window t (some due) [] h = ground arith
debounce-fires window t (some due) ((t', p) ∷ evs) h = ground (arith, h.0)

IsTimed-keep_if :
    (now : ℕ) (evs : List (ℕ × Text)) → IsTimed now evs → IsTimed now (keep_if is_outside evs)
IsTimed-keep_if now [] h = tt
IsTimed-keep_if now ((t, p) ∷ evs) h = elim (Bool-cases (is_backupdata_path p)) [
  | inl e ↦ rw e (IsTimed-keep_if now evs (IsTimed-le now t evs h.0 h.1))
  | inr e ↦ rw e (h.0, IsTimed-keep_if t evs h.1)
]

-- What the program writes below .backupdata makes no difference to when "event" is emitted.
pub debounce-keep_if :
    (window now : ℕ) (timer : Option ℕ) (evs : List (ℕ × Text))
    → IsTimed now evs
    → debounce window timer evs ≡ debounce window timer (keep_if is_outside evs)
unfolding reset_by
debounce-keep_if window now timer [] h = refl
debounce-keep_if window now timer ((t, p) ∷ evs) h =
    let later = λ (left : Option ℕ). debounce-keep_if window t left evs h.1 in
    elim (Bool-cases (is_backupdata_path p)) [
      | inl e ↦
          rw (e, debounce-event window t p timer evs, reset_by, e, later (left_at t timer))
            (sym
              (debounce-fires window t timer (keep_if is_outside evs) (IsTimed-keep_if t evs h.1)))
      | inr e ↦
          rw
            (
              e,
              debounce-event window t p timer evs,
              debounce-event window t p timer (keep_if is_outside evs),
            )
            (ap (λ l. fired_by t timer ++ l) (later (reset_by window (t, p) (left_at t timer))))
    ]

IsSpaced-debounce :
    (window now due : ℕ) (evs : List (ℕ × Text))
    → IsTimed now evs
    → due ≤ now + window
    → IsSpaced window due (debounce window (some due) evs)
      × IsSpaced window (now + window) (debounce window none evs)
unfolding debounce fired_by left_at reset_by
IsSpaced-debounce window now due [] h le = (omega arith, tt)
IsSpaced-debounce window now due ((t, p) ∷ evs) h le =
    let (reset, quiet) = IsSpaced-debounce window t (t + window) evs h.1 (omega arith) in
    let (running, _) = IsSpaced-debounce window t due evs h.1 (omega (arith, h.0)) in
    (
      elim (Bool-cases (leb due t)) [
        | inl fires ↦ rw fires (
          omega arith,
          elim (Bool-cases (is_backupdata_path p)) [
            | inl e ↦
                rw e
                  (IsSpaced-le window (due + window) (t + window) _ (ground (arith, fires)) quiet)
            | inr e ↦
                rw e
                  (IsSpaced-le window (due + window) (t + window) _ (ground (arith, fires)) reset)
          ],
        )
        | inr waits ↦ rw waits (elim (Bool-cases (is_backupdata_path p)) [
          | inl e ↦ rw e running
          | inr e ↦ rw e (IsSpaced-le window due (t + window) _ (omega (arith, h.0)) reset)
        ])
      ],
      elim (Bool-cases (is_backupdata_path p)) [
        | inl e ↦ rw e (IsSpaced-le window (now + window) (t + window) _ (omega (arith, h.0)) quiet)
        | inr e ↦ rw e (IsSpaced-le window (now + window) (t + window) _ (omega (arith, h.0)) reset)
      ],
    )

-- Emissions come at least the window apart, and the first not before the window is over.
pub debounce-IsSpaced :
    (window now : ℕ) (evs : List (ℕ × Text))
    → IsTimed now evs
    → IsSpaced window (now + window) (debounce window none evs)
debounce-IsSpaced window now evs h = (IsSpaced-debounce window now now evs h (omega arith)).1
