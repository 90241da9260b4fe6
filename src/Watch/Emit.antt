-- ===== src/Watch/Emit.antt =====
-- `emit` of watch_fsnotify.go and watch_eventport_illumossolaris.go, which is the same in both: each
-- `select` is one step, and the reader of the channel may step in between.
use cs_sync.Prelude.{
  ℕ, ◌-◌, ◌≤◌, ◌≡◌, refl, ◌≢◌, ◌⊎◌, inl, inr, Bool, true, false, not, ◌&&◌, ◌||◌, Option, none,
  some, List, [], ◌∷◌, arith, if◌then◌else◌, length, is_none,
}

-- The reason strings.
pub data Reason : Type 0 where
  event safety_net sighup start : Reason

abbrev pub is_event : Reason → Bool
is_event event = true
is_event _ = false

-- Where an `emit` stands: before its first send, before it drains the channel, before its two sends
-- of what it keeps, and before the send on a channel that it found drained.
pub data Pc : Type 0 where
  idle : Pc
  sending draining resending : Reason → Pc
  keeping retrying : Reason → Pc

-- "event" does not overwrite a pending reason of another kind.
unfoldable pub kept_reason : Reason → Reason → Reason
kept_reason old reason = if not (is_event old) && is_event reason then old else reason

-- One `select` of `emit` on the channel of capacity 1.
unfoldable pub emit_step : Pc → Option Reason → Pc × Option Reason
unfolding kept_reason
emit_step idle ch = (idle, ch)
emit_step (sending r) none = (idle, some r)
emit_step (sending r) (some old) = (draining r, some old)
emit_step (draining r) (some old) = (keeping (kept_reason old r), none)
emit_step (draining r) none = (resending r, none)
emit_step (keeping r) none = (idle, some r)
emit_step (keeping r) (some old) = (retrying r, some old)
emit_step (retrying r) none = (idle, some r)
emit_step (retrying r) (some old) = (idle, some old)
emit_step (resending r) none = (idle, some r)
emit_step (resending r) (some old) = (idle, some old)

-- The channel, the one who emits, and what the reader has taken, the last first.
pub record Channel : Type 0 where
  pub pending : Option Reason
  pub pc : Pc
  pub taken : List Reason

pub data Step : Channel → Channel → Type 0 where
  begin : (c : Channel) (r : Reason) → c.pc ≡ idle → Step c (record c { pc = sending r })
  select :
      (c : Channel)
      → c.pc ≢ idle
      → Step c
          (record c { pending = (emit_step c.pc c.pending).1; pc = (emit_step c.pc c.pending).0 })
  take_one :
      (c : Channel) (r : Reason)
      → c.pending ≡ some r
      → Step c (record c { pending = none; taken = r ∷ c.taken })

pub data Run (c : Channel) : Channel → Type 0 where
  here : Run c c
  next : {d e : Channel} → Run c d → Step d e → Run c e

-- The reason that an `emit` under way has in hand.
abbrev pub held : Pc → Option Reason
held idle = none
held (sending r) = some r
held (draining r) = some r
held (resending r) = some r
held (keeping r) = some r
held (retrying r) = some r

abbrev pub is_rescan : Option Reason → Bool
is_rescan none = false
is_rescan (some r) = not (is_event r)

abbrev pub any_rescan : List Reason → Bool
any_rescan [] = false
any_rescan (r ∷ rs) = not (is_event r) || any_rescan rs

-- Some reason other than "event" waits, is being emitted, or has been taken.
abbrev pub is_live : Channel → Bool
is_live c = is_rescan c.pending || (is_rescan (held c.pc) || any_rescan c.taken)

-- Behind the drain the channel is empty, as only the reader steps in between.
abbrev is_drained : Pc → Option Reason → Bool
is_drained (keeping r) ch = is_none ch
is_drained (retrying r) ch = is_none ch
is_drained (resending r) ch = is_none ch
is_drained _ ch = true

module _ (pc : Pc) (pending : Option Reason) (drained : is_drained pc pending ≡ true) where
  emit_step-drained : is_drained (emit_step pc pending).0 (emit_step pc pending).1 ≡ true
  unfolding emit_step
  emit_step-drained = ground arith

  emit_step-live :
      (is_rescan (emit_step pc pending).1 || is_rescan (held (emit_step pc pending).0))
      ≡ (is_rescan pending || is_rescan (held pc))
  unfolding emit_step
  emit_step-live = ground arith

drained-none : (pc : Pc) → is_drained pc none ≡ true
drained-none pc = ground arith

Step-drained :
    {c d : Channel} → Step c d → is_drained c.pc c.pending ≡ true → is_drained d.pc d.pending ≡ true
Step-drained (begin c r e) h = refl
Step-drained (select c e) h = emit_step-drained c.pc c.pending h
Step-drained (take_one c r e) h = drained-none c.pc

Step-live :
    {c d : Channel}
    → Step c d
    → is_drained c.pc c.pending ≡ true
    → is_live c ≡ true
    → is_live d ≡ true
Step-live (begin c r e) h live = ground (arith, e)
Step-live (select c e) h live = ground (arith, emit_step-live c.pc c.pending h)
Step-live (take_one c r e) h live = ground (arith, e)

-- Between two emits, or before the first select of one.
abbrev pub IsFresh : Channel → Type 0
IsFresh c = (c.pc ≡ idle) ⊎ ((r : Reason) × (c.pc ≡ sending r))

IsFresh-drained : (c : Channel) → IsFresh c → is_drained c.pc c.pending ≡ true
IsFresh-drained c (inl e) = rw e refl
IsFresh-drained c (inr (r, e)) = rw e refl

Run-drained : {c d : Channel} → Run c d → IsFresh c → is_drained d.pc d.pending ≡ true
Run-drained {c} here fresh = IsFresh-drained c fresh
Run-drained (next run step) fresh = Step-drained step (Run-drained run fresh)

Run-live : {c d : Channel} → Run c d → IsFresh c → is_live c ≡ true → is_live d ≡ true
Run-live here fresh live = live
Run-live (next run step) fresh live =
    Step-live step (Run-drained run fresh) (Run-live run fresh live)

-- With one `emit` at a time, however the reader steps in between its selects, a reason other than
-- "event" that waits on the channel or begins to be emitted is not lost to an "event": whenever no
-- emit is under way, such a reason waits or has been taken since.
pub Run-keeps_rescan :
    {c d : Channel}
    → Run c d
    → IsFresh c
    → c.taken ≡ []
    → (is_rescan c.pending || is_rescan (held c.pc)) ≡ true
    → d.pc ≡ idle
    → (is_rescan d.pending || any_rescan d.taken) ≡ true
Run-keeps_rescan {c} {d} run fresh nothing waits over =
    ground (arith, Run-live run fresh (ground (arith, waits)), over)

-- An `emit` whose selects find the channel as the list says, whoever fills and drains it.
unfoldable pub emit_against : Pc → List (Option Reason) → Pc
unfolding emit_step
emit_against pc [] = pc
emit_against pc (ch ∷ chs) = emit_against (emit_step pc ch).0 chs

abbrev selects_left : Pc → ℕ
selects_left idle = 0
selects_left (sending r) = 4
selects_left (draining r) = 3
selects_left (keeping r) = 2
selects_left (retrying r) = 1
selects_left (resending r) = 1

emit_step-selects_left :
    (pc : Pc) (ch : Option Reason) → selects_left (emit_step pc ch).0 ≤ selects_left pc - 1
unfolding emit_step
emit_step-selects_left pc ch = ground arith

selects_left-idle : (pc : Pc) → selects_left pc ≡ 0 → pc ≡ idle
selects_left-idle pc h = ground arith

emit_against-idle :
    (pc : Pc) (chs : List (Option Reason))
    → selects_left pc ≤ length chs
    → emit_against pc chs ≡ idle
unfolding emit_against
emit_against-idle pc [] h = selects_left-idle pc (omega arith)
emit_against-idle pc (ch ∷ chs) h =
    emit_against-idle (emit_step pc ch).0 chs (omega (arith, emit_step-selects_left pc ch))

-- `emit` never waits: whatever readers and other emitters do to the channel between its selects, it
-- is over after at most four of them.
pub emit_against-ends :
    (r : Reason) (chs : List (Option Reason)) → 4 ≤ length chs → emit_against (sending r) chs ≡ idle
emit_against-ends r chs h = emit_against-idle (sending r) chs h
