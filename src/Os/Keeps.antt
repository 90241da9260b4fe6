-- ===== src/Os/Keeps.antt =====
-- Invariants of actions: the rules to carry one through a sequence of calls, and what ran when the
-- sequence returns.
use cs_sync.Prelude.{◌≡◌, refl, arith}
use cs_sync.Os.{Outcome, done, failed, Act, and_then, ◌>>=◌, attempt, lift}

-- Whether the action returns or fails.
abbrev pub Keeps : {W A : Type 0} → (W → Type 0) → Act W A → Type 0
Keeps {W} P m = (w : W) → P w → P (m w).1

module _ {W A B : Type 0} (P : W → Type 0) where
  pub Keeps-bind :
      (m : Act W A) (f : A → Act W B) → Keeps P m → ((a : A) → Keeps P (f a)) → Keeps P (m >>= f)
  Keeps-bind m f km kf w h = go (m w) (km w h)
    where
      go : (x : Outcome A × W) → P x.1 → P (let (r, w') = x in and_then r f w').1
      go (done a, w') h = kf a w' h
      go (failed e, w') h = h

  -- The rest may use the value that was computed.
  pub Keeps-lift :
      (r : Outcome A) (f : A → Act W B)
      → ((a : A) → r ≡ done a → Keeps P (f a))
      → Keeps P (lift r >>= f)
  Keeps-lift (done a) f kf w h = kf a refl w h
  Keeps-lift (failed e) f kf w h = h

  pub Keeps-attempt :
      (m : Act W A) (f : Outcome A → Act W B)
      → Keeps P m
      → ((r : Outcome A) → Keeps P (f r))
      → Keeps P (attempt m >>= f)
  Keeps-attempt m f km kf w h = kf (m w).0 (m w).1 (km w h)

-- What ran when a sequence returns.
pub bind-done :
    {W A B : Type 0} (m : Act W A) (f : A → Act W B) (w : W) (b : B)
    → ((m >>= f) w).0 ≡ done b
    → (a : A) × ((m w).0 ≡ done a) × ((f a (m w).1).0 ≡ done b)
bind-done {W} {A} {B} m f w b e = go (m w) e
  where
    go :
        (x : Outcome A × W)
        → (and_then x.0 f x.1).0 ≡ done b
        → (a : A) × (x.0 ≡ done a) × ((f a x.1).0 ≡ done b)
    go (done a, w') e = (a, refl, e)
    go (failed z, w') e = absurd (ground (arith, e))

-- What holds after a sequence that returns, from what holds after its last part.
pub bind-ends :
    {W A B : Type 0} (Q : W → Type 0) (m : Act W A) (f : A → Act W B) (w : W) (b : B)
    → ((m >>= f) w).0 ≡ done b
    → ((a : A) → (m w).0 ≡ done a → (f a (m w).1).0 ≡ done b → Q (f a (m w).1).1)
    → Q ((m >>= f) w).1
bind-ends {W} {A} {B} Q m f w b e rest = go (m w) e rest
  where
    go :
        (x : Outcome A × W)
        → (and_then x.0 f x.1).0 ≡ done b
        → ((a : A) → x.0 ≡ done a → (f a x.1).0 ≡ done b → Q (f a x.1).1)
        → Q (and_then x.0 f x.1).1
    go (done a, w') e rest = rest a refl e
    go (failed z, w') e rest = absurd (ground (arith, e))
