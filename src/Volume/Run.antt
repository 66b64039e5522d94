-- ===== src/Volume/Run.antt =====
-- What a run that succeeds went through: one rule for each way to build an action.
use denyfs.Prelude.{◌⊎◌, inl, inr, ◌≡◌, refl, sym, ap, Bool, true, false, if◌then◌else◌, arith}
use denyfs.Volume.{
  Res, ok, err, Errno, Exec, require, pure, fail, gets, on_err, or_fail, recover, and_then, ◌>>=◌,
}
use denyfs.Volume.Frame.{Frame, at}

module _ {S A B : Type 0} where
  and_then-ok :
      (r : Res A × S) (k : A → Exec S B) {b : B} {u : S}
      → and_then r k ≡ (ok b, u)
      → (a : A) × (t : S) × (r ≡ (ok a, t)) × (k a t ≡ (ok b, u))
  and_then-ok (ok a, t) k h = (a, t, refl, h)
  and_then-ok (err e, t) k h = ground arith

  pub bind-ok :
      (m : Exec S A) (k : A → Exec S B) {s u : S} {b : B}
      → (m >>= k) s ≡ (ok b, u)
      → (a : A) × (t : S) × (m s ≡ (ok a, t)) × (k a t ≡ (ok b, u))
  unfolding ◌>>=◌
  bind-ok m k {s} h = and_then-ok (m s) k h

-- A test that the run passed, and what it read.
module _ {S B : Type 0} where
  pub require-ok :
      (b : Bool) (e : Errno) (k : Unit {0} → Exec S B) {s u : S} {x : B}
      → (require b e >>= k) s ≡ (ok x, u)
      → (b ≡ true) × (k tt s ≡ (ok x, u))
  unfolding ◌>>=◌
  require-ok true e k h = (refl, h)
  require-ok false e k h = ground arith

  pub gets-ok :
      {A : Type 0} (f : S → A) (k : A → Exec S B) {s u : S} {x : B}
      → (gets f >>= k) s ≡ (ok x, u)
      → k (f s) s ≡ (ok x, u)
  unfolding ◌>>=◌
  gets-ok f k h = h

pub if-ok :
    {S A : Type 0} (b : Bool) (m n : Exec S A) {s u : S} {a : A}
    → (if b then m else n) s ≡ (ok a, u)
    → ((b ≡ true) × (m s ≡ (ok a, u))) ⊎ ((b ≡ false) × (n s ≡ (ok a, u)))
if-ok true m n h = inl (refl, h)
if-ok false m n h = inr (refl, h)

pub pure-ok :
    {S A : Type 0} (a : A) (s : S) {b : A} {u : S} → pure a s ≡ (ok b, u) → (a ≡ b) × (s ≡ u)
unfolding pure
pure-ok a s h = (ground (arith, ap (λ p. p.0) h), ap (λ p. p.1) h)

pub fail-ok : {S A B : Type 0} (e : Errno) (s : S) {a : A} {u : S} → fail e s ≡ (ok a, u) → B
unfolding fail
fail-ok e s h = ground arith

pub require-end :
    {S : Type 0} (b : Bool) (e : Errno) {s u : S} {x : Unit {0}}
    → require b e s ≡ (ok x, u)
    → (b ≡ true) × (s ≡ u)
unfolding ◌>>=◌
require-end true e h = (refl, ap (λ p. p.1) h)
require-end false e h = ground arith

module _ {S A : Type 0} where
  recover-ok :
      (e : Errno) (r : Res A × S) {a : A} {u : S}
      → recover r (λ _. fail e) ≡ (ok a, u)
      → r ≡ (ok a, u)
  unfolding fail
  recover-ok e (ok b, v) h = h
  recover-ok e (err x, v) h = ground arith

  pub or_fail-ok :
      (e : Errno) (m : Exec S A) (s : S) {a : A} {u : S}
      → or_fail e m s ≡ (ok a, u)
      → m s ≡ (ok a, u)
  unfolding on_err
  or_fail-ok e m s h = recover-ok e (m s) h

  handled-ok :
      (h : Errno → Exec S A) (r : Res A × S) {a : A} {u : S}
      → ((e : Errno) (t : S) → h e t ≡ (ok a, u) → r ≡ (ok a, u))
      → recover r h ≡ (ok a, u)
      → r ≡ (ok a, u)
  handled-ok h (ok b, v) never e = e
  handled-ok h (err x, v) never e = never x v e

  -- Behind a handler that does not succeed.
  pub on_err-ok :
      (m : Exec S A) (h : Errno → Exec S A) (s : S) {a : A} {u : S}
      → ((e : Errno) (t : S) → h e t ≡ (ok a, u) → m s ≡ (ok a, u))
      → on_err m h s ≡ (ok a, u)
      → m s ≡ (ok a, u)
  unfolding on_err
  on_err-ok m h s never e = handled-ok h (m s) never e

  pub or_fail-known :
      (e : Errno) (m : Exec S A) (s : S) {a : A} {u : S}
      → m s ≡ (ok a, u)
      → or_fail e m s ≡ (ok a, u)
  unfolding on_err
  or_fail-known e m s h = rw h refl

  recover-state : (e : Errno) (r : Res A × S) → (recover r (λ _. fail e)).1 ≡ r.1
  unfolding fail
  recover-state e (ok b, v) = refl
  recover-state e (err x, v) = refl

  pub or_fail-state : (e : Errno) (m : Exec S A) (s : S) → (or_fail e m s).1 ≡ (m s).1
  unfolding on_err
  or_fail-state e m s = recover-state e (m s)

-- What an action that runs from `v` to `w` leaves, by its frame.
pub ran :
    {S A : Type 0} {R : S → S → Type 0} {m : Exec S A} {v w : S} {r : Res A}
    → m v ≡ (r, w)
    → Frame R m
    → R v w
ran {R = R} {v = v} e f = rw (sym (ap (λ p. p.1) e)) (at f v)

-- An action behind one whose run is known.
pub bind-known :
    {S A B : Type 0} (m : Exec S A) (k : A → Exec S B) {s t : S} {a : A} {r : Res B × S}
    → m s ≡ (ok a, t)
    → (m >>= k) s ≡ r
    → k a t ≡ r
unfolding ◌>>=◌
bind-known m k e h = rw (← ap (λ x. and_then x k) e) h
