-- ===== src/Volume/Frame.antt =====
-- What an action leaves related to the state that it starts from, whether it succeeds or fails:
-- one rule for each way to build an action.
use denyfs.Prelude.{◌≡◌, refl, Bool, true, false, Option, none, some, if◌then◌else◌}
use denyfs.Volume.{
  Exec, Res, ok, err, Errno, require, ◌>>◌, pure, fail, gets, recover, on_err, of_option, and_then,
  ◌>>=◌,
}

-- Shut, so that a search does not take it apart.
pub data Frame {S A : Type 0} (R : S → S → Type 0) (m : Exec S A) : Type 0 where
  frame : ((v : S) → R v (m v).1) → Frame R m

abbrev pub at :
    {S A : Type 0} {R : S → S → Type 0} {m : Exec S A} → Frame R m → (v : S) → R v (m v).1
at (frame f) = f

pub record IsPreorder {S : Type 0} (R : S → S → Type 0) : Type 0 where
  pub same : (v : S) → R v v
  pub trans : (u v w : S) → R u v → R v w → R u w

module _ {S : Type 0} {R : S → S → Type 0} (o : IsPreorder R) where
  module _ {A : Type 0} where
    pub Frame-pure : (a : A) → Frame R (pure {S = S} a)
    unfolding pure
    Frame-pure a = frame (λ v. o.same v)

    pub Frame-fail : (e : Errno) → Frame R (fail {S = S} {A = A} e)
    unfolding fail
    Frame-fail e = frame (λ v. o.same v)

    pub Frame-gets : (f : S → A) → Frame R (gets f)
    unfolding gets
    Frame-gets f = frame (λ v. o.same v)

    pub Frame-of_option : (a : Option A) (e : Errno) → Frame R (of_option {S = S} a e)
    unfolding of_option
    Frame-of_option none e = Frame-fail e
    Frame-of_option (some a) e = Frame-pure a

    pub Frame-if :
        (b : Bool) (m n : Exec S A) → Frame R m → Frame R n → Frame R (if b then m else n)
    Frame-if true m n fm fn = fm
    Frame-if false m n fm fn = fn

    recover-Frame :
        (u : S) (r : Res A × S) (h : Errno → Exec S A)
        → R u r.1
        → ((e : Errno) → Frame R (h e))
        → R u (recover r h).1
    recover-Frame u (ok a, v) h p fh = p
    recover-Frame u (err e, v) h p fh = o.trans u v (h e v).1 p (at (fh e) v)

    pub Frame-on_err :
        (m : Exec S A) (h : Errno → Exec S A)
        → Frame R m
        → ((e : Errno) → Frame R (h e))
        → Frame R (on_err m h)
    unfolding on_err
    Frame-on_err m h fm fh = frame (λ v. recover-Frame v (m v) h (at fm v) fh)

  module _ {A B : Type 0} where
    and_then-Frame :
        (u : S) (r : Res A × S) (k : A → Exec S B)
        → R u r.1
        → ((a : A) → Frame R (k a))
        → R u (and_then r k).1
    and_then-Frame u (ok a, v) k p fk = o.trans u v (k a v).1 p (at (fk a) v)
    and_then-Frame u (err e, v) k p fk = p

    pub Frame-bind :
        (m : Exec S A) (k : A → Exec S B)
        → Frame R m
        → ((a : A) → Frame R (k a))
        → Frame R (m >>= k)
    unfolding ◌>>=◌
    Frame-bind m k fm fk = frame (λ v. and_then-Frame v (m v) k (at fm v) fk)

pub ruleset frame_rules =
    (Frame-pure, Frame-fail, Frame-gets, Frame-of_option, Frame-if, Frame-on_err, Frame-bind)

-- From one state: an action behind a test, and behind a callee that may fail.
module _ {S A : Type 0} (P : S → Type 0) {v : S} (start : P v) where
  pub require-then :
      (b : Bool) (e : Errno) (m : Exec S A) → (b ≡ true → P (m v).1) → P ((require b e >> m) v).1
  unfolding ◌>>=◌
  require-then true e m h = h refl
  require-then false e m h = start

  pub of_option-then :
      {B : Type 0} (o : Option B) (e : Errno) (k : B → Exec S A)
      → ((b : B) → P (k b v).1)
      → P ((of_option o e >>= k) v).1
  unfolding ◌>>=◌
  of_option-then none e k h = start
  of_option-then (some b) e k h = h b

  pub gets-then :
      {B : Type 0} (f : S → B) (k : B → Exec S A) → P (k (f v) v).1 → P ((gets f >>= k) v).1
  unfolding ◌>>=◌
  gets-then f k h = h

-- An action behind one that has run to its end, either way.
module _ {S A B : Type 0} (P : S → Type 0) where
  by_result :
      (r : Res A × S) (k : A → Exec S B)
      → P r.1
      → ((a : A) (t : S) → r ≡ (ok a, t) → P (k a t).1)
      → P (and_then r k).1
  by_result (ok a, t) k e h = h a t refl
  by_result (err x, t) k e h = e

  pub bind-then :
      (m : Exec S A) (k : A → Exec S B) (v : S)
      → P (m v).1
      → ((a : A) (t : S) → m v ≡ (ok a, t) → P (k a t).1)
      → P ((m >>= k) v).1
  unfolding ◌>>=◌
  bind-then m k v e h = by_result (m v) k e h

  by_case :
      (r : Res A × S) (k : A → Exec S B)
      → ((x : Errno) (t : S) → r ≡ (err x, t) → P t)
      → ((a : A) (t : S) → r ≡ (ok a, t) → P (k a t).1)
      → P (and_then r k).1
  by_case (ok a, t) k e h = h a t refl
  by_case (err x, t) k e h = e x t refl

  -- The same, by how it ended.
  pub bind-cases :
      (m : Exec S A) (k : A → Exec S B) (v : S)
      → ((x : Errno) (t : S) → m v ≡ (err x, t) → P t)
      → ((a : A) (t : S) → m v ≡ (ok a, t) → P (k a t).1)
      → P ((m >>= k) v).1
  unfolding ◌>>=◌
  bind-cases m k v e h = by_case (m v) k e h

-- A handler behind an action that failed.
module _ {S A : Type 0} (P : S → Type 0) where
  by_recovery :
      (r : Res A × S) (h : Errno → Exec S A)
      → ((a : A) (t : S) → r ≡ (ok a, t) → P t)
      → ((x : Errno) (t : S) → r ≡ (err x, t) → P (h x t).1)
      → P (recover r h).1
  by_recovery (ok a, t) h f g = f a t refl
  by_recovery (err x, t) h f g = g x t refl

  pub on_err-cases :
      (m : Exec S A) (h : Errno → Exec S A) (v : S)
      → ((a : A) (t : S) → m v ≡ (ok a, t) → P t)
      → ((x : Errno) (t : S) → m v ≡ (err x, t) → P (h x t).1)
      → P (on_err m h v).1
  unfolding on_err
  on_err-cases m h v f g = by_recovery (m v) h f g

-- An action behind a test, which it may rely on.
pub Frame-require :
    {S A : Type 0} {R : S → S → Type 0} (o : IsPreorder R) (b : Bool) (e : Errno) (m : Exec S A)
    → (b ≡ true → Frame R m)
    → Frame R (require b e >> m)
Frame-require {R = R} o b e m f = frame λ v. require-then (R v) (o.same v) b e m (λ h. at (f h) v)
