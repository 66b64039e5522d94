-- ===== src/Volume/Total.antt =====
-- That an action succeeds from a state, and ends in a state of a kind: one rule for each way to
-- build an action.
use denyfs.Prelude.{◌≡◌, refl, Bool, true, false, Option, some, if◌then◌else◌}
use denyfs.Volume.{Res, ok, Errno, Exec, require, pure, gets, of_option, and_then, ◌>>=◌, ◌>>◌}

abbrev pub RunsTo : {S A : Type 0} → (S → Type 0) → Exec S A → S → Type 0
RunsTo {S} {A} I m v = (a : A) × (w : S) × (m v ≡ (ok a, w)) × I w

module _ {S : Type 0} {I : S → Type 0} where
  pub pure-runs : {A : Type 0} (a : A) (v : S) → I v → RunsTo I (pure a) v
  unfolding pure
  pure-runs a v i = (a, v, refl, i)

  module _ {A B : Type 0} where
    and_then-runs :
        (r : Res A × S) (k : A → Exec S B) {a : A} {w : S}
        → r ≡ (ok a, w)
        → RunsTo I (k a) w
        → (b : B) × (u : S) × (and_then r k ≡ (ok b, u)) × I u
    and_then-runs r k e h = rw e h

    pub bind-runs :
        (m : Exec S A) (k : A → Exec S B) (v : S)
        → RunsTo I m v
        → ((a : A) (w : S) → I w → RunsTo I (k a) w)
        → RunsTo I (m >>= k) v
    unfolding ◌>>=◌
    bind-runs m k v (a, w, e, i) h = and_then-runs (m v) k e (h a w i)

    pub gets-runs :
        (f : S → A) (k : A → Exec S B) (v : S) → RunsTo I (k (f v)) v → RunsTo I (gets f >>= k) v
    unfolding ◌>>=◌
    gets-runs f k v h = h

    pub of_option-runs :
        (o : Option A) (e : Errno) (k : A → Exec S B) (v : S) {a : A}
        → o ≡ some a
        → RunsTo I (k a) v
        → RunsTo I (of_option o e >>= k) v
    unfolding ◌>>=◌
    of_option-runs o e k v h r = rw h r

  pub require-runs :
      {A : Type 0} (b : Bool) (e : Errno) (m : Exec S A) (v : S)
      → b ≡ true
      → RunsTo I m v
      → RunsTo I (require b e >> m) v
  unfolding ◌>>=◌
  require-runs b e m v h r = rw h r

  pub if-runs :
      {A : Type 0} (b : Bool) (m n : Exec S A) (v : S)
      → RunsTo I m v
      → RunsTo I n v
      → RunsTo I (if b then m else n) v
  if-runs true m n v r s = r
  if-runs false m n v r s = s
