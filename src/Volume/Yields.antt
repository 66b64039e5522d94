-- ===== src/Volume/Yields.antt =====
-- What an action yields when it succeeds, under an invariant of the state: one rule for each way to
-- build an action.
use denyfs.Prelude.{◌≡◌, refl, sym, Bool, true, false, if◌then◌else◌}
use denyfs.Volume.{Exec, ok, Errno, require, pure, fail, gets, ◌>>=◌}
use denyfs.Volume.Run.{bind-ok, require-end, pure-ok, fail-ok}

-- Shut, so that a search does not take it apart.
pub data Yields {S A : Type 0} (I : S → Type 0) (P : A → Type 0) (m : Exec S A) : Type 0 where
  yields : ((v u : S) (a : A) → I v → m v ≡ (ok a, u) → P a × I u) → Yields I P m

abbrev pub yielded :
    {S A : Type 0} {I : S → Type 0} {P : A → Type 0} {m : Exec S A} {v u : S} {a : A}
    → Yields I P m
    → I v
    → m v ≡ (ok a, u)
    → P a × I u
yielded {v = v} {u = u} {a = a} (yields f) i h = f v u a i h

module _ {S : Type 0} {I : S → Type 0} where
  pub Yields-state : Yields I I (gets (λ v. v))
  unfolding gets pure
  Yields-state = yields λ v u a i h. let (x, s) = pure-ok v v h in (rw (sym x) i, rw (sym s) i)

  pub Yields-require : (b : Bool) (e : Errno) → Yields I (λ _. b ≡ true) (require b e)
  Yields-require b e = yields λ v u a i h. let (t, s) = require-end b e h in (t, rw (sym s) i)

  module _ {A : Type 0} where
    pub Yields-pure : {P : A → Type 0} (a : A) → P a → Yields I P (pure a)
    Yields-pure a p = yields λ v u b i h. let (t, s) = pure-ok a v h in (rw (sym t) p, rw (sym s) i)

    pub Yields-fail : {P : A → Type 0} (e : Errno) → Yields I P (fail e)
    Yields-fail e = yields λ v u b i h. fail-ok e v h

    pub Yields-if :
        {P : A → Type 0} (b : Bool) (m n : Exec S A)
        → (b ≡ true → Yields I P m)
        → (b ≡ false → Yields I P n)
        → Yields I P (if b then m else n)
    Yields-if true m n f g = f refl
    Yields-if false m n f g = g refl

    pub Yields-weaken :
        {P Q : A → Type 0} {m : Exec S A} → ((a : A) → P a → Q a) → Yields I P m → Yields I Q m
    Yields-weaken w f = yields λ v u a i h. let (p, j) = yielded f i h in (w a p, j)

  module _ {A B : Type 0} where
    pub Yields-bind :
        {P : A → Type 0} {Q : B → Type 0} (m : Exec S A) (k : A → Exec S B)
        → Yields I P m
        → ((a : A) → P a → Yields I Q (k a))
        → Yields I Q (m >>= k)
    Yields-bind m k f g = yields λ v u b i h.
        let (a, s, r, h) = bind-ok m k h in let (p, j) = yielded f i r in yielded (g a p) j h

pub ruleset yields_rules =
    (Yields-state, Yields-require, Yields-pure, Yields-fail, Yields-if, Yields-bind)
