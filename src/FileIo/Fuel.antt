-- ===== src/FileIo/Fuel.antt =====
-- src/fs.c: the loops of denyfs_vol_read and denyfs_vol_write end by their own test: fuel beyond the
-- bytes that are left makes no difference.
use denyfs.Prelude.{
  ℕ, zero, suc, ◌+◌, ◌-◌, ◌%◌, ◌≤◌, ◌≡◌, refl, ap, sym, min, Bool, true, false, ◌==◌, if◌then◌else◌,
  List, ◌++◌, length, drop, length-drop, arith,
}
use denyfs.Layout.{sector_size}
use denyfs.Crypto.{Crypto}
use denyfs.Volume.{Exec, pure, ◌>>=◌}
use denyfs.FileIo.{read_loop, write_loop}

bind-cong :
    {S A B : Type 0} (m : Exec S A) {k l : A → Exec S B}
    → ((a : A) → k a ≡ l a)
    → (m >>= k) ≡ (m >>= l)
bind-cong m h = λ i. m >>= λ a. h a i

-- A loop's round: the same end when nothing is left, the same round otherwise.
if-cong :
    {A : Type 0} (b : Bool) (x : A) {y z : A}
    → (b ≡ false → y ≡ z)
    → (if b then x else y) ≡ (if b then x else z)
if-cong true x h = refl
if-cong false x h = h refl

if-true : {A : Type 0} (b : Bool) (x y : A) → b ≡ true → (if b then x else y) ≡ x
if-true true x y h = refl
if-true false x y h = ground arith

module _ (c : Crypto) where
  -- With fuel for the bytes that are left, the loop of denyfs_vol_read does what it does with any
  -- more: it ends by its own test.
  pub read_loop-enough :
      (fuel more ino pos left : ℕ)
      → left ≤ fuel
      → left ≤ more
      → read_loop c fuel ino pos left ≡ read_loop c more ino pos left
  unfolding read_loop
  read_loop-enough zero zero ino pos left h k = refl
  read_loop-enough zero (suc more) ino pos left h k = sym (if-true (left == 0) _ _ (ground arith))
  read_loop-enough (suc fuel) zero ino pos left h k = if-true (left == 0) _ _ (ground arith)
  read_loop-enough (suc fuel) (suc more) ino pos left h k = if-cong (left == 0) _ λ some.
      let chunk : ℕ = min (sector_size - pos % sector_size) left in
      let some_bytes : 1 ≤ chunk = ground arith in
      bind-cong _ λ block. bind-cong _ λ bytes.
        ap (λ m. m >>= λ rest. pure (bytes ++ rest))
          (read_loop-enough fuel more ino (pos + chunk) (left - chunk)
            (omega (arith, h, some_bytes)) (omega (arith, k, some_bytes)))

  -- With fuel for the bytes of its source, the loop of denyfs_vol_write does what it does with any
  -- more: it ends by its own test.
  pub write_loop-enough :
      (fuel more ino pos : ℕ) (src : List ℕ) (n : ℕ)
      → length src ≤ fuel
      → length src ≤ more
      → write_loop c fuel ino pos src n ≡ write_loop c more ino pos src n
  unfolding write_loop
  write_loop-enough zero zero ino pos src n h k = refl
  write_loop-enough zero (suc more) ino pos src n h k =
      sym (if-true (length src == 0) _ _ (ground arith))
  write_loop-enough (suc fuel) zero ino pos src n h k = if-true (length src == 0) _ _ (ground arith)
  write_loop-enough (suc fuel) (suc more) ino pos src n h k = if-cong (length src == 0) _ λ some.
      let chunk : ℕ = min (sector_size - pos % sector_size) (length src) in
      let some_bytes : 1 ≤ chunk = ground arith in
      let left = length-drop chunk src in
      bind-cong _ λ block. bind-cong _ λ bytes. bind-cong _ λ _.
        write_loop-enough fuel more ino (pos + chunk) (drop chunk src) (n + chunk)
          (omega (arith, h, some_bytes, left)) (omega (arith, k, some_bytes, left))
