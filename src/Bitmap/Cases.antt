-- ===== src/Bitmap/Cases.antt =====
-- The ways in which alloc_block and free_block leave the volume.
use denyfs.Prelude.{
  ℕ, ◌-◌, ◌^◌, ◌≤◌, ◌<◌, ◌≡◌, refl, Bool, true, false, Option, none, some, ltb, if◌then◌else◌,
  arith,
}
use denyfs.Volume.{Vol, Res, eperm, pure, fail, inc32, dec32}
use denyfs.Bitmap.{put_bit, find_free, take_block, alloc_block, free_block}

module _ (P : Vol → Type 0) {v : Vol} (start : P v) where
  as_int-cases : (b : Bool) (i : ℕ) (w : Vol) → P w → P ((if b then pure i else fail eperm) w).1
  unfolding pure fail
  as_int-cases true i w h = h
  as_int-cases false i w h = h

  take_block-cases :
      (o : Option ℕ)
      → ((i : ℕ) → o ≡ some i → P (put_bit i true (dec32 v.sb.free_blocks) v))
      → P (take_block o v).1
  unfolding take_block fail
  take_block-cases none h = start
  take_block-cases (some i) h = as_int-cases (ltb i (2 ^ 31)) i _ (h i refl)

  -- Either nothing changes, or the first clear bit is set.
  pub alloc_block-cases :
      ((i : ℕ)
        → find_free v.bitmap v.sb.data_start (v.sb.total_blocks - v.sb.data_start) ≡ some i
        → P (put_bit i true (dec32 v.sb.free_blocks) v))
      → P (alloc_block v).1
  unfolding alloc_block
  alloc_block-cases = take_block-cases _

  free_if-cases :
      (b : Bool) (n : ℕ)
      → (b ≡ true → P (put_bit n false (inc32 v.sb.free_blocks) v))
      → P
          (if◌then◌else◌ {A = Res (Unit {0}) × Vol} b
            (Res.ok tt, put_bit n false (inc32 v.sb.free_blocks) v)
            (Res.ok tt, v)).1
  free_if-cases true n h = h refl
  free_if-cases false n h = start

  -- Either nothing changes, or the set bit of a data block is cleared.
  pub free_block-cases :
      (n : ℕ)
      → (v.sb.data_start ≤ n
          → n < v.sb.total_blocks
          → v.bitmap n ≡ true
          → P (put_bit n false (inc32 v.sb.free_blocks) v))
      → P (free_block n v).1
  unfolding free_block
  free_block-cases n h = free_if-cases _ n λ test. h (ground arith) (ground arith) (ground arith)
