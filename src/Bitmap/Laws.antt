-- ===== src/Bitmap/Laws.antt =====
-- What alloc_block returns, and that free_block undoes it.
use native.Mathlib.Decide.{ℕ_discrete}
use denyfs.Prelude.{
  zero, suc, ℕ, ◌+◌, ◌-◌, ◌^◌, ◌≤◌, ◌<◌, ◌≡◌, refl, ap, Bool, true, false, Option, none, some,
  arith,
}
use denyfs.Volume.{Vol, ok, err, Errno, eperm, pure, fail, update, dec32}
use denyfs.Bitmap.{put_bit, find_free, as_int, take_block, alloc_block, free_block}
use denyfs.Bitmap.Count.{find_free-some, find_free_first, find_free-none}

-- The data blocks in front of `i` are taken, and `i` is a free data block.
pub record IsFirstFree (v : Vol) (i : ℕ) : Type 0 where
  pub low : v.sb.data_start ≤ i
  pub high : i < v.sb.total_blocks
  pub clear : v.bitmap i ≡ false
  pub first : (b : ℕ) → v.sb.data_start ≤ b → b < i → v.bitmap b ≡ true

take_block-ok :
    (o : Option ℕ) (v : Vol) {i : ℕ} {w : Vol}
    → take_block o v ≡ (ok i, w)
    → (o ≡ some i) × (w ≡ put_bit i true (dec32 v.sb.free_blocks) v) × (i < 2 ^ 31)
unfolding take_block as_int pure fail
take_block-ok none v e = ground arith
take_block-ok (some j) v e = ground arith

-- The block that alloc_block returns is the first free data block; its bit is set and the other bits
-- are as they were.
pub alloc_block-ok :
    (v : Vol) {i : ℕ} {w : Vol}
    → alloc_block v ≡ (ok i, w)
    → IsFirstFree v i × (w.bitmap ≡ update v.bitmap i true)
unfolding alloc_block put_bit
alloc_block-ok v {i} e =
    let n = v.sb.total_blocks - v.sb.data_start in
    let (found, left, small) = take_block-ok (find_free v.bitmap v.sb.data_start n) v e in
    let (clear, low, high) = find_free-some v.bitmap v.sb.data_start n i found in
    (
      record {
        low = low;
        high = omega arith;
        clear = clear;
        first = λ b p q. find_free_first v.bitmap v.sb.data_start n i b found p q;
      },
      ap (λ (u : Vol). u.bitmap) left,
    )

pub alloc_block-put :
    (v : Vol) {i : ℕ} {w : Vol}
    → alloc_block v ≡ (ok i, w)
    → (w ≡ put_bit i true (dec32 v.sb.free_blocks) v) × (i < 2 ^ 31)
unfolding alloc_block
alloc_block-put v e =
    let (_, put, small) =
      take_block-ok (find_free v.bitmap v.sb.data_start (v.sb.total_blocks - v.sb.data_start)) v
        e in
    (put, small)

-- The first clear bit is what find_free finds.
find_free-first_clear :
    (bitmap : ℕ → Bool) (i n j : ℕ)
    → i ≤ j
    → j < i + n
    → bitmap j ≡ false
    → ((b : ℕ) → i ≤ b → b < j → bitmap b ≡ true)
    → find_free bitmap i n ≡ some j
unfolding find_free
find_free-first_clear bitmap i zero j p q clear before = absurd (omega arith)
find_free-first_clear bitmap i (suc n) j p q clear before = elim (ℕ_discrete i j) [
  | yes e ↦ ground (arith, ap bitmap e, ap (λ (k : ℕ). some k) e)
  | no ne ↦ rw (before i (omega arith) (omega arith)) (
      find_free-first_clear bitmap (i + 1) n j (omega arith) (omega arith) clear
        (λ b p' q'. before b (omega arith) q'))
]

find_free_is :
    (v : Vol) (i : ℕ)
    → IsFirstFree v i
    → find_free v.bitmap v.sb.data_start (v.sb.total_blocks - v.sb.data_start) ≡ some i
find_free_is v i f =
    find_free-first_clear v.bitmap v.sb.data_start _ i f.low (omega (arith, f.low, f.high)) f.clear
      f.first

take_block-err :
    (o : Option ℕ) (v : Vol) {e : Errno} {w : Vol}
    → take_block o v ≡ (err e, w)
    → ((j : ℕ) → o ≡ some j → j < 2 ^ 31)
    → (o ≡ none) × (w ≡ v)
unfolding take_block as_int pure fail
take_block-err none v e small = (refl, ground arith)
take_block-err (some j) v e small = ground (arith, small j refl)

-- In a volume of at most 2 ^ 31 blocks, alloc_block fails only when every data block is taken, and
-- then it changes nothing.
pub alloc_block-err :
    (v : Vol) {e : Errno} {w : Vol}
    → v.sb.data_start ≤ v.sb.total_blocks
    → v.sb.total_blocks ≤ 2 ^ 31
    → alloc_block v ≡ (err e, w)
    → (w ≡ v) × ((b : ℕ) → v.sb.data_start ≤ b → b < v.sb.total_blocks → v.bitmap b ≡ true)
unfolding alloc_block
alloc_block-err v order small h =
    let n = v.sb.total_blocks - v.sb.data_start in
    let o = find_free v.bitmap v.sb.data_start n in
    let (none_left, same) =
      take_block-err o v h
        (λ j e. omega (arith, (find_free-some v.bitmap v.sb.data_start n j e).2)) in
    (same, λ b p q. find_free-none v.bitmap v.sb.data_start n b none_left p (omega arith))

-- Where the first free data block has a number from 2 ^ 31 on, alloc_block reports a failure and
-- leaves the block taken.
pub alloc_block-leak :
    (v : Vol) (i : ℕ)
    → IsFirstFree v i
    → 2 ^ 31 ≤ i
    → ((alloc_block v).0 ≡ err eperm) × ((alloc_block v).1.bitmap ≡ update v.bitmap i true)
unfolding alloc_block take_block as_int put_bit pure fail
alloc_block-leak v i f big = rw (find_free_is v i f) (ground arith, ground arith)

free-put :
    (v : Vol) (i : ℕ)
    → v.sb.data_start ≤ i
    → i < v.sb.total_blocks
    → v.bitmap i ≡ false
    → v.sb.free_blocks < 2 ^ 32
    → ((b : ℕ) → (free_block i (put_bit i true (dec32 v.sb.free_blocks) v)).1.bitmap b ≡ v.bitmap b)
      × ((free_block i (put_bit i true (dec32 v.sb.free_blocks) v)).1.sb.free_blocks
          ≡ v.sb.free_blocks)
unfolding free_block put_bit
free-put v i low high clear fits = (λ b. ground (arith, ap v.bitmap {x = i} {y = b}), ground arith)

-- Giving back the block that alloc_block returned restores every bit and the count of free blocks,
-- if the count fits 32 bits.
pub free_block-alloc_block :
    (v : Vol) {i : ℕ} {w : Vol}
    → v.sb.free_blocks < 2 ^ 32
    → alloc_block v ≡ (ok i, w)
    → ((b : ℕ) → (free_block i w).1.bitmap b ≡ v.bitmap b)
      × ((free_block i w).1.sb.free_blocks ≡ v.sb.free_blocks)
unfolding alloc_block put_bit
free_block-alloc_block v {i} fits e =
    let n = v.sb.total_blocks - v.sb.data_start in
    let (found, left, small) = take_block-ok (find_free v.bitmap v.sb.data_start n) v e in
    let (clear, low, high) = find_free-some v.bitmap v.sb.data_start n i found in
    rw left (free-put v i low (omega arith) clear fits)
