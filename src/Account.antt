-- ===== src/Account.antt =====
-- The count of free blocks and the bitmap, over whole sessions.
use denyfs.Prelude.{ℕ, ◌-◌, ◌^◌, ◌≤◌, ◌<◌, ◌≡◌, Bool, true, false, some, List, arith}
use denyfs.Crypto.{Crypto}
use denyfs.Volume.{
  Device, Vol, Exec, on_device, put_inode, put_free_inodes, put_hmac, clear_dirty, update, inc32,
  dec32,
}
use denyfs.Volume.Frame.{Frame, frame, IsPreorder, frame_rules}
use denyfs.Block.{fflush, read_block, write_block}
use denyfs.Bitmap.{put_bit, find_free}
use denyfs.Bitmap.Cases.{alloc_block-cases, free_block-cases}
use denyfs.Bitmap.Count.{
  count_free, count_free-le, count_free-set, count_free-clear, find_free-some,
}
use denyfs.Keep.{Primitives}
use denyfs.Keep.Session.{serve-Frame}
use denyfs.Fuse.{Request, serve}

-- The data blocks whose bit is clear.
abbrev pub clear_bits : Vol → ℕ
clear_bits v = count_free v.bitmap v.sb.data_start (v.sb.total_blocks - v.sb.data_start)

-- The superblock counts the clear bits of the data blocks, and the bits of the metadata blocks are
-- set.
abbrev pub IsCounted : Vol → Type 0
IsCounted v =
    (v.sb.data_start ≤ v.sb.total_blocks)
    × (v.sb.total_blocks < 2 ^ 32)
    × (v.sb.free_blocks ≡ clear_bits v)
    × ((b : ℕ) → b < v.sb.data_start → v.bitmap b ≡ true)

abbrev KeepsCount : Vol → Vol → Type 0
KeepsCount v w = IsCounted v → IsCounted w

KeepsCount-order : IsPreorder KeepsCount
KeepsCount-order = record { same = λ v h. h; trans = λ u v w p q h. q (p h) }

on_device-KeepsCount : {A : Type 0} (m : Exec Device A) → Frame KeepsCount (on_device m)
unfolding on_device
on_device-KeepsCount m = frame λ v h. h

-- The metadata bits stay set when a data block's bit changes.
metadata_bits :
    (bitmap : ℕ → Bool) (start i : ℕ) (bit : Bool)
    → start ≤ i
    → ((b : ℕ) → b < start → bitmap b ≡ true)
    → (b : ℕ) → b < start
    → update bitmap i bit b ≡ true
metadata_bits bitmap start i bit h keep b lt = ground (arith, keep b)

put_bit-true :
    (v : Vol) (i : ℕ)
    → find_free v.bitmap v.sb.data_start (v.sb.total_blocks - v.sb.data_start) ≡ some i
    → KeepsCount v (put_bit i true (dec32 v.sb.free_blocks) v)
unfolding put_bit
put_bit-true v i found (order, small, counted, metadata) =
    let (clear, low, high) = find_free-some v.bitmap v.sb.data_start _ i found in
    let step = count_free-set v.bitmap v.sb.data_start _ i low high clear in
    let bound = count_free-le v.bitmap v.sb.data_start (v.sb.total_blocks - v.sb.data_start) in
    (
      order,
      small,
      omega (arith, step, bound),
      metadata_bits v.bitmap v.sb.data_start i true low metadata,
    )

put_bit-false :
    (v : Vol) (i : ℕ)
    → v.sb.data_start ≤ i
    → i < v.sb.total_blocks
    → v.bitmap i ≡ true
    → KeepsCount v (put_bit i false (inc32 v.sb.free_blocks) v)
unfolding put_bit
put_bit-false v i low high taken (order, small, counted, metadata) =
    let n = v.sb.total_blocks - v.sb.data_start in
    let step = count_free-clear v.bitmap v.sb.data_start n i low (omega arith) taken in
    let bound = count_free-le (update v.bitmap i false) v.sb.data_start n in
    (
      order,
      small,
      omega (arith, step, bound),
      metadata_bits v.bitmap v.sb.data_start i false low metadata,
    )

module _ (c : Crypto) where
  KeepsCount-Primitives : Primitives c KeepsCount
  unfolding read_block write_block put_inode put_free_inodes put_hmac clear_dirty
  KeepsCount-Primitives = record {
    order = KeepsCount-order;
    read = λ n. search (frame_rules, KeepsCount-order, on_device-KeepsCount) depth 20;
    write = λ n b. search (frame_rules, KeepsCount-order, on_device-KeepsCount) depth 20;
    alloc = frame λ v. alloc_block-cases (KeepsCount v) (λ h. h) (put_bit-true v);
    free = λ n. frame λ v. free_block-cases (KeepsCount v) (λ h. h) n (put_bit-false v n);
    inode = λ ino x. frame λ v h. h;
    free_inodes = λ n. frame λ v h. h;
    hmac = λ d. frame λ v h. h;
    flush = on_device-KeepsCount fflush;
    clear = frame λ v h. h;
  }

  -- From a volume whose superblock counts the clear bits of its data blocks and whose metadata
  -- blocks are marked as taken, every session of requests, with failures of the host anywhere,
  -- leads to such a volume.
  pub serve-IsCounted : (v : Vol) (rs : List (ℕ × Request)) → IsCounted v → IsCounted (serve c rs v)
  serve-IsCounted v rs = serve-Frame KeepsCount-Primitives rs v
