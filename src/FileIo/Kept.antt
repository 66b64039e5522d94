-- ===== src/FileIo/Kept.antt =====
-- src/fs.c: a denyfs_vol_flush that succeeds keeps the blocks behind the metadata.
use denyfs.Prelude.{
  ℕ, zero, suc, ◌+◌, ◌≤◌, ◌<◌, ◌≡◌, ◌≢◌, inl, inr, refl, ◌∙◌, Bool, Bool-cases, arith,
}
use denyfs.Layout.{Inode}
use denyfs.Crypto.{Crypto, XtsLaws}
use denyfs.Volume.{Vol}
use denyfs.Block.Array.{final, Blocks, blocks_in, block_array}
use denyfs.FileIo.Flushed.{bitmap_writes, inode_writes, Flushed}

pub bitmap_writes-others :
    (start : ℕ) (dirty bitmap : ℕ → Bool) (i n : ℕ) (a : Blocks) (m : ℕ)
    → (start + i ≤ m → start + (i + n) ≤ m)
    → final (bitmap_writes start dirty bitmap i n) a m ≡ a m
unfolding bitmap_writes
bitmap_writes-others start dirty bitmap i zero a m out = refl
bitmap_writes-others start dirty bitmap i (suc n) a m out =
    let apart : start + i ≢ m = λ e. omega (arith, e, out (omega (arith, e))) in
    let below : start + (i + 1) ≤ m → start + (i + 1 + n) ≤ m =
      λ low. omega (arith, out (omega (arith, low))) in
    elim (Bool-cases (dirty i)) [
      | inl is ↦
          rw is
            (bitmap_writes-others start dirty bitmap (i + 1) n _ m below ∙ ground (arith, apart))
      | inr is ↦ rw is (bitmap_writes-others start dirty bitmap (i + 1) n a m below)
    ]

pub inode_writes-others :
    (start : ℕ) (inodes : ℕ → Inode) (i n : ℕ) (a : Blocks) (m : ℕ)
    → (start + i ≤ m → start + (i + n) ≤ m)
    → final (inode_writes start inodes i n) a m ≡ a m
unfolding inode_writes
inode_writes-others start inodes i zero a m out = refl
inode_writes-others start inodes i (suc n) a m out =
    let apart : start + i ≢ m = λ e. omega (arith, e, out (omega (arith, e))) in
    let below : start + (i + 1) ≤ m → start + (i + 1 + n) ≤ m =
      λ low. omega (arith, out (omega (arith, low))) in
    inode_writes-others start inodes (i + 1) n _ m below ∙ ground (arith, apart)

-- The superblock, the bitmap and the inode table lie in front of the data blocks.
pub record InFront (v : Vol) : Type 0 where
  pub superblock : 0 < v.sb.data_start
  pub bitmap : v.sb.bitmap_start + v.sb.bitmap_blocks ≤ v.sb.data_start
  pub inodes : v.sb.inode_start + v.sb.inode_blocks ≤ v.sb.data_start

module _ (c : Crypto) (laws : XtsLaws c) where
  -- The data blocks decrypt to what they did before.
  pub Flushed-data :
      {v w : Vol} (n : ℕ)
      → InFront v
      → Flushed c laws v w
      → v.sb.data_start ≤ n
      → n < blocks_in v
      → block_array c w n ≡ block_array c v n
  Flushed-data n front f low inside =
      let apart : 0 ≢ n = λ e. omega (arith, front.superblock, low, e) in
      f.array n inside
      ∙ inode_writes-others _ _ 0 _ _ n (λ _. omega (arith, front.inodes, low))
      ∙ bitmap_writes-others _ _ _ 0 _ _ n (λ _. omega (arith, front.bitmap, low))
      ∙ ground (arith, apart)
