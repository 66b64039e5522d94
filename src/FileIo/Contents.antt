-- ===== src/FileIo/Contents.antt =====
-- src/fs.c: what the metadata blocks hold after a denyfs_vol_flush that succeeded.
use denyfs.Prelude.{
  ℕ, zero, suc, ◌+◌, ◌*◌, ◌≤◌, ◌<◌, ◌≡◌, ◌≢◌, inl, inr, refl, sym, ◌∙◌, Bool, false, Bool-cases,
  ◌==◌, ==→eq, Option, some, List, arith,
}
use denyfs.Layout.{Inode, sector_size, superblock_bytes, inode_table_bytes}
use denyfs.Crypto.{Crypto, XtsLaws}
use denyfs.Volume.{Vol, update}
use denyfs.Block.Array.{final, Blocks, blocks_in, block_array}
use denyfs.FileIo.{bitmap_range}
use denyfs.FileIo.Flushed.{bitmap_writes, inode_writes, Flushed}
use denyfs.FileIo.Kept.{bitmap_writes-others, inode_writes-others}

abbrev pub bitmap_sector : (ℕ → Bool) → ℕ → List ℕ
bitmap_sector bitmap j = bitmap_range bitmap (j * sector_size) sector_size

update-other : (a : Blocks) (m n : ℕ) (b : Option (List ℕ)) → m ≢ n → update a m b n ≡ a n
update-other a m n b apart = ground (arith, apart)

bitmap_writes-at :
    (start : ℕ) (dirty bitmap : ℕ → Bool) (i n j : ℕ) (a : Blocks)
    → i ≤ j
    → j < i + n
    → (dirty j ≡ false → a (start + j) ≡ some (bitmap_sector bitmap j))
    → final (bitmap_writes start dirty bitmap i n) a (start + j) ≡ some (bitmap_sector bitmap j)
unfolding bitmap_writes
bitmap_writes-at start dirty bitmap i zero j a low high clean = absurd (omega (arith, low, high))
bitmap_writes-at start dirty bitmap i (suc n) j a low high clean = elim (Bool-cases (dirty i)) [
  | inl is ↦ rw is (elim (Bool-cases (i == j)) [
    | inl here ↦ rw (sym (==→eq i j here)) (
        bitmap_writes-others start dirty bitmap (i + 1) n _ (start + i)
          (λ past. omega (arith, past))
        ∙ ground arith)
    | inr past ↦
        bitmap_writes-at start dirty bitmap (i + 1) n j _ (ground (arith, low))
          (omega (arith, high))
          (λ c.
            update-other a (start + i) (start + j) (some (bitmap_sector bitmap i)) (ground arith)
            ∙ clean c)
  ])
  | inr is ↦ rw is (elim (Bool-cases (i == j)) [
    | inl here ↦
        let same = ==→eq i j here in
        rw (sym same) (
          bitmap_writes-others start dirty bitmap (i + 1) n a (start + i)
            (λ past. omega (arith, past))
          ∙ rw same (clean (rw (sym same) is)))
    | inr past ↦
        bitmap_writes-at start dirty bitmap (i + 1) n j a (ground (arith, low))
          (omega (arith, high)) clean
  ])
]

inode_writes-at :
    (start : ℕ) (inodes : ℕ → Inode) (i n j : ℕ) (a : Blocks)
    → i ≤ j
    → j < i + n
    → final (inode_writes start inodes i n) a (start + j)
      ≡ some (inode_table_bytes (j * 32) 32 inodes)
unfolding inode_writes
inode_writes-at start inodes i zero j a low high = absurd (omega (arith, low, high))
inode_writes-at start inodes i (suc n) j a low high = elim (Bool-cases (i == j)) [
  | inl here ↦ rw (sym (==→eq i j here)) (
      inode_writes-others start inodes (i + 1) n _ (start + i) (λ past. omega (arith, past))
      ∙ ground arith)
  | inr past ↦
      inode_writes-at start inodes (i + 1) n j _ (ground (arith, low)) (omega (arith, high))
]

-- A clean sector of the bitmap is on disk as it is in memory.
pub record CleanStored (c : Crypto) (v : Vol) : Type 0 where
  pub stored :
      (j : ℕ)
      → j < v.sb.bitmap_blocks
      → v.bitmap_dirty j ≡ false
      → block_array c v (v.sb.bitmap_start + j) ≡ some (bitmap_sector v.bitmap j)

-- The superblock, the bitmap and the inode table lie one behind the other, in the volume.
pub record InOrder (v : Vol) : Type 0 where
  pub first : 0 < v.sb.bitmap_start
  pub second : v.sb.bitmap_start + v.sb.bitmap_blocks ≤ v.sb.inode_start
  pub inside : v.sb.inode_start + v.sb.inode_blocks ≤ blocks_in v

module _ (c : Crypto) (laws : XtsLaws c) {v w : Vol} (o : InOrder v) (f : Flushed c laws v w) where
  pub Flushed-superblock : block_array c w 0 ≡ some (superblock_bytes w.sb)
  Flushed-superblock =
      f.array 0 (omega (arith, o.first, o.second, o.inside))
      ∙ inode_writes-others _ _ 0 _ _ 0 (λ low. omega (arith, o.first, o.second, low))
      ∙ bitmap_writes-others _ _ _ 0 _ _ 0 (λ low. omega (arith, o.first, low))
      ∙ rw f.memory refl

  pub Flushed-bitmap :
      (j : ℕ)
      → CleanStored c v
      → j < v.sb.bitmap_blocks
      → block_array c w (v.sb.bitmap_start + j) ≡ some (bitmap_sector v.bitmap j)
  Flushed-bitmap j clean small =
      f.array _ (omega (arith, o.second, o.inside, small))
      ∙ inode_writes-others _ _ 0 _ _ (v.sb.bitmap_start + j)
          (λ low. omega (arith, o.second, small, low))
      ∙ bitmap_writes-at _ _ _ 0 _ j _ (omega arith) (omega (arith, small)) (λ is.
        update-other (block_array c v) 0 _ _ (λ e. omega (arith, o.first, e))
        ∙ clean.stored j small is)

  pub Flushed-inodes :
      (j : ℕ)
      → j < v.sb.inode_blocks
      → block_array c w (v.sb.inode_start + j) ≡ some (inode_table_bytes (j * 32) 32 v.inodes)
  Flushed-inodes j small =
      f.array _ (omega (arith, o.inside, small))
      ∙ inode_writes-at _ _ 0 _ j _ (omega arith) (omega (arith, small))
