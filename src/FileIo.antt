-- ===== src/FileIo.antt =====
-- src/fs.c: denyfs_vol_flush, denyfs_vol_read and denyfs_vol_write.
pub mod Writing
pub mod Settled
pub mod Reading
pub mod Fuel
pub mod Flushing
pub mod Flushed
pub mod Kept
pub mod Contents
pub mod Bytes
pub mod InPlace
pub mod Rewriting
pub mod Rereading
pub mod SameFile
pub mod ReadBack
use denyfs.Prelude.{
  ℕ, zero, suc, ◌+◌, ◌-◌, ◌*◌, ◌/◌, ◌%◌, min, max, ltb, leb, Bool, true, false, ◌==◌, ◌&&◌, List,
  [], ◌++◌, length, take, drop, replicate, tabulate, if◌then◌else◌,
}
use denyfs.Layout.{
  sector_size, max_inodes, max_file_size, int_max, itype_file, invalid_block, superblock_bytes,
  inode_table_bytes,
}
use denyfs.Crypto.{Crypto, compute_hmac}
use denyfs.Volume.{
  eperm, eio, eisdir, einval, enospc, Op, pure, gets, require, of_option, or_fail, ◌>>=◌, ◌>>◌,
  put_inode, put_hmac, clear_dirty, on_device,
}
use denyfs.Block.{read_block, write_block, fflush}
use denyfs.FileMap.{get_file_data_block, allocate_file_data_block}

unfoldable pub bit_value : Bool → ℕ
bit_value true = 1
bit_value false = 0

-- A byte of the bitmap from its 8 bits, and the bitmap as the array of bytes.
unfoldable pub bitmap_byte : (ℕ → Bool) → ℕ → ℕ
unfolding bit_value
bitmap_byte bitmap j = go 8 (8 * j)
  where
    go : ℕ → ℕ → ℕ
    go zero i = 0
    go (suc n) i = bit_value (bitmap i) + 2 * go n (i + 1)

unfoldable pub bitmap_range : (ℕ → Bool) → ℕ → ℕ → List ℕ
unfolding bitmap_byte tabulate
bitmap_range bitmap j n = tabulate j n (bitmap_byte bitmap)

module _ (c : Crypto) where
  -- The dirty sectors of the bitmap, `n` of them from sector `i` on.
  unfoldable pub flush_bitmap : ℕ → ℕ → Op (Unit {0})
  unfolding bitmap_range
  flush_bitmap i zero = pure tt
  flush_bitmap i (suc n) = do
    v ← gets (λ v. v)
    if v.bitmap_dirty i
        then write_block c (v.sb.bitmap_start + i)
            (bitmap_range v.bitmap (i * sector_size) sector_size)
        else pure tt
    flush_bitmap (i + 1) n

  -- The sectors of the inode table: each holds 32 inodes of 128 bytes.
  unfoldable pub flush_inodes : ℕ → ℕ → Op (Unit {0})
  flush_inodes i zero = pure tt
  flush_inodes i (suc n) = do
    v ← gets (λ v. v)
    write_block c (v.sb.inode_start + i) (inode_table_bytes (i * 32) 32 v.inodes)
    flush_inodes (i + 1) n

  unfoldable pub vol_flush : Op (Unit {0})
  unfolding flush_bitmap flush_inodes bitmap_range
  vol_flush = do
    v ← gets (λ v. v)
    hmac ← of_option (compute_hmac c v.hmac_key (bitmap_range v.bitmap 0 v.bitmap_bytes)) eperm
    put_hmac hmac
    v ← gets (λ v. v)
    write_block c 0 (superblock_bytes v.sb)
    flush_bitmap 0 v.sb.bitmap_blocks
    flush_inodes 0 v.sb.inode_blocks
    on_device fflush
    clear_dirty

  -- The bytes that one round of denyfs_vol_read copies: zeros in a hole.
  unfoldable pub read_chunk : ℕ → ℕ → ℕ → Op (List ℕ)
  unfolding take drop replicate
  read_chunk physical_block blk_off chunk =
      if physical_block == invalid_block then pure (replicate chunk 0) else do
        block_data ← or_fail eio (read_block c physical_block)
        pure (take chunk (drop blk_off block_data))

  -- The loop of denyfs_vol_read, over the bytes that are left; each round copies at least one.
  unfoldable pub read_loop : ℕ → ℕ → ℕ → ℕ → Op (List ℕ)
  unfolding read_chunk
  read_loop zero ino pos left = pure []
  read_loop (suc fuel) ino pos left = if left == 0 then pure [] else do
    let blk_off = pos % sector_size
    let chunk = min (sector_size - blk_off) left
    physical_block ← get_file_data_block c ino (pos / sector_size)
    bytes ← read_chunk physical_block blk_off chunk
    rest ← read_loop fuel ino (pos + chunk) (left - chunk)
    pure (bytes ++ rest)

  -- The result is the bytes copied; the C function returns their number.
  unfoldable pub vol_read : ℕ → ℕ → ℕ → Op (List ℕ)
  unfolding read_loop
  vol_read ino size offset = do
    require (ltb ino max_inodes) einval
    require (leb size int_max) einval
    v ← gets (λ v. v)
    let n = v.inodes ino
    require (n.type == itype_file) eisdir
    if leb n.size offset
        then pure []
        else do let wanted = min size (n.size - offset); read_loop wanted ino offset wanted

  -- `get_file_data_block`, and if there is none `allocate_file_data_block`.
  unfoldable pub block_for_write : ℕ → ℕ → Op ℕ
  block_for_write ino blk_idx = do
    physical_block ← get_file_data_block c ino blk_idx
    if physical_block == invalid_block
        then allocate_file_data_block c ino blk_idx
        else pure physical_block

  -- memcpy(block_data + blk_off, src, |src|).
  unfoldable pub splice : List ℕ → ℕ → List ℕ → List ℕ
  unfolding take drop
  splice block_data blk_off src =
      take blk_off block_data ++ (src ++ drop (blk_off + length src) block_data)

  -- The loop of denyfs_vol_write, over the bytes of `src` that are left.
  unfoldable pub write_loop : ℕ → ℕ → ℕ → List ℕ → ℕ → Op ℕ
  unfolding block_for_write splice take drop
  write_loop zero ino pos src bytes_written = pure bytes_written
  write_loop (suc fuel) ino pos src bytes_written =
      if length src == 0 then pure bytes_written else do
        let blk_off = pos % sector_size
        let chunk = min (sector_size - blk_off) (length src)
        physical_block ← block_for_write ino (pos / sector_size)
        block_data ← or_fail eio (read_block c physical_block)
        write_block c physical_block (splice block_data blk_off (take chunk src))
        write_loop fuel ino (pos + chunk) (drop chunk src) (bytes_written + chunk)

  -- `now` is what time(NULL) returns.
  unfoldable pub vol_write : ℕ → ℕ → List ℕ → ℕ → Op ℕ
  unfolding write_loop
  vol_write now ino buf offset = do
    let size = length buf
    require (ltb ino max_inodes) einval
    require (leb size int_max) einval
    v ← gets (λ v. v)
    require ((v.inodes ino).type == itype_file) eisdir
    require (leb offset max_file_size && leb size (max_file_size - offset)) enospc
    bytes_written ← write_loop size ino offset buf 0
    v ← gets (λ v. v)
    let n = v.inodes ino
    put_inode ino (record n { size = max n.size (offset + size); mtime = now })
    or_fail eio vol_flush
    pure bytes_written
