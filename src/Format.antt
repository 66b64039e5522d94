-- ===== src/Format.antt =====
-- src/fs.c: format_volume, the first metadata of a volume.
pub mod Passes
use denyfs.Prelude.{
  ℕ, zero, suc, ◌+◌, ◌-◌, ◌*◌, ◌/◌, ◌%◌, ltb, leb, Bool, not, ◌&&◌, ◌==◌, List, set, replicate,
  if◌then◌else◌,
}
use denyfs.Layout.{
  Superblock, Inode, sector_size, long_max, uint32_max, max_inodes, direct_blocks,
  dirents_per_block, sb_magic, itype_free, itype_dir, invalid_block, no_blocks, superblock_bytes,
  inode_table_bytes, dirents_bytes,
}
use denyfs.Crypto.{Crypto, compute_hmac}
use denyfs.Volume.{Device, eperm, Exec, pure, require, of_option, ◌>>=◌, ◌>>◌}
use denyfs.Block.{write_block_raw, host_alloc}
use denyfs.Directory.{free_entry}
use denyfs.FileIo.{bitmap_range}
use denyfs.Validate.{bitmap_blocks_of, inode_table_blocks}

-- The guard of format_volume.
unfoldable pub can_format : ℕ → ℕ → Bool
can_format volume_size start_offset =
    not (volume_size == 0)
    && (volume_size % sector_size == 0)
    && leb start_offset long_max
    && leb volume_size (long_max - start_offset)
    && leb (volume_size / sector_size) (uint32_max - 8)

abbrev pub data_start_of : ℕ → ℕ
data_start_of total_blocks = 1 + bitmap_blocks_of total_blocks + inode_table_blocks

-- The metadata blocks and the first data block, the root directory's, are taken.
unfoldable pub format_bitmap : ℕ → ℕ → Bool
format_bitmap data_start b = leb b data_start

unfoldable pub format_superblock : ℕ → List ℕ → Superblock
format_superblock total_blocks hmac = record {
  magic = sb_magic;
  block_size = sector_size;
  total_blocks = total_blocks;
  inode_count = max_inodes;
  bitmap_start = 1;
  bitmap_blocks = bitmap_blocks_of total_blocks;
  inode_start = 1 + bitmap_blocks_of total_blocks;
  inode_blocks = inode_table_blocks;
  data_start = data_start_of total_blocks;
  free_blocks = total_blocks - data_start_of total_blocks - 1;
  free_inodes = max_inodes - 1;
  bitmap_hmac = hmac;
  reserved = replicate (sector_size - 80) 0;
}

unfoldable pub blank_inode : Inode
unfolding replicate
blank_inode = record {
  type = itype_free;
  size = 0;
  block_count = 0;
  direct = no_blocks direct_blocks;
  indirect_block = invalid_block;
  double_indirect_block = invalid_block;
  mtime = 0;
  reserved = replicate 16 0;
}

unfoldable pub format_inodes : ℕ → ℕ → ℕ → Inode
unfolding blank_inode
format_inodes now root_block ino =
    if ino == 0
    then record blank_inode {
      type = itype_dir;
      block_count = 1;
      direct = set (no_blocks direct_blocks) 0 root_block;
      mtime = now;
    }
    else blank_inode

unfoldable pub format_root : List ℕ
unfolding free_entry replicate
format_root = dirents_bytes (replicate dirents_per_block free_entry)

module _ (c : Crypto) (volume_key : List ℕ) (start_offset : ℕ) where
  -- `n` sectors of the bitmap from sector `i` on.
  unfoldable pub write_bitmap : (ℕ → Bool) → ℕ → ℕ → Exec Device (Unit {0})
  unfolding bitmap_range
  write_bitmap bitmap i zero = pure tt
  write_bitmap bitmap i (suc n) = do
    write_block_raw c volume_key start_offset (1 + i)
        (bitmap_range bitmap (i * sector_size) sector_size)
    write_bitmap bitmap (i + 1) n

  unfoldable pub write_inodes : ℕ → (ℕ → Inode) → ℕ → ℕ → Exec Device (Unit {0})
  write_inodes inode_start inodes i zero = pure tt
  write_inodes inode_start inodes i (suc n) = do
    write_block_raw c volume_key start_offset (inode_start + i)
        (inode_table_bytes (i * 32) 32 inodes)
    write_inodes inode_start inodes (i + 1) n

module _ (c : Crypto) where
  -- `now` is what time(NULL) returns.
  unfoldable pub format_volume :
      ℕ → (volume_key hmac_key : List ℕ) (volume_size start_offset : ℕ) → Exec Device (Unit {0})
  unfolding can_format format_bitmap format_superblock format_inodes format_root write_bitmap
      write_inodes bitmap_range
  format_volume now volume_key hmac_key volume_size start_offset = do
    require (can_format volume_size start_offset) eperm
    let total_blocks = volume_size / sector_size
    let data_start = data_start_of total_blocks
    require (ltb data_start total_blocks) eperm
    host_alloc
    let bitmap = format_bitmap data_start
    let bm_total = bitmap_blocks_of total_blocks * sector_size
    hmac ← of_option (compute_hmac c hmac_key (bitmap_range bitmap 0 bm_total)) eperm
    let sb = format_superblock total_blocks hmac
    write_block_raw c volume_key start_offset 0 (superblock_bytes sb)
    write_bitmap c volume_key start_offset bitmap 0 sb.bitmap_blocks
    write_inodes c volume_key start_offset sb.inode_start (format_inodes now data_start) 0
        sb.inode_blocks
    write_block_raw c volume_key start_offset data_start format_root
