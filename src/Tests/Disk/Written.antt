-- ===== src/Tests/Disk/Written.antt =====
-- A file of one block in the volume over the container of Disk is written and read.
use denyfs.Prelude.{
  ℕ, zero, suc, ◌<◌, ◌≡◌, refl, true, List, [], ◌∷◌, length, set, replicate, length-replicate,
  arith,
}
use denyfs.Layout.{itype_file, no_blocks, superblock_bytes, inode_table_bytes}
use denyfs.Crypto.{crypt_sector, compute_hmac}
use denyfs.Volume.{Vol, ok, update, on_device, put_inode, put_hmac, clear_dirty, ◌>>=◌}
use denyfs.Block.{read_block, write_block, fread_sector, fwrite_sector, fflush, is_protected}
use denyfs.Block.Array.{block_array}
use denyfs.Block.Reliable.{Reliable}
use denyfs.FileMap.{is_claimed, get_file_data_block}
use denyfs.FileIo.{vol_read, vol_write, vol_flush}
use denyfs.FileIo.InPlace.{pointer, Backed, InPlace}
use denyfs.FileIo.Kept.{InFront}
use denyfs.FileIo.ReadBack.{vol_read-vol_write}
use denyfs.Format.{format_superblock, format_bitmap, format_inodes, blank_inode}
use denyfs.Tests.{plain}
use denyfs.Tests.Disk.{disk, sector}
use denyfs.Tests.Disk.Opened.{loaded}
use denyfs.Tests.Runs.{returns, returns-ok, plain-XtsLaws}

-- Inode 1 is a file whose block is block 5.
abbrev filled : Vol
unfolding blank_inode
filled = record loaded {
  inodes =
      update loaded.inodes 1
        (record blank_inode { type = itype_file; size = 4096; direct = set (no_blocks 20) 0 5 });
  bitmap = update loaded.bitmap 5 true;
}

abbrev text : List ℕ
text = 1 ∷ 2 ∷ 3 ∷ []

filled-Reliable : Reliable filled
unfolding disk
filled-Reliable = record { no_failures = refl; in_range = omega arith; in_container = omega arith }

filled-InFront : InFront filled
unfolding format_superblock filled
filled-InFront = record { superblock = omega arith; bitmap = omega arith; inodes = omega arith }

block_5 : Backed plain filled 5
unfolding disk sector block_array crypt_sector is_claimed format_superblock
block_5 = record {
  named = λ e. omega (arith, e);
  claimed = refl;
  inside = omega arith;
  bytes = replicate 4096 0;
  holds = refl;
  whole = length-replicate {A = ℕ} 4096 0;
}

filled-InPlace : InPlace plain 1 0 1 filled
unfolding blank_inode replicate
filled-InPlace = record {
  direct = omega arith;
  backed = λ k from to. at_block k to;
  apart = λ j k a b d e same. omega (arith, b, e);
}
  where
    at_block : (k : ℕ) → k < 1 → Backed plain filled (pointer filled 1 k)
    at_block zero to = block_5
    at_block (suc k) to = absurd (omega (arith, to))

writes : returns 3 (vol_write plain 9 1 text 10 filled) ≡ true
unfolding returns vol_write disk blank_inode ◌>>=◌ get_file_data_block read_block write_block
    on_device fread_sector fwrite_sector fflush crypt_sector compute_hmac is_protected
    format_superblock format_bitmap format_inodes superblock_bytes inode_table_bytes put_inode
    put_hmac clear_dirty vol_flush
writes = refl

vol_read-vol_write_example :
    vol_read plain 1 (length text) 10 (vol_write plain 9 1 text 10 filled).1
    ≡ (ok text, (vol_write plain 9 1 text 10 filled).1)
vol_read-vol_write_example =
    vol_read-vol_write plain 1 0 1 plain-XtsLaws 9 text 10 filled filled-Reliable filled-InFront
      filled-InPlace (omega arith) (omega arith) (returns-ok 3 _ writes)
