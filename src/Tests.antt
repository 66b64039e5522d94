-- ===== src/Tests.antt =====
-- A small volume in the place of real ones, with ciphers that leave the bytes as they are: the
-- theorems at it, and runs of the code.
pub mod Disk
pub mod Keyed
pub mod Runs
pub mod Names
use denyfs.Prelude.{
  ◌+◌, ◌*◌, ◌^◌, ◌≤◌, ◌<◌, ℕ, ◌≡◌, refl, inr, true, false, some, List, [], ◌∷◌, replicate, ltb,
  arith,
}
use denyfs.Layout.{superblock_bytes, to_superblock, inode_bytes, to_inode}
use denyfs.Layout.RoundTrip.{to_superblock-superblock_bytes, to_inode-inode_bytes}
use denyfs.Crypto.{Crypto}
use denyfs.Crypto.Tweak.{xts_iv-injective}
use denyfs.Volume.{Device, Vol, err, eperm, pure, fail, update}
use denyfs.Bitmap.{alloc_block}
use denyfs.Bitmap.Laws.{IsFirstFree, alloc_block-ok, alloc_block-err, alloc_block-leak}
use denyfs.Fuse.{Request, write, create, unlink, pos, serve}
use denyfs.Format.{format_bitmap, format_superblock, format_inodes, blank_inode}
use denyfs.Bitmap.Count.{count_free}
use denyfs.Confine.{serve-Confined}
use denyfs.Account.{IsCounted, serve-IsCounted}

-- Ciphers that change nothing.
abbrev pub plain : Crypto
plain = record {
  evp_xts = λ encrypt key iv b. some b;
  evp_gcm_encrypt = λ key iv p. some (p, []);
  evp_gcm_decrypt = λ key iv ct tag. some ct;
  hmac_sha256 = λ key b. some (replicate 32 7);
  pwhash = λ p salt. some (replicate 32 9);
}

abbrev blank : Device
blank = record { sectors = λ s. replicate 4096 0; size = 40 * 4096; outcomes = [] }

-- 16 blocks behind the header, under protection of sectors 20 to 39: blocks 0 to 3 are metadata and
-- block 4 is the root directory.
abbrev pub small : Vol
small = record {
  dev = blank;
  volume_key = [];
  hmac_key = [];
  volume_size = 16 * 4096;
  sb = format_superblock 16 [];
  bitmap = format_bitmap 4;
  bitmap_bytes = 4096;
  bitmap_dirty = λ _. false;
  bitmap_dirty_count = 1;
  inodes = format_inodes 5 4;
  vol_start_offset = 4096;
  is_hidden = false;
  protect_hidden = true;
  protect_start_sector = 20;
  protect_end_sector = 39;
}

abbrev pub path_a : List ℕ
path_a = b'/' ∷ b'a' ∷ []

abbrev pub session : List (ℕ × Request)
session = (1, create path_a) ∷ (2, write path_a (1 ∷ 2 ∷ 3 ∷ []) (pos 10)) ∷ (3, unlink path_a) ∷ []

-- Sector 25 belongs to the hidden volume.
serve-Confined_example : (serve plain session small).dev.sectors 25 ≡ small.dev.sectors 25
serve-Confined_example =
    serve-Confined plain small session 25 (omega arith) (inr (inr (refl, omega arith, omega arith)))

small-IsCounted : IsCounted small
unfolding count_free format_superblock format_bitmap
small-IsCounted = (omega arith, omega arith, refl, λ b h. ground arith)

serve-IsCounted_example : IsCounted (serve plain session small)
serve-IsCounted_example = serve-IsCounted plain small session small-IsCounted

superblock_example :
    to_superblock (superblock_bytes (format_superblock 16 (replicate 32 7)))
    ≡ format_superblock 16 (replicate 32 7)
unfolding format_superblock replicate
superblock_example =
    to_superblock-superblock_bytes (format_superblock 16 (replicate 32 7)) (record {
      magic = omega arith;
      block_size = omega arith;
      total_blocks = omega arith;
      inode_count = omega arith;
      bitmap_start = omega arith;
      bitmap_blocks = omega arith;
      inode_start = omega arith;
      inode_blocks = omega arith;
      data_start = omega arith;
      free_blocks = omega arith;
      free_inodes = omega arith;
      bitmap_hmac = refl;
    })

inode_example : to_inode (inode_bytes blank_inode) ≡ blank_inode
unfolding blank_inode
inode_example = to_inode-inode_bytes blank_inode (record {
  type = omega arith;
  size = omega arith;
  block_count = omega arith;
  direct_length = refl;
  direct = ground arith;
  indirect = omega arith;
  double_indirect = omega arith;
  mtime = omega arith;
})

xts_iv_example : ◌≡◌ {A = ℕ} 7 7
xts_iv_example = xts_iv-injective 7 7 (omega arith) (omega arith) refl

alloc_block-ok_example :
    IsFirstFree small 5 × ((alloc_block small).1.bitmap ≡ update small.bitmap 5 true)
unfolding alloc_block format_superblock format_bitmap pure
alloc_block-ok_example = alloc_block-ok small {i = 5} refl

abbrev full : Vol
full = record small { bitmap = λ b. true }

alloc_block-err_example :
    (full ≡ full) × ((b : ℕ) → full.sb.data_start ≤ b → b < full.sb.total_blocks → true ≡ true)
unfolding alloc_block format_superblock fail
alloc_block-err_example = alloc_block-err full {e = eperm} (omega arith) (omega arith) refl

-- The first free block of a volume of 2 ^ 31 + 1 blocks.
abbrev huge : Vol
unfolding format_superblock
huge = record small { sb = format_superblock (2 ^ 31 + 1) []; bitmap = λ b. ltb b (2 ^ 31) }

huge-IsFirstFree : IsFirstFree huge (2 ^ 31)
unfolding format_superblock
huge-IsFirstFree = record {
  low = omega arith;
  high = omega arith;
  clear = refl;
  first = λ b p q. ground arith;
}

alloc_block-leak_example :
    ((alloc_block huge).0 ≡ err eperm)
    × ((alloc_block huge).1.bitmap ≡ update huge.bitmap (2 ^ 31) true)
alloc_block-leak_example = alloc_block-leak huge (2 ^ 31) huge-IsFirstFree (omega arith)
