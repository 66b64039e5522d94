-- ===== src/Layout/RoundTrip.antt =====
-- What is written to disk is read back: the superblock, an inode, directory entries.
use denyfs.Prelude.{
  refl, List, [], ◌∷◌, drop, length-append, ◌≡◌, ◌^◌, ◌<◌, length, take-append, drop-append, arith,
}
use denyfs.Prelude.Words.{
  le_bytes, length-le_bytes, le_value-le_bytes, take-le_bytes, drop-le_bytes, word_bytes, FitU32,
  length-word_bytes, words-word_bytes,
}
use denyfs.Layout.{
  Dirent, dirent_bytes, to_dirent, dirents_bytes, to_dirents, Superblock, Inode, superblock_bytes,
  to_superblock, inode_bytes, to_inode,
}

-- Every field fits its width.
pub record FitsSuperblock (s : Superblock) : Type 0 where
  pub magic : s.magic < 256 ^ 8
  pub block_size : s.block_size < 256 ^ 4
  pub total_blocks : s.total_blocks < 256 ^ 4
  pub inode_count : s.inode_count < 256 ^ 4
  pub bitmap_start : s.bitmap_start < 256 ^ 4
  pub bitmap_blocks : s.bitmap_blocks < 256 ^ 4
  pub inode_start : s.inode_start < 256 ^ 4
  pub inode_blocks : s.inode_blocks < 256 ^ 4
  pub data_start : s.data_start < 256 ^ 4
  pub free_blocks : s.free_blocks < 256 ^ 4
  pub free_inodes : s.free_inodes < 256 ^ 4
  pub bitmap_hmac : length s.bitmap_hmac ≡ 32

ruleset word_laws = (take-le_bytes, drop-le_bytes)

-- A superblock whose fields fit is read back as it was written.
pub to_superblock-superblock_bytes :
    (s : Superblock) → FitsSuperblock s → to_superblock (superblock_bytes s) ≡ s
unfolding to_superblock superblock_bytes
to_superblock-superblock_bytes s f = simp (
  word_laws,
  take-append 32 s.bitmap_hmac s.reserved f.bitmap_hmac,
  drop-append 32 s.bitmap_hmac s.reserved f.bitmap_hmac,
  le_value-le_bytes 8 s.magic f.magic,
  le_value-le_bytes 4 s.block_size f.block_size,
  le_value-le_bytes 4 s.total_blocks f.total_blocks,
  le_value-le_bytes 4 s.inode_count f.inode_count,
  le_value-le_bytes 4 s.bitmap_start f.bitmap_start,
  le_value-le_bytes 4 s.bitmap_blocks f.bitmap_blocks,
  le_value-le_bytes 4 s.inode_start f.inode_start,
  le_value-le_bytes 4 s.inode_blocks f.inode_blocks,
  le_value-le_bytes 4 s.data_start f.data_start,
  le_value-le_bytes 4 s.free_blocks f.free_blocks,
  le_value-le_bytes 4 s.free_inodes f.free_inodes,
)

pub record FitsInode (n : Inode) : Type 0 where
  pub type : n.type < 256 ^ 4
  pub size : n.size < 256 ^ 8
  pub block_count : n.block_count < 256 ^ 4
  pub direct_length : length n.direct ≡ 20
  pub direct : FitU32 n.direct
  pub indirect : n.indirect_block < 256 ^ 4
  pub double_indirect : n.double_indirect_block < 256 ^ 4
  pub mtime : n.mtime < 256 ^ 8

-- An inode whose fields fit is read back as it was written.
pub to_inode-inode_bytes : (n : Inode) → FitsInode n → to_inode (inode_bytes n) ≡ n
unfolding to_inode inode_bytes
to_inode-inode_bytes n f = simp (
  word_laws,
  take-append 80 (word_bytes n.direct) _ direct_size,
  drop-append 80 (word_bytes n.direct) _ direct_size,
  words-word_bytes n.direct f.direct,
  le_value-le_bytes 4 n.type f.type,
  le_value-le_bytes 8 n.size f.size,
  le_value-le_bytes 4 n.block_count f.block_count,
  le_value-le_bytes 4 n.indirect_block f.indirect,
  le_value-le_bytes 4 n.double_indirect_block f.double_indirect,
  le_value-le_bytes 8 n.mtime f.mtime,
)
  where
    direct_size : length (word_bytes n.direct) ≡ 80
    direct_size = omega (arith, length-word_bytes n.direct, f.direct_length)

-- The inode number of an entry fits its width, and its name array has its 251 bytes.
abbrev pub FitDirents : List Dirent → Type 0
FitDirents [] = Unit
FitDirents (e ∷ es) = (e.inode < 256 ^ 4) × (length e.name ≡ 251) × FitDirents es

to_dirent-dirent_bytes : (e : Dirent) → e.inode < 256 ^ 4 → to_dirent (dirent_bytes e) ≡ e
unfolding to_dirent dirent_bytes drop
to_dirent-dirent_bytes e fits = simp (word_laws, le_value-le_bytes 4 e.inode fits)

length-dirent_bytes : (e : Dirent) → length e.name ≡ 251 → length (dirent_bytes e) ≡ 256
unfolding dirent_bytes
length-dirent_bytes e size = omega (
  arith,
  length-append (le_bytes 4 e.inode) (e.name_len ∷ e.name),
  length-le_bytes 4 e.inode,
  size,
)

-- A directory block, of as many entries as it has, is read back as it was written, if the entries
-- fit.
pub to_dirents-dirents_bytes :
    (es : List Dirent) → FitDirents es → to_dirents (length es) (dirents_bytes es) ≡ es
unfolding to_dirents dirents_bytes
to_dirents-dirents_bytes [] f = refl
to_dirents-dirents_bytes (e ∷ es) (small, size, rest) =
    let long = length-dirent_bytes e size in
    simp (
      take-append 256 (dirent_bytes e) (dirents_bytes es) long,
      drop-append 256 (dirent_bytes e) (dirents_bytes es) long,
      to_dirent-dirent_bytes e small,
      to_dirents-dirents_bytes es rest,
    )
