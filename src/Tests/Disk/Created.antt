-- ===== src/Tests/Disk/Created.antt =====
-- A file is created in the volume over the container of Disk, and looked up.
use denyfs.Prelude.{
  ℕ, suc, zero, ◌≤◌, ◌≡◌, refl, true, any, List, [], ◌∷◌, replicate, get_or, bytes_eq,
  if◌then◌else◌, drop, arith,
}
use denyfs.Prelude.Words.{le_value, le_bytes}
use denyfs.Layout.{
  to_dirents, to_dirent, dirents_bytes, dirent_bytes, invalid_block, no_blocks, dirents_per_block,
  superblock_bytes, inode_table_bytes,
}
use denyfs.Layout.RoundTrip.{FitDirents, to_dirents-dirents_bytes}
use denyfs.Crypto.{crypt_sector, compute_hmac}
use denyfs.InodeTable.{alloc_inode}
use denyfs.Volume.{
  put_free_inodes, ok, err, enoent, put_inode, put_hmac, clear_dirty, on_device, ◌>>=◌,
}
use denyfs.Block.{read_block, write_block, fread_sector, fwrite_sector, fflush, is_protected}
use denyfs.Block.Array.{block_array}
use denyfs.Block.Reliable.{Reliable}
use denyfs.Directory.{vol_lookup, add_dirent, free_entry}
use denyfs.Directory.Names.{get_or-replicate}
use denyfs.Directory.Walk.{AllNamed, DirBlock, GoodDirectory}
use denyfs.Directory.Added.{FitDirents-free}
use denyfs.FileIo.{vol_flush}
use denyfs.FileIo.Kept.{InFront}
use denyfs.Files.{vol_create}
use denyfs.Files.Lookup.{Usable, vol_create-vol_lookup}
use denyfs.Format.{format_superblock, format_bitmap, format_inodes, format_root}
use denyfs.Tests.{plain}
use denyfs.Tests.Disk.{disk}
use denyfs.Tests.Disk.Opened.{loaded}
use denyfs.Tests.Runs.{returns, returns-ok, plain-XtsLaws}

pub loaded-Reliable : Reliable loaded
unfolding disk
loaded-Reliable = record { no_failures = refl; in_range = omega arith; in_container = omega arith }

loaded-InFront : InFront loaded
unfolding format_superblock
loaded-InFront = record { superblock = omega arith; bitmap = omega arith; inodes = omega arith }

free_root-fits : FitDirents (to_dirents dirents_per_block format_root)
unfolding format_root replicate
free_root-fits =
    rw
      (to_dirents-dirents_bytes (replicate dirents_per_block free_entry)
        (FitDirents-free dirents_per_block))
      (FitDirents-free dirents_per_block)

root_block : DirBlock plain loaded 4
unfolding format_superblock format_bitmap block_array crypt_sector disk
root_block = record {
  low = omega arith;
  high = omega arith;
  taken = refl;
  bytes = format_root;
  holds = refl;
  fits = free_root-fits;
}

no_blocks-AllNamed : (P : ℕ → Type 0) (n : ℕ) → AllNamed P (no_blocks n)
unfolding replicate
no_blocks-AllNamed P zero = tt
no_blocks-AllNamed P (suc n) = ((λ named. ground arith), no_blocks-AllNamed P n)

loaded-GoodDirectory : GoodDirectory plain loaded
unfolding format_inodes replicate
loaded-GoodDirectory = record {
  blocks = ((λ named. root_block), no_blocks-AllNamed (DirBlock plain loaded) 19);
  size = refl;
  rest = behind;
}
  where
    behind : (i : ℕ) → 1 ≤ i → get_or (4 ∷ no_blocks 19) i invalid_block ≡ invalid_block
    behind zero low = ground arith
    behind (suc i) low = get_or-replicate invalid_block 19 i

abbrev name_b : List ℕ
name_b = b'b' ∷ []

creates : returns 1 (vol_create plain 9 name_b loaded) ≡ true
unfolding returns vol_create disk ◌>>=◌ read_block write_block on_device fread_sector fwrite_sector
    fflush crypt_sector compute_hmac is_protected format_superblock format_bitmap format_inodes
    superblock_bytes inode_table_bytes put_inode put_hmac clear_dirty vol_flush vol_lookup
    to_dirents to_dirent le_value dirents_bytes dirent_bytes le_bytes drop alloc_inode
    put_free_inodes add_dirent
creates = refl

pub loaded-Usable : Usable plain loaded
loaded-Usable = record {
  reliable = loaded-Reliable;
  front = loaded-InFront;
  directory = loaded-GoodDirectory;
}

vol_create-vol_lookup_example :
    ((vol_lookup plain name_b loaded).0 ≡ err enoent)
    × ((other : List ℕ)
        → vol_lookup plain other (vol_create plain 9 name_b loaded).1 ≡ (
          (if bytes_eq name_b other then ok 1 else (vol_lookup plain other loaded).0),
          (vol_create plain 9 name_b loaded).1,
        ))
    × Usable plain (vol_create plain 9 name_b loaded).1
unfolding any
vol_create-vol_lookup_example =
    vol_create-vol_lookup plain plain-XtsLaws 9 name_b loaded loaded-Usable refl
      (returns-ok 1 _ creates)
