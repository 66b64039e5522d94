-- ===== src/Tests/Disk/Reloaded.antt =====
-- The volume over the container of Disk is flushed, and loaded again.
use denyfs.Prelude.{
  List, sym, ap, some, ◌+◌, [], false, ℕ, zero, suc, ◌<◌, ◌≡◌, refl, true, replicate, arith,
}
use denyfs.Prelude.Words.{FitU32}
use denyfs.Layout.{no_blocks, max_inodes, superblock_bytes, inode_table_bytes}
use denyfs.Crypto.{crypt_sector, compute_hmac}
use denyfs.Volume.{Vol, ok, on_device, put_hmac, clear_dirty, ◌>>=◌}
use denyfs.Volume.Run.{ran}
use denyfs.Block.{write_block, fwrite_sector, fflush, is_protected}
use denyfs.Block.Array.{block_array}
use denyfs.Block.Reliable.{in_place, KeepsReliable-Primitives}
use denyfs.Keep.Files.{vol_flush-Frame}
use denyfs.FileIo.{vol_flush, bitmap_range}
use denyfs.FileIo.Flushed.{Flushed, vol_flush-Flushed}
use denyfs.FileIo.Contents.{bitmap_sector, CleanStored}
use denyfs.Format.{format_superblock, format_bitmap, format_inodes, blank_inode}
use denyfs.Validate.{validate_superblock}
use denyfs.Validate.Metadata.{validate_loaded_metadata}
use denyfs.Open.{load_metadata, new_volume}
use denyfs.Open.Bits.{FitsSlot}
use denyfs.Open.Reloading.{Storable, SameContainer, vol_flush-load_metadata}
use denyfs.Tests.{plain}
use denyfs.Tests.Disk.{disk, sector, payload_of}
use denyfs.Tests.Disk.Opened.{loaded, passes, passes-ok}
use denyfs.Directory.{vol_lookup}
use denyfs.Files.Remount.{vol_flush-vol_lookup}
use denyfs.Tests.Disk.Created.{loaded-Usable, loaded-Reliable}
use denyfs.Tests.Runs.{plain-XtsLaws}

no_blocks-FitU32 : (n : ℕ) → FitU32 (no_blocks n)
unfolding replicate
no_blocks-FitU32 zero = tt
no_blocks-FitU32 (suc n) = (omega arith, no_blocks-FitU32 n)

blank-FitsSlot : FitsSlot blank_inode
unfolding blank_inode replicate
blank-FitsSlot = record {
  fields = record {
    type = omega arith;
    size = omega arith;
    block_count = omega arith;
    direct_length = refl;
    direct = no_blocks-FitU32 20;
    indirect = omega arith;
    double_indirect = omega arith;
    mtime = omega arith;
  };
  reserved = refl;
}

is_blank : (i : ℕ) → loaded.inodes (suc i) ≡ blank_inode
unfolding format_inodes
is_blank i = ground arith

loaded-FitsSlot : (i : ℕ) → i < max_inodes → FitsSlot (loaded.inodes i)
unfolding format_inodes blank_inode replicate
loaded-FitsSlot zero small = record {
  fields = record {
    type = omega arith;
    size = omega arith;
    block_count = omega arith;
    direct_length = refl;
    direct = (omega arith, no_blocks-FitU32 19);
    indirect = omega arith;
    double_indirect = omega arith;
    mtime = omega arith;
  };
  reserved = refl;
}
loaded-FitsSlot (suc i) small = rw (is_blank i) blank-FitsSlot

loaded-CleanStored : CleanStored plain loaded
unfolding disk sector block_array crypt_sector format_superblock bitmap_range
loaded-CleanStored = record { stored = λ j small clean. at_sector j (omega (arith, small)) }
  where
    at_sector :
        (j : ℕ) → j < 1 → block_array plain loaded (1 + j) ≡ some (bitmap_sector loaded.bitmap j)
    at_sector zero small = refl
    at_sector (suc j) small = absurd (omega (arith, small))

loaded-Storable : Storable plain loaded
unfolding validate_superblock format_superblock
loaded-Storable = record {
  valid = refl;
  inodes = loaded-FitsSlot;
  buffer = refl;
  clean = loaded-CleanStored;
}

flushes : passes (vol_flush plain loaded) ≡ true
unfolding passes vol_flush disk write_block fwrite_sector fflush crypt_sector compute_hmac on_device
    is_protected format_superblock format_bitmap format_inodes superblock_bytes inode_table_bytes
    put_hmac clear_dirty ◌>>=◌
flushes = refl

abbrev flushed : Vol
unfolding vol_flush
flushed = (vol_flush plain loaded).1

flushed_run : vol_flush plain loaded ≡ (ok tt, flushed)
unfolding flushed vol_flush
flushed_run = passes-ok _ flushes

-- The volume that denyfs_vol_open starts with, over the container that the flush has left.
abbrev opening : Vol
unfolding new_volume
opening =
    new_volume flushed.dev false 4096 (record (payload_of 16) { volume_key = []; hmac_key = [] })

flushes_to : Flushed plain plain-XtsLaws loaded flushed
flushes_to = vol_flush-Flushed plain plain-XtsLaws loaded (omega arith) flushed_run

memory : flushed ≡ record loaded {
  dev = flushed.dev;
  sb = record (loaded.sb) { bitmap_hmac = (flushes_to.digest) };
  bitmap_dirty = λ _. false;
}
memory = flushes_to.memory

same_place : SameContainer flushed opening
unfolding new_volume
same_place =
    let start : opening.vol_start_offset ≡ flushed.vol_start_offset =
      sym (ap (λ (y : Vol). y.vol_start_offset) memory) in
    let size : opening.volume_size ≡ flushed.volume_size =
      sym (ap (λ (y : Vol). y.volume_size) memory) in
    record {
      reliable =
          in_place {v = flushed} {w = opening} refl start size
            (ran flushed_run (vol_flush-Frame (KeepsReliable-Primitives plain)) loaded-Reliable);
      sectors = refl;
      start = start;
      size = size;
      volume_key = sym (ap (λ (y : Vol). y.volume_key) memory);
      hmac_key = sym (ap (λ (y : Vol). y.hmac_key) memory);
    }

vol_flush-load_metadata_example :
    (y : Vol) × (load_metadata plain opening ≡ validate_loaded_metadata plain y)
    × SameContainer flushed y
    × (y.sb ≡ flushed.sb)
    × ((b : ℕ) → b < flushed.sb.total_blocks → y.bitmap b ≡ flushed.bitmap b)
    × ((i : ℕ) → i < max_inodes → y.inodes i ≡ flushed.inodes i)
vol_flush-load_metadata_example =
    vol_flush-load_metadata plain plain-XtsLaws loaded loaded-Storable (omega arith) flushed_run
      same_place

vol_flush-vol_lookup_example :
    (y : Vol) × (load_metadata plain opening ≡ validate_loaded_metadata plain y)
    × ((name : List ℕ) → vol_lookup plain name y ≡ ((vol_lookup plain name loaded).0, y))
vol_flush-vol_lookup_example =
    vol_flush-vol_lookup plain plain-XtsLaws loaded loaded-Usable loaded-Storable flushed_run
      same_place
