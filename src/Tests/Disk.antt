-- ===== src/Tests/Disk.antt =====
-- A container with an outer volume of 16 blocks and the header of a hidden one of 4: what
-- denyfs_vol_open makes of it.
pub mod Opened
pub mod Created
pub mod Reloaded
pub mod Written
use denyfs.Prelude.{
  ℕ, ◌-◌, ◌*◌, ◌/◌, ◌≤◌, ◌<◌, inr, ◌≡◌, ◌≢◌, refl, Bool, true, not, not→false, false, some, List,
  [], ◌++◌, replicate, ◌==◌, if◌then◌else◌, arith,
}
use denyfs.Prelude.Words.{le_bytes, word_bytes, words}
use denyfs.Block.{fread_sector, host_alloc, read_block}
use denyfs.Validate.{good_root, validate_superblock, claim_inodes}
use denyfs.FileMap.{is_claimed}
use denyfs.Validate.Direct.{entry}
use denyfs.Validate.Owners.{block_limit}
use denyfs.Files.Counted.{InodesCounted}
use denyfs.Mount.Blocks.{vol_open-unshared, vol_open-used, vol_open-InodesCounted}
use denyfs.Validate.Metadata.{validate_loaded_metadata, check_directory}
use denyfs.Layout.{
  to_superblock, to_inode_table, to_dirents, superblock_bytes, inode_table_bytes, to_inode,
  inode_bytes, to_dirent, dirents_bytes, dirent_bytes, invalid_block,
}
use denyfs.Volume.{Device, Vol, Res, ok, err, on_device, ◌>>=◌}
use denyfs.FileIo.{bitmap_range}
use denyfs.Format.{format_superblock, format_bitmap, format_inodes, format_root}
use denyfs.Crypto.{
  decrypt_header, crypt_sector, compute_hmac, derive_master_key, derive_header_key, to_disk_header,
}
use denyfs.Header.{valid_volume_range, Payload, header_magic, payload_bytes, try_protected_header}
use denyfs.Open.{vol_open}
use denyfs.Fuse.{serve}
use denyfs.Mount.{vol_open-IsCounted, vol_open-headers, vol_open-protected}
use denyfs.Account.{IsCounted}
use denyfs.Tests.{plain, small, session}

abbrev pub payload_of : ℕ → Payload
payload_of blocks = record {
  magic = header_magic;
  volume_size = blocks * 4096;
  bitmap_offset = 0;
  bitmap_size = 0;
  volume_key = replicate 64 1;
  hmac_key = replicate 32 2;
  reserved = [];
}

abbrev header_sector : ℕ → List ℕ
unfolding payload_bytes replicate
header_sector blocks = replicate 44 0 ++ payload_bytes (payload_of blocks)

unfoldable pub sector : ℕ → List ℕ
unfolding superblock_bytes format_superblock bitmap_range format_bitmap inode_table_bytes
    format_inodes format_root replicate header_sector
sector s =
    if s == 0
    then header_sector 16
    else if s == 1
    then superblock_bytes (format_superblock 16 (replicate 32 7))
    else if s == 2
    then bitmap_range (format_bitmap 4) 0 4096
    else if s == 3
    then inode_table_bytes 0 32 (format_inodes 5 4)
    else if s == 4
    then inode_table_bytes 32 32 (format_inodes 5 4)
    else if s == 5
    then format_root
    else if s == 17
    then header_sector 4
    else replicate 4096 0

abbrev pub disk : Device
unfolding sector
disk = record { sectors = sector; size = 25 * 4096; outcomes = [] }

unfoldable pub volume_of : Res Vol × Device → Vol
volume_of (ok v, d) = v
volume_of (err e, d) = small

-- The outer volume, opened with protection of the hidden one.
abbrev mounted : Vol
unfolding vol_open disk volume_of
mounted = volume_of (vol_open plain [] (some []) true disk)

unfoldable pub is_outer : Res Vol × Device → Bool
is_outer (ok v, d) = not v.is_hidden
is_outer (err e, d) = false

pub is_outer-volume_of :
    (x : Res Vol × Device)
    → is_outer x ≡ true
    → (x ≡ (ok (volume_of x), x.1)) × ((volume_of x).is_hidden ≡ false)
unfolding is_outer volume_of
is_outer-volume_of (ok v, d) h = (refl, not→false _ h)
is_outer-volume_of (err e, d) h = ground arith

runs : is_outer (vol_open plain [] (some []) true disk) ≡ true
unfolding vol_open disk is_outer fread_sector host_alloc read_block on_device to_disk_header
    decrypt_header crypt_sector compute_hmac derive_master_key derive_header_key validate_superblock
    validate_loaded_metadata claim_inodes check_directory try_protected_header to_superblock
    to_inode_table to_dirents valid_volume_range ◌>>=◌ le_bytes good_root to_inode inode_bytes
    word_bytes words to_dirent dirents_bytes dirent_bytes
runs = refl

opens :
    (vol_open plain [] (some []) true disk
      ≡ (ok mounted, (vol_open plain [] (some []) true disk).1))
    × (mounted.is_hidden ≡ false)
unfolding mounted
opens = is_outer-volume_of (vol_open plain [] (some []) true disk) runs

vol_open-IsCounted_example : IsCounted (serve plain session mounted)
vol_open-IsCounted_example = vol_open-IsCounted plain [] (some []) true disk session opens.0

vol_open-headers_example : (serve plain session mounted).dev.sectors 17 ≡ disk.sectors 17
unfolding disk
vol_open-headers_example =
    vol_open-headers plain [] (some []) true disk session 17 opens.0 (inr (omega arith))

-- The hidden volume starts at sector 13.
vol_open-protected_example :
    (p : Payload) × (try_protected_header plain [] (to_disk_header (disk.sectors 17)) ≡ some p)
    × ((s : ℕ)
        → (17 * 4096 - p.volume_size) / 4096 ≤ s
        → (serve plain session mounted).dev.sectors s ≡ disk.sectors s)
unfolding disk
vol_open-protected_example = vol_open-protected plain [] [] disk session opens.0 opens.1

root_runs : entry (mounted.inodes 0).direct 0 == 4 ≡ true
unfolding mounted vol_open disk fread_sector host_alloc read_block on_device to_disk_header
    decrypt_header crypt_sector compute_hmac derive_master_key derive_header_key validate_superblock
    validate_loaded_metadata claim_inodes check_directory try_protected_header to_superblock
    to_inode_table to_dirents valid_volume_range ◌>>=◌ le_bytes good_root to_inode inode_bytes
    word_bytes words to_dirent dirents_bytes dirent_bytes
root_runs = refl

root_named : entry (mounted.inodes 0).direct 0 ≢ invalid_block
root_named = ground (arith, root_runs)

vol_open-unshared_example : (◌≡◌ {A = ℕ} 0 0) × (◌≡◌ {A = ℕ} 0 0)
vol_open-unshared_example =
    vol_open-unshared plain [] (some []) true disk opens.0 0 0 0 0 (omega arith) (omega arith)
      root_named refl

vol_open-used_example :
    (is_claimed mounted (entry (mounted.inodes 0).direct 0) ≡ true)
    × (0 < block_limit 0 (mounted.inodes 0))
vol_open-used_example =
    vol_open-used plain [] (some []) true disk opens.0 0 0 (omega arith) root_named

vol_open-InodesCounted_example : InodesCounted mounted
vol_open-InodesCounted_example = vol_open-InodesCounted plain [] (some []) true disk opens.0
