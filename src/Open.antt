-- ===== src/Open.antt =====
-- src/fs.c: denyfs_vol_open. From the container file to an open volume, or a failure (NULL).
pub mod Bits
pub mod Counts
pub mod Loading
pub mod Placing
pub mod Joined
pub mod Reloading
pub mod Untouched
use denyfs.Prelude.{
  ℕ, zero, suc, ◌+◌, ◌-◌, ◌*◌, ◌/◌, ◌%◌, ◌^◌, leb, Bool, true, false, not, ◌&&◌, ◌==◌, Option, none,
  some, List, [], ◌++◌, get_or, bytes_eq, if◌then◌else◌,
}
use denyfs.Layout.{
  Superblock, sector_size, header_size, hidden_header_offset_from_eof, sb_magic, to_superblock,
  to_inode_table,
}
use denyfs.Crypto.{Crypto, compute_hmac, DiskHeader, to_disk_header}
use denyfs.Volume.{
  Device, Vol, Res, ok, err, eperm, Exec, Op, pure, fail, gets, require, of_option, ◌>>=◌, ◌>>◌,
  on_device,
}
use denyfs.Block.{fread_sector, host_alloc, read_block}
use denyfs.Header.{Payload, valid_volume_range, hidden_range, try_header, try_protected_header}
use denyfs.Validate.{validate_superblock}
use denyfs.Validate.Metadata.{validate_loaded_metadata}

-- `bitmap[i / 8] & (1 << (i % 8))`
unfoldable pub bit_of : List ℕ → ℕ → Bool
bit_of bytes i = get_or bytes (i / 8) 0 / 2 ^ (i % 8) % 2 == 1

-- The zeroed volume of calloc, with the fields that vol_open fills in first.
unfoldable pub new_volume : Device → Bool → ℕ → Payload → Vol
unfolding to_superblock to_inode_table
new_volume d hidden start p = record {
  dev = d;
  volume_key = p.volume_key;
  hmac_key = p.hmac_key;
  volume_size = p.volume_size;
  sb = to_superblock [];
  bitmap = λ _. false;
  bitmap_bytes = 0;
  bitmap_dirty = λ _. false;
  bitmap_dirty_count = 0;
  inodes = to_inode_table [];
  vol_start_offset = start;
  is_hidden = hidden;
  protect_hidden = false;
  protect_start_sector = 0;
  protect_end_sector = 0;
}

-- The outer volume if its header opened and its range is valid; otherwise the hidden one.
unfoldable pub select_hidden : ℕ → Option Payload → Exec Device Vol
unfolding new_volume hidden_range
select_hidden hho none = fail eperm
select_hidden hho (some p) = do
  require (hidden_range hho p.volume_size) eperm
  host_alloc
  d ← gets (λ d. d)
  pure (new_volume d true (hho - p.volume_size) p)

unfoldable pub select_volume : ℕ → Option Payload → Option Payload → Exec Device Vol
unfolding new_volume valid_volume_range select_hidden
select_volume hho none hidden = select_hidden hho hidden
select_volume hho (some p) hidden =
    if valid_volume_range header_size p.volume_size hho
    then (do host_alloc; d ← gets (λ d. d); pure (new_volume d false header_size p))
    else select_hidden hho hidden

-- Outer-mount protection covers the sectors from the hidden volume's first to the container's last.
unfoldable pub set_protection : ℕ → Option Payload → Vol → Res (Unit {0}) × Vol
unfolding hidden_range
set_protection hho none v = fail eperm v
set_protection hho (some p) v =
    if hidden_range hho p.volume_size
    then pure tt (record v {
      protect_hidden = true;
      protect_start_sector = (hho - p.volume_size) / sector_size;
      protect_end_sector = v.dev.size / sector_size - 1;
    })
    else fail eperm v

-- memcpy of the superblock; the buffers of the bitmap.
unfoldable pub put_superblock : Superblock → Op (Unit {0})
put_superblock s v = (ok tt, record v { sb = s })

unfoldable pub put_bitmap : List ℕ → Op (Unit {0})
unfolding bit_of
put_bitmap bytes v = (
  ok tt,
  record v {
    bitmap = bit_of bytes;
    bitmap_bytes = v.sb.bitmap_blocks * sector_size;
    bitmap_dirty = λ _. false;
    bitmap_dirty_count = v.sb.bitmap_blocks;
  },
)

unfoldable pub put_inodes : List ℕ → Op (Unit {0})
unfolding to_inode_table
put_inodes bytes v = (ok tt, record v { inodes = to_inode_table bytes })

module _ (c : Crypto) where
  unfoldable pub protect : Bool → Option (List ℕ) → DiskHeader → ℕ → Op (Unit {0})
  unfolding set_protection try_protected_header
  protect false password hidden_disk hho = pure tt
  protect true none hidden_disk hho = fail eperm
  protect true (some password) hidden_disk hho = do
    on_device host_alloc
    set_protection hho (try_protected_header c password hidden_disk)

  -- `n` blocks from block `i` on, one after the other.
  unfoldable pub read_blocks : ℕ → ℕ → Op (List ℕ)
  read_blocks i zero = pure []
  read_blocks i (suc n) = do
    bytes ← read_block c i
    rest ← read_blocks (i + 1) n
    pure (bytes ++ rest)

  unfoldable pub load_superblock : Op (Unit {0})
  unfolding put_superblock
  load_superblock = do
    sb_buf ← read_block c 0
    let sb = to_superblock sb_buf
    put_superblock sb
    require (sb.magic == sb_magic) eperm
    v ← gets (λ v. v)
    require (validate_superblock v.sb v.volume_size) eperm

  -- The bitmap and its HMAC.
  unfoldable pub load_bitmap : Op (Unit {0})
  unfolding put_bitmap read_blocks bytes_eq
  load_bitmap = do
    on_device host_alloc
    on_device host_alloc
    v ← gets (λ v. v)
    bitmap ← read_blocks v.sb.bitmap_start v.sb.bitmap_blocks
    put_bitmap bitmap
    computed ← of_option (compute_hmac c v.hmac_key bitmap) eperm
    require (bytes_eq computed v.sb.bitmap_hmac) eperm

  unfoldable pub load_inodes : Op (Unit {0})
  unfolding put_inodes read_blocks
  load_inodes = do
    v ← gets (λ v. v)
    table ← read_blocks v.sb.inode_start v.sb.inode_blocks
    put_inodes table

  unfoldable pub load_metadata : Op (Unit {0})
  unfolding load_superblock load_bitmap load_inodes
  load_metadata = do load_superblock; load_bitmap; load_inodes; validate_loaded_metadata c

  -- The file handle of a volume that failed to open is closed.
  unfoldable pub finish_open : Res (Unit {0}) × Vol → Res Vol × Device
  finish_open (ok _, v) = (ok v, v.dev)
  finish_open (err e, v) = (err e, v.dev)

  unfoldable pub vol_open : List ℕ → Option (List ℕ) → Bool → Exec Device Vol
  unfolding select_volume protect load_metadata finish_open try_header
  vol_open password hidden_password protect_hidden = do
    d ← gets (λ d. d)
    require
        (leb (hidden_header_offset_from_eof + header_size) d.size && (d.size % sector_size == 0))
        eperm
    let hho = d.size - hidden_header_offset_from_eof
    outer_bytes ← fread_sector 0
    hidden_bytes ← fread_sector hho
    host_alloc
    let outer_disk = to_disk_header outer_bytes
    let hidden_disk = to_disk_header hidden_bytes
    v ← select_volume hho (try_header c password outer_disk) (try_header c password hidden_disk)
    λ _. finish_open (
        (do
          protect (protect_hidden && not v.is_hidden) hidden_password hidden_disk hho
          load_metadata)
          v)
