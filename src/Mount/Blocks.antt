-- ===== src/Mount/Blocks.antt =====
-- src/fs.c: the inode table of a volume that denyfs_vol_open returned: direct pointers and counts.
use denyfs.Prelude.{ℕ, ◌<◌, ◌≡◌, ◌≢◌, Bool, true, Option, List}
use denyfs.Crypto.{Crypto}
use denyfs.Layout.{max_inodes, invalid_block}
use denyfs.Volume.{Device, Vol, ok}
use denyfs.FileMap.{is_claimed}
use denyfs.Validate.Direct.{entry}
use denyfs.Validate.Owners.{block_limit}
use denyfs.Validate.Unshared.{validated-unshared, validated-used}
use denyfs.Open.{vol_open}
use denyfs.Open.Loading.{carry, load_metadata-validated}
use denyfs.Validate.Inodes.{validated-InodesCounted}
use denyfs.Files.Counted.{InodesCounted}
use denyfs.Mount.{vol_open-Opened}

-- No two direct pointers of the inode table name the same block.
abbrev Unshared : Vol → Type 0
Unshared v =
    (k l i j : ℕ)
    → k < max_inodes
    → l < max_inodes
    → entry (v.inodes k).direct i ≢ invalid_block
    → entry (v.inodes k).direct i ≡ entry (v.inodes l).direct j
    → (k ≡ l) × (i ≡ j)

-- The block of every direct pointer is in use, and belongs to the inode's blocks.
abbrev Used : Vol → Type 0
Used v =
    (k i : ℕ)
    → k < max_inodes
    → entry (v.inodes k).direct i ≢ invalid_block
    → (is_claimed v (entry (v.inodes k).direct i) ≡ true) × (i < block_limit k (v.inodes k))

module _ (c : Crypto) (password : List ℕ) (hidden_password : Option (List ℕ)) (on : Bool)
    (d : Device) {v : Vol} {e : Device}
    (h : vol_open c password hidden_password on d ≡ (ok v, e)) where
  -- In a volume that opens, no two direct pointers of its inode table name the same block: those that
  -- do are the same pointer of the same inode.
  pub vol_open-unshared :
      (k l i j : ℕ)
      → k < max_inodes
      → l < max_inodes
      → entry (v.inodes k).direct i ≢ invalid_block
      → entry (v.inodes k).direct i ≡ entry (v.inodes l).direct j
      → (k ≡ l) × (i ≡ j)
  vol_open-unshared =
      let o = vol_open-Opened c password hidden_password on d h in
      let (x, reads, r) = load_metadata-validated c o.protected_volume o.loading in
      carry Unshared x v reads (λ d. validated-unshared c x r)

  -- In a volume that opens, each block that a direct pointer of its inode table names is a data block
  -- whose bit is set, and the pointer's place is below the inode's number of blocks: the block count
  -- of the root directory, the size in blocks of a file.
  pub vol_open-used :
      (k i : ℕ)
      → k < max_inodes
      → entry (v.inodes k).direct i ≢ invalid_block
      → (is_claimed v (entry (v.inodes k).direct i) ≡ true) × (i < block_limit k (v.inodes k))
  unfolding is_claimed
  vol_open-used =
      let o = vol_open-Opened c password hidden_password on d h in
      let (x, reads, r) = load_metadata-validated c o.protected_volume o.loading in
      carry Used x v reads (λ d. validated-used c x r)

  -- A volume that opens counts the free inodes of its table in its superblock.
  pub vol_open-InodesCounted : InodesCounted v
  vol_open-InodesCounted =
      let o = vol_open-Opened c password hidden_password on d h in
      let (x, reads, r) = load_metadata-validated c o.protected_volume o.loading in
      carry InodesCounted x v reads (λ d. validated-InodesCounted c x r)
