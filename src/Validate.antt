-- ===== src/Validate.antt =====
-- src/fs.c: validate_superblock, claim_metadata_block and validate_loaded_metadata, which vol_open
-- runs on what it has read from the container. Every failure is `-1`.
pub mod Metadata
pub mod Claiming
pub mod Direct
pub mod Owners
pub mod Unshared
pub mod Exact
pub mod Inodes
pub mod Reads
use denyfs.Prelude.{
  ℕ, zero, suc, ◌+◌, ◌-◌, ◌*◌, ◌/◌, ◌%◌, ltb, leb, Bool, true, false, not, ◌&&◌, ◌||◌, ◌==◌, List,
  [], ◌∷◌, length, take, any, bytes_eq, if◌then◌else◌,
}
use denyfs.Layout.{
  Superblock, Inode, Dirent, sector_size, max_inodes, max_file_size, max_file_blocks, direct_blocks,
  pointers_per_block, dirents_per_block, inode_size, sb_magic, uint32_max, itype_free, itype_file,
  itype_dir, invalid_block, invalid_ino, to_dirents,
}
use denyfs.Crypto.{Crypto}
use denyfs.Volume.{
  Vol, Errno, eperm, Op, update, pure, fail, gets, require, or_fail, ◌>>=◌, ◌>>◌, on_device,
}
use denyfs.Block.{read_block, host_alloc}
use denyfs.FileMap.{is_claimed, read_pointer_table}
use denyfs.Directory.{valid_dirent}

-- The sizes that a volume of a given number of blocks has.
abbrev pub bitmap_blocks_of : ℕ → ℕ
bitmap_blocks_of blocks = ((blocks + 7) / 8 + sector_size - 1) / sector_size

abbrev pub inode_table_blocks : ℕ
inode_table_blocks = (max_inodes * inode_size + sector_size - 1) / sector_size

unfoldable pub validate_superblock : Superblock → ℕ → Bool
validate_superblock sb volume_size =
    let expected_blocks = volume_size / sector_size in
    let expected_bitmap_blocks = bitmap_blocks_of expected_blocks in
    let expected_inode_start = 1 + expected_bitmap_blocks in
    let expected_data_start = expected_inode_start + sb.inode_blocks in
    not (volume_size == 0)
    && (volume_size % sector_size == 0)
    && leb expected_blocks uint32_max
    && leb 4 expected_blocks
    && (sb.magic == sb_magic)
    && (sb.block_size == sector_size)
    && (sb.total_blocks == expected_blocks)
    && (sb.inode_count == max_inodes)
    && (sb.bitmap_start == 1)
    && (sb.inode_blocks == inode_table_blocks)
    && leb expected_bitmap_blocks uint32_max
    && (sb.bitmap_blocks == expected_bitmap_blocks)
    && (sb.inode_start == expected_inode_start)
    && (sb.data_start == expected_data_start)
    && ltb sb.data_start sb.total_blocks
    && leb sb.free_blocks (sb.total_blocks - sb.data_start)
    && ltb sb.free_inodes max_inodes

-- `claimed`, `claimed_count` and `allocated_inodes`.
pub record Claims : Type 0 where
  pub claimed : ℕ → Bool
  pub count : ℕ
  pub allocated_inodes : ℕ

unfoldable pub claim_metadata_block : ℕ → Claims → Op Claims
unfolding is_claimed
claim_metadata_block block cl = do
  v ← gets (λ v. v)
  require (is_claimed v block && ltb (block / 8) v.bitmap_bytes && not (cl.claimed block)) eperm
  pure (record cl { claimed = update cl.claimed block true; count = cl.count + 1 })

-- The entries of a table whose first entry is logical block `logical`: each that names a block lies
-- inside the file and is claimed. The second result is their number.
unfoldable pub claim_entries : ℕ → ℕ → List ℕ → Claims × ℕ → Op (Claims × ℕ)
unfolding claim_metadata_block
claim_entries file_blocks logical [] acc = pure acc
claim_entries file_blocks logical (block ∷ blocks) (cl, entries) =
    if block == invalid_block
    then claim_entries file_blocks (logical + 1) blocks (cl, entries)
    else do
      require (ltb logical file_blocks) eperm
      cl ← claim_metadata_block block cl
      claim_entries file_blocks (logical + 1) blocks (cl, entries + 1)

-- The root directory: exactly the first `block_count` pointers name blocks.
unfoldable pub claim_root : ℕ → ℕ → List ℕ → Claims → Op Claims
unfolding claim_metadata_block
claim_root block_count i [] cl = pure cl
claim_root block_count i (block ∷ blocks) cl =
    if block == invalid_block
    then (do require (not (ltb i block_count)) eperm; claim_root block_count (i + 1) blocks cl)
    else (do
      require (ltb i block_count) eperm
      cl ← claim_metadata_block block cl
      claim_root block_count (i + 1) blocks cl)

unfoldable pub no_block : ℕ → Bool
no_block b = b == invalid_block

-- A free inode has no size and no blocks.
unfoldable pub is_clear_inode : Inode → Bool
unfolding no_block any
is_clear_inode n =
    (n.size == 0)
    && (n.block_count == 0)
    && not (any (λ b. not (no_block b)) n.direct)
    && no_block n.indirect_block
    && no_block n.double_indirect_block

unfoldable pub good_root : Inode → Bool
unfolding no_block
good_root n =
    (n.type == itype_dir)
    && (n.size == 0)
    && not (n.block_count == 0)
    && leb n.block_count direct_blocks
    && no_block n.indirect_block
    && no_block n.double_indirect_block

module _ (c : Crypto) where
  unfoldable pub claim_indirect : ℕ → ℕ → Claims × ℕ → Op (Claims × ℕ)
  unfolding claim_entries claim_metadata_block
  claim_indirect table file_blocks (cl, actual) =
      if table == invalid_block then pure (cl, actual) else do
        cl ← claim_metadata_block table cl
        pointers ← read_pointer_table c table
        (cl, entries) ← claim_entries file_blocks direct_blocks pointers (cl, 0)
        require (not (entries == 0)) eperm
        pure (cl, actual + entries)

  -- The child tables; the last number of the result counts them.
  unfoldable pub claim_children : ℕ → ℕ → List ℕ → Claims × ℕ × ℕ → Op (Claims × ℕ × ℕ)
  unfolding claim_entries claim_metadata_block
  claim_children file_blocks logical_start [] acc = pure acc
  claim_children file_blocks logical_start (child ∷ roots) (cl, actual, root_entries) =
      let next = logical_start + pointers_per_block in
      if child == invalid_block
      then claim_children file_blocks next roots (cl, actual, root_entries)
      else (do
        require (ltb logical_start file_blocks) eperm
        cl ← claim_metadata_block child cl
        pointers ← read_pointer_table c child
        (cl, entries) ← claim_entries file_blocks logical_start pointers (cl, 0)
        require (not (entries == 0)) eperm
        claim_children file_blocks next roots (cl, actual + entries, root_entries + 1))

  unfoldable pub claim_double : ℕ → ℕ → Claims × ℕ → Op (Claims × ℕ)
  unfolding claim_children claim_metadata_block
  claim_double table file_blocks (cl, actual) =
      if table == invalid_block then pure (cl, actual) else do
        cl ← claim_metadata_block table cl
        roots ← read_pointer_table c table
        (cl, actual, root_entries) ←
            claim_children file_blocks (direct_blocks + pointers_per_block) roots (cl, actual, 0)
        require (not (root_entries == 0)) eperm
        pure (cl, actual)

  -- A file: its blocks are claimed, and their number is its block count.
  unfoldable pub claim_file : Inode → Claims → Op Claims
  unfolding claim_entries claim_indirect claim_double
  claim_file n cl = do
    let file_blocks = (n.size + sector_size - 1) / sector_size
    acc ← claim_entries file_blocks 0 n.direct (cl, 0)
    acc ← claim_indirect n.indirect_block file_blocks acc
    (cl, actual) ← claim_double n.double_indirect_block file_blocks acc
    require (actual == n.block_count) eperm
    pure cl

  unfoldable pub claim_inode : ℕ → Claims → Op Claims
  unfolding is_clear_inode claim_root claim_file
  claim_inode ino cl = do
    v ← gets (λ v. v)
    let n = v.inodes ino
    let counted = record cl { allocated_inodes = cl.allocated_inodes + 1 }
    if n.type == itype_free
        then (do require (not (ino == 0) && is_clear_inode n) eperm; pure cl)
        else (do
          require (n.type == (if ino == 0 then itype_dir else itype_file)) eperm
          require (leb n.size max_file_size && leb n.block_count max_file_blocks) eperm
          if ino == 0 then claim_root n.block_count 0 n.direct counted else claim_file n counted)

  unfoldable pub claim_inodes : ℕ → ℕ → Claims → Op Claims
  unfolding claim_inode
  claim_inodes ino zero cl = pure cl
  claim_inodes ino (suc n) cl = do cl ← claim_inode ino cl; claim_inodes (ino + 1) n cl
