-- ===== src/Truncate.antt =====
-- src/fs.c: truncate_file_blocks and denyfs_vol_truncate.
use denyfs.Prelude.{
  ℕ, ◌+◌, ◌-◌, ◌/◌, ◌%◌, ltb, leb, not, ◌==◌, ◌&&◌, List, [], ◌∷◌, ◌++◌, take, replicate,
  if◌then◌else◌,
}
use denyfs.Prelude.Words.{word_bytes}
use denyfs.Layout.{
  sector_size, max_inodes, max_file_size, direct_blocks, pointers_per_block, itype_file,
  invalid_block,
}
use denyfs.Crypto.{Crypto}
use denyfs.Volume.{
  eio, eisdir, einval, enospc, Op, pure, gets, require, or_fail, ◌>>=◌, ◌>>◌, put_inode, dec32,
}
use denyfs.Block.{read_block, write_block}
use denyfs.Bitmap.{free_block}
use denyfs.FileMap.{read_pointer_table, get_file_data_block}
use denyfs.FileIo.{vol_flush}

-- A block of the file is freed: `free_block(vol, p); inode->block_count--`.
unfoldable pub drop_block : ℕ → ℕ → Op (Unit {0})
drop_block ino block = do
  free_block block
  v ← gets (λ v. v)
  let n = v.inodes ino
  put_inode ino (record n { block_count = dec32 n.block_count })

-- The loop over a table whose first entry is logical block `logical`: the entries from
-- `new_block_count` on are freed, and the table that is left is the result.
unfoldable pub cut_entries : ℕ → ℕ → ℕ → List ℕ → Op (List ℕ)
unfolding drop_block
cut_entries ino new_block_count logical [] = pure []
cut_entries ino new_block_count logical (p ∷ ps) =
    if leb new_block_count logical && not (p == invalid_block)
    then (do
      drop_block ino p
      rest ← cut_entries ino new_block_count (logical + 1) ps
      pure (invalid_block ∷ rest))
    else (do rest ← cut_entries ino new_block_count (logical + 1) ps; pure (p ∷ rest))

-- `remaining`: the entries that name a block.
unfoldable pub remaining : List ℕ → ℕ
remaining [] = 0
remaining (p ∷ ps) = if p == invalid_block then remaining ps else remaining ps + 1

unfoldable pub cut_direct : ℕ → ℕ → Op (Unit {0})
unfolding cut_entries
cut_direct ino new_block_count = do
  v ← gets (λ v. v)
  direct ← cut_entries ino new_block_count 0 (v.inodes ino).direct
  v ← gets (λ v. v)
  let n = v.inodes ino
  put_inode ino (record n { direct = direct })

module _ (c : Crypto) where
  unfoldable pub cut_indirect : ℕ → ℕ → Op (Unit {0})
  unfolding cut_entries remaining
  cut_indirect ino new_block_count = do
    v ← gets (λ v. v)
    let table = (v.inodes ino).indirect_block
    if table == invalid_block then pure tt else do
      pointers ← or_fail eio (read_pointer_table c table)
      pointers ← cut_entries ino new_block_count direct_blocks pointers
      if remaining pointers == 0
          then (do
            free_block table
            v ← gets (λ v. v)
            let n = v.inodes ino
            put_inode ino (record n { indirect_block = invalid_block }))
          else or_fail eio (write_block c table (word_bytes pointers))

  -- One child table: the new entry for it in the root table.
  unfoldable pub cut_child : ℕ → ℕ → ℕ → ℕ → Op ℕ
  unfolding cut_entries remaining
  cut_child ino new_block_count logical_start child =
      if child == invalid_block then pure invalid_block else do
        pointers ← or_fail eio (read_pointer_table c child)
        pointers ← cut_entries ino new_block_count logical_start pointers
        if remaining pointers == 0
            then (do free_block child; pure invalid_block)
            else (do or_fail eio (write_block c child (word_bytes pointers)); pure child)

  unfoldable pub cut_children : ℕ → ℕ → ℕ → List ℕ → Op (List ℕ)
  unfolding cut_child
  cut_children ino new_block_count logical_start [] = pure []
  cut_children ino new_block_count logical_start (child ∷ roots) = do
    child ← cut_child ino new_block_count logical_start child
    rest ← cut_children ino new_block_count (logical_start + pointers_per_block) roots
    pure (child ∷ rest)

  unfoldable pub cut_double : ℕ → ℕ → Op (Unit {0})
  unfolding cut_children remaining
  cut_double ino new_block_count = do
    v ← gets (λ v. v)
    let table = (v.inodes ino).double_indirect_block
    if table == invalid_block then pure tt else do
      roots ← or_fail eio (read_pointer_table c table)
      roots ← cut_children ino new_block_count (direct_blocks + pointers_per_block) roots
      if remaining roots == 0
          then (do
            free_block table
            v ← gets (λ v. v)
            let n = v.inodes ino
            put_inode ino (record n { double_indirect_block = invalid_block }))
          else or_fail eio (write_block c table (word_bytes roots))

  unfoldable pub truncate_file_blocks : ℕ → ℕ → Op (Unit {0})
  unfolding cut_direct cut_indirect cut_double
  truncate_file_blocks ino new_block_count = do
    cut_direct ino new_block_count
    cut_indirect ino new_block_count
    cut_double ino new_block_count

  -- The bytes of the last block past the new size become zeros.
  unfoldable pub zero_tail : ℕ → ℕ → Op (Unit {0})
  unfolding take replicate
  zero_tail ino new_size = if new_size % sector_size == 0 then pure tt else do
    physical_block ← get_file_data_block c ino (new_size / sector_size)
    if physical_block == invalid_block then pure tt else do
      block_data ← or_fail eio (read_block c physical_block)
      let keep = new_size % sector_size
      or_fail eio
          (write_block c physical_block (take keep block_data ++ replicate (sector_size - keep) 0))

  unfoldable pub shrink : ℕ → ℕ → Op (Unit {0})
  unfolding zero_tail truncate_file_blocks
  shrink ino new_size = do
    zero_tail ino new_size
    or_fail eio (truncate_file_blocks ino ((new_size + sector_size - 1) / sector_size))

  unfoldable pub vol_truncate : ℕ → ℕ → ℕ → Op (Unit {0})
  unfolding shrink
  vol_truncate now ino new_size = do
    require (ltb ino max_inodes) einval
    v ← gets (λ v. v)
    require ((v.inodes ino).type == itype_file) eisdir
    require (leb new_size max_file_size) enospc
    if new_size == (v.inodes ino).size then pure tt else do
      if ltb new_size (v.inodes ino).size then shrink ino new_size else pure tt
      v ← gets (λ v. v)
      let n = v.inodes ino
      put_inode ino (record n { size = new_size; mtime = now })
      or_fail eio (vol_flush c)
