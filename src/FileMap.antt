-- ===== src/FileMap.antt =====
-- src/fs.c: pointer tables, and the map from the blocks of a file to the blocks of the volume.
pub mod Lookup
use denyfs.Prelude.{
  ℕ, ◌-◌, ◌/◌, ◌%◌, ltb, leb, Bool, true, false, ◌&&◌, ◌||◌, ◌==◌, List, get_or, set, replicate,
  if◌then◌else◌,
}
use denyfs.Prelude.Words.{word_bytes, words}
use denyfs.Layout.{
  Inode, sector_size, direct_blocks, pointers_per_block, max_file_blocks, invalid_block, no_blocks,
}
use denyfs.Crypto.{Crypto}
use denyfs.Volume.{
  Vol, eperm, enospc, eio, einval, Op, pure, fail, gets, require, on_err, or_fail, ◌>>=◌, ◌>>◌,
  put_inode, inc32,
}
use denyfs.Block.{read_block, write_block}
use denyfs.Bitmap.{alloc_block, free_block}

-- A data block of the volume whose bit is set.
unfoldable pub is_claimed : Vol → ℕ → Bool
is_claimed v block = leb v.sb.data_start block && ltb block v.sb.total_blocks && v.bitmap block

-- The place of a logical block in an inode: direct pointer, entry of the single-indirect table, or
-- entry of a child of the double-indirect table.
pub data Slot : Type 0 where
  direct_slot : ℕ → Slot
  indirect_slot : ℕ → Slot
  double_slot : ℕ → ℕ → Slot

unfoldable pub slot_of : ℕ → Slot
slot_of logical_block =
    if ltb logical_block direct_blocks
    then direct_slot logical_block
    else if ltb (logical_block - direct_blocks) pointers_per_block
    then indirect_slot (logical_block - direct_blocks)
    else (let rest = logical_block - direct_blocks - pointers_per_block in
        double_slot (rest / pointers_per_block) (rest % pointers_per_block))

-- An entry that is not 0xFFFFFFFF must name a data block whose bit is set.
unfoldable pub check_block : ℕ → Op ℕ
unfolding is_claimed
check_block block = do
  v ← gets (λ v. v)
  require (block == invalid_block || is_claimed v block) eio
  pure block

module _ (c : Crypto) where
  unfoldable pub read_pointer_table : ℕ → Op (List ℕ)
  unfolding is_claimed
  read_pointer_table table_block = do
    v ← gets (λ v. v)
    require (is_claimed v table_block) eperm
    bytes ← read_block c table_block
    pure (words bytes)

  -- A block that is taken, filled and handed out; it is given back if the write fails.
  unfoldable pub allocate_filled : List ℕ → Op ℕ
  allocate_filled bytes = do
    block ← or_fail enospc alloc_block
    on_err (write_block c block bytes) (λ _. do free_block block; fail eio)
    pure block

  unfoldable pub allocate_pointer_table : Op ℕ
  unfolding allocate_filled
  allocate_pointer_table = allocate_filled (word_bytes (no_blocks pointers_per_block))

  unfoldable pub allocate_zeroed_data_block : Op ℕ
  unfolding allocate_filled
  allocate_zeroed_data_block = allocate_filled (replicate sector_size 0)

  -- The entry of the inode `n` at a slot, before it is checked.
  unfoldable pub slot_block : Inode → Slot → Op ℕ
  unfolding read_pointer_table
  slot_block n (direct_slot i) = pure (get_or n.direct i 0)
  slot_block n (indirect_slot i) =
      if n.indirect_block == invalid_block then pure invalid_block else do
        pointers ← or_fail eio (read_pointer_table n.indirect_block)
        pure (get_or pointers i 0)
  slot_block n (double_slot outer inner) =
      if n.double_indirect_block == invalid_block then pure invalid_block else do
        roots ← or_fail eio (read_pointer_table n.double_indirect_block)
        let child = get_or roots outer 0
        if child == invalid_block then pure invalid_block else do
          pointers ← or_fail eio (read_pointer_table child)
          pure (get_or pointers inner 0)

  unfoldable pub get_file_data_block : ℕ → ℕ → Op ℕ
  unfolding slot_block slot_of check_block
  get_file_data_block ino logical_block = do
    require (ltb logical_block max_file_blocks) einval
    v ← gets (λ v. v)
    block ← slot_block (v.inodes ino) (slot_of logical_block)
    check_block block

  -- A table that is there already, or a new one; the flag says which.
  unfoldable pub table_or_new : ℕ → Op (ℕ × Bool)
  unfolding allocate_pointer_table
  table_or_new block =
      if block == invalid_block
      then (do fresh ← allocate_pointer_table; pure (fresh, true))
      else pure (block, false)

  -- The entries of a table: all 0xFFFFFFFF in a new one.
  unfoldable pub table_entries : ℕ → Bool → Op (List ℕ)
  unfolding read_pointer_table
  table_entries block new =
      if new then pure (no_blocks pointers_per_block) else read_pointer_table block

  -- Give a block back if it was taken by this call.
  unfoldable pub free_if : Bool → ℕ → Op (Unit {0})
  free_if new block = if new then free_block block else pure tt

  -- The new data block is entered in the inode or in its table; what was taken for it is given
  -- back on every failure.
  unfoldable pub link_direct : ℕ → ℕ → ℕ → Op (Unit {0})
  link_direct ino data_block i = do
    v ← gets (λ v. v)
    let n = v.inodes ino
    put_inode ino (record n { direct = set n.direct i data_block })

  unfoldable pub link_indirect : ℕ → ℕ → ℕ → Op (Unit {0})
  unfolding table_or_new table_entries free_if
  link_indirect ino data_block i = do
    v ← gets (λ v. v)
    (table_block, new_table) ←
        on_err (table_or_new (v.inodes ino).indirect_block) (λ e. do free_block data_block; fail e)
    pointers ←
        on_err (table_entries table_block new_table) (λ _. do free_block data_block; fail eio)
    on_err (write_block c table_block (word_bytes (set pointers i data_block)))
        (λ _. do free_block data_block; free_if new_table table_block; fail eio)
    v ← gets (λ v. v)
    let n = v.inodes ino
    if new_table then put_inode ino (record n { indirect_block = table_block }) else pure tt

  unfoldable pub link_double : ℕ → ℕ → ℕ → ℕ → Op (Unit {0})
  unfolding table_or_new table_entries free_if
  link_double ino data_block outer inner = do
    v ← gets (λ v. v)
    (root_block, new_root) ←
        on_err (table_or_new (v.inodes ino).double_indirect_block)
          (λ e. do free_block data_block; fail e)
    roots ← on_err (table_entries root_block new_root) (λ _. do free_block data_block; fail eio)
    (child_block, new_child) ←
        on_err (table_or_new (get_or roots outer 0))
          (λ e. do free_block data_block; free_if new_root root_block; fail e)
    pointers ←
        on_err (table_entries child_block new_child)
          (λ _. do free_block data_block; free_if new_root root_block; fail eio)
    on_err (write_block c child_block (word_bytes (set pointers inner data_block))) (λ _. do
      free_block data_block
      free_if new_child child_block
      free_if new_root root_block
      fail eio)
    on_err
        (if new_child
          then write_block c root_block (word_bytes (set roots outer child_block))
          else pure tt)
        (λ _. do
          free_block data_block
          free_block child_block
          free_if new_root root_block
          fail eio)
    v ← gets (λ v. v)
    let n = v.inodes ino
    if new_root then put_inode ino (record n { double_indirect_block = root_block }) else pure tt

  unfoldable pub link_block : ℕ → ℕ → Slot → Op (Unit {0})
  unfolding link_direct link_indirect link_double
  link_block ino data_block (direct_slot i) = link_direct ino data_block i
  link_block ino data_block (indirect_slot i) = link_indirect ino data_block i
  link_block ino data_block (double_slot outer inner) = link_double ino data_block outer inner

  unfoldable pub count_block : ℕ → Op (Unit {0})
  count_block ino = do
    v ← gets (λ v. v)
    let n = v.inodes ino
    put_inode ino (record n { block_count = inc32 n.block_count })

  unfoldable pub allocate_file_data_block : ℕ → ℕ → Op ℕ
  unfolding get_file_data_block allocate_zeroed_data_block link_block count_block
  allocate_file_data_block ino logical_block = do
    existing ← get_file_data_block ino logical_block
    if existing == invalid_block
        then (do
          data_block ← allocate_zeroed_data_block
          link_block ino data_block (slot_of logical_block)
          count_block ino
          pure data_block)
        else pure existing
