-- ===== src/Keep/Files.antt =====
-- Reading, writing, truncating, creating, deleting and listing files.
use denyfs.Prelude.{◌+◌, ℕ, zero, suc, List, [], ◌∷◌}
use denyfs.Crypto.{Crypto}
use denyfs.Volume.{Vol}
use denyfs.Volume.Frame.{Frame, frame_rules}
use denyfs.FileIo.{
  flush_bitmap, flush_inodes, vol_flush, read_chunk, read_loop, vol_read, block_for_write,
  write_loop, vol_write,
}
use denyfs.Truncate.{
  drop_block, cut_entries, cut_direct, cut_indirect, cut_child, cut_children, cut_double,
  truncate_file_blocks, zero_tail, shrink, vol_truncate,
}
use denyfs.Keep.{Primitives}
use denyfs.Keep.FileMap.{
  read_pointer_table-Frame, get_file_data_block-Frame, allocate_file_data_block-Frame,
}

module _ {c : Crypto} {R : Vol → Vol → Type 0} (p : Primitives c R) where
  open p use {order, read, write, free, inode, hmac, flush, clear}

  flush_bitmap-Frame : (i n : ℕ) → Frame R (flush_bitmap c i n)
  unfolding flush_bitmap
  flush_bitmap-Frame i zero = search (frame_rules, order)
  flush_bitmap-Frame i (suc n) =
      search (frame_rules, order, write, flush_bitmap-Frame (i + 1) n) depth 12

  flush_inodes-Frame : (i n : ℕ) → Frame R (flush_inodes c i n)
  unfolding flush_inodes
  flush_inodes-Frame i zero = search (frame_rules, order)
  flush_inodes-Frame i (suc n) =
      search (frame_rules, order, write, flush_inodes-Frame (i + 1) n) depth 12

  pub vol_flush-Frame : Frame R (vol_flush c)
  unfolding vol_flush
  vol_flush-Frame =
      search (frame_rules, order, hmac, write, flush_bitmap-Frame, flush_inodes-Frame, flush, clear)
        depth 30

  read_chunk-Frame : (b i n : ℕ) → Frame R (read_chunk c b i n)
  unfolding read_chunk
  read_chunk-Frame b i n = search (frame_rules, order, read) depth 12

  read_loop-Frame : (fuel ino pos left : ℕ) → Frame R (read_loop c fuel ino pos left)
  unfolding read_loop
  read_loop-Frame zero ino pos left = search (frame_rules, order)
  read_loop-Frame (suc fuel) ino pos left =
      search
        (
          frame_rules,
          order,
          get_file_data_block-Frame,
          read_chunk-Frame,
          read_loop-Frame fuel ino _ _,
        )
        depth 20

  pub vol_read-Frame : (ino size offset : ℕ) → Frame R (vol_read c ino size offset)
  unfolding vol_read
  vol_read-Frame ino size offset = search (frame_rules, order, read_loop-Frame) depth 20

  block_for_write-Frame : (ino i : ℕ) → Frame R (block_for_write c ino i)
  unfolding block_for_write
  block_for_write-Frame ino i =
      search (frame_rules, order, get_file_data_block-Frame, allocate_file_data_block-Frame) depth
        12

  write_loop-Frame :
      (fuel ino pos : ℕ) (src : List ℕ) (n : ℕ) → Frame R (write_loop c fuel ino pos src n)
  unfolding write_loop
  write_loop-Frame zero ino pos src n = search (frame_rules, order)
  write_loop-Frame (suc fuel) ino pos src n =
      search
        (frame_rules, order, block_for_write-Frame, read, write, write_loop-Frame fuel ino _ _ _)
        depth 20

  pub vol_write-Frame :
      (now ino : ℕ) (buf : List ℕ) (offset : ℕ) → Frame R (vol_write c now ino buf offset)
  unfolding vol_write
  vol_write-Frame now ino buf offset =
      search (frame_rules, order, write_loop-Frame, inode, vol_flush-Frame) depth 30

  drop_block-Frame : (ino b : ℕ) → Frame R (drop_block ino b)
  unfolding drop_block
  drop_block-Frame ino b = search (frame_rules, order, free, inode) depth 12

  cut_entries-Frame : (ino k i : ℕ) (ps : List ℕ) → Frame R (cut_entries ino k i ps)
  unfolding cut_entries
  cut_entries-Frame ino k i [] = search (frame_rules, order)
  cut_entries-Frame ino k i (b ∷ ps) =
      search (frame_rules, order, drop_block-Frame, cut_entries-Frame ino k (i + 1) ps) depth 12

  cut_direct-Frame : (ino k : ℕ) → Frame R (cut_direct ino k)
  unfolding cut_direct
  cut_direct-Frame ino k = search (frame_rules, order, cut_entries-Frame, inode) depth 12

  cut_indirect-Frame : (ino k : ℕ) → Frame R (cut_indirect c ino k)
  unfolding cut_indirect
  cut_indirect-Frame ino k =
      search (frame_rules, order, read_pointer_table-Frame, cut_entries-Frame, free, inode, write)
        depth 20

  cut_child-Frame : (ino k i b : ℕ) → Frame R (cut_child c ino k i b)
  unfolding cut_child
  cut_child-Frame ino k i b =
      search (frame_rules, order, read_pointer_table-Frame, cut_entries-Frame, free, write) depth 20

  cut_children-Frame : (ino k i : ℕ) (rs : List ℕ) → Frame R (cut_children c ino k i rs)
  unfolding cut_children
  cut_children-Frame ino k i [] = search (frame_rules, order)
  cut_children-Frame ino k i (b ∷ rs) =
      search (frame_rules, order, cut_child-Frame, cut_children-Frame ino k (i + 1024) rs) depth 12

  cut_double-Frame : (ino k : ℕ) → Frame R (cut_double c ino k)
  unfolding cut_double
  cut_double-Frame ino k =
      search (frame_rules, order, read_pointer_table-Frame, cut_children-Frame, free, inode, write)
        depth 20

  truncate_file_blocks-Frame : (ino k : ℕ) → Frame R (truncate_file_blocks c ino k)
  unfolding truncate_file_blocks
  truncate_file_blocks-Frame ino k =
      search (frame_rules, order, cut_direct-Frame, cut_indirect-Frame, cut_double-Frame) depth 12

  zero_tail-Frame : (ino size : ℕ) → Frame R (zero_tail c ino size)
  unfolding zero_tail
  zero_tail-Frame ino size =
      search (frame_rules, order, get_file_data_block-Frame, read, write) depth 20

  pub vol_truncate-Frame : (now ino size : ℕ) → Frame R (vol_truncate c now ino size)
  unfolding vol_truncate shrink
  vol_truncate-Frame now ino size =
      search
        (frame_rules, order, zero_tail-Frame, truncate_file_blocks-Frame, inode, vol_flush-Frame)
        depth 30
