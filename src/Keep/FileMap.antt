-- ===== src/Keep/FileMap.antt =====
-- The block map: pointer tables, lookup and allocation of file blocks.
use denyfs.Prelude.{ℕ, List, Bool}
use denyfs.Crypto.{Crypto}
use denyfs.Layout.{Inode}
use denyfs.Volume.{Vol}
use denyfs.Volume.Frame.{Frame, frame_rules}
use denyfs.FileMap.{
  Slot, direct_slot, indirect_slot, double_slot, check_block, read_pointer_table, allocate_filled,
  allocate_pointer_table, allocate_zeroed_data_block, slot_block, get_file_data_block, table_or_new,
  table_entries, free_if, link_direct, link_indirect, link_double, link_block, count_block,
  allocate_file_data_block,
}
use denyfs.Keep.{Primitives}

module _ {c : Crypto} {R : Vol → Vol → Type 0} (p : Primitives c R) where
  open p use {order, read, write, alloc, free, inode}

  pub check_block-Frame : (n : ℕ) → Frame R (check_block n)
  unfolding check_block
  check_block-Frame n = search (frame_rules, order) depth 12

  pub read_pointer_table-Frame : (n : ℕ) → Frame R (read_pointer_table c n)
  unfolding read_pointer_table
  read_pointer_table-Frame n = search (frame_rules, order, read) depth 12

  allocate_filled-Frame : (b : List ℕ) → Frame R (allocate_filled c b)
  unfolding allocate_filled
  allocate_filled-Frame b = search (frame_rules, order, write, free, alloc) depth 12

  allocate_pointer_table-Frame : Frame R (allocate_pointer_table c)
  unfolding allocate_pointer_table
  allocate_pointer_table-Frame = allocate_filled-Frame _

  slot_block-Frame : (n : Inode) (s : Slot) → Frame R (slot_block c n s)
  unfolding slot_block
  slot_block-Frame n (direct_slot i) = search (frame_rules, order)
  slot_block-Frame n (indirect_slot i) =
      search (frame_rules, order, read_pointer_table-Frame) depth 12
  slot_block-Frame n (double_slot i j) =
      search (frame_rules, order, read_pointer_table-Frame) depth 16

  pub get_file_data_block-Frame : (ino logical : ℕ) → Frame R (get_file_data_block c ino logical)
  unfolding get_file_data_block
  get_file_data_block-Frame ino logical =
      search (frame_rules, order, slot_block-Frame, check_block-Frame) depth 12

  table_or_new-Frame : (n : ℕ) → Frame R (table_or_new c n)
  unfolding table_or_new
  table_or_new-Frame n = search (frame_rules, order, allocate_pointer_table-Frame) depth 12

  table_entries-Frame : (n : ℕ) (new : Bool) → Frame R (table_entries c n new)
  unfolding table_entries
  table_entries-Frame n new = search (frame_rules, order, read_pointer_table-Frame) depth 12

  free_if-Frame : (new : Bool) (n : ℕ) → Frame R (free_if c new n)
  unfolding free_if
  free_if-Frame new n = search (frame_rules, order, free) depth 12

  link_direct-Frame : (ino b i : ℕ) → Frame R (link_direct c ino b i)
  unfolding link_direct
  link_direct-Frame ino b i = search (frame_rules, order, inode) depth 12

  link_indirect-Frame : (ino b i : ℕ) → Frame R (link_indirect c ino b i)
  unfolding link_indirect
  link_indirect-Frame ino b i =
      search
        (
          frame_rules, table_or_new-Frame, table_entries-Frame, free_if-Frame, order, write, free,
          inode,
        )
        depth 30

  link_double-Frame : (ino b i j : ℕ) → Frame R (link_double c ino b i j)
  unfolding link_double
  link_double-Frame ino b i j =
      search
        (
          frame_rules, table_or_new-Frame, table_entries-Frame, free_if-Frame, order, write, free,
          inode,
        )
        depth 40

  link_block-Frame : (ino b : ℕ) (s : Slot) → Frame R (link_block c ino b s)
  unfolding link_block
  link_block-Frame ino b (direct_slot i) = link_direct-Frame ino b i
  link_block-Frame ino b (indirect_slot i) = link_indirect-Frame ino b i
  link_block-Frame ino b (double_slot i j) = link_double-Frame ino b i j

  count_block-Frame : (ino : ℕ) → Frame R (count_block c ino)
  unfolding count_block
  count_block-Frame ino = search (frame_rules, order, inode) depth 12

  pub allocate_file_data_block-Frame :
      (ino logical : ℕ) → Frame R (allocate_file_data_block c ino logical)
  unfolding allocate_file_data_block allocate_zeroed_data_block
  allocate_file_data_block-Frame ino logical =
      search
        (
          frame_rules, order, get_file_data_block-Frame, allocate_filled-Frame, link_block-Frame,
          count_block-Frame,
        )
        depth 20
