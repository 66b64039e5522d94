-- ===== src/Keep/Directory.antt =====
-- Directory entries and the inode table.
use denyfs.Prelude.{ℕ, List, [], ◌∷◌, Option, none, some}
use denyfs.Crypto.{Crypto}
use denyfs.Layout.{Dirent}
use denyfs.Volume.{Vol, Op}
use denyfs.Volume.Frame.{Frame, frame_rules}
use denyfs.Directory.{
  Found, corrupt, at, absent, read_entries, lookup_found, lookup_blocks, vol_lookup, add_new_block,
  add_found, add_to_blocks, add_dirent, remove_from_blocks, remove_dirent,
}
use denyfs.InodeTable.{
  take_inode, alloc_inode, free_entries, free_direct, free_indirect, free_children, free_double,
  free_inode,
}
use denyfs.Keep.{Primitives}
use denyfs.Keep.FileMap.{read_pointer_table-Frame}

module _ {c : Crypto} {R : Vol → Vol → Type 0} (p : Primitives c R) where
  open p use {order, read, write, alloc, free, inode, free_inodes}

  pub read_entries-Frame : (n : ℕ) → Frame R (read_entries c n)
  unfolding read_entries
  read_entries-Frame n = search (frame_rules, order, read) depth 12

  lookup_found-Frame : (f : Found) (next : Op ℕ) → Frame R next → Frame R (lookup_found c f next)
  unfolding lookup_found
  lookup_found-Frame corrupt next h = search (frame_rules, order)
  lookup_found-Frame (at i e) next h = search (frame_rules, order)
  lookup_found-Frame absent next h = h

  lookup_blocks-Frame : (name bs : List ℕ) → Frame R (lookup_blocks c name bs)
  unfolding lookup_blocks
  lookup_blocks-Frame name [] = search (frame_rules, order)
  lookup_blocks-Frame name (b ∷ bs) =
      let ih = lookup_blocks-Frame name bs in
      search (frame_rules, order, read_entries-Frame, lookup_found-Frame, ih) depth 12

  pub vol_lookup-Frame : (name : List ℕ) → Frame R (vol_lookup c name)
  unfolding vol_lookup
  vol_lookup-Frame name = search (frame_rules, order, lookup_blocks-Frame) depth 12

  add_new_block-Frame : (name : List ℕ) (ino : ℕ) → Frame R (add_new_block c name ino)
  unfolding add_new_block
  add_new_block-Frame name ino = search (frame_rules, order, alloc, inode, write) depth 20

  add_found-Frame :
      (f : Found) (b : ℕ) (es : List Dirent) (e : Dirent) (next : Op (Unit {0}))
      → Frame R next
      → Frame R (add_found c f b es e next)
  unfolding add_found
  add_found-Frame corrupt b es e next h = search (frame_rules, order)
  add_found-Frame (at i old) b es e next h = write _ _
  add_found-Frame absent b es e next h = h

  add_to_blocks-Frame :
      (name : List ℕ) (ino : ℕ) (bs : List ℕ) → Frame R (add_to_blocks c name ino bs)
  unfolding add_to_blocks
  add_to_blocks-Frame name ino [] = add_new_block-Frame name ino
  add_to_blocks-Frame name ino (b ∷ bs) =
      let ih = add_to_blocks-Frame name ino bs in
      search (frame_rules, order, read_entries-Frame, add_found-Frame, add_new_block-Frame, ih)
        depth 12

  pub add_dirent-Frame : (name : List ℕ) (ino : ℕ) → Frame R (add_dirent c name ino)
  unfolding add_dirent
  add_dirent-Frame name ino = search (frame_rules, order, add_to_blocks-Frame) depth 12

  remove_from_blocks-Frame : (name bs : List ℕ) → Frame R (remove_from_blocks c name bs)
  unfolding remove_from_blocks
  remove_from_blocks-Frame name [] = search (frame_rules, order)
  remove_from_blocks-Frame name (b ∷ bs) =
      let ih = remove_from_blocks-Frame name bs in
      search (frame_rules, order, read_entries-Frame, add_found-Frame, ih) depth 12

  pub remove_dirent-Frame : (name : List ℕ) → Frame R (remove_dirent c name)
  unfolding remove_dirent
  remove_dirent-Frame name = search (frame_rules, order, remove_from_blocks-Frame) depth 12

  take_inode-Frame : (o : Option ℕ) → Frame R (take_inode o)
  unfolding take_inode
  take_inode-Frame none = search (frame_rules, order)
  take_inode-Frame (some i) = search (frame_rules, order, free_inodes) depth 12

  pub alloc_inode-Frame : Frame R alloc_inode
  unfolding alloc_inode
  alloc_inode-Frame = search (frame_rules, order, take_inode-Frame) depth 12

  free_entries-Frame : (ps : List ℕ) → Frame R (free_entries ps)
  unfolding free_entries
  free_entries-Frame [] = search (frame_rules, order)
  free_entries-Frame (b ∷ ps) =
      let ih = free_entries-Frame ps in search (frame_rules, order, free, ih) depth 12

  free_direct-Frame : (ino : ℕ) → Frame R (free_direct ino)
  unfolding free_direct
  free_direct-Frame ino = search (frame_rules, order, free_entries-Frame, inode) depth 12

  free_indirect-Frame : (ino : ℕ) → Frame R (free_indirect c ino)
  unfolding free_indirect
  free_indirect-Frame ino =
      search (frame_rules, order, read_pointer_table-Frame, free_entries-Frame, free, inode) depth
        20

  free_children-Frame : (rs : List ℕ) → Frame R (free_children c rs)
  unfolding free_children
  free_children-Frame [] = search (frame_rules, order)
  free_children-Frame (r ∷ rs) =
      let ih = free_children-Frame rs in
      search (frame_rules, order, read_pointer_table-Frame, free_entries-Frame, free, ih) depth 20

  free_double-Frame : (ino : ℕ) → Frame R (free_double c ino)
  unfolding free_double
  free_double-Frame ino =
      search (frame_rules, order, read_pointer_table-Frame, free_children-Frame, free, inode) depth
        20

  pub free_inode-Frame : (ino : ℕ) → Frame R (free_inode c ino)
  unfolding free_inode
  free_inode-Frame ino =
      search
        (
          frame_rules, order, free_direct-Frame, free_indirect-Frame, free_double-Frame, inode,
          free_inodes,
        )
        depth 20
