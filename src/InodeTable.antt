-- ===== src/InodeTable.antt =====
-- src/fs.c: alloc_inode and free_inode.
pub mod Count
use denyfs.Prelude.{
  ℕ, zero, suc, ◌+◌, ◌-◌, ◌==◌, Option, none, some, List, [], ◌∷◌, length, if◌then◌else◌,
}
use denyfs.Layout.{Inode, max_inodes, itype_free, invalid_block, no_blocks}
use denyfs.Crypto.{Crypto}
use denyfs.Volume.{
  eperm, eio, Op, pure, fail, gets, or_fail, ◌>>=◌, ◌>>◌, put_inode, put_free_inodes, inc32, dec32,
}
use denyfs.Bitmap.{free_block}
use denyfs.FileMap.{read_pointer_table}

unfoldable pub find_free_inode : (ℕ → Inode) → ℕ → ℕ → Option ℕ
find_free_inode t i zero = none
find_free_inode t i (suc n) =
    let rest = find_free_inode t (i + 1) n in if (t i).type == itype_free then some i else rest

unfoldable pub take_inode : Option ℕ → Op ℕ
take_inode none = fail eperm
take_inode (some i) = do v ← gets (λ v. v); put_free_inodes (dec32 v.sb.free_inodes); pure i

-- Inode 0 is the root directory: the search starts at 1.
unfoldable pub alloc_inode : Op ℕ
unfolding find_free_inode take_inode
alloc_inode = do v ← gets (λ v. v); take_inode (find_free_inode v.inodes 1 (max_inodes - 1))

-- `if (p != DENYFS_INVALID_BLOCK) free_block(vol, p)`, for each entry of a table.
unfoldable pub free_entries : List ℕ → Op (Unit {0})
free_entries [] = pure tt
free_entries (p ∷ ps) = do if p == invalid_block then pure tt else free_block p; free_entries ps

unfoldable pub free_direct : ℕ → Op (Unit {0})
unfolding free_entries
free_direct ino = do
  v ← gets (λ v. v)
  free_entries (v.inodes ino).direct
  v ← gets (λ v. v)
  let n = v.inodes ino
  put_inode ino (record n { direct = no_blocks (length n.direct) })

module _ (c : Crypto) where
  unfoldable pub free_indirect : ℕ → Op (Unit {0})
  unfolding free_entries
  free_indirect ino = do
    v ← gets (λ v. v)
    let table = (v.inodes ino).indirect_block
    if table == invalid_block then pure tt else do
      pointers ← or_fail eio (read_pointer_table c table)
      free_entries pointers
      free_block table
      v ← gets (λ v. v)
      let n = v.inodes ino
      put_inode ino (record n { indirect_block = invalid_block })

  -- The child tables of a double-indirect table, each with the blocks that it names.
  unfoldable pub free_children : List ℕ → Op (Unit {0})
  unfolding free_entries
  free_children [] = pure tt
  free_children (child ∷ roots) = do
    if child == invalid_block then pure tt else do
      pointers ← or_fail eio (read_pointer_table c child)
      free_entries pointers
      free_block child
    free_children roots

  unfoldable pub free_double : ℕ → Op (Unit {0})
  unfolding free_children
  free_double ino = do
    v ← gets (λ v. v)
    let table = (v.inodes ino).double_indirect_block
    if table == invalid_block then pure tt else do
      roots ← or_fail eio (read_pointer_table c table)
      free_children roots
      free_block table
      v ← gets (λ v. v)
      let n = v.inodes ino
      put_inode ino (record n { double_indirect_block = invalid_block })

  unfoldable pub free_inode : ℕ → Op (Unit {0})
  unfolding free_direct free_indirect free_double
  free_inode ino = do
    free_direct ino
    free_indirect ino
    free_double ino
    v ← gets (λ v. v)
    let n = v.inodes ino
    put_inode ino (record n { type = itype_free; size = 0; block_count = 0; mtime = 0 })
    put_free_inodes (inc32 v.sb.free_inodes)
