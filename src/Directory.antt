-- ===== src/Directory.antt =====
-- src/fs.c: directory entries of the root directory. A name is the list of its bytes without the
-- terminating NUL, so its length is `strlen`.
pub mod Names
pub mod Map
pub mod Search
pub mod Walk
pub mod Inserting
pub mod Adding
pub mod Added
pub mod Grown
pub mod Alike
use denyfs.Prelude.{
  ℕ, ◌+◌, ◌-◌, ◌%◌, ltb, Bool, not, ◌&&◌, ◌||◌, ◌==◌, List, [], ◌∷◌, ◌++◌, length, get_or, set,
  take, replicate, any, bytes_eq, if◌then◌else◌,
}
use denyfs.Layout.{
  Dirent, max_inodes, max_name_len, direct_blocks, dirents_per_block, invalid_block, invalid_ino,
  to_dirents, dirents_bytes,
}
use denyfs.Crypto.{Crypto}
use denyfs.Volume.{
  enoent, enospc, eio, einval, enametoolong, Op, pure, fail, gets, require, or_fail, ◌>>=◌, ◌>>◌,
  put_inode, inc32,
}
use denyfs.Block.{read_block, write_block}
use denyfs.Bitmap.{alloc_block}

abbrev pub dot : ℕ
dot = b'.'

abbrev pub slash : ℕ
slash = b'/'

-- "." and ".."
unfoldable pub is_dots : List ℕ → Bool
unfolding bytes_eq
is_dots name = bytes_eq name (dot ∷ []) || bytes_eq name (dot ∷ dot ∷ [])

unfoldable pub valid_dirent : Dirent → Bool
unfolding is_dots any take
valid_dirent e =
    if e.inode == invalid_ino
    then e.name_len == 0
    else not (e.inode == 0)
      && ltb e.inode max_inodes
      && not (e.name_len == 0)
      && ltb e.name_len max_name_len
      && (get_or e.name e.name_len 0 == 0)
      && not (any (λ b. (b == 0) || (b == slash)) (take e.name_len e.name))
      && not (is_dots (take e.name_len e.name))

-- Does the entry hold the name? `memcmp` of the name's length.
unfoldable pub has_name : List ℕ → Dirent → Bool
unfolding bytes_eq take
has_name name e =
    not (e.inode == invalid_ino)
    && e.name_len == length name
    && bytes_eq (take (length name) e.name) name

unfoldable pub entry_for : List ℕ → ℕ → Dirent
unfolding replicate
entry_for name ino = record {
  inode = ino;
  name_len = length name % 256;
  name = name ++ replicate (max_name_len - length name) 0;
}

unfoldable pub free_entry : Dirent
unfolding replicate
free_entry = record { inode = invalid_ino; name_len = 0; name = replicate max_name_len 0 }

-- What the walk over the entries of a block finds: an entry that is not valid, an entry that
-- satisfies the test, at its index, or neither.
pub data Found : Type 0 where
  corrupt : Found
  at : ℕ → Dirent → Found
  absent : Found

unfoldable pub find_entry : (Dirent → Bool) → ℕ → List Dirent → Found
unfolding valid_dirent
find_entry p i [] = absent
find_entry p i (e ∷ es) =
    let rest = find_entry p (i + 1) es in
    if valid_dirent e then (if p e then at i e else rest) else corrupt

unfoldable pub is_free : Dirent → Bool
is_free e = e.inode == invalid_ino

-- A new directory block: the entry, then 15 free ones.
unfoldable pub fresh_entries : List ℕ → ℕ → List Dirent
unfolding entry_for free_entry replicate
fresh_entries name ino = entry_for name ino ∷ replicate (dirents_per_block - 1) free_entry

module _ (c : Crypto) where
  unfoldable pub read_entries : ℕ → Op (List Dirent)
  read_entries block = do
    bytes ← or_fail eio (read_block c block)
    pure (to_dirents dirents_per_block bytes)

  -- denyfs_vol_lookup: the walk over the blocks of the root directory, which skips free pointers.
  unfoldable pub lookup_found : Found → Op ℕ → Op ℕ
  lookup_found corrupt next = fail eio
  lookup_found (at i e) next = pure e.inode
  lookup_found absent next = next

  unfoldable pub lookup_blocks : List ℕ → List ℕ → Op ℕ
  unfolding lookup_found read_entries find_entry has_name
  lookup_blocks name [] = fail enoent
  lookup_blocks name (block ∷ blocks) =
      let next = lookup_blocks name blocks in
      if block == invalid_block
      then next
      else do entries ← read_entries block; lookup_found (find_entry (has_name name) 0 entries) next

  -- The guard of denyfs_vol_lookup and of denyfs_vol_create on the length of the name.
  unfoldable pub vol_lookup : List ℕ → Op ℕ
  unfolding lookup_blocks
  vol_lookup name = do
    require (not (length name == 0) && ltb (length name) max_name_len) einval
    v ← gets (λ v. v)
    lookup_blocks name (v.inodes 0).direct

  -- add_dirent: the first free entry of the blocks in front of the first free pointer.
  unfoldable pub add_new_block : List ℕ → ℕ → Op (Unit {0})
  unfolding fresh_entries
  add_new_block name ino = do
    v ← gets (λ v. v)
    require (ltb (v.inodes 0).block_count direct_blocks) enospc
    new_blk ← or_fail enospc alloc_block
    v ← gets (λ v. v)
    let root = v.inodes 0
    put_inode 0 (record root {
      direct = set root.direct root.block_count new_blk;
      block_count = inc32 root.block_count;
    })
    write_block c new_blk (dirents_bytes (fresh_entries name ino))

  unfoldable pub add_found : Found → ℕ → List Dirent → Dirent → Op (Unit {0}) → Op (Unit {0})
  add_found corrupt block entries e next = fail eio
  add_found (at i old) block entries e next = write_block c block (dirents_bytes (set entries i e))
  add_found absent block entries e next = next

  unfoldable pub add_to_blocks : List ℕ → ℕ → List ℕ → Op (Unit {0})
  unfolding add_new_block add_found read_entries find_entry is_free entry_for
  add_to_blocks name ino [] = add_new_block name ino
  add_to_blocks name ino (block ∷ blocks) =
      let next = add_to_blocks name ino blocks in
      if block == invalid_block then add_new_block name ino else do
        entries ← read_entries block
        add_found (find_entry is_free 0 entries) block entries (entry_for name ino) next

  unfoldable pub add_dirent : List ℕ → ℕ → Op (Unit {0})
  unfolding add_to_blocks
  add_dirent name ino = do
    require (not (length name == 0) && ltb (length name) max_name_len) enametoolong
    v ← gets (λ v. v)
    add_to_blocks name ino (v.inodes 0).direct

  -- remove_dirent.
  unfoldable pub remove_from_blocks : List ℕ → List ℕ → Op (Unit {0})
  unfolding add_found read_entries find_entry has_name free_entry
  remove_from_blocks name [] = fail enoent
  remove_from_blocks name (block ∷ blocks) =
      let next = remove_from_blocks name blocks in
      if block == invalid_block then next else do
        entries ← read_entries block
        add_found (find_entry (has_name name) 0 entries) block entries free_entry next

  unfoldable pub remove_dirent : List ℕ → Op (Unit {0})
  unfolding remove_from_blocks
  remove_dirent name = do v ← gets (λ v. v); remove_from_blocks name (v.inodes 0).direct
