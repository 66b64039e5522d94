-- ===== src/Files.antt =====
-- src/fs.c: denyfs_vol_create, denyfs_vol_unlink and denyfs_vol_readdir.
pub mod Creating
pub mod Counted
pub mod Lookup
pub mod Remount
use denyfs.Prelude.{ℕ, ltb, Bool, not, ◌==◌, ◌&&◌, List, [], ◌∷◌, length, take, any, if◌then◌else◌}
use denyfs.Layout.{
  Inode, Dirent, max_name_len, direct_blocks, itype_free, itype_file, invalid_block, no_blocks,
}
use denyfs.Crypto.{Crypto}
use denyfs.Volume.{
  Vol, Res, ok, err, enoent, eexist, eio, einval, enospc, Op, pure, fail, gets, require, on_err,
  or_fail, ◌>>=◌, ◌>>◌, put_inode, put_free_inodes, inc32,
}
use denyfs.Directory.{
  slash, is_dots, valid_dirent, is_free, read_entries, vol_lookup, add_dirent, remove_dirent,
}
use denyfs.InodeTable.{alloc_inode, free_inode}
use denyfs.FileIo.{vol_flush}

-- The guard of denyfs_vol_create on the name.
unfoldable pub good_name : List ℕ → Bool
unfolding is_dots any
good_name name =
    not (length name == 0)
    && ltb (length name) max_name_len
    && not (any (λ b. b == slash) name)
    && not (is_dots name)

-- A new inode in slot `old`: the fields that the code sets.
unfoldable pub new_inode : ℕ → Inode → Inode
new_inode now old = record old {
  type = itype_file;
  size = 0;
  block_count = 0;
  direct = no_blocks direct_blocks;
  indirect_block = invalid_block;
  double_indirect_block = invalid_block;
  mtime = now;
}

-- The roll-back of a failed add_dirent: only the type and the count of free inodes.
unfoldable pub give_back_inode : ℕ → Op (Unit {0})
give_back_inode ino = do
  v ← gets (λ v. v)
  let n = v.inodes ino
  put_inode ino (record n { type = itype_free })
  put_free_inodes (inc32 v.sb.free_inodes)

-- How the walk of denyfs_vol_readdir over a block ends: at its end, at the callback's request, or
-- at an entry that is not valid.
pub data Walk : Type 0 where
  walked stopped bad_entry : Walk

-- The callback is shown the NUL-terminated name and the inode number; it changes its own state and
-- asks to stop with `true`.
unfoldable pub show_entries :
    {S : Type 0} → (S → List ℕ → ℕ → S × Bool) → List Dirent → S → S × Walk
unfolding valid_dirent is_free take
show_entries cb [] s = (s, walked)
show_entries cb (e ∷ es) s =
    let skipped = show_entries cb es s in
    let (s', stop) = cb s (take e.name_len e.name) e.inode in
    let next = show_entries cb es s' in
    if valid_dirent e
    then (if is_free e then skipped else if stop then (s', stopped) else next)
    else (s, bad_entry)

module _ (c : Crypto) where
  -- The lookup of denyfs_vol_create: a hit is -EEXIST, and only -ENOENT goes on.
  unfoldable pub after_lookup : Res ℕ × Vol → Op (Unit {0}) → Res (Unit {0}) × Vol
  after_lookup (ok ino, v) next = fail eexist v
  after_lookup (err enoent, v) next = next v
  after_lookup (err e, v) next = fail e v

  unfoldable pub check_absent : List ℕ → Op (Unit {0})
  unfolding after_lookup
  check_absent name v = after_lookup (vol_lookup c name v) (pure tt)

  unfoldable pub vol_create : ℕ → List ℕ → Op ℕ
  unfolding check_absent good_name new_inode give_back_inode
  vol_create now name = do
    require (good_name name) einval
    check_absent name
    ino ← or_fail enospc alloc_inode
    v ← gets (λ v. v)
    put_inode ino (new_inode now (v.inodes ino))
    on_err (add_dirent c name ino) (λ e. do give_back_inode ino; fail e)
    or_fail eio (vol_flush c)
    pure ino

  unfoldable pub vol_unlink : List ℕ → Op (Unit {0})
  vol_unlink name = do
    ino ← or_fail enoent (vol_lookup c name)
    remove_dirent c name
    or_fail eio (free_inode c ino)
    or_fail eio (vol_flush c)

  -- denyfs_vol_readdir. The callback's state comes back with the result, also after a failure.
  unfoldable pub after_block :
      {S : Type 0} → S × Walk → (S → Op (S × Res (Unit {0}))) → Op (S × Res (Unit {0}))
  after_block (s, walked) next = next s
  after_block (s, stopped) next = pure (s, ok tt)
  after_block (s, bad_entry) next = pure (s, err eio)

  unfoldable pub readdir_blocks :
      {S : Type 0} → (S → List ℕ → ℕ → S × Bool) → List ℕ → S → Op (S × Res (Unit {0}))
  unfolding after_block show_entries read_entries
  readdir_blocks cb [] s = pure (s, ok tt)
  readdir_blocks cb (block ∷ blocks) s =
      let next = readdir_blocks cb blocks in
      if block == invalid_block
      then next s
      else on_err (do entries ← read_entries c block; after_block (show_entries cb entries s) next)
          (λ _. pure (s, err eio))

  unfoldable pub vol_readdir :
      {S : Type 0} → (S → List ℕ → ℕ → S × Bool) → S → Op (S × Res (Unit {0}))
  unfolding readdir_blocks
  vol_readdir cb s = do v ← gets (λ v. v); readdir_blocks cb (v.inodes 0).direct s
