-- ===== src/Validate/Owners.antt =====
-- src/fs.c: what the walk of validate_loaded_metadata makes sure of one inode.
use denyfs.Prelude.{ℕ, ◌+◌, ◌/◌, ◌-◌, sym, ap, not, ◌&&◌, leb, ◌==◌, if◌then◌else◌, List, arith}
use denyfs.Crypto.{Crypto}
use denyfs.Layout.{
  Inode, sector_size, itype_free, itype_dir, itype_file, max_file_size, max_file_blocks,
}
use denyfs.Volume.{Vol, eperm, require, pure, ◌>>◌}
use denyfs.Volume.Yields.{
  Yields, Yields-weaken, Yields-pure, Yields-bind, Yields-require, Yields-if, Yields-state,
}
use denyfs.Validate.{Claims, claim_root, claim_file, claim_inode, is_clear_inode}
use denyfs.Validate.Reads.{OnlyReads}
use denyfs.Validate.Claiming.{with_inode, tables-Kept}
use denyfs.Validate.Direct.{Takes, Takes-grows, Takes-clear, entries-Takes, root-Takes, grows-Kept}

-- How many blocks an inode may have: the root directory its count, a file those up to its size.
abbrev pub block_limit : ℕ → Inode → ℕ
block_limit ino n = if ino == 0 then n.block_count else (n.size + sector_size - 1) / sector_size

abbrev pub TakesInode : Vol → ℕ → Claims → Claims → Type 0
TakesInode v ino before after =
    Takes v (block_limit ino (v.inodes ino)) 0 (v.inodes ino).direct before after

-- The count of the inodes makes no difference.
uncounted :
    {v : Vol} {n i : ℕ} {bs : List ℕ} {cl after : Claims}
    → Takes v n i bs (with_inode cl) after
    → Takes v n i bs cl after
uncounted t = record {
  grows = t.grows;
  fresh = t.fresh;
  used = t.used;
  taken = t.taken;
  inside = t.inside;
  distinct = t.distinct;
}

module _ {v : Vol} (c : Crypto) where
  file-Takes :
      (n : Inode) (cl : Claims)
      → Yields
          (OnlyReads v)
          (Takes v ((n.size + sector_size - 1) / sector_size) 0 n.direct cl)
          (claim_file c n cl)
  unfolding claim_file
  file-Takes n cl = Yields-bind _ _ (entries-Takes 0 n.direct (cl, 0)) λ acc t.
      Yields-weaken (λ after g. Takes-grows g t)
        (tables-Kept (grows-Kept v acc.0) c n _ acc (λ b h. h))

  -- The inode itself, once it is read.
  read-Takes :
      (ino : ℕ) (n : Inode) (cl : Claims)
      → Yields (OnlyReads v) (Takes v (block_limit ino n) 0 n.direct cl) (
          if n.type == itype_free
          then (do require (not (ino == 0) && is_clear_inode n) eperm; pure cl)
          else (do
            require (n.type == (if ino == 0 then itype_dir else itype_file)) eperm
            require (leb n.size max_file_size && leb n.block_count max_file_blocks) eperm
            if ino == 0
                then claim_root n.block_count 0 n.direct (with_inode cl)
                else claim_file c n (with_inode cl)))
  unfolding is_clear_inode
  read-Takes ino n cl =
      Yields-if (n.type == itype_free) _ _
        (λ _.
          Yields-bind _ _ (Yields-require (not (ino == 0) && is_clear_inode n) eperm)
            λ _ clear. Yields-pure cl (Takes-clear n.direct cl (ground arith)))
        λ _.
          Yields-bind _ _
            (Yields-require (n.type == (if ino == 0 then itype_dir else itype_file)) eperm)
            λ _ _.
              Yields-bind _ _
                (Yields-require (leb n.size max_file_size && leb n.block_count max_file_blocks)
                  eperm)
                λ _ _.
                  Yields-if (ino == 0) _ _
                    (λ root.
                      rw root (
                        Yields-weaken (λ p t. uncounted t) (root-Takes 0 n.direct (with_inode cl))))
                    λ file.
                      rw file (Yields-weaken (λ p t. uncounted t) (file-Takes n (with_inode cl)))

  pub inode-Takes :
      (ino : ℕ) (cl : Claims) → Yields (OnlyReads v) (TakesInode v ino cl) (claim_inode c ino cl)
  unfolding claim_inode
  inode-Takes ino cl = Yields-bind _ _ Yields-state λ w same.
      Yields-weaken (λ after t. rw (sym (ap (λ (x : Vol). x.inodes ino) same.memory)) t)
        (read-Takes ino (w.inodes ino) cl)
