-- ===== src/Validate/Inodes.antt =====
-- src/fs.c: how many inodes the walk of validate_loaded_metadata counts.
use denyfs.Prelude.{
  ℕ, zero, suc, ◌+◌, ◌-◌, ◌≡◌, refl, sym, ap, true, not, ◌&&◌, leb, ◌==◌, if◌then◌else◌, arith,
}
use denyfs.Crypto.{Crypto}
use denyfs.Layout.{
  Inode, itype_free, itype_dir, itype_file, max_file_size, max_file_blocks, max_inodes,
}
use denyfs.Volume.{Vol, ok, eperm, require, pure, ◌>>◌}
use denyfs.Volume.Run.{require-ok, gets-ok}
use denyfs.Volume.Yields.{
  Yields, yielded, Yields-weaken, Yields-pure, Yields-bind, Yields-require, Yields-if, Yields-state,
}
use denyfs.InodeTable.Count.{is_free_inode, count_free_inodes}
use denyfs.Validate.{
  Claims, claim_root, claim_file, claim_inode, claim_inodes, is_clear_inode, good_root,
}
use denyfs.Validate.Metadata.{good_counts, validate_loaded_metadata}
use denyfs.Validate.Reads.{OnlyReads}
use denyfs.Validate.Claiming.{Kept, with_inode, root-Kept, file-Kept}
use denyfs.Validate.Unshared.{no_claims, walked}
use denyfs.Files.Counted.{InodesCounted}

-- Claiming a block counts no inode.
allocated-Kept : (v : Vol) (m : ℕ) → Kept v (λ cl. cl.allocated_inodes ≡ m)
allocated-Kept v m cl b used fresh h = h

module _ {v : Vol} (c : Crypto) where
  read-counts :
      (ino : ℕ) (n : Inode) (cl : Claims)
      → Yields
          (OnlyReads v)
          (λ after. after.allocated_inodes + is_free_inode n ≡ cl.allocated_inodes + 1)
          (if n.type == itype_free
            then (do require (not (ino == 0) && is_clear_inode n) eperm; pure cl)
            else (do
              require (n.type == (if ino == 0 then itype_dir else itype_file)) eperm
              require (leb n.size max_file_size && leb n.block_count max_file_blocks) eperm
              if ino == 0
                  then claim_root n.block_count 0 n.direct (with_inode cl)
                  else claim_file c n (with_inode cl)))
  read-counts ino n cl =
      let kept = allocated-Kept v (cl.allocated_inodes + 1) in
      Yields-if (n.type == itype_free) _ _
        (λ free.
          Yields-bind _ _ (Yields-require (not (ino == 0) && is_clear_inode n) eperm)
            λ _ _. Yields-pure cl (ground arith))
        λ taken.
          Yields-bind _ _
            (Yields-require (n.type == (if ino == 0 then itype_dir else itype_file)) eperm)
            λ _ _.
              Yields-bind _ _
                (Yields-require (leb n.size max_file_size && leb n.block_count max_file_blocks)
                  eperm)
                λ _ _.
                  Yields-weaken (λ after same. ground (arith, same))
                    (Yields-if (ino == 0) _ _
                      (λ _. root-Kept kept n.block_count 0 n.direct (with_inode cl) refl)
                      (λ _. file-Kept kept c n (with_inode cl) refl))

  inode-counts :
      (ino : ℕ) (cl : Claims)
      → Yields
          (OnlyReads v)
          (λ after. after.allocated_inodes + is_free_inode (v.inodes ino) ≡ cl.allocated_inodes + 1)
          (claim_inode c ino cl)
  unfolding claim_inode
  inode-counts ino cl = Yields-bind _ _ Yields-state λ w same.
      Yields-weaken (λ after t. rw (sym (ap (λ (x : Vol). x.inodes ino) same.memory)) t)
        (read-counts ino (w.inodes ino) cl)

  inodes-counts :
      (ino n : ℕ) (cl : Claims)
      → Yields
          (OnlyReads v)
          (λ after.
            after.allocated_inodes + count_free_inodes v.inodes ino n ≡ cl.allocated_inodes + n)
          (claim_inodes c ino n cl)
  unfolding claim_inodes count_free_inodes
  inodes-counts ino zero cl = Yields-pure cl refl
  inodes-counts ino (suc n) cl = Yields-bind _ _ (inode-counts ino cl) λ middle one.
      Yields-weaken (λ after more. omega (arith, one, more)) (inodes-counts (ino + 1) n middle)

root_taken :
    (c : Crypto) (v : Vol) {w : Vol} {u : Unit {0}}
    → validate_loaded_metadata c v ≡ (ok u, w)
    → good_root (v.inodes 0) ≡ true
unfolding validate_loaded_metadata
root_taken c v e = let (good, _) = require-ok _ _ _ (gets-ok _ _ e) in ground arith

-- The comparison of the counts at mount time compares them with the table.
pub validated-InodesCounted :
    (c : Crypto) (v : Vol) {w : Vol} {u : Unit {0}}
    → validate_loaded_metadata c v ≡ (ok u, w)
    → InodesCounted v
unfolding good_counts good_root count_free_inodes
validated-InodesCounted c v e =
    let (before, after, cl, reads, r, good) = walked c v e in
    let root = root_taken c v e in
    let (total, _) = yielded (inodes-counts c 0 max_inodes no_claims) reads r in
    let is_root : is_free_inode (v.inodes 0) ≡ 0 = ground arith in
    let same : v.sb.free_inodes ≡ max_inodes - cl.allocated_inodes = ground arith in
    omega (arith, total, is_root, same)
