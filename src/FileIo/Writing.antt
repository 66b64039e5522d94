-- ===== src/FileIo/Writing.antt =====
-- src/fs.c: what a denyfs_vol_write that succeeds has done.
use denyfs.Prelude.{
  ℕ, zero, suc, ◌+◌, ◌-◌, ◌≤◌, ◌<◌, ◌≡◌, inl, inr, refl, sym, ap, ◌∙◌, min, ◌%◌, List, length, drop,
  length-drop, ltb→lt, ==→eq, ◌==◌, arith,
}
use denyfs.Layout.{Inode, sector_size, max_inodes, max_file_size, itype_file}
use denyfs.Crypto.{Crypto}
use denyfs.Volume.{Device, Vol, ok, Exec, put_inode, put_hmac, clear_dirty, eio, or_fail, on_device}
use denyfs.Volume.Frame.{Frame, frame, IsPreorder, frame_rules}
use denyfs.Volume.Run.{bind-ok, require-ok, gets-ok, pure-ok, if-ok, ran}
use denyfs.Block.{write_block}
use denyfs.FileIo.{flush_bitmap, flush_inodes, vol_flush, write_loop, vol_write}

-- The inode table in memory stays.
abbrev SameInodes : Vol → Vol → Type 0
SameInodes v w = w.inodes ≡ v.inodes

SameInodes-order : IsPreorder SameInodes
SameInodes-order = record { same = λ v. refl; trans = λ u v w p q. q ∙ p }

on_device-SameInodes : {A : Type 0} (m : Exec Device A) → Frame SameInodes (on_device m)
unfolding on_device
on_device-SameInodes m = frame λ v. refl

put_hmac-SameInodes : (d : List ℕ) → Frame SameInodes (put_hmac d)
unfolding put_hmac
put_hmac-SameInodes d = frame λ v. refl

clear_dirty-SameInodes : Frame SameInodes clear_dirty
unfolding clear_dirty
clear_dirty-SameInodes = frame λ v. refl

put_inode-at :
    (ino : ℕ) (n : Inode) (v : Vol) {u : Unit {0}} {w : Vol}
    → put_inode ino n v ≡ (ok u, w)
    → w.inodes ino ≡ n
unfolding put_inode
put_inode-at ino n v h = ap (λ p. p.1.inodes ino) (sym h) ∙ ground arith

module _ (c : Crypto) where
  write_block-SameInodes : (n : ℕ) (b : List ℕ) → Frame SameInodes (write_block c n b)
  unfolding write_block
  write_block-SameInodes n b = search (frame_rules, SameInodes-order, on_device-SameInodes) depth 20

  flush_bitmap-SameInodes : (i n : ℕ) → Frame SameInodes (flush_bitmap c i n)
  unfolding flush_bitmap
  flush_bitmap-SameInodes i zero = search (frame_rules, SameInodes-order)
  flush_bitmap-SameInodes i (suc n) =
      let ih = flush_bitmap-SameInodes (i + 1) n in
      search (frame_rules, SameInodes-order, write_block-SameInodes, ih) depth 20

  flush_inodes-SameInodes : (i n : ℕ) → Frame SameInodes (flush_inodes c i n)
  unfolding flush_inodes
  flush_inodes-SameInodes i zero = search (frame_rules, SameInodes-order)
  flush_inodes-SameInodes i (suc n) =
      let ih = flush_inodes-SameInodes (i + 1) n in
      search (frame_rules, SameInodes-order, write_block-SameInodes, ih) depth 20

  vol_flush-SameInodes : Frame SameInodes (vol_flush c)
  unfolding vol_flush
  vol_flush-SameInodes =
      search
        (
          frame_rules, SameInodes-order, write_block-SameInodes, flush_bitmap-SameInodes,
          flush_inodes-SameInodes, on_device-SameInodes, put_hmac-SameInodes,
          clear_dirty-SameInodes,
        )
        depth 40

  -- The loop counts every byte of its source, since each round takes at least one.
  write_loop-ok :
      (fuel ino pos : ℕ) (src : List ℕ) (n : ℕ) (v : Vol) {m : ℕ} {w : Vol}
      → length src ≤ fuel
      → write_loop c fuel ino pos src n v ≡ (ok m, w)
      → m ≡ n + length src
  unfolding write_loop
  write_loop-ok zero ino pos src n v enough h =
      let (same, _) = pure-ok _ _ h in omega (arith, same, enough)
  write_loop-ok (suc fuel) ino pos src n v enough h = elim (if-ok (length src == 0) _ _ {s = v} h) [
    | inl (empty, h1) ↦ (let (same, _) = pure-ok _ _ h1 in ground arith)
    | inr (more, h1) ↦
        let (_, _, _, h2) = bind-ok _ _ h1 in
        let (_, _, _, h3) = bind-ok _ _ h2 in
        let (_, w2, _, h4) = bind-ok _ _ h3 in
        let chunk : ℕ = min (sector_size - pos % sector_size) (length src) in
        let left = length-drop chunk src in
        let some_bytes : 1 ≤ chunk = ground arith in
        let step =
          write_loop-ok fuel ino (pos + chunk) (drop chunk src) (n + chunk) w2
            (omega (arith, left, enough, some_bytes)) h4 in
        omega (arith, step, left)
  ]

  -- A write that succeeds started inside the largest file size and ends inside it, on a file; it
  -- returns the number of bytes of its buffer, and the file then reaches at least to their end.
  pub vol_write-ok :
      (now ino : ℕ) (buf : List ℕ) (offset : ℕ) (v : Vol) {n : ℕ} {w : Vol}
      → vol_write c now ino buf offset v ≡ (ok n, w)
      → (n ≡ length buf)
        × (ino < max_inodes)
        × ((v.inodes ino).type ≡ itype_file)
        × (offset + length buf ≤ max_file_size)
        × (offset + length buf ≤ (w.inodes ino).size)
  unfolding vol_write
  vol_write-ok now ino buf offset v h =
      let (in_table, h1) = require-ok _ _ _ h in
      let (_, h2) = require-ok _ _ _ h1 in
      let h3 = gets-ok _ _ h2 in
      let (is_file, h4) = require-ok _ _ _ h3 in
      let (fits, h5) = require-ok _ _ _ h4 in
      let (written, v1, r1, h6) = bind-ok _ _ h5 in
      let h7 = gets-ok _ _ h6 in
      let (_, v2, r2, h8) = bind-ok _ _ h7 in
      let (_, v3, r3, h9) = bind-ok _ _ h8 in
      let (same, end) = pure-ok _ _ h9 in
      let total = write_loop-ok (length buf) ino offset buf 0 v (omega arith) r1 in
      let put = put_inode-at ino _ v1 r2 in
      let kept = ran r3 or_fail_flush in
      let size =
        ap (λ (u : Vol). (u.inodes ino).size) (sym end)
        ∙ ap (λ (f : ℕ → Inode). (f ino).size) kept
        ∙ ap (λ (x : Inode). x.size) put in
      (
        omega (arith, same, total),
        ltb→lt _ _ in_table,
        ==→eq _ _ is_file,
        ground arith,
        omega (arith, size),
      )
    where
      or_fail_flush : Frame SameInodes (or_fail eio (vol_flush c))
      or_fail_flush = search (frame_rules, SameInodes-order, vol_flush-SameInodes) depth 12
