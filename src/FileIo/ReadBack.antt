-- ===== src/FileIo/ReadBack.antt =====
-- src/fs.c: what a denyfs_vol_write put into blocks that the file had is what denyfs_vol_read
-- returns.
use denyfs.Prelude.{
  ℕ, ◌+◌, ◌-◌, ◌*◌, ◌≤◌, ◌<◌, ◌≡◌, refl, sym, ap, ◌∙◌, inl, inr, true, Bool-cases, ◌==◌, ltb, leb,
  min, max, List, [], ◌∷◌, length, take_all, tabulate, get_or, arith,
}
use denyfs.Crypto.{Crypto, XtsLaws}
use denyfs.Layout.{Inode, sector_size, max_inodes, int_max, itype_file}
use denyfs.Volume.{Vol, ok, put_inode, update, ◌>>=◌}
use denyfs.Volume.Run.{bind-ok, require-ok, gets-ok, pure-ok, or_fail-ok, ran}
use denyfs.Block.Reliable.{Reliable, KeepsReliable-Primitives}
use denyfs.Keep.{Primitives}
use denyfs.Keep.Files.{vol_flush-Frame}
use denyfs.FileIo.{vol_read, vol_write}
use denyfs.FileIo.Bytes.{overlay, overlay-inside, piece-tabulate}
use denyfs.FileIo.InPlace.{file_byte, InPlace}
use denyfs.FileIo.Rewriting.{write_loop-Rewritten}
use denyfs.FileIo.Flushed.{vol_flush-Flushed}
use denyfs.FileIo.Kept.{InFront}
use denyfs.FileIo.Rereading.{read_loop-there}
use denyfs.FileIo.SameFile.{
  SameFile, SameFile-InPlace, SameFile-byte, put_inode-SameFile, Flushed-SameFile,
}

module _ (c : Crypto) (ino first last : ℕ) where
  module _ (laws : XtsLaws c) where
    empty : (xs : List ℕ) → length xs ≡ 0 → [] ≡ xs
    empty [] e = refl
    empty (x ∷ xs) e = absurd (omega (arith, e))

    -- What a write has left.
    record Written (buf : List ℕ) (offset : ℕ) (v w : Vol) : Type 0 where
      in_table : ltb ino max_inodes ≡ true
      short : leb (length buf) int_max ≡ true
      reliable : Reliable w
      place : InPlace c ino first last w
      type : ((w.inodes ino).type == itype_file) ≡ true
      size : offset + length buf ≤ (w.inodes ino).size
      bytes :
          (p : ℕ)
          → first * sector_size ≤ p
          → p < last * sector_size
          → file_byte c ino w p ≡ overlay offset buf (file_byte c ino v) p

    vol_write-Written :
        (now : ℕ) (buf : List ℕ) (offset : ℕ) (v : Vol) {n : ℕ} {w : Vol}
        → Reliable v
        → InFront v
        → InPlace c ino first last v
        → first * sector_size ≤ offset
        → offset + length buf ≤ last * sector_size
        → vol_write c now ino buf offset v ≡ (ok n, w)
        → Written buf offset v w
    unfolding vol_write put_inode
    vol_write-Written now buf offset v {n} {w} reliable front x low high h =
        let (in_table, h1) = require-ok _ _ _ h in
        let (short, h2) = require-ok _ _ _ h1 in
        let (is_file, h3) = require-ok _ _ _ (gets-ok _ _ h2) in
        let (fits, h4) = require-ok _ _ _ h3 in
        let (written, v1, r1, h5) = bind-ok _ _ h4 in
        let (_, v2, r2, h6) = bind-ok _ _ (gets-ok _ _ h5) in
        let (_, v3, r3, h7) = bind-ok _ _ h6 in
        let (_, end) = pure-ok _ _ h7 in
        let (loop, reliable1) =
          write_loop-Rewritten c ino first last laws (length buf) offset buf 0 v reliable x low high
            (omega arith) r1 in
        let n1 : Inode = record (v1.inodes ino) {
          size = max (v1.inodes ino).size (offset + length buf);
          mtime = now;
        } in
        let put : (put_inode ino n1 v1).1 ≡ v2 = ap (λ p. p.1) r2 in
        let same1 : SameFile c ino first last v1 v2 =
          rw (← put) (put_inode-SameFile c ino first last v1 n1 refl) in
        let reliable2 = ran r2 (in_reliable.inode _ _) reliable1 in
        let front2 : InFront v2 =
          rw (← put, loop.memory)
            (record {
              superblock = front.superblock;
              bitmap = front.bitmap;
              inodes = front.inodes;
            }) in
        let flushed = vol_flush-Flushed c laws v2 reliable2.in_range (or_fail-ok _ _ _ r3) in
        let same2 = Flushed-SameFile c ino first last laws v2 v3 front2 flushed in
        let place2 = SameFile-InPlace c ino first last v1 v2 same1 loop.place in
        let self : update v1.inodes ino n1 ino ≡ n1 = ground arith in
        let kept : v3.inodes ino ≡ n1 =
          ap (λ (y : Vol). y.inodes ino) flushed.memory
          ∙ ap (λ (y : Vol). y.inodes ino) (sym put)
          ∙ self in
        rw (← end) (record {
          in_table = in_table;
          short = short;
          reliable = ran (or_fail-ok _ _ _ r3) (vol_flush-Frame in_reliable) reliable2;
          place = SameFile-InPlace c ino first last v2 v3 same2 place2;
          type =
              ap (λ (y : Inode). y.type == itype_file) kept
              ∙ ap (λ (y : Vol). (y.inodes ino).type == itype_file) loop.memory
              ∙ is_file;
          size = omega (arith, ap (λ (y : Inode). y.size) kept);
          bytes = λ p low' high'.
              SameFile-byte c ino first last v2 v3 same2 place2 p low' high'
              ∙ SameFile-byte c ino first last v1 v2 same1 loop.place p low' high'
              ∙ loop.bytes p low' high';
        })
      where
        in_reliable : Primitives c (λ y z. Reliable y → Reliable z)
        in_reliable = KeepsReliable-Primitives c

    -- If decryption undoes encryption, on a volume over a host that does not fail and whose metadata
    -- lies in front of its data blocks: when a write succeeds whose bytes lie in blocks that the file
    -- has already, behind different direct pointers, each a block of 4096 bytes that is marked as
    -- taken, then a read of as many bytes from the same offset succeeds, returns the bytes that were
    -- written, and changes nothing.
    pub vol_read-vol_write :
        (now : ℕ) (buf : List ℕ) (offset : ℕ) (v : Vol) {n : ℕ} {w : Vol}
        → Reliable v
        → InFront v
        → InPlace c ino first last v
        → first * sector_size ≤ offset
        → offset + length buf ≤ last * sector_size
        → vol_write c now ino buf offset v ≡ (ok n, w)
        → vol_read c ino (length buf) offset w ≡ (ok buf, w)
    unfolding vol_read ◌>>=◌
    vol_read-vol_write now buf offset v {n} {w} reliable front x low high h =
        let done = vol_write-Written now buf offset v reliable front x low high h in
        let back : tabulate offset (length buf) (file_byte c ino w) ≡ buf =
          sym (
            piece-tabulate (file_byte c ino w) buf 0 (length buf) offset (omega arith) λ i small.
              done.bytes (offset + i) (omega (arith, low)) (omega (arith, high, small))
              ∙ overlay-inside offset buf (file_byte c ino v) (offset + i) (omega arith)
                  (omega (arith, small))
              ∙ ap (λ (k : ℕ). get_or buf k 0) {x = offset + i - offset} {y = 0 + i} (omega arith))
          ∙ take_all (length buf) buf (omega arith) in
        elim (Bool-cases (leb (w.inodes ino).size offset)) [
          | inl short ↦
              let no_bytes : length buf ≡ 0 = ground (arith, short, done.size) in
              rw (done.in_table, done.short, done.type, short) (λ i. (ok (empty buf no_bytes i), w))
          | inr longer ↦
              let wanted : min (length buf) ((w.inodes ino).size - offset) ≡ length buf =
                omega (arith, done.size) in
              let read =
                read_loop-there c ino first last (length buf) offset (length buf) w done.reliable
                  done.place low high (omega arith) in
              rw (done.in_table, done.short, done.type, longer, wanted, read)
                (λ i. (ok (back i), w))
        ]
