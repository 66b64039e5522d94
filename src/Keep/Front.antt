-- ===== src/Keep/Front.antt =====
-- src/fs.c: the metadata of a volume stays in front of its data blocks.
use denyfs.Prelude.{◌+◌, ◌≡◌, refl, arith}
use denyfs.Crypto.{Crypto}
use denyfs.Volume.{Device, Vol, Exec, on_device, put_inode, put_free_inodes, put_hmac, clear_dirty}
use denyfs.Volume.Frame.{Frame, frame, IsPreorder, frame_rules}
use denyfs.Block.{read_block, write_block, fflush}
use denyfs.Bitmap.{put_bit}
use denyfs.Bitmap.Cases.{alloc_block-cases, free_block-cases}
use denyfs.FileIo.Kept.{InFront}
use denyfs.Keep.{Primitives}

-- No operation moves the parts of the metadata.
abbrev pub KeepsInFront : Vol → Vol → Type 0
KeepsInFront v w = InFront v → InFront w

KeepsInFront-order : IsPreorder KeepsInFront
KeepsInFront-order = record { same = λ v h. h; trans = λ u v w p q h. q (p h) }

still :
    (v w : Vol)
    → w.sb.data_start ≡ v.sb.data_start
    → w.sb.bitmap_start + w.sb.bitmap_blocks ≡ v.sb.bitmap_start + v.sb.bitmap_blocks
    → w.sb.inode_start + w.sb.inode_blocks ≡ v.sb.inode_start + v.sb.inode_blocks
    → KeepsInFront v w
still v w d b i h = record {
  superblock = omega (arith, h.superblock, d);
  bitmap = omega (arith, h.bitmap, b, d);
  inodes = omega (arith, h.inodes, i, d);
}

on_device-KeepsInFront : {A : Type 0} (m : Exec Device A) → Frame KeepsInFront (on_device m)
unfolding on_device
on_device-KeepsInFront m = frame λ v h. still v _ refl refl refl h

pub KeepsInFront-Primitives : (c : Crypto) → Primitives c KeepsInFront
unfolding read_block write_block put_inode put_free_inodes put_hmac clear_dirty put_bit
KeepsInFront-Primitives c = record {
  order = KeepsInFront-order;
  read = λ n. search (frame_rules, KeepsInFront-order, on_device-KeepsInFront) depth 20;
  write = λ n b. search (frame_rules, KeepsInFront-order, on_device-KeepsInFront) depth 20;
  alloc =
      frame
        λ v. alloc_block-cases (KeepsInFront v) (λ h. h) λ i found h. still v _ refl refl refl h;
  free = λ n. frame λ v.
      free_block-cases (KeepsInFront v) (λ h. h) n λ low high bit h. still v _ refl refl refl h;
  inode = λ ino x. frame λ v h. still v _ refl refl refl h;
  free_inodes = λ n. frame λ v h. still v _ refl refl refl h;
  hmac = λ d. frame λ v h. still v _ refl refl refl h;
  flush = on_device-KeepsInFront fflush;
  clear = frame λ v h. still v _ refl refl refl h;
}
