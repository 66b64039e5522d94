-- ===== src/Confine.antt =====
-- Where an open volume writes in the container: inside its own blocks, and never in the sectors of
-- a protected hidden volume.
use denyfs.Prelude.{
  ◌≢◌, ℕ, ◌+◌, ◌*◌, ◌/◌, ◌%◌, ◌^◌, ◌≤◌, ◌<◌, ◌≡◌, ◌⊎◌, refl, ◌∙◌, Bool, true, false, List, ltb→lt,
  not→false, ap, arith,
}
use denyfs.Layout.{sector_size, long_max}
use denyfs.Crypto.{Crypto}
use denyfs.Volume.{
  Device, Vol, Exec, on_device, put_inode, put_free_inodes, put_hmac, clear_dirty, ◌>>=◌,
}
use denyfs.Volume.Frame.{
  Frame, frame, IsPreorder, frame_rules, gets-then, require-then, of_option-then,
}
use denyfs.Block.{is_protected, fread_sector, fwrite_sector, fflush, read_block, write_block}
use denyfs.Bitmap.Cases.{alloc_block-cases, free_block-cases}
use denyfs.Bitmap.{put_bit, alloc_block, free_block}
use denyfs.Keep.{Primitives}
use denyfs.Keep.Session.{serve-Frame}
use denyfs.Fuse.{Request, serve}

-- What no operation changes: where the volume lies, and its protection.
pub record Geometry : Type 0 where
  pub start : ℕ
  pub volume_size : ℕ
  pub is_protecting : Bool
  pub protect_start : ℕ
  pub protect_end : ℕ

abbrev pub geometry : Vol → Geometry
geometry v = record {
  start = v.vol_start_offset;
  volume_size = v.volume_size;
  is_protecting = v.protect_hidden;
  protect_start = v.protect_start_sector;
  protect_end = v.protect_end_sector;
}

abbrev pub SameVolume : Vol → Vol → Type 0
SameVolume v w = geometry w ≡ geometry v

-- A sector of the container that the volume must leave alone: in front of it, behind it, or under
-- protection.
abbrev pub OffLimits : Vol → ℕ → Type 0
OffLimits v s =
    (s < v.vol_start_offset / sector_size)
    ⊎ (v.vol_start_offset / sector_size + v.volume_size / sector_size ≤ s)
    ⊎ (v.protect_hidden ≡ true) × (v.protect_start_sector ≤ s) × (s ≤ v.protect_end_sector)

-- The volume ends below LONG_MAX, which `valid_volume_range` tests when it is opened.
abbrev pub InFile : Vol → Type 0
InFile v = v.vol_start_offset + v.volume_size ≤ long_max

pub record Confined (v w : Vol) : Type 0 where
  pub same : SameVolume v w
  pub apart : InFile v → (s : ℕ) → OffLimits v s → w.dev.sectors s ≡ v.dev.sectors s

OffLimits-SameVolume : (v w : Vol) (s : ℕ) → SameVolume v w → OffLimits v s → OffLimits w s
OffLimits-SameVolume v w s e h = ground arith

Confined-trans : (u v w : Vol) → Confined u v → Confined v w → Confined u w
Confined-trans u v w p q = record {
  same = q.same ∙ p.same;
  apart = λ fits s off.
      q.apart (ground (arith, p.same)) s (OffLimits-SameVolume u v s p.same off)
      ∙ p.apart fits s off;
}

Confined-order : IsPreorder Confined
Confined-order = record {
  same = λ v. record { same = refl; apart = λ fits s off. refl };
  trans = Confined-trans;
}

-- A transfer of a sector touches that sector only.
pub sectors-fwrite_sector :
    (offset : ℕ) (bytes : List ℕ) (d : Device) (s : ℕ)
    → s ≢ offset / sector_size
    → (fwrite_sector offset bytes d).1.sectors s ≡ d.sectors s
unfolding fwrite_sector ◌>>=◌
sectors-fwrite_sector offset bytes d s ne = ground arith

sectors-fread_sector :
    (offset : ℕ) (d : Device) (s : ℕ) → (fread_sector offset d).1.sectors s ≡ d.sectors s
unfolding fread_sector ◌>>=◌
sectors-fread_sector offset d s = ground arith

pub sectors-fflush : (d : Device) (s : ℕ) → (fflush d).1.sectors s ≡ d.sectors s
unfolding fflush ◌>>=◌
sectors-fflush d s = ground arith

-- A change of the in-memory volume only.
in_memory : {w : Vol} (v : Vol) → SameVolume v w → w.dev.sectors ≡ v.dev.sectors → Confined v w
in_memory v e d = record { same = e; apart = λ fits s off. ap (λ f. f s) d }

-- An action on the container that leaves the sectors that are off limits.
on_device-Confined :
    {A : Type 0} (m : Exec Device A) (v : Vol)
    → (InFile v → (s : ℕ) → OffLimits v s → (m v.dev).1.sectors s ≡ v.dev.sectors s)
    → Confined v (on_device m v).1
unfolding on_device
on_device-Confined m v h = record { same = refl; apart = h }

-- The block that passes the tests of write_block is in none of the sectors that are off limits.
written_sector :
    (v : Vol) (block_num s : ℕ)
    → InFile v
    → OffLimits v s
    → block_num < v.volume_size / sector_size
    → is_protected v block_num ≡ false
    → s ≢ (v.vol_start_offset + block_num * sector_size) % 2 ^ 64 / sector_size
unfolding is_protected
written_sector v block_num s fits off inside free e = ground arith

module _ (c : Crypto) where
  read_block-Confined : (n : ℕ) → Frame Confined (read_block c n)
  unfolding read_block
  read_block-Confined n = search (frame_rules, Confined-order, fread) depth 20
    where
      fread : (offset : ℕ) → Frame Confined (on_device (fread_sector offset))
      fread offset =
          frame (λ v. on_device-Confined _ v (λ fits s off. sectors-fread_sector offset v.dev s))

  write_block-Confined : (n : ℕ) (b : List ℕ) → Frame Confined (write_block c n b)
  unfolding write_block
  write_block-Confined n b = frame λ v.
      let P = Confined v in
      let start = Confined-order.same v in
      gets-then P start _ _ (
        require-then P start _ _ _ λ inside. require-then P start _ _ _ λ free.
          of_option-then P start _ _ _ λ cipher. require-then P start _ _ _ λ seekable.
            on_device-Confined _ v λ fits s off.
              sectors-fwrite_sector _ cipher v.dev s
                (written_sector v n s fits off (ltb→lt _ _ inside) (not→false _ free)))

  flush-Confined : Frame Confined (on_device fflush)
  flush-Confined = frame λ v. on_device-Confined _ v (λ fits s off. sectors-fflush v.dev s)

  alloc_block-Confined : Frame Confined alloc_block
  unfolding put_bit
  alloc_block-Confined =
      frame
        λ v. alloc_block-cases (Confined v) (Confined-order.same v) λ i found. in_memory v refl refl

  free_block-Confined : (n : ℕ) → Frame Confined (free_block n)
  unfolding put_bit
  free_block-Confined n = frame λ v.
      free_block-cases (Confined v) (Confined-order.same v) n λ low high bit. in_memory v refl refl

  Confined-Primitives : Primitives c Confined
  unfolding put_inode put_free_inodes put_hmac clear_dirty
  Confined-Primitives = record {
    order = Confined-order;
    read = read_block-Confined;
    write = write_block-Confined;
    alloc = alloc_block-Confined;
    free = free_block-Confined;
    inode = λ ino x. frame (λ v. in_memory v refl refl);
    free_inodes = λ n. frame (λ v. in_memory v refl refl);
    hmac = λ d. frame (λ v. in_memory v refl refl);
    flush = flush-Confined;
    clear = frame (λ v. in_memory v refl refl);
  }

  -- Whatever requests libfuse makes of an open volume, in whatever order and whatever the host
  -- fails at: the sectors of the container in front of the volume, behind it, and, under outer-mount
  -- protection, from the hidden volume's first sector to the last protected one, are as they were.
  pub serve-Confined :
      (v : Vol) (rs : List (ℕ × Request)) (s : ℕ)
      → InFile v
      → OffLimits v s
      → (serve c rs v).dev.sectors s ≡ v.dev.sectors s
  serve-Confined v rs s fits off = (serve-Frame Confined-Primitives rs v).apart fits s off
