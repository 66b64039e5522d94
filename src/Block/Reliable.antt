-- ===== src/Block/Reliable.antt =====
-- src/fs.c: a volume over a host that fails no more, whose blocks lie in the container: read_block
-- returns what the blocks decrypt to, and changes nothing.
use denyfs.Prelude.{
  ℕ, ◌+◌, ◌/◌, ◌≤◌, ◌<◌, ◌≡◌, refl, ap, ◌∙◌, true, ltb, leb, some, List, [], arith,
}
use denyfs.Layout.{sector_size, long_max}
use denyfs.Crypto.{Crypto}
use denyfs.Volume.{
  Device, Vol, ok, Exec, on_device, put_inode, put_free_inodes, put_hmac, clear_dirty, ◌>>=◌,
}
use denyfs.Volume.Frame.{Frame, frame, IsPreorder, frame_rules}
use denyfs.Block.{block_offset, fread_sector, fwrite_sector, fflush, read_block, write_block}
use denyfs.Block.RoundTrip.{fread_sector-done}
use denyfs.Block.Array.{block_array, blocks_in}
use denyfs.Bitmap.{put_bit}
use denyfs.Bitmap.Cases.{alloc_block-cases, free_block-cases}
use denyfs.Keep.{Primitives}

pub record Reliable (v : Vol) : Type 0 where
  pub no_failures : v.dev.outcomes ≡ []
  pub in_range : v.vol_start_offset + v.volume_size ≤ long_max
  pub in_container : v.vol_start_offset + v.volume_size ≤ v.dev.size

-- Every operation keeps a volume reliable.
abbrev KeepsReliable : Vol → Vol → Type 0
KeepsReliable v w = Reliable v → Reliable w

KeepsReliable-order : IsPreorder KeepsReliable
KeepsReliable-order = record { same = λ v h. h; trans = λ u v w p q h. q (p h) }

-- A transfer keeps the schedule empty, and the container as large.
record KeepsDevice {A : Type 0} (m : Exec Device A) : Type 0 where
  quiet : (d : Device) → d.outcomes ≡ [] → (m d).1.outcomes ≡ []
  size : (d : Device) → d.size ≤ (m d).1.size

fread_sector-KeepsDevice : (offset : ℕ) → KeepsDevice (fread_sector offset)
unfolding fread_sector ◌>>=◌
fread_sector-KeepsDevice offset = record { quiet = λ d h. ground arith; size = λ d. ground arith }

fwrite_sector-KeepsDevice : (offset : ℕ) (b : List ℕ) → KeepsDevice (fwrite_sector offset b)
unfolding fwrite_sector ◌>>=◌
fwrite_sector-KeepsDevice offset b = record {
  quiet = λ d h. ground arith;
  size = λ d. ground arith;
}

fflush-KeepsDevice : KeepsDevice fflush
unfolding fflush ◌>>=◌
fflush-KeepsDevice = record { quiet = λ d h. ground arith; size = λ d. ground arith }

on_device-KeepsReliable :
    {A : Type 0} (m : Exec Device A) → KeepsDevice m → Frame KeepsReliable (on_device m)
unfolding on_device
on_device-KeepsReliable m k = frame λ v h. record {
  no_failures = k.quiet v.dev h.no_failures;
  in_range = h.in_range;
  in_container = omega (arith, h.in_container, k.size v.dev);
}

-- A change of the rest of the memory.
pub in_place :
    {v w : Vol}
    → w.dev ≡ v.dev
    → w.vol_start_offset ≡ v.vol_start_offset
    → w.volume_size ≡ v.volume_size
    → Reliable v
    → Reliable w
in_place dev start size h = record {
  no_failures = ap (λ (d : Device). d.outcomes) dev ∙ h.no_failures;
  in_range = omega (arith, h.in_range, start, size);
  in_container = omega (arith, h.in_container, start, size, ap (λ (d : Device). d.size) dev);
}

module _ (c : Crypto) where
  pub KeepsReliable-Primitives : Primitives c KeepsReliable
  unfolding read_block write_block put_inode put_free_inodes put_hmac clear_dirty put_bit
  KeepsReliable-Primitives = record {
    order = KeepsReliable-order;
    read = λ n.
        search (frame_rules, KeepsReliable-order, on_device-KeepsReliable, fread_sector-KeepsDevice)
          depth 20;
    write = λ n b.
        search
          (frame_rules, KeepsReliable-order, on_device-KeepsReliable, fwrite_sector-KeepsDevice)
          depth 20;
    alloc =
        frame
          λ v. alloc_block-cases (KeepsReliable v) (λ h. h) λ i found h. in_place refl refl refl h;
    free = λ n. frame λ v.
        free_block-cases (KeepsReliable v) (λ h. h) n λ low high bit h. in_place refl refl refl h;
    inode = λ ino x. frame λ v h. in_place refl refl refl h;
    free_inodes = λ n. frame λ v h. in_place refl refl refl h;
    hmac = λ d. frame λ v h. in_place refl refl refl h;
    flush = on_device-KeepsReliable fflush fflush-KeepsDevice;
    clear = frame λ v h. in_place refl refl refl h;
  }

  -- A block that decrypts is read, and the volume stays as it is.
  pub read_block-reads :
      (n : ℕ) (v : Vol) {b : List ℕ}
      → Reliable v
      → n < blocks_in v
      → block_array c v n ≡ some b
      → read_block c n v ≡ (ok b, v)
  unfolding read_block block_array on_device ◌>>=◌
  read_block-reads n v h inside holds =
      let offset = block_offset v.vol_start_offset n in
      let inside' : ltb n (v.volume_size / sector_size) ≡ true = ground arith in
      let seekable : leb offset long_max ≡ true = ground (arith, h.in_range) in
      let r =
        fread_sector-done offset v.dev h.no_failures (omega (arith, h.in_range, h.in_container)) in
      rw (inside', seekable, r, holds) refl
