-- ===== src/Mount/Flush.antt =====
-- src/fs.c, src/fuse_ops.c: a flush after any session on a volume that denyfs_vol_open returned.
use denyfs.Prelude.{ℕ, ◌≡◌, refl, ◌∙◌, Bool, false, Option, List, [], arith}
use denyfs.Crypto.{Crypto}
use denyfs.Volume.{
  Device, Vol, ok, Exec, on_device, put_inode, put_free_inodes, put_hmac, clear_dirty, ◌>>=◌,
}
use denyfs.Volume.Frame.{Frame, frame, IsPreorder, frame_rules}
use denyfs.Block.{fread_sector, fwrite_sector, fflush, read_block, write_block}
use denyfs.Bitmap.{put_bit}
use denyfs.Bitmap.Cases.{alloc_block-cases, free_block-cases}
use denyfs.Keep.{Primitives}
use denyfs.Keep.Session.{serve-Frame}
use denyfs.Fuse.{Request, serve}
use denyfs.Validate.{validate_superblock}
use denyfs.Open.{vol_open}
use denyfs.Open.Placing.{Placed}
use denyfs.Open.Loading.{Valid, load_metadata-Valid}
use denyfs.FileIo.{vol_flush}
use denyfs.FileIo.Flushing.{Works, shape, Fits, Ready, vol_flush-runs}
use denyfs.Mount.{hidden_offset, vol_open-Opened, Opened-Placed}

-- No operation moves the volume or the parts of its metadata.
abbrev SameShape : Vol → Vol → Type 0
SameShape v w = shape w ≡ shape v

SameShape-order : IsPreorder SameShape
SameShape-order = record { same = λ v. refl; trans = λ u v w p q. q ∙ p }

on_device-SameShape : {A : Type 0} (m : Exec Device A) → Frame SameShape (on_device m)
unfolding on_device
on_device-SameShape m = frame λ v. refl

SameShape-Primitives : (c : Crypto) → Primitives c SameShape
unfolding read_block write_block put_inode put_free_inodes put_hmac clear_dirty put_bit
SameShape-Primitives c = record {
  order = SameShape-order;
  read = λ n. search (frame_rules, SameShape-order, on_device-SameShape) depth 20;
  write = λ n b. search (frame_rules, SameShape-order, on_device-SameShape) depth 20;
  alloc = frame λ v. alloc_block-cases (SameShape v) refl λ i found. refl;
  free = λ n. frame λ v. free_block-cases (SameShape v) refl n λ low high bit. refl;
  inode = λ ino x. frame λ v. refl;
  free_inodes = λ n. frame λ v. refl;
  hmac = λ d. frame λ v. refl;
  flush = on_device-SameShape fflush;
  clear = frame λ v. refl;
}

-- A host whose schedule holds no failure.
abbrev KeepsQuiet : Vol → Vol → Type 0
KeepsQuiet v w = v.dev.outcomes ≡ [] → w.dev.outcomes ≡ []

KeepsQuiet-order : IsPreorder KeepsQuiet
KeepsQuiet-order = record { same = λ v h. h; trans = λ u v w p q h. q (p h) }

fread_sector-quiet : (o : ℕ) → Frame KeepsQuiet (on_device (fread_sector o))
unfolding on_device fread_sector ◌>>=◌
fread_sector-quiet o = frame λ v h. ground arith

fwrite_sector-quiet : (o : ℕ) (b : List ℕ) → Frame KeepsQuiet (on_device (fwrite_sector o b))
unfolding on_device fwrite_sector ◌>>=◌
fwrite_sector-quiet o b = frame λ v h. ground arith

fflush-quiet : Frame KeepsQuiet (on_device fflush)
unfolding on_device fflush ◌>>=◌
fflush-quiet = frame λ v h. ground arith

KeepsQuiet-Primitives : (c : Crypto) → Primitives c KeepsQuiet
unfolding read_block write_block put_inode put_free_inodes put_hmac clear_dirty put_bit
KeepsQuiet-Primitives c = record {
  order = KeepsQuiet-order;
  read = λ n. search (frame_rules, KeepsQuiet-order, fread_sector-quiet) depth 20;
  write = λ n b. search (frame_rules, KeepsQuiet-order, fwrite_sector-quiet) depth 20;
  alloc = frame λ v. alloc_block-cases (KeepsQuiet v) (λ h. h) λ i found h. h;
  free = λ n. frame λ v. free_block-cases (KeepsQuiet v) (λ h. h) n λ low high bit h. h;
  inode = λ ino x. frame λ v h. h;
  free_inodes = λ n. frame λ v h. h;
  hmac = λ d. frame λ v h. h;
  flush = fflush-quiet;
  clear = frame λ v h. h;
}

-- A session sees no failure that is not in the schedule.
pub serve-quiet :
    (c : Crypto) (rs : List (ℕ × Request)) (v : Vol)
    → v.dev.outcomes ≡ []
    → (serve c rs v).dev.outcomes ≡ []
serve-quiet c rs v = serve-Frame (KeepsQuiet-Primitives c) rs v

-- The tests at mount time make the metadata lie in the volume.
Valid-Fits :
    (hho : ℕ) (v : Vol) → Valid v → Placed hho v → v.protect_hidden ≡ false → Fits (shape v)
unfolding validate_superblock
Valid-Fits hho v valid placed unprotected = record {
  in_file = placed.in_file;
  unprotected = unprotected;
  not_empty = ground arith;
  bitmap = ground arith;
  inodes = ground arith;
}

-- When a volume was opened without protection of a hidden one, then after any session on it, and
-- whatever failed in between, a flush succeeds as soon as the host fails no more, if the ciphers do
-- not fail.
pub vol_open-flushes :
    (c : Crypto) (password : List ℕ) (hidden_password : Option (List ℕ)) (on : Bool) (d : Device)
    {v : Vol} {e : Device} (rs : List (ℕ × Request))
    → Works c
    → vol_open c password hidden_password on d ≡ (ok v, e)
    → v.protect_hidden ≡ false
    → (serve c rs v).dev.outcomes ≡ []
    → (w : Vol) × (vol_flush c (serve c rs v) ≡ (ok tt, w))
vol_open-flushes c password hidden_password on d {v} rs works h unprotected none =
    let o = vol_open-Opened c password hidden_password on d h in
    let valid = load_metadata-Valid c o.protected_volume o.loading in
    let placed = Opened-Placed c password hidden_password on d o in
    let fits = Valid-Fits (hidden_offset d) v valid placed unprotected in
    let ready : Ready (shape v) (serve c rs v) = record {
      no_failures = none;
      same = serve-Frame (SameShape-Primitives c) rs v;
    } in
    let (_, w, ran, _) = vol_flush-runs c works fits (serve c rs v) ready in (w, ran)
