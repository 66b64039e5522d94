-- ===== src/FileIo/Flushing.antt =====
-- src/fs.c: denyfs_vol_flush succeeds on an unprotected volume when the host does not fail.
use denyfs.Prelude.{
  ℕ, zero, suc, ◌+◌, ◌/◌, ◌≤◌, ◌<◌, ◌≡◌, refl, ap, ◌∙◌, Bool, true, false, some, List, [], length,
  arith,
}
use denyfs.Layout.{sector_size, long_max}
use denyfs.Crypto.{Crypto, crypt_sector, compute_hmac}
use denyfs.Volume.{Device, Vol, Exec, ok, on_device, put_hmac, clear_dirty, ◌>>=◌}
use denyfs.Volume.Total.{
  RunsTo, pure-runs, bind-runs, gets-runs, of_option-runs, require-runs, if-runs,
}
use denyfs.Block.{is_protected, fwrite_sector, fflush, write_block}
use denyfs.FileIo.{flush_bitmap, flush_inodes, vol_flush}

-- The ciphers do not fail, and the HMAC has its 32 bytes.
pub record Works (c : Crypto) : Type 0 where
  pub xts : (e : Bool) (key iv b : List ℕ) → (r : List ℕ) × (c.evp_xts e key iv b ≡ some r)
  pub hmac : (key b : List ℕ) → (d : List ℕ) × (c.hmac_sha256 key b ≡ some d) × (length d ≡ 32)

-- The place of a volume and of the parts of its metadata.
pub record Shape : Type 0 where
  pub start : ℕ
  pub size : ℕ
  pub is_protecting : Bool
  pub bitmap_start : ℕ
  pub bitmap_blocks : ℕ
  pub inode_start : ℕ
  pub inode_blocks : ℕ

abbrev pub shape : Vol → Shape
shape v = record {
  start = v.vol_start_offset;
  size = v.volume_size;
  is_protecting = v.protect_hidden;
  bitmap_start = v.sb.bitmap_start;
  bitmap_blocks = v.sb.bitmap_blocks;
  inode_start = v.sb.inode_start;
  inode_blocks = v.sb.inode_blocks;
}

-- The metadata lies in the volume, the volume in the file, and nothing is protected.
pub record Fits (s : Shape) : Type 0 where
  pub in_file : s.start + s.size ≤ long_max
  pub unprotected : s.is_protecting ≡ false
  pub not_empty : 0 < s.size / sector_size
  pub bitmap : s.bitmap_start + s.bitmap_blocks ≤ s.size / sector_size
  pub inodes : s.inode_start + s.inode_blocks ≤ s.size / sector_size

-- The host fails no more, and the volume has the shape `s`.
pub record Ready (s : Shape) (v : Vol) : Type 0 where
  pub no_failures : v.dev.outcomes ≡ []
  pub same : shape v ≡ s

fwrite_sector-done :
    (offset : ℕ) (b : List ℕ) (d : Device)
    → d.outcomes ≡ []
    → ((fwrite_sector offset b d).0 ≡ ok tt) × ((fwrite_sector offset b d).1.outcomes ≡ [])
unfolding fwrite_sector ◌>>=◌
fwrite_sector-done offset b d none = (ground arith, ground arith)

fflush-done : (d : Device) → d.outcomes ≡ [] → ((fflush d).0 ≡ ok tt) × ((fflush d).1.outcomes ≡ [])
unfolding fflush ◌>>=◌
fflush-done d none = (ground arith, ground arith)

module _ {s : Shape} where
  -- A transfer that succeeds, in the open volume.
  on_device-runs :
      (m : Exec Device (Unit {0})) (v : Vol)
      → Ready s v
      → ((m v.dev).0 ≡ ok tt) × ((m v.dev).1.outcomes ≡ [])
      → RunsTo (Ready s) (on_device m) v
  unfolding on_device
  on_device-runs m v ready (done, none) = (
    tt,
    record v { dev = (m v.dev).1 },
    λ i. (done i, record v { dev = (m v.dev).1 }),
    record { no_failures = none; same = ready.same },
  )

  module _ (c : Crypto) (works : Works c) (fits : Fits s) where
    write_block-runs :
        (n : ℕ) (b : List ℕ) (v : Vol)
        → n < s.size / sector_size
        → Ready s v
        → RunsTo (Ready s) (write_block c n b) v
    unfolding write_block is_protected crypt_sector
    write_block-runs n b v inside ready =
        let size = ap (λ (x : Shape). x.size) ready.same in
        let start = ap (λ (x : Shape). x.start) ready.same in
        let protecting = ap (λ (x : Shape). x.is_protecting) ready.same ∙ fits.unprotected in
        let (cipher, sealed) = works.xts true _ _ b in
        gets-runs _ _ v (
          require-runs _ _ _ v (ground (arith, size)) (
            require-runs _ _ _ v (ground (arith, protecting)) (
              of_option-runs _ _ _ v sealed (
                require-runs _ _ _ v (ground (arith, size, start, fits.in_file)) (
                  on_device-runs _ v ready
                    (fwrite_sector-done _ cipher v.dev ready.no_failures))))))

    flush_bitmap-runs :
        (i n : ℕ) (v : Vol)
        → s.bitmap_start + i + n ≤ s.size / sector_size
        → Ready s v
        → RunsTo (Ready s) (flush_bitmap c i n) v
    unfolding flush_bitmap
    flush_bitmap-runs i zero v inside ready = pure-runs tt v ready
    flush_bitmap-runs i (suc n) v inside ready =
        let place = ap (λ (x : Shape). x.bitmap_start) ready.same in
        gets-runs _ _ v (
          bind-runs _ _ v
            (if-runs (v.bitmap_dirty i) _ _ v
              (write_block-runs _ _ v (omega (arith, inside, place)) ready) (pure-runs tt v ready))
            λ _ w again. flush_bitmap-runs (i + 1) n w (omega (arith, inside)) again)

    flush_inodes-runs :
        (i n : ℕ) (v : Vol)
        → s.inode_start + i + n ≤ s.size / sector_size
        → Ready s v
        → RunsTo (Ready s) (flush_inodes c i n) v
    unfolding flush_inodes
    flush_inodes-runs i zero v inside ready = pure-runs tt v ready
    flush_inodes-runs i (suc n) v inside ready =
        let place = ap (λ (x : Shape). x.inode_start) ready.same in
        gets-runs _ _ v (
          bind-runs _ _ v (write_block-runs _ _ v (omega (arith, inside, place)) ready)
            λ _ w again. flush_inodes-runs (i + 1) n w (omega (arith, inside)) again)

    put_hmac-runs : (d : List ℕ) (v : Vol) → Ready s v → RunsTo (Ready s) (put_hmac d) v
    unfolding put_hmac
    put_hmac-runs d v ready =
        (tt, _, refl, record { no_failures = ready.no_failures; same = ready.same })

    clear_dirty-runs : (v : Vol) → Ready s v → RunsTo (Ready s) clear_dirty v
    unfolding clear_dirty
    clear_dirty-runs v ready =
        (tt, _, refl, record { no_failures = ready.no_failures; same = ready.same })

    compute_hmac-some : (key b : List ℕ) → (d : List ℕ) × (compute_hmac c key b ≡ some d)
    unfolding compute_hmac
    compute_hmac-some key b = let (d, made, long) = works.hmac key b in (d, rw (made, long) refl)

    pub vol_flush-runs : (v : Vol) → Ready s v → RunsTo (Ready s) (vol_flush c) v
    unfolding vol_flush
    vol_flush-runs v ready =
        let (d, made) = compute_hmac-some _ _ in
        gets-runs _ _ v (
          of_option-runs _ _ _ v made (
            bind-runs _ _ v (put_hmac-runs d v ready) λ _ v1 r1. gets-runs _ _ v1 (
              bind-runs _ _ v1 (write_block-runs 0 _ v1 fits.not_empty r1) λ _ v2 r2.
                bind-runs _ _ v2
                  (flush_bitmap-runs 0 _ v2
                    (omega (arith, fits.bitmap, ap (λ (x : Shape). x.bitmap_blocks) r1.same)) r2)
                  λ _ v3 r3.
                    bind-runs _ _ v3
                      (flush_inodes-runs 0 _ v3
                        (omega (arith, fits.inodes, ap (λ (x : Shape). x.inode_blocks) r1.same)) r3)
                      λ _ v4 r4.
                        bind-runs _ _ v4
                          (on_device-runs fflush v4 r4 (fflush-done v4.dev r4.no_failures))
                          λ _ v5 r5. clear_dirty-runs v5 r5)))
