-- ===== src/Open/Reloading.antt =====
-- src/fs.c: what denyfs_vol_open loads after a denyfs_vol_flush.
use denyfs.Prelude.{
  ℕ, ◌+◌, ◌-◌, ◌*◌, ◌/◌, ◌≤◌, ◌<◌, ◌≡◌, refl, sym, ap, ◌∙◌, true, ◌==◌, some, List, length,
  bytes_eq, bytes_eq-same, arith,
}
use denyfs.Layout.{sector_size, max_inodes, sb_magic, Superblock, inode_table_bytes, to_inode_table}
use denyfs.Layout.RoundTrip.{FitsSuperblock, to_superblock-superblock_bytes}
use denyfs.Crypto.{Crypto, XtsLaws, compute_hmac}
use denyfs.Volume.{Device, Vol, ok, ◌>>=◌}
use denyfs.Block.Array.{block_array, blocks_in}
use denyfs.Block.Reliable.{Reliable, in_place, read_block-reads}
use denyfs.FileIo.{bitmap_range, vol_flush}
use denyfs.FileIo.Flushed.{Flushed, vol_flush-Flushed}
use denyfs.FileIo.Contents.{
  bitmap_sector, CleanStored, InOrder, Flushed-superblock, Flushed-bitmap, Flushed-inodes,
}
use denyfs.Confine.{InFile}
use denyfs.Validate.{validate_superblock}
use denyfs.Validate.Metadata.{validate_loaded_metadata}
use denyfs.Open.{
  bit_of, put_superblock, put_bitmap, put_inodes, read_blocks, load_superblock, load_bitmap,
  load_inodes, load_metadata,
}
use denyfs.Open.Bits.{
  bitmap_range-append, bit_of-bitmap_range, inode_table_bytes-append, FitsSlot,
  to_inode_table-inode_table_bytes,
}
use denyfs.Open.Joined.{joined-pieces, no_bitmap, no_inodes, read_blocks-reads, host_alloc-done}

-- A volume that can be written and read back: its superblock passes the tests at mount time, its
-- inodes fit their places in the table, and the bitmap on disk is behind only where it is dirty.
pub record Storable (c : Crypto) (v : Vol) : Type 0 where
  pub valid : validate_superblock v.sb v.volume_size ≡ true
  pub inodes : (i : ℕ) → i < max_inodes → FitsSlot (v.inodes i)
  pub buffer : v.bitmap_bytes ≡ v.sb.bitmap_blocks * sector_size
  pub clean : CleanStored c v

-- A volume over the same container, under the same keys.
pub record SameContainer (w x : Vol) : Type 0 where
  pub reliable : Reliable x
  pub sectors : x.dev.sectors ≡ w.dev.sectors
  pub start : x.vol_start_offset ≡ w.vol_start_offset
  pub size : x.volume_size ≡ w.volume_size
  pub volume_key : x.volume_key ≡ w.volume_key
  pub hmac_key : x.hmac_key ≡ w.hmac_key

pub SameContainer-blocks :
    (c : Crypto) {w x : Vol} → SameContainer w x → (n : ℕ) → block_array c x n ≡ block_array c w n
unfolding block_array
SameContainer-blocks c s n = rw (s.sectors, s.start, s.volume_key) refl

module _ (c : Crypto) (laws : XtsLaws c) {v w : Vol} (st : Storable c v)
    (f : Flushed c laws v w) where
  in_order : InOrder v
  unfolding validate_superblock
  in_order = record {
    first = ground (arith, st.valid);
    second = ground (arith, st.valid);
    inside = ground (arith, st.valid);
  }

  digest_length : length f.digest ≡ 32
  unfolding compute_hmac
  digest_length = ground (arith, f.made)

  fits : FitsSuperblock w.sb
  unfolding validate_superblock
  fits = rw f.memory (record {
    magic = ground (arith, st.valid);
    block_size = ground (arith, st.valid);
    total_blocks = ground (arith, st.valid);
    inode_count = ground (arith, st.valid);
    bitmap_start = ground (arith, st.valid);
    bitmap_blocks = ground (arith, st.valid);
    inode_start = ground (arith, st.valid);
    inode_blocks = ground (arith, st.valid);
    data_start = ground (arith, st.valid);
    free_blocks = ground (arith, st.valid);
    free_inodes = ground (arith, st.valid);
    bitmap_hmac = digest_length;
  })

  covered : w.sb.total_blocks ≤ 8 * (v.sb.bitmap_blocks * sector_size)
  unfolding validate_superblock
  covered = ground (arith, st.valid, ap (λ (y : Vol). y.sb.total_blocks) f.memory)

  whole_table : v.sb.inode_blocks * 32 ≡ max_inodes
  unfolding validate_superblock
  whole_table = ground (arith, st.valid)

  bits_back :
      (b : ℕ)
      → b < w.sb.total_blocks
      → bit_of (bitmap_range v.bitmap 0 (v.sb.bitmap_blocks * sector_size)) b ≡ w.bitmap b
  bits_back b inside =
      bit_of-bitmap_range v.bitmap (v.sb.bitmap_blocks * sector_size) b
        (omega (arith, covered, inside))
      ∙ sym (ap (λ (y : Vol). y.bitmap b) f.memory)

  inodes_back :
      (i : ℕ)
      → i < max_inodes
      → to_inode_table (inode_table_bytes 0 (v.sb.inode_blocks * 32) v.inodes) i ≡ w.inodes i
  inodes_back i small =
      to_inode_table-inode_table_bytes v.inodes 0 (v.sb.inode_blocks * 32) i
        (omega (arith, whole_table, small))
        (λ j low high. st.inodes j (omega (arith, whole_table, high)))
      ∙ ap v.inodes {x = 0 + i} {y = i} (omega arith)
      ∙ sym (ap (λ (y : Vol). y.inodes i) f.memory)

  module _ {x : Vol} (s : SameContainer w x) where
    same_size : blocks_in x ≡ blocks_in v
    same_size = ap (λ (n : ℕ). n / sector_size) (s.size ∙ ap (λ (y : Vol). y.volume_size) f.memory)

    still_valid : validate_superblock w.sb x.volume_size ≡ true
    unfolding validate_superblock
    still_valid = rw (s.size, f.memory) st.valid

    magic : (w.sb.magic == sb_magic) ≡ true
    unfolding validate_superblock
    magic = ground (arith, still_valid)

    load_superblock-loads : load_superblock c x ≡ (ok tt, record x { sb = w.sb })
    unfolding load_superblock put_superblock ◌>>=◌
    load_superblock-loads =
        let holds = SameContainer-blocks c s 0 ∙ Flushed-superblock c laws in_order f in
        let inside : 0 < blocks_in x =
          omega (arith, same_size, in_order.first, in_order.second, in_order.inside) in
        let back = to_superblock-superblock_bytes w.sb fits in
        rw (read_block-reads c 0 x s.reliable inside holds, back, magic, still_valid) refl

    -- The bytes of the bitmap, and of the inode table.
    abbrev bits : List ℕ
    bits = bitmap_range v.bitmap 0 (v.sb.bitmap_blocks * sector_size)

    abbrev table : List ℕ
    table = inode_table_bytes 0 (v.sb.inode_blocks * 32) v.inodes

    read_bitmap : read_blocks c v.sb.bitmap_start v.sb.bitmap_blocks x ≡ (ok bits, x)
    read_bitmap =
        let start = v.sb.bitmap_start in
        let reads =
          read_blocks-reads c (λ b. bitmap_sector v.bitmap (b - start)) start v.sb.bitmap_blocks x
            s.reliable
            λ b low high.
              let here : start + (b - start) ≡ b = omega (arith, low) in
              (
                omega (arith, same_size, in_order.second, in_order.inside, high),
                SameContainer-blocks c s b
                    ∙ ap (block_array c w) (sym here)
                    ∙ Flushed-bitmap c laws in_order f (b - start) st.clean
                        (omega (arith, low, high)),
              ) in
        let all =
          joined-pieces (bitmap_range v.bitmap) sector_size start (no_bitmap v.bitmap)
            (bitmap_range-append v.bitmap) start v.sb.bitmap_blocks (omega arith) in
        let first : (start - start) * sector_size ≡ 0 = omega arith in reads ∙ rw (all, first) refl

    read_table : read_blocks c v.sb.inode_start v.sb.inode_blocks x ≡ (ok table, x)
    read_table =
        let start = v.sb.inode_start in
        let reads =
          read_blocks-reads c (λ b. inode_table_bytes ((b - start) * 32) 32 v.inodes) start
            v.sb.inode_blocks x s.reliable
            λ b low high.
              let here : start + (b - start) ≡ b = omega (arith, low) in
              (
                omega (arith, same_size, in_order.inside, high),
                SameContainer-blocks c s b
                    ∙ ap (block_array c w) (sym here)
                    ∙ Flushed-inodes c laws in_order f (b - start) (omega (arith, low, high)),
              ) in
        let all =
          joined-pieces (λ i n. inode_table_bytes i n v.inodes) 32 start (no_inodes v.inodes)
            (inode_table_bytes-append v.inodes) start v.sb.inode_blocks (omega arith) in
        let first : (start - start) * 32 ≡ 0 = omega arith in reads ∙ rw (all, first) refl

    hmac_made : compute_hmac c x.hmac_key bits ≡ some f.digest
    hmac_made =
        let key = s.hmac_key ∙ ap (λ (y : Vol). y.hmac_key) f.memory in
        (λ i. compute_hmac c (key i) (bitmap_range v.bitmap 0 (sym st.buffer i))) ∙ f.made

    module _ (same : x.sb ≡ w.sb) where
      sb_path : (x.sb) ≡ record (v.sb) { bitmap_hmac = f.digest }
      sb_path = same ∙ ap (λ (y : Vol). y.sb) f.memory

      hmac_same : bytes_eq f.digest x.sb.bitmap_hmac ≡ true
      hmac_same =
          ap (λ (d : Superblock). bytes_eq f.digest d.bitmap_hmac) sb_path ∙ bytes_eq-same f.digest

      read_bitmap_here : read_blocks c x.sb.bitmap_start x.sb.bitmap_blocks x ≡ (ok bits, x)
      read_bitmap_here =
          ap (λ (d : Superblock). read_blocks c d.bitmap_start d.bitmap_blocks x) sb_path
          ∙ read_bitmap

      read_table_here : read_blocks c x.sb.inode_start x.sb.inode_blocks x ≡ (ok table, x)
      read_table_here =
          ap (λ (d : Superblock). read_blocks c d.inode_start d.inode_blocks x) sb_path ∙ read_table

      load_bitmap-loads : load_bitmap c x ≡ (ok tt, (put_bitmap bits x).1)
      unfolding load_bitmap put_bitmap ◌>>=◌
      load_bitmap-loads =
          let done = host_alloc-done c x s.reliable in
          rw (done, done, read_bitmap_here, hmac_made, hmac_same) refl

      load_inodes-loads : load_inodes c x ≡ (ok tt, (put_inodes table x).1)
      unfolding load_inodes put_inodes ◌>>=◌
      load_inodes-loads = rw read_table_here refl

module _ (c : Crypto) (laws : XtsLaws c) where
  -- The same container, with other metadata in memory.
  with_memory :
      {w x y : Vol}
      → SameContainer w x
      → y.dev ≡ x.dev
      → y.vol_start_offset ≡ x.vol_start_offset
      → y.volume_size ≡ x.volume_size
      → y.volume_key ≡ x.volume_key
      → y.hmac_key ≡ x.hmac_key
      → SameContainer w y
  with_memory s dev start size key hmac = record {
    reliable = in_place dev start size s.reliable;
    sectors = ap (λ (d : Device). d.sectors) dev ∙ s.sectors;
    start = start ∙ s.start;
    size = size ∙ s.size;
    volume_key = key ∙ s.volume_key;
    hmac_key = hmac ∙ s.hmac_key;
  }

  -- If decryption undoes encryption, when a flush succeeds on a volume inside the largest file
  -- offset, whose superblock passes the tests at mount time, whose inodes fit their places, and
  -- whose bitmap on disk is behind only where it is dirty: a volume over the same container, under
  -- the same keys and on a host that does not fail, loads up to the tests of its metadata, and has
  -- then the superblock, the bits of its blocks and the inodes that were in memory.
  pub vol_flush-load_metadata :
      (v : Vol) {u : Unit {0}} {w x : Vol}
      → Storable c v
      → InFile v
      → vol_flush c v ≡ (ok u, w)
      → SameContainer w x
      → (y : Vol) × (load_metadata c x ≡ validate_loaded_metadata c y)
        × SameContainer w y
        × (y.sb ≡ w.sb)
        × ((b : ℕ) → b < w.sb.total_blocks → y.bitmap b ≡ w.bitmap b)
        × ((i : ℕ) → i < max_inodes → y.inodes i ≡ w.inodes i)
  unfolding load_metadata put_bitmap put_inodes ◌>>=◌
  vol_flush-load_metadata v {u} {w} {x} st fits h s =
      let f = vol_flush-Flushed c laws v fits h in
      let x1 : Vol = record x { sb = w.sb } in
      let s1 = with_memory {x = x} {y = x1} s refl refl refl refl refl in
      let x2 : Vol = (put_bitmap (bits c laws st f s1) x1).1 in
      let s2 = with_memory {x = x1} {y = x2} s1 refl refl refl refl refl in
      let x3 : Vol = (put_inodes (table c laws st f s2) x2).1 in
      let s3 = with_memory {x = x2} {y = x3} s2 refl refl refl refl refl in
      (
        x3,
        rw
            (
              load_superblock-loads c laws st f s,
              load_bitmap-loads c laws st f s1 refl,
              load_inodes-loads c laws st f s2 refl,
            )
            refl,
        s3,
        refl,
        bits_back c laws st f,
        inodes_back c laws st f,
      )
