-- ===== src/Container/Apart.antt =====
-- src/fs.c: where denyfs_container_create_hidden writes.
use denyfs.Prelude.{
  ℕ, zero, suc, ◌+◌, ◌*◌, ◌/◌, ◌%◌, ◌^◌, ◌≤◌, ◌<◌, ◌≡◌, ◌≢◌, ◌⊎◌, refl, ap, ◌∙◌, Bool, List, ltb→lt,
  ltb, arith,
}
use denyfs.Layout.{Inode, sector_size, long_max}
use denyfs.Crypto.{Crypto}
use denyfs.Volume.{Device}
use denyfs.Volume.Frame.{Frame, frame, at, IsPreorder, frame_rules, Frame-require}
use denyfs.Block.{block_offset, fwrite_sector, fflush, host_alloc, write_block_raw}
use denyfs.Confine.{sectors-fwrite_sector, sectors-fflush}
use denyfs.Validate.Reads.{host_alloc-ReadsDevice}
use denyfs.Format.{can_format, data_start_of, write_bitmap, write_inodes, format_volume}
use denyfs.Validate.{bitmap_blocks_of, inode_table_blocks}
use denyfs.Container.{Draws, write_volume}

-- The sectors outside `lo ≤ x < hi` are as they were.
abbrev pub Within : ℕ → ℕ → Device → Device → Type 0
Within lo hi d e = (x : ℕ) → (x < lo) ⊎ (hi ≤ x) → e.sectors x ≡ d.sectors x

pub Within-order : (lo hi : ℕ) → IsPreorder (Within lo hi)
Within-order lo hi = record { same = λ d x off. refl; trans = λ d e f p q x off. q x off ∙ p x off }

fflush-Within : (lo hi : ℕ) → Frame (Within lo hi) fflush
fflush-Within lo hi = frame λ d x off. sectors-fflush d x

host_alloc-Within : (lo hi : ℕ) → Frame (Within lo hi) host_alloc
host_alloc-Within lo hi = frame λ d x off. ap (λ f. f x) (host_alloc-ReadsDevice.sectors d)

fwrite_sector-Within :
    (lo hi offset : ℕ) (bytes : List ℕ)
    → lo ≤ offset / sector_size
    → offset / sector_size < hi
    → Frame (Within lo hi) (fwrite_sector offset bytes)
fwrite_sector-Within lo hi offset bytes low high =
    frame λ d x off. sectors-fwrite_sector offset bytes d x (outside lo hi _ x low high off)
  where
    outside : (lo hi s x : ℕ) → lo ≤ s → s < hi → (x < lo) ⊎ (hi ≤ x) → x ≢ s
    outside lo hi s x low high off = ground arith

module _ (c : Crypto) (key : List ℕ) (start blocks : ℕ)
    (fits : start + blocks * sector_size ≤ long_max) where
  -- A block of the volume lands in one of the volume's sectors.
  write_block_raw-Within :
      (n : ℕ) (bytes : List ℕ)
      → n < blocks
      → Frame
          (Within (start / sector_size) ((start + blocks * sector_size) / sector_size))
          (write_block_raw c key start n bytes)
  unfolding write_block_raw
  write_block_raw-Within n bytes inside =
      let place : (start + n * sector_size) % 2 ^ 64 ≡ start + n * sector_size = omega arith in
      let one = λ (b : List ℕ).
        fwrite_sector-Within (start / sector_size) ((start + blocks * sector_size) / sector_size)
          (block_offset start n) b (omega (arith, place)) (omega (arith, place)) in
      search (frame_rules, Within-order, fflush-Within, one) depth 20

  write_bitmap-Within :
      (bitmap : ℕ → Bool) (i n : ℕ)
      → 1 + i + n ≤ blocks
      → Frame
          (Within (start / sector_size) ((start + blocks * sector_size) / sector_size))
          (write_bitmap c key start bitmap i n)
  unfolding write_bitmap
  write_bitmap-Within bitmap i zero h = search (frame_rules, Within-order)
  write_bitmap-Within bitmap i (suc n) h =
      let ih = write_bitmap-Within bitmap (i + 1) n (omega arith) in
      let one = λ (b : List ℕ). write_block_raw-Within (1 + i) b (omega arith) in
      search (frame_rules, Within-order, one, ih) depth 12

  write_inodes-Within :
      (inode_start : ℕ) (inodes : ℕ → Inode) (i n : ℕ)
      → inode_start + i + n ≤ blocks
      → Frame
          (Within (start / sector_size) ((start + blocks * sector_size) / sector_size))
          (write_inodes c key start inode_start inodes i n)
  unfolding write_inodes
  write_inodes-Within inode_start inodes i zero h = search (frame_rules, Within-order)
  write_inodes-Within inode_start inodes i (suc n) h =
      let ih = write_inodes-Within inode_start inodes (i + 1) n (omega arith) in
      let one = λ (b : List ℕ). write_block_raw-Within (inode_start + i) b (omega arith) in
      search (frame_rules, Within-order, one, ih) depth 12

module _ (c : Crypto) where
  -- A volume is formatted inside its own sectors.
  pub format_volume-Within :
      (now : ℕ) (key hmac_key : List ℕ) (size start : ℕ)
      → Frame
          (Within (start / sector_size) ((start + size / sector_size * sector_size) / sector_size))
          (format_volume c now key hmac_key size start)
  unfolding format_volume can_format
  format_volume-Within now key hmac_key size start =
      let n = size / sector_size in
      let o = Within-order (start / sector_size) ((start + n * sector_size) / sector_size) in
      Frame-require o (can_format size start) _ _ λ can.
        Frame-require o (ltb (data_start_of n) n) _ _ λ room.
          let fits : start + n * sector_size ≤ long_max = ground arith in
          let first : 0 < n = ground arith in
          let maps : 1 + 0 + bitmap_blocks_of n ≤ n = ground arith in
          let tables : 1 + bitmap_blocks_of n + 0 + inode_table_blocks ≤ n = ground arith in
          let root : data_start_of n < n = ltb→lt _ _ room in
          let super = λ (b : List ℕ). write_block_raw-Within c key start n fits 0 b first in
          let bits = λ (f : ℕ → Bool). write_bitmap-Within c key start n fits f 0 _ maps in
          let inodes = λ (t : ℕ → Inode). write_inodes-Within c key start n fits _ t 0 _ tables in
          let directory =
            λ (b : List ℕ). write_block_raw-Within c key start n fits (data_start_of n) b root in
          search (frame_rules, Within-order, host_alloc-Within, super, bits, inodes, directory)
            depth 40

  -- The header's sector and the volume's.
  pub write_volume-Apart :
      (r : Draws) (password : List ℕ) (size hho start x : ℕ) (d : Device)
      → x ≢ hho / sector_size
      → (x < start / sector_size) ⊎ ((start + size / sector_size * sector_size) / sector_size ≤ x)
      → (write_volume c r password size hho start d).1.sectors x ≡ d.sectors x
  unfolding write_volume
  write_volume-Apart r password size hho start x d ne off = at whole d
    where
      Keeps : Device → Device → Type 0
      Keeps d e = e.sectors x ≡ d.sectors x

      order : IsPreorder Keeps
      order = record { same = λ d. refl; trans = λ d e f p q. q ∙ p }

      header : (b : List ℕ) → Frame Keeps (fwrite_sector hho b)
      header b = frame λ d. sectors-fwrite_sector hho b d x ne

      format : (key hmac : List ℕ) → Frame Keeps (format_volume c r.now key hmac size start)
      format key hmac = frame λ d. at (format_volume-Within r.now key hmac size start) d x off

      whole : Frame Keeps (write_volume c r password size hho start)
      whole = search (frame_rules, order, header, format) depth 20
