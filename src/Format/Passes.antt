-- ===== src/Format/Passes.antt =====
-- src/fs.c: the metadata that format_volume writes passes the tests of denyfs_vol_open.
use denyfs.Prelude.{ℕ, zero, suc, refl, sym, ap, ◌∙◌, ◌+◌, ◌-◌, ◌/◌, ◌≡◌, ◌<◌, true, List, arith}
use denyfs.Layout.{sector_size}
use denyfs.Validate.{validate_superblock}
use denyfs.Format.{can_format, data_start_of, format_bitmap, format_superblock}
use denyfs.Bitmap.Count.{count_free}

-- Behind the root directory's block all bits are clear.
count_free-format_bitmap :
    (data_start i n : ℕ) → data_start < i → count_free (format_bitmap data_start) i n ≡ n
unfolding count_free format_bitmap
count_free-format_bitmap data_start i zero h = refl
count_free-format_bitmap data_start i (suc n) h =
    ground (arith, count_free-format_bitmap data_start (i + 1) n)

count_free-root : (data_start n : ℕ) → count_free (format_bitmap data_start) data_start (suc n) ≡ n
unfolding count_free format_bitmap
count_free-root data_start n =
    ground (arith, count_free-format_bitmap data_start (data_start + 1) n)

-- The superblock of every volume that can be formatted passes the tests at mount time, and counts
-- the clear bits of the bitmap that is written with it.
pub format_superblock-passes :
    (volume_size start_offset : ℕ) (hmac : List ℕ)
    → can_format volume_size start_offset ≡ true
    → data_start_of (volume_size / sector_size) < volume_size / sector_size
    → (validate_superblock (format_superblock (volume_size / sector_size) hmac) volume_size ≡ true)
      × ((format_superblock (volume_size / sector_size) hmac).free_blocks
          ≡ count_free
              (format_bitmap (data_start_of (volume_size / sector_size)))
              (data_start_of (volume_size / sector_size))
              (volume_size / sector_size - data_start_of (volume_size / sector_size)))
unfolding validate_superblock format_superblock can_format
format_superblock-passes volume_size start_offset hmac can room =
    (ground arith, counts (volume_size / sector_size) (data_start_of _) room)
  where
    counts : (n d : ℕ) → d < n → n - d - 1 ≡ count_free (format_bitmap d) d (n - d)
    counts n d lt =
        sym (count_free-root d (n - d - 1)) ∙ ap (count_free (format_bitmap d) d) (omega arith)
