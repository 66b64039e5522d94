-- ===== src/Open/Counts.antt =====
-- src/fs.c: what the tests of validate_superblock and the counts of validate_loaded_metadata say of
-- the bitmap.
use denyfs.Prelude.{ℕ, zero, suc, ◌+◌, ◌-◌, ◌≤◌, ◌<◌, ◌≡◌, refl, ap, Bool, true, arith}
use denyfs.Volume.{Vol}
use denyfs.Validate.{Claims, validate_superblock}
use denyfs.Validate.Metadata.{count_set, all_set, good_counts}
use denyfs.Bitmap.Count.{count_free}
use denyfs.Account.{IsCounted}

count_set-count_free :
    (bitmap : ℕ → Bool) (i n : ℕ) → count_set bitmap i n + count_free bitmap i n ≡ n
unfolding count_set count_free
count_set-count_free bitmap i zero = refl
count_set-count_free bitmap i (suc n) = ground (arith, count_set-count_free bitmap (i + 1) n)

all_set-at :
    (bitmap : ℕ → Bool) (i n b : ℕ)
    → all_set bitmap i n ≡ true
    → i ≤ b
    → b < i + n
    → bitmap b ≡ true
unfolding all_set
all_set-at bitmap i zero b h p q = absurd (omega arith)
all_set-at bitmap i (suc n) b h p q =
    ground (arith, ap bitmap {x = i} {y = b}, all_set-at bitmap (i + 1) n b)

-- The tests of validate_superblock and of the counts make the superblock count the clear bits.
pub counts-IsCounted :
    (v : Vol) (cl : Claims)
    → validate_superblock v.sb v.volume_size ≡ true
    → good_counts v cl ≡ true
    → IsCounted v
unfolding validate_superblock good_counts
counts-IsCounted v cl hs hc =
    let sum = count_set-count_free v.bitmap v.sb.data_start (v.sb.total_blocks - v.sb.data_start) in
    (
      ground arith,
      ground arith,
      ground (arith, sum),
      λ b lt.
          all_set-at v.bitmap 0 v.sb.data_start b (ground arith) (omega arith) (omega (arith, lt)),
    )
