-- ===== src/Bitmap/Count.antt =====
-- The clear bits of a stretch of the bitmap, and how alloc_block and free_block change their number.
use denyfs.Prelude.{
  ℕ, zero, suc, ◌+◌, ◌≤◌, ◌<◌, ◌≡◌, refl, ap, Bool, true, false, none, some, some, if◌then◌else◌,
  arith,
}
use denyfs.Volume.{update}
use denyfs.Bitmap.{find_free}

unfoldable pub count_free : (ℕ → Bool) → ℕ → ℕ → ℕ
count_free bitmap i zero = 0
count_free bitmap i (suc n) = (if bitmap i then 0 else 1) + count_free bitmap (i + 1) n

pub count_free-le : (bitmap : ℕ → Bool) (i n : ℕ) → count_free bitmap i n ≤ n
unfolding count_free
count_free-le bitmap i zero = omega arith
count_free-le bitmap i (suc n) = ground (arith, count_free-le bitmap (i + 1) n)

-- A change of a bit in front of the stretch.
count_free-update_before :
    (bitmap : ℕ → Bool) (i n j : ℕ) (bit : Bool)
    → j < i
    → count_free (update bitmap j bit) i n ≡ count_free bitmap i n
unfolding count_free
count_free-update_before bitmap i zero j bit h = refl
count_free-update_before bitmap i (suc n) j bit h =
    ground (arith, count_free-update_before bitmap (i + 1) n j bit)

-- Setting a clear bit of the stretch takes one away.
pub count_free-set :
    (bitmap : ℕ → Bool) (i n j : ℕ)
    → i ≤ j
    → j < i + n
    → bitmap j ≡ false
    → count_free (update bitmap j true) i n + 1 ≡ count_free bitmap i n
unfolding count_free
count_free-set bitmap i zero j h k clear = absurd (omega arith)
count_free-set bitmap i (suc n) j h k clear = ground (
  arith,
  ap bitmap {x = i} {y = j},
  count_free-update_before bitmap (i + 1) n j true,
  count_free-set bitmap (i + 1) n j,
)

-- Clearing a set bit of the stretch adds one.
pub count_free-clear :
    (bitmap : ℕ → Bool) (i n j : ℕ)
    → i ≤ j
    → j < i + n
    → bitmap j ≡ true
    → count_free (update bitmap j false) i n ≡ count_free bitmap i n + 1
unfolding count_free
count_free-clear bitmap i zero j h k clear = absurd (omega arith)
count_free-clear bitmap i (suc n) j h k clear = ground (
  arith,
  ap bitmap {x = i} {y = j},
  count_free-update_before bitmap (i + 1) n j false,
  count_free-clear bitmap (i + 1) n j,
)

-- What find_free finds is clear, in the stretch, and the first such bit.
pub find_free-some :
    (bitmap : ℕ → Bool) (i n j : ℕ)
    → find_free bitmap i n ≡ some j
    → (bitmap j ≡ false) × (i ≤ j) × (j < i + n)
unfolding find_free
find_free-some bitmap i zero j h = absurd (cc)
find_free-some bitmap i (suc n) j h = ground (arith, find_free-some bitmap (i + 1) n j)

pub find_free_first :
    (bitmap : ℕ → Bool) (i n j k : ℕ)
    → find_free bitmap i n ≡ some j
    → i ≤ k
    → k < j
    → bitmap k ≡ true
unfolding find_free
find_free_first bitmap i zero j k h p q = absurd (cc)
find_free_first bitmap i (suc n) j k h p q =
    ground (arith, ap bitmap {x = i} {y = k}, find_free_first bitmap (i + 1) n j k)

-- It finds none exactly when there is none.
pub find_free-none :
    (bitmap : ℕ → Bool) (i n k : ℕ)
    → find_free bitmap i n ≡ none
    → i ≤ k
    → k < i + n
    → bitmap k ≡ true
unfolding find_free
find_free-none bitmap i zero k h p q = absurd (omega arith)
find_free-none bitmap i (suc n) k h p q =
    ground (arith, ap bitmap {x = i} {y = k}, find_free-none bitmap (i + 1) n k)
