-- ===== src/Open/Bits.antt =====
-- src/fs.c: the bitmap and the inode table, from the sectors that hold them.
use denyfs.Prelude.{
  ℕ, zero, suc, ◌+◌, ◌*◌, ◌/◌, ◌%◌, ◌^◌, ◌≤◌, ◌<◌, ◌≡◌, refl, sym, ap, ◌∙◌, Bool, true, false, ◌==◌,
  List, ◌++◌, length, length-append, append_assoc, take-append, drop-append, tabulate, get_or,
  arith,
}
use denyfs.Prelude.Words.{word_bytes, length-le_bytes, length-word_bytes}
use denyfs.Layout.{Inode, inode_bytes, inode_table_bytes, to_inode_table}
use denyfs.Layout.RoundTrip.{FitsInode, to_inode-inode_bytes}
use native.Mathlib.Nat.{div-div-eq-div-mul}
use denyfs.FileIo.{bit_value, bitmap_byte, bitmap_range}
use denyfs.FileIo.Bytes.{zero_left, zero_right, suc_left, tabulate-append}
use denyfs.Open.{bit_of}

pub bitmap_range-append :
    (bitmap : ℕ → Bool) (j m n : ℕ)
    → bitmap_range bitmap j (m + n) ≡ bitmap_range bitmap j m ++ bitmap_range bitmap (j + m) n
unfolding bitmap_range
bitmap_range-append bitmap j m n = tabulate-append (bitmap_byte bitmap) j m n

get_or-tabulate : (f : ℕ → ℕ) (j n k : ℕ) → k < n → get_or (tabulate j n f) k 0 ≡ f (j + k)
unfolding tabulate
get_or-tabulate f j zero k inside = absurd (omega (arith, inside))
get_or-tabulate f j (suc n) zero inside = ap f (omega arith)
get_or-tabulate f j (suc n) (suc k) inside =
    get_or-tabulate f (j + 1) n k (omega (arith, inside)) ∙ ap f (omega arith)

-- A bit of a byte.
bit_value-le : (b : Bool) → bit_value b ≤ 1
unfolding bit_value
bit_value-le true = omega arith
bit_value-le false = omega arith

bit_value-is : (b : Bool) → (bit_value b == 1) ≡ b
unfolding bit_value
bit_value-is true = refl
bit_value-is false = refl

pack : (ℕ → Bool) → ℕ → ℕ → ℕ
pack bitmap zero i = 0
pack bitmap (suc n) i = bit_value (bitmap i) + 2 * pack bitmap n (i + 1)

shifted : (x y k : ℕ) → x ≤ 1 → (x + 2 * y) / 2 ^ suc k ≡ y / 2 ^ k
shifted x y k small =
    let power : 2 ^ suc k ≡ 2 * 2 ^ k = omega arith in
    let half : (x + 2 * y) / 2 ≡ y = omega (arith, small) in
    rw power (sym (div-div-eq-div-mul (x + 2 * y) 2 (2 ^ k)) ∙ ap (λ (z : ℕ). z / 2 ^ k) half)

pack-bit :
    (bitmap : ℕ → Bool) (n i k : ℕ) → k < n → (pack bitmap n i / 2 ^ k % 2 == 1) ≡ bitmap (i + k)
unfolding pack
pack-bit bitmap zero i k inside = absurd (omega (arith, inside))
pack-bit bitmap (suc n) i zero inside =
    let low : (bit_value (bitmap i) + 2 * pack bitmap n (i + 1)) / 1 % 2 ≡ bit_value (bitmap i) =
      omega (arith, bit_value-le (bitmap i)) in
    rw (low, zero_right i) (bit_value-is (bitmap i))
pack-bit bitmap (suc n) i (suc k) inside =
    rw (shifted (bit_value (bitmap i)) (pack bitmap n (i + 1)) k (bit_value-le (bitmap i))) (
      pack-bit bitmap n (i + 1) k (omega (arith, inside))
      ∙ ap bitmap {x = i + 1 + k} {y = i + suc k} (omega arith))

bitmap_byte-bit :
    (bitmap : ℕ → Bool) (j k : ℕ)
    → k < 8
    → (bitmap_byte bitmap j / 2 ^ k % 2 == 1) ≡ bitmap (8 * j + k)
unfolding bitmap_byte pack
bitmap_byte-bit bitmap j k small = pack-bit bitmap 8 (8 * j) k small

pub bit_of-bitmap_range :
    (bitmap : ℕ → Bool) (n b : ℕ) → b < 8 * n → bit_of (bitmap_range bitmap 0 n) b ≡ bitmap b
unfolding bit_of bitmap_range
bit_of-bitmap_range bitmap n b inside =
    rw (get_or-tabulate (bitmap_byte bitmap) 0 n (b / 8) (omega (arith, inside)), zero_left (b / 8))
      (bitmap_byte-bit bitmap (b / 8) (b % 8) (omega arith)
        ∙ ap bitmap {x = 8 * (b / 8) + b % 8} {y = b} (omega arith))

-- The inode table.
pub inode_table_bytes-append :
    (t : ℕ → Inode) (i m n : ℕ)
    → inode_table_bytes i (m + n) t ≡ inode_table_bytes i m t ++ inode_table_bytes (i + m) n t
unfolding inode_table_bytes
inode_table_bytes-append t i zero n = rw (zero_left n, zero_right i) refl
inode_table_bytes-append t i (suc m) n =
    let next : i + 1 + m ≡ i + suc m = omega arith in
    rw (suc_left m n) (
      ap (λ (xs : List ℕ). inode_bytes (t i) ++ xs)
        (inode_table_bytes-append t (i + 1) m n
          ∙ ap (λ (k : ℕ). inode_table_bytes (i + 1) m t ++ inode_table_bytes k n t) next)
      ∙ sym (append_assoc (inode_bytes (t i)) _ _))

-- An inode that fits its 128 bytes.
pub record FitsSlot (n : Inode) : Type 0 where
  pub fields : FitsInode n
  pub reserved : length n.reserved ≡ 16

length-inode_bytes : (n : Inode) → FitsSlot n → length (inode_bytes n) ≡ 128
unfolding inode_bytes
length-inode_bytes n f =
    let direct : length (word_bytes n.direct) ≡ 80 =
      omega (arith, length-word_bytes n.direct, f.fields.direct_length) in
    simp (length-append, length-le_bytes, direct, f.reserved)

pub to_inode_table-inode_table_bytes :
    (t : ℕ → Inode) (k n i : ℕ)
    → i < n
    → ((j : ℕ) → k ≤ j → j < k + n → FitsSlot (t j))
    → to_inode_table (inode_table_bytes k n t) i ≡ t (k + i)
unfolding to_inode_table inode_table_bytes
to_inode_table-inode_table_bytes t k zero i inside fits = absurd (omega (arith, inside))
to_inode_table-inode_table_bytes t k (suc n) zero inside fits =
    let slot = fits k (omega arith) (omega arith) in
    rw
      (take-append 128 (inode_bytes (t k)) (inode_table_bytes (k + 1) n t)
        (length-inode_bytes (t k) slot))
      (to_inode-inode_bytes (t k) slot.fields ∙ ap t (omega arith))
to_inode_table-inode_table_bytes t k (suc n) (suc i) inside fits =
    let slot = fits k (omega arith) (omega arith) in
    rw
      (drop-append 128 (inode_bytes (t k)) (inode_table_bytes (k + 1) n t)
        (length-inode_bytes (t k) slot))
      (to_inode_table-inode_table_bytes t (k + 1) n i (omega (arith, inside))
          (λ j low high. fits j (omega (arith, low)) (omega (arith, high)))
        ∙ ap t (omega arith))
