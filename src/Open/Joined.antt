-- ===== src/Open/Joined.antt =====
-- src/fs.c: the reads of denyfs_vol_open on a host that does not fail, several blocks at a time.
use denyfs.Prelude.{
  ℕ, zero, suc, ◌+◌, ◌-◌, ◌*◌, ◌≤◌, ◌<◌, ◌≡◌, refl, sym, Bool, some, List, [], ◌++◌, arith,
}
use denyfs.Layout.{Inode, inode_table_bytes}
use denyfs.Crypto.{Crypto}
use denyfs.Volume.{Vol, ok, on_device, ◌>>=◌}
use denyfs.Block.{host_alloc}
use denyfs.Block.Array.{block_array, blocks_in}
use denyfs.Block.Reliable.{Reliable, read_block-reads}
use denyfs.FileIo.{bitmap_range}
use denyfs.Open.{read_blocks}

-- The bytes of `n` blocks, one behind the other.
unfoldable pub joined : (ℕ → List ℕ) → ℕ → ℕ → List ℕ
joined content i zero = []
joined content i (suc n) = content i ++ joined content (i + 1) n

suc_times : (n k : ℕ) → suc n * k ≡ k + n * k
suc_times n k = omega arith

-- Pieces of `s` elements, by their numbers from `start` on.
pub joined-pieces :
    (piece : ℕ → ℕ → List ℕ) (s start : ℕ)
    → ((j : ℕ) → piece j 0 ≡ [])
    → ((j m n : ℕ) → piece j (m + n) ≡ piece j m ++ piece (j + m) n)
    → (i n : ℕ) → start ≤ i
    → joined (λ b. piece ((b - start) * s) s) i n ≡ piece ((i - start) * s) (n * s)
unfolding joined
joined-pieces piece s start empty more i zero low =
    let none : 0 * s ≡ 0 = omega arith in rw none (sym (empty _))
joined-pieces piece s start empty more i (suc n) low =
    let moved : i + 1 - start ≡ (i - start) + 1 = omega (arith, low) in
    let next : (i - start + 1) * s ≡ (i - start) * s + s = omega (arith, suc_times (i - start) s) in
    let rest = joined-pieces piece s start empty more (i + 1) n (omega (arith, low)) in
    rw (suc_times n s) (rw (rest, moved, next) (sym (more ((i - start) * s) s (n * s))))

pub no_bitmap : (bitmap : ℕ → Bool) (j : ℕ) → bitmap_range bitmap j 0 ≡ []
unfolding bitmap_range
no_bitmap bitmap j = refl

pub no_inodes : (t : ℕ → Inode) (j : ℕ) → inode_table_bytes j 0 t ≡ []
unfolding inode_table_bytes
no_inodes t j = refl

module _ (c : Crypto) where
  pub read_blocks-reads :
      (content : ℕ → List ℕ) (i n : ℕ) (x : Vol)
      → Reliable x
      → ((b : ℕ) → i ≤ b → b < i + n → (b < blocks_in x) × (block_array c x b ≡ some (content b)))
      → read_blocks c i n x ≡ (ok (joined content i n), x)
  unfolding read_blocks joined ◌>>=◌
  read_blocks-reads content i zero x r h = refl
  read_blocks-reads content i (suc n) x r h =
      let (inside, holds) = h i (omega arith) (omega arith) in
      let rest =
        read_blocks-reads content (i + 1) n x r
          λ b low high. h b (omega (arith, low)) (omega (arith, high)) in
      rw (read_block-reads c i x r inside holds, rest) refl

  pub host_alloc-done : (x : Vol) → Reliable x → on_device host_alloc x ≡ (ok tt, x)
  unfolding on_device host_alloc ◌>>=◌
  host_alloc-done x r = rw (r.no_failures) refl
