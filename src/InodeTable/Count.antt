-- ===== src/InodeTable/Count.antt =====
-- The free inodes of the table, and what alloc_inode finds.
use denyfs.Prelude.{
  ℕ, zero, suc, ◌+◌, ◌≤◌, ◌<◌, ◌≡◌, ◌≢◌, refl, ap, ◌==◌, some, if◌then◌else◌, arith,
}
use denyfs.Layout.{Inode, itype_free}
use denyfs.Volume.{update}
use denyfs.InodeTable.{find_free_inode}

-- 1 for a free inode.
abbrev pub is_free_inode : Inode → ℕ
is_free_inode n = if n.type == itype_free then 1 else 0

-- The free inodes among `n` from `i` on.
unfoldable pub count_free_inodes : (ℕ → Inode) → ℕ → ℕ → ℕ
count_free_inodes t i zero = 0
count_free_inodes t i (suc n) = is_free_inode (t i) + count_free_inodes t (i + 1) n

pub count_free_inodes-le : (t : ℕ → Inode) (i n : ℕ) → count_free_inodes t i n ≤ n
unfolding count_free_inodes
count_free_inodes-le t i zero = omega arith
count_free_inodes-le t i (suc n) = ground (arith, count_free_inodes-le t (i + 1) n)

-- Only the types of the inodes count.
pub count_free_inodes-same :
    (t u : ℕ → Inode) (i n : ℕ)
    → 0 < i
    → ((k : ℕ) → k ≢ 0 → (u k).type ≡ (t k).type)
    → count_free_inodes u i n ≡ count_free_inodes t i n
unfolding count_free_inodes
count_free_inodes-same t u i zero low same = refl
count_free_inodes-same t u i (suc n) low same =
    let head : is_free_inode (u i) ≡ is_free_inode (t i) =
      ap {B = ℕ} (λ x. if x == itype_free then 1 else 0) (same i (omega arith)) in
    omega (arith, head, count_free_inodes-same t u (i + 1) n (omega arith) same)

count_free_inodes-before :
    (t : ℕ → Inode) (j i n : ℕ) (x : Inode)
    → j < i
    → count_free_inodes (update t j x) i n ≡ count_free_inodes t i n
unfolding count_free_inodes
count_free_inodes-before t j i zero x h = refl
count_free_inodes-before t j i (suc n) x h =
    ground (arith, count_free_inodes-before t j (i + 1) n x)

-- An inode of the stretch is replaced.
pub count_free_inodes-update :
    (t : ℕ → Inode) (j i n : ℕ) (x : Inode)
    → i ≤ j
    → j < i + n
    → count_free_inodes (update t j x) i n + is_free_inode (t j)
      ≡ count_free_inodes t i n + is_free_inode x
unfolding count_free_inodes
count_free_inodes-update t j i zero x low high = absurd (omega arith)
count_free_inodes-update t j i (suc n) x low high = ground (
  arith,
  ap t {x = i} {y = j},
  count_free_inodes-before t j (i + 1) n x,
  count_free_inodes-update t j (i + 1) n x,
)

pub find_free_inode-some :
    (t : ℕ → Inode) (i n j : ℕ)
    → find_free_inode t i n ≡ some j
    → ((t j).type ≡ itype_free) × (i ≤ j) × (j < i + n)
unfolding find_free_inode
find_free_inode-some t i zero j h = absurd (cc)
find_free_inode-some t i (suc n) j h = ground (arith, find_free_inode-some t (i + 1) n j)
