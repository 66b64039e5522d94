-- ===== src/Validate/Claiming.antt =====
-- src/fs.c: what the walk of validate_loaded_metadata over the inodes does to the claims. A
-- property of the claims that holds when a free data block is claimed, or an inode counted, holds
-- all along.
use denyfs.Prelude.{
  ℕ, zero, suc, ◌+◌, ◌≡◌, sym, ap, Bool, true, false, not, ◌&&◌, ltb, leb, ◌==◌, if◌then◌else◌,
  List, [], ◌∷◌, arith,
}
use denyfs.Crypto.{Crypto}
use denyfs.Layout.{
  Inode, direct_blocks, pointers_per_block, invalid_block, itype_free, itype_dir, itype_file,
  max_file_size, max_file_blocks,
}
use denyfs.Volume.{Vol, Op, update, eperm, require, pure, ◌>>=◌, ◌>>◌}
use denyfs.Volume.Frame.{Frame}
use denyfs.Volume.Run.{ran}
use denyfs.Volume.Yields.{
  Yields, yields, Yields-weaken, Yields-pure, Yields-bind, Yields-require, Yields-if, Yields-state,
}
use denyfs.Volume.Run.{require-ok, gets-ok, pure-ok}
use denyfs.FileMap.{is_claimed, read_pointer_table}
use denyfs.Validate.{
  Claims, claim_metadata_block, claim_entries, claim_root, claim_indirect, claim_children,
  claim_double, claim_file, claim_inode, claim_inodes, is_clear_inode,
}
use denyfs.Validate.Reads.{OnlyReads, OnlyReads-order, table-Frame}

-- The claims with one more block, and with one more inode.
abbrev pub with_block : Claims → ℕ → Claims
with_block cl block = record cl { claimed = update cl.claimed block true; count = cl.count + 1 }

abbrev pub with_inode : Claims → Claims
with_inode cl = record cl { allocated_inodes = cl.allocated_inodes + 1 }

-- The bitmap and the superblock decide what may be claimed.
OnlyReads-is_claimed : {v w : Vol} (b : ℕ) → OnlyReads v w → is_claimed w b ≡ is_claimed v b
unfolding is_claimed
OnlyReads-is_claimed b r = ap (λ (x : Vol). is_claimed x b) r.memory

Frame-Yields :
    {A : Type 0} {v : Vol} {m : Op A} → Frame OnlyReads m → Yields (OnlyReads v) (λ _. Unit {0}) m
Frame-Yields {v = v} f = yields λ w u a i h. (tt, OnlyReads-order.trans v w u i (ran h f))

-- A block that is claimed was a free claim on a data block in use.
pub record Claimed (v : Vol) (block : ℕ) (before after : Claims) : Type 0 where
  pub used : is_claimed v block ≡ true
  pub fresh : before.claimed block ≡ false
  pub result : after ≡ with_block before block

pub claim_metadata_block-Yields :
    {v : Vol} (block : ℕ) (cl : Claims)
    → Yields (OnlyReads v) (Claimed v block cl) (claim_metadata_block block cl)
unfolding claim_metadata_block
claim_metadata_block-Yields {v} block cl = yields λ w u after i h.
    let h1 = gets-ok _ _ h in
    let (test, h2) = require-ok _ _ _ h1 in
    let (same, state) = pure-ok _ _ h2 in
    let used : is_claimed w block ≡ true = ground arith in
    let fresh : cl.claimed block ≡ false = ground arith in
    (
      record {
        used = rw (sym (OnlyReads-is_claimed block i)) used;
        fresh = fresh;
        result = sym same;
      },
      rw (sym state) i,
    )

-- A property of the claims that is kept when a block is claimed.
abbrev pub Kept : Vol → (Claims → Type 0) → Type 0
Kept v K =
    (cl : Claims) (b : ℕ)
    → is_claimed v b ≡ true
    → cl.claimed b ≡ false
    → K cl
    → K (with_block cl b)

module _ {v : Vol} {K : Claims → Type 0} (kept : Kept v K) where
  block-Kept : (b : ℕ) (cl : Claims) → K cl → Yields (OnlyReads v) K (claim_metadata_block b cl)
  block-Kept b cl k =
      Yields-weaken (λ after p. rw (← sym p.result) (kept cl b p.used p.fresh k))
        (claim_metadata_block-Yields b cl)

  -- A block that is claimed behind a test.
  tested-Kept :
      {B : Type 0} {Q : B → Type 0} (t : Bool) (b : ℕ) (cl : Claims) (m : Claims → Op B)
      → K cl
      → ((after : Claims) → K after → Yields (OnlyReads v) Q (m after))
      → Yields (OnlyReads v) Q (do require t eperm; cl ← claim_metadata_block b cl; m cl)
  tested-Kept t b cl m k f =
      Yields-bind _ _ (Yields-require t eperm) λ _ _. Yields-bind _ _ (block-Kept b cl k) f

  entries-Kept :
      (n i : ℕ) (bs : List ℕ) (acc : Claims × ℕ)
      → K acc.0
      → Yields (OnlyReads v) (λ p. K p.0) (claim_entries n i bs acc)
  unfolding claim_entries
  entries-Kept n i [] acc k = Yields-pure acc k
  entries-Kept n i (b ∷ bs) (cl, m) k =
      Yields-if (b == invalid_block) _ _ (λ _. entries-Kept n (i + 1) bs (cl, m) k)
        λ _. tested-Kept (ltb i n) b cl _ k λ after. entries-Kept n (i + 1) bs (after, m + 1)

  pub root-Kept :
      (n i : ℕ) (bs : List ℕ) (cl : Claims) → K cl → Yields (OnlyReads v) K (claim_root n i bs cl)
  unfolding claim_root
  root-Kept n i [] cl k = Yields-pure cl k
  root-Kept n i (b ∷ bs) cl k =
      Yields-if (b == invalid_block) _ _
        (λ _.
          Yields-bind _ _ (Yields-require (not (ltb i n)) eperm) λ _ _. root-Kept n (i + 1) bs cl k)
        λ _. tested-Kept (ltb i n) b cl _ k (root-Kept n (i + 1) bs)

  module _ (c : Crypto) where
    -- The table of a block that is claimed, with its entries; then the test that it has some.
    table-Kept :
        {B : Type 0} {Q : B → Type 0} (t n i : ℕ) (cl : Claims) (m : Claims → ℕ → Op B)
        → K cl
        → ((after : Claims) (entries : ℕ) → K after → Yields (OnlyReads v) Q (m after entries))
        → Yields (OnlyReads v) Q (do
          cl ← claim_metadata_block t cl
          pointers ← read_pointer_table c t
          (cl, entries) ← claim_entries n i pointers (cl, 0)
          require (not (entries == 0)) eperm
          m cl entries)
    table-Kept t n i cl m k f = Yields-bind _ _ (block-Kept t cl k) λ claimed k1.
        Yields-bind _ _ (Frame-Yields (table-Frame c t)) λ pointers _.
          Yields-bind _ _ (entries-Kept n i pointers (claimed, 0) k1) λ acc k2.
            Yields-bind _ _ (Yields-require (not (acc.1 == 0)) eperm) λ _ _. f acc.0 acc.1 k2

    indirect-Kept :
        (t n : ℕ) (acc : Claims × ℕ)
        → K acc.0
        → Yields (OnlyReads v) (λ p. K p.0) (claim_indirect c t n acc)
    unfolding claim_indirect
    indirect-Kept t n (cl, m) k =
        Yields-if (t == invalid_block) _ _ (λ _. Yields-pure _ k)
          λ _. table-Kept t n direct_blocks cl _ k λ after entries k1. Yields-pure _ k1

    children-Kept :
        (n i : ℕ) (rs : List ℕ) (acc : Claims × ℕ × ℕ)
        → K acc.0
        → Yields (OnlyReads v) (λ p. K p.0) (claim_children c n i rs acc)
    unfolding claim_children
    children-Kept n i [] acc k = Yields-pure acc k
    children-Kept n i (r ∷ rs) (cl, a, m) k =
        let next = i + pointers_per_block in
        Yields-if (r == invalid_block) _ _ (λ _. children-Kept n next rs (cl, a, m) k)
          λ _. Yields-bind _ _ (Yields-require (ltb i n) eperm) λ _ _.
            table-Kept r n i cl _ k
              λ after entries. children-Kept n next rs (after, a + entries, m + 1)

    double-Kept :
        (t n : ℕ) (acc : Claims × ℕ)
        → K acc.0
        → Yields (OnlyReads v) (λ p. K p.0) (claim_double c t n acc)
    unfolding claim_double
    double-Kept t n (cl, m) k =
        Yields-if (t == invalid_block) _ _ (λ _. Yields-pure _ k)
          λ _. Yields-bind _ _ (block-Kept t cl k) λ claimed k1.
            Yields-bind _ _ (Frame-Yields (table-Frame c t)) λ roots _.
              Yields-bind _ _ (children-Kept n _ roots (claimed, m, 0) k1) λ acc k2.
                Yields-bind _ _ (Yields-require (not (acc.2 == 0)) eperm) λ _ _. Yields-pure _ k2

    -- The tables of a file, behind its direct blocks.
    pub tables-Kept :
        (n : Inode) (file_blocks : ℕ) (acc : Claims × ℕ)
        → K acc.0
        → Yields (OnlyReads v) K (do
          acc ← claim_indirect c n.indirect_block file_blocks acc
          (cl, actual) ← claim_double c n.double_indirect_block file_blocks acc
          require (actual == n.block_count) eperm
          pure cl)
    tables-Kept n file_blocks acc k = Yields-bind _ _ (indirect-Kept _ file_blocks acc k) λ acc1 k1.
        Yields-bind _ _ (double-Kept _ file_blocks acc1 k1) λ acc2 k2.
          Yields-bind _ _ (Yields-require (acc2.1 == n.block_count) eperm) λ _ _. Yields-pure _ k2

    pub file-Kept : (n : Inode) (cl : Claims) → K cl → Yields (OnlyReads v) K (claim_file c n cl)
    unfolding claim_file
    file-Kept n cl k = Yields-bind _ _ (entries-Kept _ 0 n.direct (cl, 0) k) (tables-Kept n _)

    -- And when an inode is counted.
    module _ (counted : (cl : Claims) → K cl → K (with_inode cl)) where
      inode-Kept : (ino : ℕ) (cl : Claims) → K cl → Yields (OnlyReads v) K (claim_inode c ino cl)
      unfolding claim_inode
      inode-Kept ino cl k =
          let k1 = counted cl k in
          Yields-bind _ _ Yields-state λ w _.
            let n = w.inodes ino in
            Yields-if (n.type == itype_free) _ _
              (λ _.
                Yields-bind _ _ (Yields-require (not (ino == 0) && is_clear_inode n) eperm)
                  λ _ _. Yields-pure cl k)
              λ _.
                Yields-bind _ _
                  (Yields-require (n.type == (if ino == 0 then itype_dir else itype_file)) eperm)
                  λ _ _.
                    Yields-bind _ _
                      (Yields-require
                        (leb n.size max_file_size && leb n.block_count max_file_blocks) eperm)
                      λ _ _.
                        Yields-if (ino == 0) _ _ (λ _. root-Kept n.block_count 0 n.direct _ k1)
                          (λ _. file-Kept n _ k1)

      pub inodes-Kept :
          (ino n : ℕ) (cl : Claims) → K cl → Yields (OnlyReads v) K (claim_inodes c ino n cl)
      unfolding claim_inodes
      inodes-Kept ino zero cl k = Yields-pure cl k
      inodes-Kept ino (suc n) cl k = Yields-bind _ _ (inode-Kept ino cl k) (inodes-Kept (ino + 1) n)
