-- ===== src/Validate/Unshared.antt =====
-- src/fs.c: the direct pointers of all the inodes that validate_loaded_metadata has passed.
use denyfs.Prelude.{
  ℕ, zero, suc, ◌+◌, ◌<◌, ◌≤◌, ◌≡◌, ◌≢◌, ◌⊎◌, inl, inr, sym, ap, ◌∙◌, true, false, List, arith,
}
use denyfs.Crypto.{Crypto}
use denyfs.Layout.{invalid_block, max_inodes}
use denyfs.Volume.{Vol, ok}
use denyfs.Volume.Yields.{Yields, yielded, Yields-weaken, Yields-pure, Yields-bind}
use denyfs.FileMap.{is_claimed}
use denyfs.Validate.{Claims, claim_inodes}
use denyfs.Volume.Run.{bind-ok, require-ok, gets-ok, ran}
use denyfs.Validate.Metadata.{good_counts, validate_loaded_metadata}
use denyfs.Validate.Reads.{OnlyReads, host_alloc-OnlyReads}
use denyfs.Validate.Direct.{entry, Takes, Takes-grows}
use denyfs.Validate.Owners.{block_limit, TakesInode, inode-Takes}

abbrev pub no_claims : Claims
no_claims = record { claimed = λ _. false; count = 0; allocated_inodes = 0 }

-- The inodes `first` to `first + n - 1`: no two of their direct pointers name the same block.
pub record TakesInodes (v : Vol) (first n : ℕ) (before after : Claims) : Type 0 where
  pub grows : (b : ℕ) → before.claimed b ≡ true → after.claimed b ≡ true
  pub each : (k : ℕ) → first ≤ k → k < first + n → TakesInode v k before after
  pub apart :
      (k l i j : ℕ)
      → first ≤ k
      → k < l
      → l < first + n
      → entry (v.inodes k).direct i ≢ invalid_block
      → entry (v.inodes k).direct i ≢ entry (v.inodes l).direct j

module _ {v : Vol} where
  Takes-after :
      {n i : ℕ} {bs : List ℕ} {before middle after : Claims}
      → ((b : ℕ) → before.claimed b ≡ true → middle.claimed b ≡ true)
      → Takes v n i bs middle after
      → Takes v n i bs before after
  Takes-after {before = before} {middle = middle} g t = record {
    grows = λ b h. t.grows b (g b h);
    fresh = λ j h. unclaimed_before _ (t.fresh j h);
    used = t.used;
    taken = t.taken;
    inside = t.inside;
    distinct = t.distinct;
  }
    where
      unclaimed_before : (b : ℕ) → middle.claimed b ≡ false → before.claimed b ≡ false
      unclaimed_before b h = ground (arith, g b)

  -- A block that is claimed is not the block of a later inode.
  taken-fresh :
      {n m i i' : ℕ} {bs ds : List ℕ} {before middle after : Claims}
      → Takes v n i bs before middle
      → Takes v m i' ds middle after
      → (j k : ℕ) → entry bs j ≢ invalid_block
      → entry bs j ≢ entry ds k
  taken-fresh {middle = middle} t u j k named same =
      absurd
        (ground (arith, t.taken j named, u.fresh k (λ z. named (same ∙ z)), ap middle.claimed same))

  TakesInodes-cons :
      (first n : ℕ) {before middle after : Claims}
      → TakesInode v first before middle
      → TakesInodes v (first + 1) n middle after
      → TakesInodes v first (suc n) before after
  TakesInodes-cons first n {before = before} {middle = middle} t ts = record {
    grows = λ b h. ts.grows b (t.grows b h);
    each = λ k low high. elim (at_or_above low) [
      | inl same ↦ rw same (Takes-grows ts.grows t)
      | inr above ↦ Takes-after t.grows (ts.each k above (omega arith))
    ];
    apart = λ k l i j low less high named shared. elim (at_or_above low) [
      | inl same ↦
          let t' : TakesInode v k before middle = rw same t in
          taken-fresh t' (ts.each l (omega arith) (omega arith)) i j named shared
      | inr above ↦ ts.apart k l i j above less (omega arith) named shared
    ];
  }
    where
      at_or_above : {k : ℕ} → first ≤ k → (k ≡ first) ⊎ (first + 1 ≤ k)
      at_or_above h = ground arith

  TakesInodes-none : (first : ℕ) (cl : Claims) → TakesInodes v first 0 cl cl
  TakesInodes-none first cl = record {
    grows = λ b h. h;
    each = λ k low high. absurd (omega arith);
    apart = λ k l i j low less high. absurd (omega arith);
  }

  inodes-Takes :
      (c : Crypto) (first n : ℕ) (cl : Claims)
      → Yields (OnlyReads v) (TakesInodes v first n cl) (claim_inodes c first n cl)
  unfolding claim_inodes
  inodes-Takes c first zero cl = Yields-pure cl (TakesInodes-none first cl)
  inodes-Takes c first (suc n) cl = Yields-bind _ _ (inode-Takes c first cl) λ middle t.
      Yields-weaken (λ after ts. TakesInodes-cons first n t ts)
        (inodes-Takes c (first + 1) n middle)

module _ (c : Crypto) (v : Vol) {w : Vol} {u : Unit {0}}
    (e : validate_loaded_metadata c v ≡ (ok u, w)) where
  -- The claims that the walk ends with.
  pub walked :
      (before after : Vol) × (cl : Claims) × OnlyReads v before
      × (claim_inodes c 0 max_inodes no_claims before ≡ (ok cl, after))
      × (good_counts v cl ≡ true)
  unfolding validate_loaded_metadata
  walked =
      let e1 = gets-ok _ _ e in
      let (_, e2) = require-ok _ _ _ e1 in
      let (_, before, r1, e3) = bind-ok _ _ e2 in
      let (cl, after, r2, e4) = bind-ok _ _ e3 in
      let (good, _) = require-ok _ _ _ e4 in
      (before, after, cl, ran r1 (host_alloc-OnlyReads c), r2, good)

  pub claims-Takes : (cl : Claims) × TakesInodes v 0 max_inodes no_claims cl
  claims-Takes =
      let (before, after, cl, reads, r, good) = walked in
      (cl, (yielded (inodes-Takes c 0 max_inodes no_claims) reads r).0)

  pub validated-unshared :
      (k l i j : ℕ)
      → k < max_inodes
      → l < max_inodes
      → entry (v.inodes k).direct i ≢ invalid_block
      → entry (v.inodes k).direct i ≡ entry (v.inodes l).direct j
      → (k ≡ l) × (i ≡ j)
  validated-unshared k l i j small small' named same =
      let (cl, t) = claims-Takes in
      elim (compared k l) [
        | inl (inl less) ↦ absurd (t.apart k l i j (omega arith) less small' named same)
        | inl (inr more) ↦
            absurd (t.apart l k j i (omega arith) more small (λ z. named (same ∙ z)) (sym same))
        | inr equal ↦
            let t' = t.each k (omega arith) small in
            let there = ap (λ x. entry (v.inodes x).direct j) (sym equal) in
            (equal, t'.distinct i j named (same ∙ there))
      ]
    where
      compared : (k l : ℕ) → ((k < l) ⊎ (l < k)) ⊎ (k ≡ l)
      compared k l = ground arith

  pub validated-used :
      (k i : ℕ)
      → k < max_inodes
      → entry (v.inodes k).direct i ≢ invalid_block
      → (is_claimed v (entry (v.inodes k).direct i) ≡ true) × (i < block_limit k (v.inodes k))
  validated-used k i small named =
      let (cl, t) = claims-Takes in
      let t' = t.each k (omega arith) small in (t'.used i named, omega (arith, t'.inside i named))
