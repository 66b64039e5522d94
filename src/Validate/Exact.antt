-- ===== src/Validate/Exact.antt =====
-- src/fs.c: the counts of validate_loaded_metadata. The walk claims as many blocks as it counts, so
-- the comparison of the two numbers compares the bitmap with the claims bit by bit.
use denyfs.Prelude.{ℕ, zero, suc, ◌+◌, ◌-◌, ◌<◌, ◌≤◌, ◌≡◌, refl, sym, ap, Bool, true, false, arith}
use denyfs.Crypto.{Crypto}
use denyfs.Layout.{max_inodes}
use denyfs.Volume.{Vol, ok, update}
use denyfs.Volume.Yields.{yielded}
use denyfs.FileMap.{is_claimed}
use denyfs.Validate.{Claims, claim_inodes}
use denyfs.Validate.Metadata.{count_set, good_counts, validate_loaded_metadata}
use denyfs.Validate.Reads.{OnlyReads}
use denyfs.Validate.Claiming.{Kept, inodes-Kept}
use denyfs.Validate.Unshared.{no_claims, walked}

-- A change of a bit in front of the stretch.
count_set-update_before :
    (f : ℕ → Bool) (i n j : ℕ) (bit : Bool)
    → j < i
    → count_set (update f j bit) i n ≡ count_set f i n
unfolding count_set
count_set-update_before f i zero j bit h = refl
count_set-update_before f i (suc n) j bit h =
    ground (arith, count_set-update_before f (i + 1) n j bit)

-- Setting a clear bit of the stretch adds one.
count_set-set :
    (f : ℕ → Bool) (i n j : ℕ)
    → i ≤ j
    → j < i + n
    → f j ≡ false
    → count_set (update f j true) i n ≡ count_set f i n + 1
unfolding count_set
count_set-set f i zero j h k clear = absurd (omega arith)
count_set-set f i (suc n) j h k clear = ground (
  arith,
  ap f {x = i} {y = j},
  count_set-update_before f (i + 1) n j true,
  count_set-set f (i + 1) n j,
)

count_set-none : (i n : ℕ) → count_set (λ _. false) i n ≡ 0
unfolding count_set
count_set-none i zero = refl
count_set-none i (suc n) = omega (arith, count_set-none (i + 1) n)

-- Of two sets, one inside the other.
module _ (f g : ℕ → Bool) (inside : (b : ℕ) → f b ≡ true → g b ≡ true) where
  count_set-le : (i n : ℕ) → count_set f i n ≤ count_set g i n
  unfolding count_set
  count_set-le i zero = omega arith
  count_set-le i (suc n) = ground (arith, inside i, count_set-le (i + 1) n)

  -- They are the same when they have as many members.
  count_set-same : (i n b : ℕ) → i ≤ b → b < i + n → count_set f i n ≡ count_set g i n → f b ≡ g b
  unfolding count_set
  count_set-same i zero b low high same = absurd (omega arith)
  count_set-same i (suc n) b low high same =
      let le = count_set-le (i + 1) n in
      let head : f i ≡ g i = ground (arith, inside i) in
      let rest : count_set f (i + 1) n ≡ count_set g (i + 1) n = ground (arith, inside i) in
      ground (arith, ap f {x = i} {y = b}, ap g {x = i} {y = b}, count_set-same (i + 1) n b)

-- The claims so far: each on a data block in use, as many as are counted.
record IsExact (v : Vol) (cl : Claims) : Type 0 where
  used : (b : ℕ) → cl.claimed b ≡ true → is_claimed v b ≡ true
  counted : cl.count ≡ count_set cl.claimed v.sb.data_start (v.sb.total_blocks - v.sb.data_start)

IsExact-Kept : (v : Vol) → Kept v (IsExact v)
unfolding is_claimed
IsExact-Kept v cl b used fresh exact =
    let start = v.sb.data_start in
    let n = v.sb.total_blocks - start in
    let low : start ≤ b = ground arith in
    let high : b < start + n = ground arith in
    record {
      used = λ x h. ground (arith, exact.used x, ap (is_claimed v) {x = x} {y = b});
      counted = omega (arith, exact.counted, count_set-set cl.claimed start n b low high fresh);
    }

none-IsExact : (v : Vol) → IsExact v no_claims
none-IsExact v = record {
  used = λ b h. ground arith;
  counted = sym (count_set-none v.sb.data_start (v.sb.total_blocks - v.sb.data_start));
}

-- When the metadata of a volume passes, the walk over its inodes, made on the same memory, has
-- claimed exactly the data blocks that the bitmap marks as taken.
pub validated-exact :
    (c : Crypto) (v : Vol) {w : Vol} {u : Unit {0}}
    → validate_loaded_metadata c v ≡ (ok u, w)
    → (before after : Vol) × (cl : Claims) × OnlyReads v before
      × (claim_inodes c 0 max_inodes no_claims before ≡ (ok cl, after))
      × ((b : ℕ) → v.sb.data_start ≤ b → b < v.sb.total_blocks → v.bitmap b ≡ cl.claimed b)
unfolding good_counts is_claimed
validated-exact c v e =
    let (before, after, cl, reads, r, good) = walked c v e in
    let walk =
      inodes-Kept (IsExact-Kept v) c (λ cl k. record { used = k.used; counted = k.counted }) in
    let (exact, _) = yielded (walk 0 max_inodes no_claims (none-IsExact v)) reads r in
    let start = v.sb.data_start in
    let n = v.sb.total_blocks - start in
    let same : count_set cl.claimed start n ≡ count_set v.bitmap start n =
      ground (arith, exact.counted) in
    (
      before,
      after,
      cl,
      reads,
      r,
      λ b low high. sym (
          count_set-same cl.claimed v.bitmap (λ x h. ground (arith, exact.used x)) start n b low
            (omega arith) same),
    )
