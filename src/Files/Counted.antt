-- ===== src/Files/Counted.antt =====
-- src/fs.c: denyfs_vol_create and the count of free inodes.
use denyfs.Prelude.{ℕ, ◌-◌, ◌≤◌, ◌<◌, ◌≡◌, refl, sym, ap, ◌∙◌, Option, none, some, List, arith}
use denyfs.Crypto.{Crypto}
use denyfs.Layout.{Inode, max_inodes, itype_free, itype_file}
use denyfs.Volume.{
  Vol, Res, ok, err, enoent, enospc, eio, Op, put_inode, put_free_inodes, pure, fail, gets, on_err,
  or_fail, dec32, ◌>>=◌, ◌>>◌,
}
use denyfs.Volume.Frame.{Frame, frame, at, bind-then, on_err-cases, require-then}
use denyfs.Volume.Run.{ran, or_fail-state}
use denyfs.Directory.{vol_lookup, add_dirent}
use denyfs.InodeTable.{find_free_inode, take_inode, alloc_inode}
use denyfs.InodeTable.Count.{
  is_free_inode, count_free_inodes, count_free_inodes-le, count_free_inodes-same,
  count_free_inodes-update, find_free_inode-some,
}
use denyfs.FileIo.{vol_flush}
use denyfs.Files.{new_inode, give_back_inode, check_absent, after_lookup, vol_create}
use denyfs.Files.Creating.{
  SameTypes, vol_lookup-SameTypes, add_dirent-SameTypes, vol_flush-SameTypes,
}

-- The superblock counts the free inodes of the table behind the root directory's.
abbrev pub InodesCounted : Vol → Type 0
InodesCounted v = v.sb.free_inodes ≡ count_free_inodes v.inodes 1 (max_inodes - 1)

SameTypes-InodesCounted : {v w : Vol} → SameTypes v w → InodesCounted v → InodesCounted w
SameTypes-InodesCounted {v} {w} same counted =
    same.count
    ∙ counted
    ∙ sym (count_free_inodes-same v.inodes w.inodes 1 (max_inodes - 1) (omega arith) same.types)

-- How alloc_inode ends.
alloc_inode-cases :
    (P : Vol → Type 0) (k : ℕ → Op ℕ) (v : Vol)
    → P v
    → ((i : ℕ)
        → find_free_inode v.inodes 1 (max_inodes - 1) ≡ some i
        → P (k i (put_free_inodes (dec32 v.sb.free_inodes) v).1).1)
    → P ((or_fail enospc alloc_inode >>= k) v).1
unfolding alloc_inode take_inode ◌>>=◌ put_free_inodes
alloc_inode-cases P k v start h = by_option (find_free_inode v.inodes 1 (max_inodes - 1)) h
  where
    by_option :
        (o : Option ℕ)
        → ((i : ℕ) → o ≡ some i → P (k i (put_free_inodes (dec32 v.sb.free_inodes) v).1).1)
        → P ((or_fail enospc (take_inode o) >>= k) v).1
    by_option none h = start
    by_option (some i) h = h i refl

put_inode-then :
    {A : Type 0} (P : Vol → Type 0) (ino : ℕ) (f : Vol → Inode) (m : Op A) (v : Vol)
    → P (m (put_inode ino (f v) v).1).1
    → P ((gets (λ v. v) >>= λ v. put_inode ino (f v) >> m) v).1
unfolding ◌>>=◌ put_inode
put_inode-then P ino f m v h = h

-- The new inode in its slot.
abbrev new_file : ℕ → ℕ → Vol → Vol
new_file i now v = (put_inode i (new_inode now (v.inodes i)) v).1

-- A free inode that is taken: the count and the table, together.
take-InodesCounted :
    (v : Vol) (i now : ℕ)
    → InodesCounted v
    → find_free_inode v.inodes 1 (max_inodes - 1) ≡ some i
    → InodesCounted (new_file i now (put_free_inodes (dec32 v.sb.free_inodes) v).1)
unfolding put_inode put_free_inodes new_inode
take-InodesCounted v i now counted found =
    let (free, low, high) = find_free_inode-some v.inodes 1 (max_inodes - 1) i found in
    let bound = count_free_inodes-le v.inodes 1 (max_inodes - 1) in
    let x = new_inode now (v.inodes i) in
    let step = count_free_inodes-update v.inodes i 1 (max_inodes - 1) x low high in
    let was : is_free_inode (v.inodes i) ≡ 1 = ground arith in
    omega (arith, step, was, bound, counted)

-- An inode that is given back.
give_back-InodesCounted :
    (v : Vol) (i : ℕ)
    → InodesCounted v
    → 1 ≤ i
    → i < max_inodes
    → (v.inodes i).type ≡ itype_file
    → InodesCounted (give_back_inode i v).1
unfolding give_back_inode put_inode put_free_inodes ◌>>=◌
give_back-InodesCounted v i counted low high file =
    let bound = count_free_inodes-le v.inodes 1 (max_inodes - 1) in
    let x : Inode = record (v.inodes i) { type = itype_free } in
    let step = count_free_inodes-update v.inodes i 1 (max_inodes - 1) x low (omega (arith, high)) in
    let was : is_free_inode (v.inodes i) ≡ 0 = ground arith in
    omega (arith, step, was, bound, counted)

file_type : (v : Vol) (i now : ℕ) → ((new_file i now v).inodes i).type ≡ itype_file
unfolding put_inode new_inode
file_type v i now = ground arith

-- What holds where an action ends.
ended :
    {A : Type 0} (P : Vol → Type 0) {r : Res A × Vol} {x : Res A} {t : Vol}
    → r ≡ (x, t)
    → P r.1
    → P t
ended P e h = rw (← ap (λ p. p.1) e) h

module _ (c : Crypto) where
  check_absent-SameTypes : (name : List ℕ) → Frame SameTypes (check_absent c name)
  unfolding check_absent after_lookup pure fail
  check_absent-SameTypes name =
      frame λ v. by_result (vol_lookup c name v) (at (vol_lookup-SameTypes c name) v)
    where
      by_result :
          {v : Vol} (r : Res ℕ × Vol) → SameTypes v r.1 → SameTypes v (after_lookup c r (pure tt)).1
      by_result (ok i, w) h = h
      by_result (err enoent, w) h = h
      by_result (err e, w) h = h

  -- From the inode's entry in the table on: the directory entry, and the flush.
  entered-InodesCounted :
      (name : List ℕ) (i : ℕ) (v : Vol)
      → InodesCounted v
      → 1 ≤ i
      → i < max_inodes
      → (v.inodes i).type ≡ itype_file
      → InodesCounted
          ((do
            on_err (add_dirent c name i) (λ e. do give_back_inode i; fail e)
            or_fail eio (vol_flush c)
            pure i)
            v).1
  unfolding pure fail
  entered-InodesCounted name i v counted low high file =
      let P = InodesCounted in
      let entry =
        on_err-cases P (add_dirent c name i) (λ e. do give_back_inode i; fail e) v
          (λ _ t r. SameTypes-InodesCounted (ran r (add_dirent-SameTypes c name i)) counted)
          λ e t r.
            let same = ran r (add_dirent-SameTypes c name i) in
            let again =
              give_back-InodesCounted t i (SameTypes-InodesCounted same counted) low high
                (same.types i (omega (arith, low)) ∙ file) in
            bind-then P _ _ t again λ _ u r'. ended P r' again in
      bind-then P _ _ v entry λ _ t r.
        let same = at (vol_flush-SameTypes c) t in
        let flushed : P (or_fail eio (vol_flush c) t).1 =
          rw (or_fail-state eio (vol_flush c) t) (SameTypes-InodesCounted same (ended P r entry)) in
        bind-then P (or_fail eio (vol_flush c)) _ t flushed λ _ u r'. ended P r' flushed

  -- Whatever denyfs_vol_create comes to, and whatever the host fails at, the superblock counts the
  -- free inodes of the table afterwards, if it did so before.
  pub vol_create-InodesCounted :
      (now : ℕ) (name : List ℕ) (v : Vol)
      → InodesCounted v
      → InodesCounted (vol_create c now name v).1
  unfolding vol_create
  vol_create-InodesCounted now name v counted =
      let P = InodesCounted in
      require-then P counted _ _ _ λ good.
        bind-then P _ _ v (SameTypes-InodesCounted (at (check_absent-SameTypes name) v) counted)
          λ _ t r.
            let counted1 =
              ended P r (SameTypes-InodesCounted (at (check_absent-SameTypes name) v) counted) in
            alloc_inode-cases P _ t counted1 λ i found.
              let (_, low, high) = find_free_inode-some t.inodes 1 (max_inodes - 1) i found in
              let w = (put_free_inodes (dec32 t.sb.free_inodes) t).1 in
              put_inode-then P i (λ w. new_inode now (w.inodes i)) _ w
                (entered-InodesCounted name i _ (take-InodesCounted t i now counted1 found) low
                  (omega (arith, high)) (file_type w i now))
