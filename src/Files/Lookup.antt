-- ===== src/Files/Lookup.antt =====
-- src/fs.c: lookups after a denyfs_vol_create that succeeded, on a host that does not fail.
use denyfs.Prelude.{
  ℕ, ◌-◌, ◌≤◌, ◌<◌, ◌≡◌, inl, inr, refl, sym, ap, ◌∙◌, true, false, Bool-cases, any, Option, none,
  not, ◌&&◌, ltb, ◌==◌, some, List, length, bytes_eq, bytes_eq→eq, if◌then◌else◌, arith,
}
use denyfs.Crypto.{Crypto, XtsLaws}
use denyfs.Layout.{max_inodes, max_name_len}
use denyfs.Volume.{Vol, Res, ok, err, enoent, put_free_inodes, dec32, pure, fail}
use denyfs.Volume.Frame.{at}
use denyfs.Volume.Run.{
  bind-ok, require-ok, gets-ok, pure-ok, fail-ok, or_fail-ok, on_err-ok, bind-known, ran,
}
use denyfs.Block.Reliable.{Reliable, KeepsReliable-Primitives}
use denyfs.Directory.{vol_lookup, add_dirent}
use denyfs.Directory.Names.{entry_for-valid}
use denyfs.Directory.Walk.{
  GoodDirectory, entries_of, lookup_in, vol_lookup-in, name_fits, vol_lookup-refused,
}
use denyfs.Directory.Inserting.{NewEntry}
use denyfs.Directory.Added.{Added}
use denyfs.Directory.Grown.{add_dirent-Added}
use denyfs.Directory.Alike.{Alike, Alike-good, Alike-lookups, Flushed-Alike, new_file-Alike}
use denyfs.InodeTable.{take_inode, alloc_inode}
use denyfs.InodeTable.Count.{find_free_inode-some}
use denyfs.FileIo.Flushed.{vol_flush-Flushed}
use denyfs.FileIo.Kept.{InFront}
use denyfs.Files.{good_name, after_lookup, check_absent, give_back_inode, vol_create}
use denyfs.Keep.{Primitives}
use denyfs.Keep.Session.{vol_create-Frame}
use denyfs.Keep.Front.{KeepsInFront, KeepsInFront-Primitives}
use denyfs.Keep.Directory.{add_dirent-Frame}

-- A volume on a host that does not fail, its metadata in front of its data blocks, whose root
-- directory can be read.
pub record Usable (c : Crypto) (v : Vol) : Type 0 where
  pub reliable : Reliable v
  pub front : InFront v
  pub directory : GoodDirectory c v

-- The inode that alloc_inode took.
taken_slot :
    (x : Option ℕ) (v : Vol) {ino : ℕ} {w : Vol}
    → take_inode x v ≡ (ok ino, w)
    → (x ≡ some ino) × (w ≡ (put_free_inodes (dec32 v.sb.free_inodes) v).1)
unfolding take_inode put_free_inodes
taken_slot none v h = fail-ok _ _ h
taken_slot (some i) v h =
    let (same, end) = pure-ok _ _ (bind-known (put_free_inodes _) _ refl (gets-ok _ _ h)) in
    (ap some same, sym end)

alloc_inode-ok :
    (v : Vol) {ino : ℕ} {w : Vol}
    → alloc_inode v ≡ (ok ino, w)
    → (1 ≤ ino) × (ino < max_inodes) × (w ≡ (put_free_inodes (dec32 v.sb.free_inodes) v).1)
unfolding alloc_inode
alloc_inode-ok v {ino} h =
    let (found, left) = taken_slot _ v (gets-ok _ _ h) in
    let (_, low, high) = find_free_inode-some v.inodes 1 (max_inodes - 1) ino found in
    (low, omega (arith, high), left)

module _ (c : Crypto) where
  after_lookup-ok :
      (r : Res ℕ) (v : Vol) {u : Unit {0}} {w : Vol}
      → after_lookup c (r, v) (pure tt) ≡ (ok u, w)
      → (r ≡ err enoent) × (v ≡ w)
  unfolding after_lookup
  after_lookup-ok (ok i) v h = fail-ok _ _ h
  after_lookup-ok (err enoent) v h = let (_, same) = pure-ok _ _ h in (refl, same)
  after_lookup-ok (err e) v h = fail-ok _ _ h

  module _ (laws : XtsLaws c) where
    -- What a denyfs_vol_create that succeeds has done, when the name was not there.
    create-Added :
        (now : ℕ) (name : List ℕ) (v : Vol) {ino : ℕ} {w : Vol}
        → Reliable v
        → GoodDirectory c v
        → InFront v
        → any (λ b. b == 0) name ≡ false
        → vol_create c now name v ≡ (ok ino, w)
        → (good_name name ≡ true)
          × (lookup_in (entries_of c v) name (v.inodes 0).direct ≡ err enoent)
          × Added c name ino v w
    unfolding vol_create check_absent good_name
    create-Added now name v {ino} {w} reliable good front no_zero h =
        let (named, h1) = require-ok _ _ _ h in
        let (_, v1, r1, h2) = bind-ok _ _ h1 in
        let guard : (not (length name == 0) && ltb (length name) max_name_len) ≡ true =
          ground arith in
        let walk = vol_lookup-in c v reliable name good guard in
        let (unnamed, same) =
          after_lookup-ok (lookup_in (entries_of c v) name (v.inodes 0).direct) v {w = v1}
            (rw (← walk) r1) in
        let good1 : GoodDirectory c v1 = rw (← same) good in
        let unnamed1 : lookup_in (entries_of c v1) name (v1.inodes 0).direct ≡ err enoent =
          rw (← same) unnamed in
        let (i, v2, r2, h3) = bind-ok _ _ h2 in
        let (low, high, taken) = alloc_inode-ok v1 (or_fail-ok _ _ _ r2) in
        let (_, v3, r3, h4) = bind-ok _ _ (gets-ok _ _ h3) in
        let (_, v4, r4, h5) = bind-ok _ _ h4 in
        let (_, v5, r5, h6) = bind-ok _ _ h5 in
        let (is, end) = pure-ok _ _ h6 in
        let before : Alike c v1 v3 =
          rw (← ap (λ p. p.1) r3, taken) (new_file-Alike c v1 _ i _ low) in
        let reliable3 : Reliable v3 =
          ran r3 (in_reliable.inode _ _)
            (rw taken (at (in_reliable.free_inodes _) v1 (rw (← same) reliable))) in
        let front3 : InFront v3 =
          ran r3 (in_front.inode _ _)
            (rw taken (at (in_front.free_inodes _) v1 (rw (← same) front))) in
        let added_run =
          on_err-ok (add_dirent c name i) _ v3
            (λ e t back.
              let (_, _, _, end) = bind-ok (give_back_inode i) (λ _. fail e) back in
              fail-ok e _ end)
            r4 in
        let added =
          add_dirent-Added c laws name i v3 reliable3 (Alike-good c before good1)
            (Alike-lookups c before name good1 ∙ unnamed1) (new_entry named no_zero low high) high
            added_run in
        let reliable4 = ran added_run (add_dirent-Frame in_reliable name i) reliable3 in
        let front4 = ran added_run (add_dirent-Frame in_front name i) front3 in
        let flushed = vol_flush-Flushed c laws v4 reliable4.in_range (or_fail-ok _ _ _ r5) in
        let behind = Flushed-Alike c laws front4 flushed in
        let lookups : (other : List ℕ)
            → lookup_in (entries_of c v5) other (v5.inodes 0).direct ≡ (
                if bytes_eq name other
                then ok i
                else lookup_in (entries_of c v1) other (v1.inodes 0).direct) =
          λ other.
            Alike-lookups c behind other added.good
            ∙ added.lookups other
            ∙ rw (Alike-lookups c before other good1) refl in
        (
          named,
          unnamed,
          rw (same, ← is, ← end)
              (record { lookups = lookups; good = Alike-good c behind added.good }),
        )
      where
        in_reliable : Primitives c (λ x y. Reliable x → Reliable y)
        in_reliable = KeepsReliable-Primitives c

        in_front : Primitives c KeepsInFront
        in_front = KeepsInFront-Primitives c

        new_entry :
            {i : ℕ}
            → good_name name ≡ true
            → any (λ b. b == 0) name ≡ false
            → 1 ≤ i
            → i < max_inodes
            → NewEntry name i
        new_entry {i} named no_zero low high =
            let (valid, _) = entry_for-valid name i named no_zero low high in
            record { short = ground arith; real = omega (arith, high); valid = valid }

    -- Of a volume on a host that does not fail, whose metadata lies in front of its data blocks and
    -- whose directory blocks can be read, if decryption undoes encryption: when denyfs_vol_create
    -- succeeds for a name without a zero byte, a lookup did not find that name before; afterwards it
    -- finds the inode number that was returned, a lookup of any other name comes to what it came to
    -- before, and the volume is still such a volume.
    pub vol_create-vol_lookup :
        (now : ℕ) (name : List ℕ) (v : Vol) {ino : ℕ} {w : Vol}
        → Usable c v
        → any (λ b. b == 0) name ≡ false
        → vol_create c now name v ≡ (ok ino, w)
        → ((vol_lookup c name v).0 ≡ err enoent)
          × ((other : List ℕ)
              → vol_lookup c other w
                ≡ ((if bytes_eq name other then ok ino else (vol_lookup c other v).0), w))
          × Usable c w
    unfolding good_name
    vol_create-vol_lookup now name v {ino} {w} usable no_zero h =
        let reliable : Reliable w =
          ran h (vol_create-Frame (KeepsReliable-Primitives c) now name) usable.reliable in
        let front : InFront w =
          ran h (vol_create-Frame (KeepsInFront-Primitives c) now name) usable.front in
        let good = usable.directory in
        let (named, unnamed, added) =
          create-Added now name v usable.reliable good usable.front no_zero h in
        let inside : name_fits name ≡ true = ground arith in
        (
          ap (λ p. p.0) (vol_lookup-in c v usable.reliable name good inside) ∙ unnamed,
          λ other. elim (Bool-cases (name_fits other)) [
            | inl fits ↦
                rw
                  (
                    vol_lookup-in c v usable.reliable other good fits,
                    vol_lookup-in c w reliable other added.good fits,
                    added.lookups other,
                  )
                  refl
            | inr long ↦ elim (Bool-cases (bytes_eq name other)) [
              | inl same ↦
                  let no : name_fits name ≡ false = rw (bytes_eq→eq name other same) long in
                  ground (arith, inside, no)
              | inr differ ↦
                  rw (vol_lookup-refused c other v long, vol_lookup-refused c other w long, differ)
                    refl
            ]
          ],
          record { reliable = reliable; front = front; directory = added.good },
        )
