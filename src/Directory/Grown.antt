-- ===== src/Directory/Grown.antt =====
-- src/fs.c: lookups after an add_dirent that took a new block, on a host that does not fail.
use denyfs.Prelude.{
  ℕ, suc, ◌-◌, ◌<◌, ◌≤◌, ◌^◌, ◌≡◌, ◌≢◌, inl, inr, refl, sym, ap, ◌∙◌, Bool, false, Bool-cases, ◌==◌,
  List, length, set, get_or-set_ne, length-set, length-replicate, bytes_eq, bytes_eq→eq,
  if◌then◌else◌, arith,
}
use denyfs.Crypto.{Crypto, XtsLaws}
use denyfs.Layout.{Inode, max_inodes, dirents_per_block, invalid_block, dirents_bytes}
use denyfs.Layout.RoundTrip.{FitDirents}
use denyfs.Volume.{Vol, Res, ok, err, enoent, inc32}
use denyfs.Volume.Run.{require-ok, gets-ok}
use denyfs.Block.Reliable.{Reliable}
use denyfs.Block.Array.{block_array}
use denyfs.Directory.{add_dirent, find_entry, has_name, free_entry, fresh_entries}
use denyfs.Directory.Walk.{DirBlock, GoodDirectory, entries_in, entries_of, found_or, lookup_in}
use denyfs.Directory.Inserting.{NewEntry, fresh-found, lookup_in-set, lookup_in-set_new}
use denyfs.Directory.Adding.{InNewBlock, add_to_blocks-ok, add_new_block-ok}
use denyfs.Directory.Added.{
  Added, InBlock-Added, AllNamed-map, AllNamed-set, FitDirents-free, length-entry_for, written,
  inode-fits,
}

module _ (c : Crypto) (name : List ℕ) (ino : ℕ) (new : NewEntry name ino) (small : ino < 256 ^ 4)
    (v w : Vol) (good : GoodDirectory c v)
    (unnamed : lookup_in (entries_of c v) name (v.inodes 0).direct ≡ err enoent)
    (x : InNewBlock c name ino v w) where
  fresh-fits : FitDirents (fresh_entries name ino)
  unfolding fresh_entries
  fresh-fits = (
    inode-fits c name ino new small,
    length-entry_for name ino new.short,
    FitDirents-free (dirents_per_block - 1),
  )

  length-fresh : length (fresh_entries name ino) ≡ dirents_per_block
  unfolding fresh_entries
  length-fresh = ap suc (length-replicate (dirents_per_block - 1) free_entry)

  -- The new block is none of those that the directory had.
  others_same : (b : ℕ) → DirBlock c v b → block_array c w b ≡ block_array c v b
  others_same b d =
      let apart : b ≢ x.t = λ e. ground (arith, d.taken, x.first.clear, ap v.bitmap e) in
      x.wrote.others b (omega (arith, d.high, x.volume_size)) apart ∙ x.array b

  new_found :
      (other : List ℕ) (r : Res ℕ)
      → found_or (find_entry (has_name other) 0 (entries_of c w x.t)) r
        ≡ (if bytes_eq name other then ok ino else r)
  new_found other r =
      let (now, _) =
        written c name ino new small w x.t (fresh_entries name ino) x.wrote.block fresh-fits
          length-fresh in
      rw now (fresh-found name ino new other r)

  grown_root : w.inodes 0 ≡ (
      let root = v.inodes 0 in
      record root {
        direct = set root.direct root.block_count x.t;
        block_count = inc32 root.block_count;
      })
  grown_root = ap (λ (y : Vol). y.inodes 0) x.wrote.memory ∙ x.root

  grown_count : (w.inodes 0).block_count ≡ inc32 (v.inodes 0).block_count
  grown_count = ap (λ (n : Inode). n.block_count) grown_root

  new_block : DirBlock c w x.t
  new_block =
      let (_, readable) =
        written c name ino new small w x.t (fresh_entries name ino) x.wrote.block fresh-fits
          length-fresh in
      let start = ap (λ (y : Vol). y.sb.data_start) x.wrote.memory in
      let size = ap (λ (y : Vol). y.volume_size) x.wrote.memory in
      record {
        low = omega (arith, x.first.low, start, x.data_start);
        high = omega (arith, x.wrote.inside, size);
        taken =
            ap (λ (y : Vol). y.bitmap x.t) x.wrote.memory
            ∙ ap (λ (f : ℕ → Bool). f x.t) x.bitmap
            ∙ ground arith;
        bytes = dirents_bytes (fresh_entries name ino);
        holds = x.wrote.block;
        fits = readable;
      }

  old_block : (b : ℕ) → DirBlock c v b → DirBlock c w b
  old_block b d =
      let start = ap (λ (y : Vol). y.sb.data_start) x.wrote.memory in
      let size = ap (λ (y : Vol). y.volume_size) x.wrote.memory in
      record {
        low = omega (arith, d.low, start, x.data_start);
        high = omega (arith, d.high, size, x.volume_size);
        taken =
            ap (λ (y : Vol). y.bitmap b) x.wrote.memory
            ∙ ap (λ (f : ℕ → Bool). f b) x.bitmap
            ∙ ground (arith, d.taken);
        bytes = d.bytes;
        holds = others_same b d ∙ d.holds;
        fits = d.fits;
      }

  pub InNewBlock-Added : Added c name ino v w
  InNewBlock-Added =
      let bs = (v.inodes 0).direct in
      let k = (v.inodes 0).block_count in
      let free = good.rest k (omega arith) in
      let named : (x.t == invalid_block) ≡ false = ground (arith, x.small) in
      let direct : (w.inodes 0).direct ≡ set bs k x.t = ap (λ (n : Inode). n.direct) grown_root in
      let same = AllNamed-map bs (λ b d. ap entries_in (others_same b d)) good.blocks in
      record {
        lookups = λ other. elim (Bool-cases (bytes_eq name other)) [
          | inl is ↦
              rw (direct, is)
                (lookup_in-set_new (entries_of c v) (entries_of c w) other bs k x.t ino
                  (omega (arith, x.room, good.size)) (rw (sym (bytes_eq→eq name other is)) unnamed)
                  free named (λ r. new_found other r ∙ rw is refl) same)
          | inr differ ↦
              rw (direct, differ)
                (lookup_in-set (entries_of c v) (entries_of c w) other bs k x.t free named
                  (λ r. new_found other r ∙ rw differ refl) same)
        ];
        good = record {
          blocks =
              rw direct (AllNamed-set _ bs k x.t (AllNamed-map bs old_block good.blocks) new_block);
          size = rw direct (length-set bs k x.t ∙ good.size);
          rest = λ i past.
              let behind : suc k ≤ i = omega (arith, past, x.room, grown_count) in
              rw direct (
                get_or-set_ne bs {i = k} {j = i} x.t invalid_block (λ e. omega (arith, behind, e))
                ∙ good.rest i (omega (arith, behind)));
        };
      }

module _ (c : Crypto) (laws : XtsLaws c) where
  -- The name was added, wherever the entry went.
  pub add_dirent-Added :
      (name : List ℕ) (ino : ℕ) (v : Vol) {u : Unit {0}} {w : Vol}
      → Reliable v
      → GoodDirectory c v
      → lookup_in (entries_of c v) name (v.inodes 0).direct ≡ err enoent
      → NewEntry name ino
      → ino < max_inodes
      → add_dirent c name ino v ≡ (ok u, w)
      → Added c name ino v w
  unfolding add_dirent
  add_dirent-Added name ino v {w = w} reliable good unnamed new small h =
      let (_, h1) = require-ok _ _ _ h in
      let small' : ino < 256 ^ 4 = omega (arith, small) in
      elim (add_to_blocks-ok c name ino v laws reliable (v.inodes 0).direct good.blocks
        (gets-ok _ _ h1)) [
          | inl x ↦ InBlock-Added c name ino new small' v w good unnamed x
          | inr e ↦
              InNewBlock-Added c name ino new small' v w good unnamed
                (add_new_block-ok c name ino v laws reliable e)
        ]
