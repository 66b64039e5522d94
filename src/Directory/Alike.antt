-- ===== src/Directory/Alike.antt =====
-- src/fs.c: two volumes with the same directory.
use denyfs.Prelude.{ℕ, ◌≤◌, ◌<◌, ◌≡◌, refl, ap, ◌∙◌, List, arith}
use denyfs.Crypto.{Crypto, XtsLaws}
use denyfs.Layout.{Inode}
use denyfs.Volume.{Vol, put_inode, put_free_inodes}
use denyfs.Block.Array.{block_array, blocks_in}
use denyfs.FileIo.Flushed.{Flushed}
use denyfs.FileIo.Kept.{InFront, Flushed-data}
use denyfs.Directory.Walk.{DirBlock, GoodDirectory, entries_in, entries_of, lookup_in}
use denyfs.Directory.Inserting.{lookup_in-same}
use denyfs.Directory.Added.{AllNamed-map}

-- The same root inode, and the same data blocks.
pub record Alike (c : Crypto) (v w : Vol) : Type 0 where
  pub root : w.inodes 0 ≡ v.inodes 0
  pub bitmap : (n : ℕ) → n < blocks_in v → w.bitmap n ≡ v.bitmap n
  pub data_start : w.sb.data_start ≡ v.sb.data_start
  pub volume_size : w.volume_size ≡ v.volume_size
  pub blocks :
      (n : ℕ) → v.sb.data_start ≤ n → n < blocks_in v → block_array c w n ≡ block_array c v n

module _ (c : Crypto) {v w : Vol} (a : Alike c v w) where
  in_both : (b : ℕ) → DirBlock c v b → DirBlock c w b
  in_both b d = record {
    low = omega (arith, d.low, a.data_start);
    high = omega (arith, d.high, a.volume_size);
    taken = a.bitmap b d.high ∙ d.taken;
    bytes = d.bytes;
    holds = a.blocks b d.low d.high ∙ d.holds;
    fits = d.fits;
  }

  pub Alike-good : GoodDirectory c v → GoodDirectory c w
  Alike-good good = record {
    blocks = rw a.root (AllNamed-map _ in_both good.blocks);
    size = rw a.root good.size;
    rest = rw a.root good.rest;
  }

  pub Alike-lookups :
      (name : List ℕ)
      → GoodDirectory c v
      → lookup_in (entries_of c w) name (w.inodes 0).direct
        ≡ lookup_in (entries_of c v) name (v.inodes 0).direct
  Alike-lookups name good = rw a.root (
      lookup_in-same (entries_of c v) (entries_of c w) name (v.inodes 0).direct
        (AllNamed-map _ (λ b d r. rw (ap entries_in (a.blocks b d.low d.high)) refl) good.blocks))

-- A flush keeps the directory.
pub Flushed-Alike :
    (c : Crypto) (laws : XtsLaws c) {v w : Vol} → InFront v → Flushed c laws v w → Alike c v w
Flushed-Alike c laws front f = record {
  root = ap (λ (x : Vol). x.inodes 0) f.memory;
  bitmap = λ n inside. ap (λ (x : Vol). x.bitmap n) f.memory;
  data_start = ap (λ (x : Vol). x.sb.data_start) f.memory;
  volume_size = ap (λ (x : Vol). x.volume_size) f.memory;
  blocks = λ n low inside. Flushed-data c laws n front f low inside;
}

-- Another inode is entered in the table.
pub new_file-Alike :
    (c : Crypto) (v : Vol) (n ino : ℕ) (x : Inode)
    → 1 ≤ ino
    → Alike c v (put_inode ino x (put_free_inodes n v).1).1
unfolding put_inode put_free_inodes block_array
new_file-Alike c v n ino x low = record {
  root = ground (arith, low);
  bitmap = λ n inside. refl;
  data_start = refl;
  volume_size = refl;
  blocks = λ m above inside. refl;
}

pub Alike-trans : (c : Crypto) {u v w : Vol} → Alike c u v → Alike c v w → Alike c u w
Alike-trans c p q = record {
  root = q.root ∙ p.root;
  bitmap = λ n inside. q.bitmap n (omega (arith, inside, p.volume_size)) ∙ p.bitmap n inside;
  data_start = q.data_start ∙ p.data_start;
  volume_size = q.volume_size ∙ p.volume_size;
  blocks = λ n low inside.
      q.blocks n (omega (arith, low, p.data_start)) (omega (arith, inside, p.volume_size))
      ∙ p.blocks n low inside;
}
