-- ===== src/FileIo/SameFile.antt =====
-- src/fs.c: what leaves the blocks of a file as they are.
use denyfs.Prelude.{ℕ, ◌*◌, ◌/◌, ◌%◌, ◌≤◌, ◌<◌, ◌≡◌, refl, sym, ap, ◌∙◌, true, get_or, arith}
use denyfs.Crypto.{Crypto, XtsLaws}
use denyfs.Layout.{Inode, sector_size}
use denyfs.Volume.{Vol, put_inode, update}
use denyfs.Block.Array.{block_array, blocks_in}
use denyfs.FileMap.{is_claimed}
use denyfs.FileIo.InPlace.{pointer, bytes_of, file_byte, InPlace}
use denyfs.FileIo.Flushed.{Flushed}
use denyfs.FileIo.Kept.{InFront, Flushed-data}

module _ (c : Crypto) (ino first last : ℕ) where
  -- Two volumes in which the file is the same.
  pub record SameFile (v w : Vol) : Type 0 where
    pointers : (k : ℕ) → pointer w ino k ≡ pointer v ino k
    claims : (n : ℕ) → is_claimed w n ≡ is_claimed v n
    size : w.volume_size ≡ v.volume_size
    blocks :
        (n : ℕ) → is_claimed v n ≡ true → n < blocks_in v → block_array c w n ≡ block_array c v n

  pub SameFile-InPlace :
      (v w : Vol) → SameFile v w → InPlace c ino first last v → InPlace c ino first last w
  SameFile-InPlace v w s x = record {
    direct = x.direct;
    backed = λ k from to.
        let old = x.backed k from to in
        rw (s.pointers k) (record {
          named = old.named;
          claimed = s.claims _ ∙ old.claimed;
          inside = omega (arith, old.inside, s.size);
          bytes = old.bytes;
          holds = s.blocks _ old.claimed old.inside ∙ old.holds;
          whole = old.whole;
        });
    apart = λ j k a b d e same. x.apart j k a b d e (sym (s.pointers j) ∙ same ∙ s.pointers k);
  }

  pub SameFile-byte :
      (v w : Vol)
      → SameFile v w
      → InPlace c ino first last v
      → (p : ℕ) → first * sector_size ≤ p
      → p < last * sector_size
      → file_byte c ino w p ≡ file_byte c ino v p
  SameFile-byte v w s x p low high =
      let k : ℕ = p / sector_size in
      let old = x.backed k (omega (arith, low)) (omega (arith, high)) in
      ap (λ n. get_or (bytes_of (block_array c w n)) (p % sector_size) 0) (s.pointers k)
      ∙ ap (λ o. get_or (bytes_of o) (p % sector_size) 0) (s.blocks _ old.claimed old.inside)

  pub put_inode-SameFile :
      (v : Vol) (n : Inode) → n.direct ≡ (v.inodes ino).direct → SameFile v (put_inode ino n v).1
  unfolding put_inode is_claimed block_array
  put_inode-SameFile v n same = record {
    pointers = λ k.
        let self : update v.inodes ino n ino ≡ n = ground arith in
        ap (λ (x : Inode). get_or x.direct k 0) self ∙ ap (λ bs. get_or bs k 0) same;
    claims = λ m. refl;
    size = refl;
    blocks = λ m claimed inside. refl;
  }

  module _ (laws : XtsLaws c) where
    pub Flushed-SameFile : (v w : Vol) → InFront v → Flushed c laws v w → SameFile v w
    unfolding is_claimed
    Flushed-SameFile v w front f = record {
      pointers = λ k. ap (λ (y : Vol). pointer y ino k) f.memory;
      claims = λ n. ap (λ (y : Vol). is_claimed y n) f.memory;
      size = ap (λ (y : Vol). y.volume_size) f.memory;
      blocks = λ n claimed inside. Flushed-data c laws n front f (ground (arith, claimed)) inside;
    }
