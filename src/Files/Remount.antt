-- ===== src/Files/Remount.antt =====
-- src/fs.c: lookups in a volume that was flushed and loaded again.
use denyfs.Prelude.{ℕ, ◌≡◌, ap, List, arith}
use denyfs.Crypto.{Crypto, XtsLaws}
use denyfs.Volume.{Vol, ok}
use denyfs.Block.Array.{blocks_in}
use denyfs.Directory.{vol_lookup}
use denyfs.Directory.Walk.{vol_lookup-same}
use denyfs.Directory.Alike.{Alike, Alike-good, Alike-lookups, Alike-trans, Flushed-Alike}
use denyfs.FileIo.{vol_flush}
use denyfs.FileIo.Flushed.{Flushed, vol_flush-Flushed}
use denyfs.Files.Lookup.{Usable}
use denyfs.Validate.{validate_superblock}
use denyfs.Validate.Metadata.{validate_loaded_metadata}
use denyfs.Open.{load_metadata}
use denyfs.Open.Reloading.{Storable, SameContainer, SameContainer-blocks, vol_flush-load_metadata}

module _ (c : Crypto) (laws : XtsLaws c) where
  whole : {v w : Vol} → Storable c v → Flushed c laws v w → w.sb.total_blocks ≡ blocks_in w
  unfolding validate_superblock
  whole st f = ground (
    arith,
    st.valid,
    ap (λ (y : Vol). y.sb.total_blocks) f.memory,
    ap (λ (y : Vol). y.volume_size) f.memory,
  )

  -- When a flush succeeds on a volume whose directory blocks can be read and whose metadata can be
  -- stored (its superblock passes the tests at mount time, its inodes fit their places, its bitmap
  -- on disk is behind only where it is dirty), on a host that does not fail, if decryption undoes
  -- encryption: a volume over the same container, under the same keys, loads up to the tests of its
  -- metadata, and every lookup in it comes to what it came to before the flush.
  pub vol_flush-vol_lookup :
      (v : Vol) {u : Unit {0}} {w x : Vol}
      → Usable c v
      → Storable c v
      → vol_flush c v ≡ (ok u, w)
      → SameContainer w x
      → (y : Vol) × (load_metadata c x ≡ validate_loaded_metadata c y)
        × ((name : List ℕ) → vol_lookup c name y ≡ ((vol_lookup c name v).0, y))
  vol_flush-vol_lookup v {w = w} usable st h s =
      let f = vol_flush-Flushed c laws v usable.reliable.in_range h in
      let (y, loads, again, sb, bits, inodes) =
        vol_flush-load_metadata c laws v st usable.reliable.in_range h s in
      let loaded : Alike c w y = record {
        root = inodes 0 (omega arith);
        bitmap = λ n inside. bits n (omega (arith, inside, whole st f));
        data_start = ap (λ d. d.data_start) sb;
        volume_size = again.size;
        blocks = λ n low inside. SameContainer-blocks c again n;
      } in
      let same = Alike-trans c (Flushed-Alike c laws usable.front f) loaded in
      (
        y,
        loads,
        λ name.
            vol_lookup-same c v y name usable.reliable again.reliable usable.directory
              (Alike-good c same usable.directory) (Alike-lookups c same name usable.directory),
      )
