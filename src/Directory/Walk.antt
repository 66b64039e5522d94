-- ===== src/Directory/Walk.antt =====
-- src/fs.c: denyfs_vol_lookup on a host that does not fail, as a walk over the entries that the
-- blocks of the root directory decrypt to.
use denyfs.Prelude.{
  ap, sym, Bool, ◌∙◌, inl, inr, Bool-cases, not, ◌&&◌, ltb, ℕ, ◌<◌, ◌≤◌, ◌≡◌, refl, true, false,
  ◌==◌, Option, none, some, List, [], ◌∷◌, length, get_or, if◌then◌else◌,
}
use denyfs.Layout.{
  Dirent, dirents_per_block, direct_blocks, max_name_len, invalid_block, to_dirents,
}
use denyfs.Layout.RoundTrip.{FitDirents}
use denyfs.Crypto.{Crypto}
use denyfs.Volume.{einval, ◌>>=◌, fail, Vol, Res, ok, err, enoent, eio, Op, pure}
use denyfs.Block.Array.{block_array, blocks_in}
use denyfs.Block.Reliable.{Reliable, read_block-reads}
use denyfs.Directory.{
  Found, corrupt, at, absent, find_entry, has_name, read_entries, lookup_found, lookup_blocks,
  vol_lookup,
}

-- The entries that a block decrypts to.
abbrev pub entries_in : Option (List ℕ) → List Dirent
entries_in none = []
entries_in (some bytes) = to_dirents dirents_per_block bytes

abbrev pub entries_of : Crypto → Vol → ℕ → List Dirent
entries_of c v b = entries_in (block_array c v b)

-- A block that the root directory may name: a data block whose bit is set, and whose bytes are
-- entries.
pub record DirBlock (c : Crypto) (v : Vol) (b : ℕ) : Type 0 where
  pub low : v.sb.data_start ≤ b
  pub high : b < blocks_in v
  pub taken : v.bitmap b ≡ true
  pub bytes : List ℕ
  pub holds : block_array c v b ≡ some bytes
  pub fits : FitDirents (to_dirents dirents_per_block bytes)

-- Of every pointer that names a block.
abbrev pub AllNamed : (ℕ → Type 0) → List ℕ → Type 0
AllNamed P [] = Unit
AllNamed P (b ∷ bs) = ((b == invalid_block) ≡ false → P b) × AllNamed P bs

abbrev pub DirBlocks : Crypto → Vol → List ℕ → Type 0
DirBlocks c v = AllNamed (DirBlock c v)

-- The root directory: its pointers, those behind its block count free.
pub record GoodDirectory (c : Crypto) (v : Vol) : Type 0 where
  pub blocks : DirBlocks c v (v.inodes 0).direct
  pub size : length (v.inodes 0).direct ≡ direct_blocks
  pub rest :
      (i : ℕ)
      → (v.inodes 0).block_count ≤ i
      → get_or (v.inodes 0).direct i invalid_block ≡ invalid_block

-- The walk over the entries.
abbrev pub found_or : Found → Res ℕ → Res ℕ
found_or corrupt r = err eio
found_or (at i e) r = ok e.inode
found_or absent r = r

unfoldable pub lookup_in : (ℕ → List Dirent) → List ℕ → List ℕ → Res ℕ
lookup_in entries name [] = err enoent
lookup_in entries name (b ∷ bs) =
    if b == invalid_block
    then lookup_in entries name bs
    else found_or (find_entry (has_name name) 0 (entries b)) (lookup_in entries name bs)

module _ (c : Crypto) (v : Vol) (h : Reliable v) where
  pub read_entries-reads :
      (b : ℕ) → DirBlock c v b → read_entries c b v ≡ (ok (entries_of c v b), v)
  unfolding read_entries ◌>>=◌
  read_entries-reads b d = rw (read_block-reads c b v h d.high d.holds, d.holds) refl

  lookup_found-in :
      (f : Found) (next : Op ℕ) (r : Res ℕ)
      → next v ≡ (r, v)
      → lookup_found c f next v ≡ (found_or f r, v)
  unfolding lookup_found pure fail
  lookup_found-in corrupt next r e = refl
  lookup_found-in (at i x) next r e = refl
  lookup_found-in absent next r e = e

  lookup_blocks-in :
      (name bs : List ℕ)
      → DirBlocks c v bs
      → lookup_blocks c name bs v ≡ (lookup_in (entries_of c v) name bs, v)
  unfolding lookup_blocks lookup_in ◌>>=◌
  lookup_blocks-in name [] d = refl
  lookup_blocks-in name (b ∷ bs) (here, there) = elim (Bool-cases (b == invalid_block)) [
    | inl free ↦ rw free (lookup_blocks-in name bs there)
    | inr named ↦
        rw (named, read_entries-reads b (here named))
          (lookup_found-in _ _ _ (lookup_blocks-in name bs there))
  ]

  pub vol_lookup-in :
      (name : List ℕ)
      → GoodDirectory c v
      → (not (length name == 0) && ltb (length name) max_name_len) ≡ true
      → vol_lookup c name v ≡ (lookup_in (entries_of c v) name (v.inodes 0).direct, v)
  unfolding vol_lookup ◌>>=◌
  vol_lookup-in name d good = rw good (lookup_blocks-in name (v.inodes 0).direct d.blocks)

-- The guard of a lookup on the name, and what a lookup comes to without it.
abbrev pub name_fits : List ℕ → Bool
name_fits name = not (length name == 0) && ltb (length name) max_name_len

module _ (c : Crypto) where
  pub vol_lookup-refused :
      (name : List ℕ) (v : Vol) → name_fits name ≡ false → vol_lookup c name v ≡ (err einval, v)
  unfolding vol_lookup fail ◌>>=◌
  vol_lookup-refused name v long = rw long refl

  -- Volumes in which the walks agree.
  pub vol_lookup-same :
      (v w : Vol) (name : List ℕ)
      → Reliable v
      → Reliable w
      → GoodDirectory c v
      → GoodDirectory c w
      → lookup_in (entries_of c w) name (w.inodes 0).direct
        ≡ lookup_in (entries_of c v) name (v.inodes 0).direct
      → vol_lookup c name w ≡ ((vol_lookup c name v).0, w)
  vol_lookup-same v w name rv rv' good new same = elim (Bool-cases (name_fits name)) [
    | inl fits ↦ vol_lookup-in c w rv' name new fits ∙ λ i.
        ((same ∙ sym (ap (λ p. p.0) (vol_lookup-in c v rv name good fits))) i, w)
    | inr long ↦ vol_lookup-refused name w long ∙ λ i.
        (ap (λ p. p.0) (sym (vol_lookup-refused name v long)) i, w)
  ]
