-- ===== src/Directory/Added.antt =====
-- src/fs.c: lookups after an add_dirent that succeeded, on a host that does not fail.
use denyfs.Prelude.{
  ℕ, zero, suc, ◌-◌, ◌<◌, ◌^◌, ◌≡◌, inl, inr, refl, sym, ap, ◌∙◌, false, Bool-cases, ◌==◌, ==→eq,
  List, [], ◌∷◌, length, set, replicate, bytes_eq, bytes_eq→eq, length-append, length-replicate,
  length-set, if◌then◌else◌, some, arith,
}
use denyfs.Crypto.{Crypto}
use denyfs.Layout.{Dirent, dirents_per_block, max_name_len, dirents_bytes, to_dirents}
use denyfs.Layout.RoundTrip.{FitDirents, to_dirents-dirents_bytes}
use denyfs.Volume.{Vol, Res, ok, err, enoent}
use denyfs.Block.Array.{block_array}
use denyfs.Directory.{find_entry, has_name, entry_for, free_entry}
use denyfs.Directory.Walk.{
  AllNamed, DirBlock, GoodDirectory, entries_in, entries_of, found_or, lookup_in,
}
use denyfs.Directory.Inserting.{
  NewEntry, Names, insert-found, lookup_in-same, lookup_in-absent, lookup_in-new,
}
use denyfs.Directory.Adding.{InBlock}

pub AllNamed-map :
    {P Q : ℕ → Type 0} (bs : List ℕ) → ((b : ℕ) → P b → Q b) → AllNamed P bs → AllNamed Q bs
AllNamed-map [] f h = tt
AllNamed-map (b ∷ bs) f (here, there) = ((λ n. f b (here n)), AllNamed-map bs f there)

AllNamed-at : (P : ℕ → Type 0) (t : ℕ) (bs : List ℕ) → AllNamed P bs → Names t bs → P t
AllNamed-at P t [] h m = absurd m
AllNamed-at P t (b ∷ bs) (here, there) (inl (named, is)) = rw (sym is) (here named)
AllNamed-at P t (b ∷ bs) (here, there) (inr m) = AllNamed-at P t bs there m

pub AllNamed-set :
    (P : ℕ → Type 0) (bs : List ℕ) (k t : ℕ) → AllNamed P bs → P t → AllNamed P (set bs k t)
AllNamed-set P [] k t h p = tt
AllNamed-set P (b ∷ bs) zero t (here, there) p = ((λ n. p), there)
AllNamed-set P (b ∷ bs) (suc k) t (here, there) p = (here, AllNamed-set P bs k t there p)

-- What a lookup finds after a name was added.
pub record Added (c : Crypto) (name : List ℕ) (ino : ℕ) (v w : Vol) : Type 0 where
  pub lookups :
      (other : List ℕ)
      → lookup_in (entries_of c w) other (w.inodes 0).direct ≡ (
          if bytes_eq name other
          then ok ino
          else lookup_in (entries_of c v) other (v.inodes 0).direct)
  pub good : GoodDirectory c w

-- The entries that are written can be read back.
FitDirents-set :
    (es : List Dirent) (i : ℕ) (e : Dirent)
    → FitDirents es
    → e.inode < 256 ^ 4
    → length e.name ≡ 251
    → FitDirents (set es i e)
FitDirents-set [] i e h small size = tt
FitDirents-set (d ∷ es) zero e (a, b, rest) small size = (small, size, rest)
FitDirents-set (d ∷ es) (suc i) e (a, b, rest) small size =
    (a, b, FitDirents-set es i e rest small size)

pub FitDirents-free : (n : ℕ) → FitDirents (replicate n free_entry)
unfolding replicate free_entry
FitDirents-free zero = tt
FitDirents-free (suc n) = (omega arith, refl, FitDirents-free n)

pub length-entry_for :
    (name : List ℕ) (ino : ℕ) → length name < max_name_len → length (entry_for name ino).name ≡ 251
unfolding entry_for
length-entry_for name ino short = omega (
  arith,
  length-append name (replicate (max_name_len - length name) 0),
  length-replicate {A = ℕ} (max_name_len - length name) 0,
  short,
)

length-to_dirents : (n : ℕ) (b : List ℕ) → length (to_dirents n b) ≡ n
unfolding to_dirents
length-to_dirents zero b = refl
length-to_dirents (suc n) b = ap suc (length-to_dirents n _)

module _ (c : Crypto) (name : List ℕ) (ino : ℕ) (new : NewEntry name ino)
    (small : ino < 256 ^ 4) where
  -- A block that holds `es` now.
  pub written :
      (w : Vol) (t : ℕ) (es : List Dirent)
      → block_array c w t ≡ some (dirents_bytes es)
      → FitDirents es
      → length es ≡ dirents_per_block
      → (entries_of c w t ≡ es) × FitDirents (to_dirents dirents_per_block (dirents_bytes es))
  written w t es holds fits long =
      let back : to_dirents dirents_per_block (dirents_bytes es) ≡ es =
        rw (sym long) (to_dirents-dirents_bytes es fits) in
      (ap entries_in holds ∙ back, rw back fits)

  pub inode-fits : (entry_for name ino).inode < 256 ^ 4
  unfolding entry_for
  inode-fits = small

  module _ (v w : Vol) (good : GoodDirectory c v)
      (unnamed : lookup_in (entries_of c v) name (v.inodes 0).direct ≡ err enoent)
      (x : InBlock c name ino v (v.inodes 0).direct w) where
    abbrev changed : List Dirent
    changed = set (entries_of c v x.t) x.i (entry_for name ino)

    changed-fits : FitDirents changed
    changed-fits =
        let fits : FitDirents (entries_of c v x.t) = rw x.block.holds x.block.fits in
        FitDirents-set (entries_of c v x.t) x.i _ fits inode-fits
          (length-entry_for name ino new.short)

    length-changed : length changed ≡ dirents_per_block
    length-changed =
        length-set (entries_of c v x.t) x.i (entry_for name ino)
        ∙ rw x.block.holds (length-to_dirents dirents_per_block x.block.bytes)

    -- The block of the entry, as a lookup sees it, and the other blocks.
    changed-found :
        (other : List ℕ) (r : Res ℕ)
        → found_or (find_entry (has_name other) 0 (entries_of c w x.t)) r ≡ (
            if bytes_eq name other
            then ok ino
            else found_or (find_entry (has_name other) 0 (entries_of c v x.t)) r)
    changed-found other r =
        let (now, _) = written w x.t changed x.wrote.block changed-fits length-changed in
        let nothing =
          AllNamed-at _ x.t (v.inodes 0).direct
            (lookup_in-absent (entries_of c v) name (v.inodes 0).direct unnamed) x.meets in
        rw now (insert-found name ino new other (entries_of c v x.t) x.i x.old r nothing x.free)

    others_same :
        (b : ℕ) → DirBlock c v b → (x.t == b) ≡ false → entries_of c w b ≡ entries_of c v b
    others_same b d differ = ap entries_in (x.wrote.others b d.high (ground arith))

    -- Of another name, every block says what it said before.
    found_same :
        (other : List ℕ)
        → bytes_eq name other ≡ false
        → (b : ℕ) → DirBlock c v b
        → (r : Res ℕ)
        → found_or (find_entry (has_name other) 0 (entries_of c w b)) r
          ≡ found_or (find_entry (has_name other) 0 (entries_of c v b)) r
    found_same other differ b d r = elim (Bool-cases (x.t == b)) [
      | inl same ↦ rw (sym (==→eq x.t b same)) (changed-found other r ∙ rw differ refl)
      | inr apart ↦ rw (others_same b d apart) refl
    ]

    in_place : (b : ℕ) → DirBlock c v b → DirBlock c w b
    in_place b d =
        let (_, readable) = written w x.t changed x.wrote.block changed-fits length-changed in
        let start = ap (λ (y : Vol). y.sb.data_start) x.wrote.memory in
        let size = ap (λ (y : Vol). y.volume_size) x.wrote.memory in
        let bits = ap (λ (y : Vol). y.bitmap b) x.wrote.memory in
        elim (Bool-cases (x.t == b)) [
          | inl same ↦ rw (sym (==→eq x.t b same)) (record {
            low = omega (arith, x.block.low, start);
            high = omega (arith, x.block.high, size);
            taken = ap (λ (y : Vol). y.bitmap x.t) x.wrote.memory ∙ x.block.taken;
            bytes = dirents_bytes changed;
            holds = x.wrote.block;
            fits = readable;
          })
          | inr apart ↦ record {
            low = omega (arith, d.low, start);
            high = omega (arith, d.high, size);
            taken = bits ∙ d.taken;
            bytes = d.bytes;
            holds = x.wrote.others b d.high (ground arith) ∙ d.holds;
            fits = d.fits;
          }
        ]

    pub InBlock-Added : Added c name ino v w
    InBlock-Added =
        let bs = (v.inodes 0).direct in
        let root : w.inodes 0 ≡ v.inodes 0 = ap (λ (y : Vol). y.inodes 0) x.wrote.memory in
        record {
          lookups = λ other. elim (Bool-cases (bytes_eq name other)) [
            | inl same ↦
                rw (root, same)
                  (lookup_in-new (entries_of c v) (entries_of c w) other bs x.t ino
                    (rw (sym (bytes_eq→eq name other same)) unnamed)
                    (λ r. changed-found other r ∙ rw same refl)
                    (AllNamed-map bs others_same good.blocks) x.meets)
            | inr differ ↦
                rw (root, differ)
                  (lookup_in-same (entries_of c v) (entries_of c w) other bs
                    (AllNamed-map bs (found_same other differ) good.blocks))
          ];
          good = record {
            blocks = rw root (AllNamed-map bs in_place good.blocks);
            size = rw root good.size;
            rest = rw root good.rest;
          };
        }
