-- ===== src/Open/Loading.antt =====
-- src/fs.c: what the metadata of a volume that opened has passed.
use denyfs.Prelude.{ℕ, zero, suc, ◌+◌, ◌≡◌, refl, sym, ap, ◌∙◌, true, List}
use denyfs.Layout.{Superblock}
use denyfs.Crypto.{Crypto}
use denyfs.Volume.{Device, Vol, ok, Op}
use denyfs.Volume.Frame.{Frame, frame, IsPreorder, frame_rules, at}
use denyfs.Volume.Run.{bind-ok, require-ok, require-end, gets-ok, ran}
use denyfs.Validate.{Claims, validate_superblock}
use denyfs.Validate.Metadata.{good_counts, validate_loaded_metadata}
use denyfs.Validate.Reads.{
  OnlyReads, OnlyReads-order, read_block-OnlyReads, host_alloc-OnlyReads,
  validate_loaded_metadata-OnlyReads,
}
use denyfs.Confine.{geometry, SameVolume}
use denyfs.Account.{IsCounted}
use denyfs.Open.Counts.{counts-IsCounted}
use denyfs.Open.{
  put_superblock, put_bitmap, put_inodes, read_blocks, load_superblock, load_bitmap, load_inodes,
  load_metadata,
}

-- The same place, and no sector written.
pub record Loads (v w : Vol) : Type 0 where
  pub same : SameVolume v w
  pub hidden : w.is_hidden ≡ v.is_hidden
  pub sectors : w.dev.sectors ≡ v.dev.sectors
  pub size : w.dev.size ≡ v.dev.size

pub Loads-order : IsPreorder Loads
Loads-order = record {
  same = λ v. record { same = refl; hidden = refl; sectors = refl; size = refl };
  trans = λ u v w p q. record {
    same = q.same ∙ p.same;
    hidden = q.hidden ∙ p.hidden;
    sectors = q.sectors ∙ p.sectors;
    size = q.size ∙ p.size;
  };
}

OnlyReads-Loads : {A : Type 0} (m : Op A) → Frame OnlyReads m → Frame Loads m
OnlyReads-Loads m f = frame λ v. record {
  same = ap (λ (w : Vol). geometry w) (at f v).memory;
  hidden = ap (λ (w : Vol). w.is_hidden) (at f v).memory;
  sectors = (at f v).sectors;
  size = (at f v).size;
}

-- The superblock in memory passes its tests.
abbrev pub Valid : Vol → Type 0
Valid v = validate_superblock v.sb v.volume_size ≡ true

abbrev KeepsValid : Vol → Vol → Type 0
KeepsValid v w = Valid v → Valid w

KeepsValid-order : IsPreorder KeepsValid
KeepsValid-order = record { same = λ v h. h; trans = λ u v w p q h. q (p h) }

-- What holds of the same memory over any container holds after an action that only reads.
pub carry :
    (P : Vol → Type 0) (v w : Vol) → OnlyReads v w → ((d : Device) → P (record v { dev = d })) → P w
carry P v w r h = rw (r.memory) (h w.dev)

OnlyReads-KeepsValid : {A : Type 0} (m : Op A) → Frame OnlyReads m → Frame KeepsValid m
OnlyReads-KeepsValid m f = frame λ v h. carry Valid v (m v).1 (at f v) (λ d. h)

put_bitmap-KeepsValid : (b : List ℕ) → Frame KeepsValid (put_bitmap b)
unfolding put_bitmap
put_bitmap-KeepsValid b = frame λ v h. h

put_inodes-KeepsValid : (b : List ℕ) → Frame KeepsValid (put_inodes b)
unfolding put_inodes
put_inodes-KeepsValid b = frame λ v h. h

put_superblock-Loads : (s : Superblock) → Frame Loads (put_superblock s)
unfolding put_superblock
put_superblock-Loads s =
    frame λ v. record { same = refl; hidden = refl; sectors = refl; size = refl }

put_bitmap-Loads : (b : List ℕ) → Frame Loads (put_bitmap b)
unfolding put_bitmap
put_bitmap-Loads b = frame λ v. record { same = refl; hidden = refl; sectors = refl; size = refl }

put_inodes-Loads : (b : List ℕ) → Frame Loads (put_inodes b)
unfolding put_inodes
put_inodes-Loads b = frame λ v. record { same = refl; hidden = refl; sectors = refl; size = refl }

module _ (c : Crypto) where
  read_blocks-OnlyReads : (i n : ℕ) → Frame OnlyReads (read_blocks c i n)
  unfolding read_blocks
  read_blocks-OnlyReads i zero = search (frame_rules, OnlyReads-order)
  read_blocks-OnlyReads i (suc n) =
      let ih = read_blocks-OnlyReads (i + 1) n in
      search (frame_rules, OnlyReads-order, read_block-OnlyReads, ih) depth 12

  load_superblock-Loads : Frame Loads (load_superblock c)
  unfolding load_superblock
  load_superblock-Loads =
      search (frame_rules, Loads-order, OnlyReads-Loads, read_block-OnlyReads, put_superblock-Loads)
        depth 40

  load_bitmap-Loads : Frame Loads (load_bitmap c)
  unfolding load_bitmap
  load_bitmap-Loads =
      search
        (
          frame_rules, Loads-order, OnlyReads-Loads, host_alloc-OnlyReads, read_blocks-OnlyReads,
          put_bitmap-Loads,
        )
        depth 40

  load_inodes-Loads : Frame Loads (load_inodes c)
  unfolding load_inodes
  load_inodes-Loads =
      search (frame_rules, Loads-order, OnlyReads-Loads, read_blocks-OnlyReads, put_inodes-Loads)
        depth 40

  pub load_metadata-Loads : Frame Loads (load_metadata c)
  unfolding load_metadata
  load_metadata-Loads =
      search
        (
          frame_rules, Loads-order, OnlyReads-Loads, load_superblock-Loads, load_bitmap-Loads,
          load_inodes-Loads, validate_loaded_metadata-OnlyReads,
        )
        depth 40

  load_superblock-Valid :
      (v : Vol) {w : Vol} {u : Unit {0}} → load_superblock c v ≡ (ok u, w) → Valid w
  unfolding load_superblock
  load_superblock-Valid v e =
      let (bytes, _, _, e1) = bind-ok _ _ e in
      let (_, v2, put, e2) = bind-ok _ _ e1 in
      let (_, e3) = require-ok _ _ _ e2 in
      let e4 = gets-ok _ _ e3 in let (valid, same) = require-end _ _ e4 in rw (sym same) valid

  load_bitmap-KeepsValid : Frame KeepsValid (load_bitmap c)
  unfolding load_bitmap
  load_bitmap-KeepsValid =
      search
        (
          frame_rules, KeepsValid-order, OnlyReads-KeepsValid, host_alloc-OnlyReads,
          read_blocks-OnlyReads, put_bitmap-KeepsValid,
        )
        depth 40

  load_inodes-KeepsValid : Frame KeepsValid (load_inodes c)
  unfolding load_inodes
  load_inodes-KeepsValid =
      search
        (
          frame_rules, KeepsValid-order, OnlyReads-KeepsValid, read_blocks-OnlyReads,
          put_inodes-KeepsValid,
        )
        depth 40

  -- The superblock of a volume whose metadata loads has passed.
  pub load_metadata-Valid :
      (v : Vol) {w : Vol} {u : Unit {0}} → load_metadata c v ≡ (ok u, w) → Valid w
  unfolding load_metadata
  load_metadata-Valid v e =
      let (_, v1, r1, e1) = bind-ok _ _ e in
      let (_, v2, r2, e2) = bind-ok _ _ e1 in
      let (_, v3, r3, r4) = bind-ok _ _ e2 in
      let valid2 = ran r2 load_bitmap-KeepsValid (load_superblock-Valid v r1) in
      let valid3 = ran r3 load_inodes-KeepsValid valid2 in
      ran r4 (OnlyReads-KeepsValid _ (validate_loaded_metadata-OnlyReads c)) valid3

  -- The counts are those of the volume that the checks are made of.
  validate-counts :
      (v : Vol) {w : Vol} {u : Unit {0}}
      → validate_loaded_metadata c v ≡ (ok u, w)
      → (cl : Claims) × (good_counts v cl ≡ true)
  unfolding validate_loaded_metadata
  validate-counts v e =
      let e1 = gets-ok _ _ e in
      let (_, e2) = require-ok _ _ _ e1 in
      let (_, _, _, e3) = bind-ok _ _ e2 in
      let (cl, _, _, e4) = bind-ok _ _ e3 in let (good, _) = require-ok _ _ _ e4 in (cl, good)

  -- A volume whose metadata loads counts its clear bits.
  pub load_metadata-IsCounted :
      (v : Vol) {w : Vol} {u : Unit {0}} → load_metadata c v ≡ (ok u, w) → IsCounted w
  unfolding load_metadata
  load_metadata-IsCounted v e =
      let (_, v1, r1, e1) = bind-ok _ _ e in
      let (_, v2, r2, e2) = bind-ok _ _ e1 in
      let (_, v3, r3, r4) = bind-ok _ _ e2 in
      let valid1 = load_superblock-Valid v r1 in
      let valid2 = ran r2 load_bitmap-KeepsValid valid1 in
      let valid3 = ran r3 load_inodes-KeepsValid valid2 in
      let (cl, good) = validate-counts v3 r4 in
      carry IsCounted v3 _ (ran r4 (validate_loaded_metadata-OnlyReads c))
        λ d. counts-IsCounted v3 cl valid3 good

  -- The volume that the checks are made of has the memory of the volume that loads.
  pub load_metadata-validated :
      (v : Vol) {w : Vol} {u : Unit {0}}
      → load_metadata c v ≡ (ok u, w)
      → (x : Vol) × OnlyReads x w × (validate_loaded_metadata c x ≡ (ok u, w))
  unfolding load_metadata
  load_metadata-validated v e =
      let (_, v1, _, e1) = bind-ok _ _ e in
      let (_, v2, _, e2) = bind-ok _ _ e1 in
      let (_, v3, _, r) = bind-ok _ _ e2 in (v3, ran r (validate_loaded_metadata-OnlyReads c), r)
