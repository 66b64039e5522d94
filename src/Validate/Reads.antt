-- ===== src/Validate/Reads.antt =====
-- Opening a volume only reads the container: the checks of its metadata change nothing in memory,
-- and no sector.
use denyfs.Prelude.{ℕ, zero, suc, ◌+◌, ◌≡◌, refl, ◌∙◌, ap, List, [], ◌∷◌, arith}
use denyfs.Layout.{Inode, Dirent}
use denyfs.Crypto.{Crypto}
use denyfs.Volume.{Device, Vol, Exec, on_device, ◌>>=◌}
use denyfs.Volume.Frame.{Frame, frame, IsPreorder, frame_rules}
use denyfs.Block.{fread_sector, host_alloc, read_block}
use denyfs.FileMap.{read_pointer_table}
use denyfs.Validate.{
  Claims, claim_metadata_block, claim_entries, claim_root, claim_indirect, claim_children,
  claim_double, claim_file, claim_inode, claim_inodes,
}
use denyfs.Validate.Metadata.{
  Seen, check_entry, check_entries, check_directory, validate_loaded_metadata,
}

-- The same volume over a container with the same sectors; the schedule of failures may advance.
pub record OnlyReads (v w : Vol) : Type 0 where
  pub memory : w ≡ record v { dev = w.dev }
  pub sectors : w.dev.sectors ≡ v.dev.sectors
  pub size : w.dev.size ≡ v.dev.size

OnlyReads-trans : (u v w : Vol) → OnlyReads u v → OnlyReads v w → OnlyReads u w
OnlyReads-trans u v w p q = record {
  memory = q.memory ∙ ap (λ (x : Vol). record x { dev = w.dev }) p.memory;
  sectors = q.sectors ∙ p.sectors;
  size = q.size ∙ p.size;
}

pub OnlyReads-order : IsPreorder OnlyReads
OnlyReads-order = record {
  same = λ v. record { memory = refl; sectors = refl; size = refl };
  trans = OnlyReads-trans;
}

-- An action on the container that writes no sector.
pub record ReadsDevice {A : Type 0} (m : Exec Device A) : Type 0 where
  pub sectors : (d : Device) → (m d).1.sectors ≡ d.sectors
  pub size : (d : Device) → (m d).1.size ≡ d.size

pub fread_sector-ReadsDevice : (offset : ℕ) → ReadsDevice (fread_sector offset)
unfolding fread_sector ◌>>=◌
fread_sector-ReadsDevice offset = record { sectors = λ d. ground arith; size = λ d. ground arith }

pub host_alloc-ReadsDevice : ReadsDevice host_alloc
unfolding host_alloc ◌>>=◌
host_alloc-ReadsDevice = record { sectors = λ d. ground arith; size = λ d. ground arith }

pub on_device-OnlyReads :
    {A : Type 0} (m : Exec Device A) → ReadsDevice m → Frame OnlyReads (on_device m)
unfolding on_device
on_device-OnlyReads m r =
    frame λ v. record { memory = refl; sectors = r.sectors v.dev; size = r.size v.dev }

claim_metadata_block-Frame : (b : ℕ) (cl : Claims) → Frame OnlyReads (claim_metadata_block b cl)
unfolding claim_metadata_block
claim_metadata_block-Frame b cl = search (frame_rules, OnlyReads-order) depth 12

claim_entries-Frame :
    (k i : ℕ) (bs : List ℕ) (acc : Claims × ℕ) → Frame OnlyReads (claim_entries k i bs acc)
unfolding claim_entries
claim_entries-Frame k i [] acc = search (frame_rules, OnlyReads-order)
claim_entries-Frame k i (b ∷ bs) (cl, n) =
    let ih = claim_entries-Frame k (i + 1) bs in
    search (frame_rules, OnlyReads-order, claim_metadata_block-Frame, ih) depth 20

claim_root-Frame : (k i : ℕ) (bs : List ℕ) (cl : Claims) → Frame OnlyReads (claim_root k i bs cl)
unfolding claim_root
claim_root-Frame k i [] cl = search (frame_rules, OnlyReads-order)
claim_root-Frame k i (b ∷ bs) cl =
    let ih = claim_root-Frame k (i + 1) bs in
    search (frame_rules, OnlyReads-order, claim_metadata_block-Frame, ih) depth 20

module _ (c : Crypto) where
  pub read_block-OnlyReads : (n : ℕ) → Frame OnlyReads (read_block c n)
  unfolding read_block
  read_block-OnlyReads n =
      search (frame_rules, OnlyReads-order, on_device-OnlyReads, fread_sector-ReadsDevice) depth 20

  pub host_alloc-OnlyReads : Frame OnlyReads (on_device host_alloc)
  host_alloc-OnlyReads = on_device-OnlyReads host_alloc host_alloc-ReadsDevice

  pub table-Frame : (n : ℕ) → Frame OnlyReads (read_pointer_table c n)
  unfolding read_pointer_table
  table-Frame n = search (frame_rules, OnlyReads-order, read_block-OnlyReads) depth 12

  claim_indirect-Frame : (t k : ℕ) (acc : Claims × ℕ) → Frame OnlyReads (claim_indirect c t k acc)
  unfolding claim_indirect
  claim_indirect-Frame t k (cl, n) =
      search
        (frame_rules, OnlyReads-order, claim_metadata_block-Frame, table-Frame, claim_entries-Frame)
        depth 30

  claim_children-Frame :
      (k i : ℕ) (rs : List ℕ) (acc : Claims × ℕ × ℕ) → Frame OnlyReads (claim_children c k i rs acc)
  unfolding claim_children
  claim_children-Frame k i [] acc = search (frame_rules, OnlyReads-order)
  claim_children-Frame k i (r ∷ rs) (cl, a, n) =
      let ih = claim_children-Frame k (i + 1024) rs in
      search
        (
          frame_rules, OnlyReads-order, claim_metadata_block-Frame, table-Frame,
          claim_entries-Frame, ih,
        )
        depth 30

  claim_double-Frame : (t k : ℕ) (acc : Claims × ℕ) → Frame OnlyReads (claim_double c t k acc)
  unfolding claim_double
  claim_double-Frame t k (cl, n) =
      search
        (
          frame_rules, OnlyReads-order, claim_metadata_block-Frame, table-Frame,
          claim_children-Frame,
        )
        depth 30

  claim_file-Frame : (n : Inode) (cl : Claims) → Frame OnlyReads (claim_file c n cl)
  unfolding claim_file
  claim_file-Frame n cl =
      search
        (
          frame_rules, OnlyReads-order, claim_entries-Frame, claim_indirect-Frame,
          claim_double-Frame,
        )
        depth 30

  claim_inode-Frame : (ino : ℕ) (cl : Claims) → Frame OnlyReads (claim_inode c ino cl)
  unfolding claim_inode
  claim_inode-Frame ino cl =
      search (frame_rules, OnlyReads-order, claim_root-Frame, claim_file-Frame) depth 30

  pub claim_inodes-Frame : (ino n : ℕ) (cl : Claims) → Frame OnlyReads (claim_inodes c ino n cl)
  unfolding claim_inodes
  claim_inodes-Frame ino zero cl = search (frame_rules, OnlyReads-order)
  claim_inodes-Frame ino (suc n) cl =
      let ih = claim_inodes-Frame (ino + 1) n in
      search (frame_rules, OnlyReads-order, claim_inode-Frame, ih) depth 12

  check_entry-Frame : (t : ℕ → Inode) (e : Dirent) (s : Seen) → Frame OnlyReads (check_entry t e s)
  unfolding check_entry
  check_entry-Frame t e s = search (frame_rules, OnlyReads-order) depth 20

  check_entries-Frame :
      (t : ℕ → Inode) (es : List Dirent) (s : Seen) → Frame OnlyReads (check_entries t es s)
  unfolding check_entries
  check_entries-Frame t [] s = search (frame_rules, OnlyReads-order)
  check_entries-Frame t (e ∷ es) s =
      let ih = check_entries-Frame t es in
      search (frame_rules, OnlyReads-order, check_entry-Frame, ih) depth 12

  check_directory-Frame : (bs : List ℕ) (s : Seen) → Frame OnlyReads (check_directory c bs s)
  unfolding check_directory
  check_directory-Frame [] s = search (frame_rules, OnlyReads-order)
  check_directory-Frame (b ∷ bs) s =
      let ih = check_directory-Frame bs in
      search (frame_rules, OnlyReads-order, read_block-OnlyReads, check_entries-Frame, ih) depth 20

  pub validate_loaded_metadata-OnlyReads : Frame OnlyReads (validate_loaded_metadata c)
  unfolding validate_loaded_metadata
  validate_loaded_metadata-OnlyReads =
      search
        (
          frame_rules, OnlyReads-order, host_alloc-OnlyReads, claim_inodes-Frame,
          check_directory-Frame,
        )
        depth 30
