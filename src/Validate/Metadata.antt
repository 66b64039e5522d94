-- ===== src/Validate/Metadata.antt =====
-- src/fs.c: the rest of validate_loaded_metadata: the bitmap against the claims, and the directory
-- against the inode table.
use denyfs.Prelude.{
  ℕ, zero, suc, ◌+◌, ◌-◌, ltb, Bool, true, false, not, ◌&&◌, ◌==◌, List, [], ◌∷◌, length, take, any,
  bytes_eq, if◌then◌else◌,
}
use denyfs.Layout.{
  Inode, Dirent, max_inodes, dirents_per_block, itype_file, invalid_ino, to_dirents,
}
use denyfs.Crypto.{Crypto}
use denyfs.Volume.{Vol, eperm, Op, update, pure, gets, require, ◌>>=◌, ◌>>◌, on_device}
use denyfs.Block.{read_block, host_alloc}
use denyfs.Directory.{valid_dirent}
use denyfs.Validate.{Claims, good_root, claim_inodes}

-- The set bits among `n` from `i` on.
unfoldable pub count_set : (ℕ → Bool) → ℕ → ℕ → ℕ
count_set bitmap i zero = 0
count_set bitmap i (suc n) = (if bitmap i then 1 else 0) + count_set bitmap (i + 1) n

unfoldable pub all_set : (ℕ → Bool) → ℕ → ℕ → Bool
all_set bitmap i zero = true
all_set bitmap i (suc n) = bitmap i && all_set bitmap (i + 1) n

-- The counts of the superblock, the metadata bits, and the bits of the data blocks against the
-- claims.
unfoldable pub good_counts : Vol → Claims → Bool
unfolding count_set all_set
good_counts v cl =
    let allocated = count_set v.bitmap v.sb.data_start (v.sb.total_blocks - v.sb.data_start) in
    not (cl.allocated_inodes == 0)
    && (v.sb.free_inodes == max_inodes - cl.allocated_inodes)
    && all_set v.bitmap 0 v.sb.data_start
    && (allocated == cl.count)
    && (v.sb.free_blocks == v.sb.total_blocks - v.sb.data_start - allocated)

-- `referenced` and `names`: what the walk over the directory has seen.
pub record Seen : Type 0 where
  pub referenced : ℕ → Bool
  pub names : List (List ℕ)

unfoldable pub seen_none : Seen
seen_none = record { referenced = λ _. false; names = [] }

-- An entry: free and well formed, or the only one for a file, under a name not seen before.
unfoldable pub check_entry : (ℕ → Inode) → Dirent → Seen → Op Seen
unfolding valid_dirent any bytes_eq take
check_entry inodes e seen =
    if e.inode == invalid_ino then (do require (valid_dirent e) eperm; pure seen) else (do
      let name = take e.name_len e.name
      require
          (valid_dirent e
            && ((inodes e.inode).type == itype_file)
            && not (seen.referenced e.inode)
            && ltb (length seen.names) (max_inodes - 1)
            && not (any (λ n. bytes_eq n name) seen.names))
          eperm
      pure (record { referenced = update seen.referenced e.inode true; names = name ∷ seen.names }))

unfoldable pub check_entries : (ℕ → Inode) → List Dirent → Seen → Op Seen
unfolding check_entry
check_entries inodes [] seen = pure seen
check_entries inodes (e ∷ es) seen = do
  seen ← check_entry inodes e seen
  check_entries inodes es seen

-- Every file has an entry: inodes `ino` to `ino + n - 1`.
unfoldable pub all_referenced : (ℕ → Inode) → (ℕ → Bool) → ℕ → ℕ → Bool
all_referenced inodes referenced ino zero = true
all_referenced inodes referenced ino (suc n) =
    let is_file = (inodes ino).type == itype_file in
    (if referenced ino then is_file else not is_file)
    && all_referenced inodes referenced (ino + 1) n

module _ (c : Crypto) where
  unfoldable pub check_directory : List ℕ → Seen → Op Seen
  unfolding check_entries
  check_directory [] seen = pure seen
  check_directory (block ∷ blocks) seen = do
    v ← gets (λ v. v)
    bytes ← read_block c block
    seen ← check_entries v.inodes (to_dirents dirents_per_block bytes) seen
    check_directory blocks seen

  unfoldable pub validate_loaded_metadata : Op (Unit {0})
  unfolding good_counts check_directory all_referenced seen_none
  validate_loaded_metadata = do
    v ← gets (λ v. v)
    require (not (v.bitmap_bytes == 0) && good_root (v.inodes 0)) eperm
    on_device host_alloc
    cl ←
        claim_inodes c 0 max_inodes
          (record { claimed = λ _. false; count = 0; allocated_inodes = 0 })
    require (good_counts v cl) eperm
    let root = v.inodes 0
    seen ← check_directory (take root.block_count root.direct) seen_none
    require (all_referenced v.inodes seen.referenced 1 (max_inodes - 1)) eperm
