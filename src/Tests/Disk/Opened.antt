-- ===== src/Tests/Disk/Opened.antt =====
-- The container of Disk, opened without protection: its metadata passes, and a flush after a session
-- succeeds.
use denyfs.Prelude.{
  ℕ, ◌≤◌, ◌<◌, ◌≡◌, refl, Bool, true, not, ◌&&◌, not→false, false, none, List, [], ◌∷◌, replicate,
  drop, arith,
}
use denyfs.Prelude.Words.{le_value, le_bytes, word_bytes, words}
use denyfs.Block.{fread_sector, host_alloc, read_block}
use denyfs.Validate.{good_root, validate_superblock, claim_inodes, Claims}
use denyfs.Validate.Unshared.{no_claims}
use denyfs.Validate.Exact.{validated-exact}
use denyfs.Validate.Reads.{OnlyReads}
use denyfs.FileIo.Flushing.{Works}
use denyfs.FileIo.{vol_flush}
use denyfs.Mount.Flush.{serve-quiet, vol_open-flushes}
use denyfs.Validate.Metadata.{validate_loaded_metadata, check_directory}
use denyfs.Layout.{
  to_superblock, to_inode_table, to_dirents, to_inode, inode_bytes, to_dirent, dirents_bytes,
  dirent_bytes, max_inodes,
}
use denyfs.Volume.{Outcome, Device, Vol, Res, ok, err, on_device, ◌>>=◌}
use denyfs.Format.{format_superblock, format_bitmap, format_inodes}
use denyfs.Crypto.{
  decrypt_header, crypt_sector, compute_hmac, derive_master_key, derive_header_key, to_disk_header,
}
use denyfs.Header.{valid_volume_range, try_protected_header}
use denyfs.Open.{vol_open}
use denyfs.Fuse.{serve}
use denyfs.Tests.{plain, small, session}
use denyfs.Tests.Disk.{disk, volume_of}

-- The small volume over that container.
abbrev pub loaded : Vol
loaded = record small { dev = disk }

unfoldable pub passes : {A : Type 0} → Res A × Vol → Bool
passes (ok a, v) = true
passes (err e, v) = false

pub passes-ok : (x : Res (Unit {0}) × Vol) → passes x ≡ true → x ≡ (ok tt, x.1)
unfolding passes
passes-ok (ok u, v) h = refl
passes-ok (err e, v) h = ground arith

validates : passes (validate_loaded_metadata plain loaded) ≡ true
unfolding passes validate_loaded_metadata disk claim_inodes check_directory read_block fread_sector
    host_alloc on_device crypt_sector to_dirents to_dirent dirents_bytes dirent_bytes good_root
    format_superblock format_bitmap format_inodes ◌>>=◌ le_value le_bytes drop
validates = refl

validated-exact_example :
    (before after : Vol) × (cl : Claims) × OnlyReads loaded before
    × (claim_inodes plain 0 max_inodes no_claims before ≡ (ok cl, after))
    × ((b : ℕ)
        → loaded.sb.data_start ≤ b
        → b < loaded.sb.total_blocks
        → loaded.bitmap b ≡ cl.claimed b)
validated-exact_example = validated-exact plain loaded (passes-ok _ validates)

-- The outer volume, opened without protection.
abbrev plainly : Vol
unfolding vol_open disk volume_of
plainly = volume_of (vol_open plain [] none false disk)

is_quiet : List Outcome → Bool
is_quiet [] = true
is_quiet (o ∷ os) = false

quiet : (os : List Outcome) → is_quiet os ≡ true → os ≡ []
unfolding is_quiet
quiet [] h = refl
quiet (o ∷ os) h = ground arith

is_unprotected : Res Vol × Device → Bool
is_unprotected (ok v, d) = not v.protect_hidden && is_quiet v.dev.outcomes
is_unprotected (err e, d) = false

is_unprotected-volume_of :
    (x : Res Vol × Device)
    → is_unprotected x ≡ true
    → (x ≡ (ok (volume_of x), x.1))
      × ((volume_of x).protect_hidden ≡ false)
      × ((volume_of x).dev.outcomes ≡ [])
unfolding is_unprotected volume_of
is_unprotected-volume_of (ok v, d) h =
    (refl, not→false _ (ground arith), quiet v.dev.outcomes (ground arith))
is_unprotected-volume_of (err e, d) h = ground arith

unprotected_runs : is_unprotected (vol_open plain [] none false disk) ≡ true
unfolding vol_open disk is_unprotected is_quiet fread_sector host_alloc read_block on_device
    to_disk_header decrypt_header crypt_sector compute_hmac derive_master_key derive_header_key
    validate_superblock validate_loaded_metadata claim_inodes check_directory try_protected_header
    to_superblock to_inode_table to_dirents valid_volume_range ◌>>=◌ le_bytes good_root to_inode
    inode_bytes word_bytes words to_dirent dirents_bytes dirent_bytes
unprotected_runs = refl

opens_unprotected :
    (vol_open plain [] none false disk ≡ (ok plainly, (vol_open plain [] none false disk).1))
    × (plainly.protect_hidden ≡ false)
    × (plainly.dev.outcomes ≡ [])
unfolding plainly
opens_unprotected = is_unprotected-volume_of (vol_open plain [] none false disk) unprotected_runs

plain-Works : Works plain
unfolding replicate
plain-Works = record { xts = λ e key iv b. (b, refl); hmac = λ key b. (replicate 32 7, refl, refl) }

vol_open-flushes_example : (w : Vol) × (vol_flush plain (serve plain session plainly) ≡ (ok tt, w))
vol_open-flushes_example =
    vol_open-flushes plain [] none false disk session plain-Works opens_unprotected.0
      opens_unprotected.1 (serve-quiet plain session plainly opens_unprotected.2)
