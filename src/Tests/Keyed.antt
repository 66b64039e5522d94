-- ===== src/Tests/Keyed.antt =====
-- The container of Disk with ciphers that tell two passwords apart: commands on it.
use denyfs.Prelude.{
  Option, ap, bytes_eq-same, ℕ, ◌+◌, ◌-◌, ◌*◌, ◌/◌, inl, ◌≢◌, ◌≡◌, refl, Bool, true, false, none,
  some, List, [], ◌∷◌, ◌++◌, length, take, bytes_eq, codes, replicate, ◌==◌, ==→eq, if◌then◌else◌,
  arith,
}
use denyfs.Prelude.Words.{le_bytes, word_bytes, words}
use denyfs.Block.{fread_sector, fwrite_sector, fflush, write_block_raw, host_alloc, read_block}
use denyfs.Validate.{good_root, validate_superblock, claim_inodes}
use denyfs.Validate.Metadata.{validate_loaded_metadata, check_directory}
use denyfs.Layout.{
  to_superblock, to_inode_table, to_dirents, to_inode, inode_bytes, to_dirent, dirents_bytes,
  dirent_bytes,
}
use denyfs.Volume.{Device, Vol, Res, ok, err, on_device, ◌>>=◌}
use denyfs.Crypto.{
  Crypto, encrypt_header, decrypt_header, crypt_sector, compute_hmac, derive_master_key,
  derive_header_key, to_disk_header,
}
use denyfs.Header.{valid_volume_range, Payload, payload_bytes, try_header, try_protected_header}
use denyfs.Open.{vol_open}
use denyfs.Format.{format_volume}
use denyfs.Container.{Draws, container_create_hidden}
use denyfs.Container.Hidden.{container_create_hidden-outer}
use denyfs.Fuse.{pos}
use denyfs.Command.{parse_options, Machine, Env, read_line, max_len}
use denyfs.Command.Password.{line, after_line, read_line-take}
use denyfs.Command.Handlers.{handle_mount}
use denyfs.Command.Main.{verb_of, read_sector, flags_of, main}
use denyfs.Command.Keeps.{contents, main-reads}
use denyfs.Command.Mounting.{sector_at, handle_mount-protected}
use denyfs.Tests.{session}
use denyfs.Tests.Disk.{payload_of, sector, volume_of}

-- The key of a password is its length; a header opens under the key that its tag names.
abbrev keyed : Crypto
unfolding replicate take bytes_eq
keyed = record {
  evp_xts = λ encrypt key iv b. some b;
  evp_gcm_encrypt = λ key iv p. some (p, key);
  evp_gcm_decrypt = λ key iv ct tag. if bytes_eq (take 1 key) (take 1 tag) then some ct else none;
  hmac_sha256 = λ key b. some key;
  pwhash = λ p salt. some (replicate 32 (length p));
}

abbrev payload : ℕ → Payload
payload blocks = record (payload_of blocks) { hmac_key = replicate 32 7 }

abbrev header_sector : ℕ → ℕ → List ℕ
unfolding payload_bytes replicate
header_sector tag blocks = replicate 28 0 ++ (replicate 16 tag ++ payload_bytes (payload blocks))

abbrev disk : Device
unfolding sector header_sector
disk = record {
  sectors =
      λ s. if s == 0 then header_sector 1 16 else if s == 17 then header_sector 2 4 else sector s;
  size = 25 * 4096;
  outcomes = [];
}

abbrev outer_pass : List ℕ
outer_pass = codes "a"

abbrev hidden_pass : List ℕ
hidden_pass = codes "bc"

abbrev draws : Draws
draws = record {
  fill = λ s. replicate 4096 5;
  salt = replicate 16 3;
  volume_key = replicate 64 1;
  hmac_key = replicate 32 7;
  reserved = [];
  iv = replicate 12 4;
  now = 9;
}

abbrev env : Env
env = record {
  strtoull = λ v. 1;
  atoi = λ v. pos 3;
  draws = draws;
  outcomes = [];
  session = session;
  fuse_result = 0;
  stray = 0;
}

-- The passwords wait on descriptor 3; the container is at every path.
abbrev machine : Machine
machine = record {
  streams = λ fd. if fd == 3 then codes "a\nbc\n" else [];
  calls = [];
  files = λ path. some disk;
}

read_line-take_example :
    ((read_line 3 machine).0 ≡ ok (take (max_len - 1) (line (machine.streams 3))))
    × ((read_line 3 machine).1.streams 3 ≡ after_line (machine.streams 3))
    × ((k : ℕ) → k ≢ 3 → (read_line 3 machine).1.streams k ≡ machine.streams k)
read_line-take_example = read_line-take 3 machine

reads_password : (read_line 3 machine).0 ≡ ok outer_pass
unfolding read_line
reads_password = refl

abbrev read_args : List (List ℕ)
read_args =
    codes "--lba"
    ∷ codes "1"
    ∷ codes "--password-fd"
    ∷ codes "3"
    ∷ codes "--output"
    ∷ codes "out.bin"
    ∷ []

is_output : List ℕ → Option (List ℕ) → Bool
is_output path none = false
is_output path (some p) = bytes_eq p path

-- Another file than the one that `--output` names.
not_output : (o : Option (List ℕ)) (path : List ℕ) → is_output path o ≡ false → o ≢ some path
unfolding is_output
not_output o path h e =
    let named : is_output path o ≡ bytes_eq path path = ap (is_output path) e in
    ground (arith, h, named, bytes_eq-same path)

main-reads_example :
    contents (
      (main keyed env (codes "read-sector" ∷ codes "disk.img" ∷ read_args) machine).1.files
        (codes "disk.img"))
    ≡ contents (machine.files (codes "disk.img"))
unfolding verb_of parse_options flags_of is_output bytes_eq
main-reads_example =
    main-reads keyed env (codes "disk.img") (codes "read-sector") (codes "disk.img") read_args
      machine read_sector refl refl λ _. not_output _ (codes "disk.img") refl

-- The hidden header at sector 17 opens under the hidden password only.
no_hidden : try_header keyed outer_pass (to_disk_header (disk.sectors 17)) ≡ none
unfolding try_header disk keyed decrypt_header derive_header_key derive_master_key to_disk_header
no_hidden = refl

hidden_header :
    try_protected_header keyed hidden_pass (to_disk_header (disk.sectors 17)) ≡ some (payload 4)
unfolding try_protected_header disk keyed derive_master_key derive_header_key decrypt_header
    to_disk_header le_bytes
hidden_header = refl

abbrev after_mount : Machine
unfolding disk keyed
after_mount =
    (handle_mount keyed env (codes "disk.img") outer_pass (some hidden_pass) true machine).1

handle_mount-protected_example :
    sector_at (after_mount.files (codes "disk.img")) 14 ≡ some (disk.sectors 14)
unfolding disk keyed after_mount
handle_mount-protected_example =
    handle_mount-protected keyed env (codes "disk.img") outer_pass hidden_pass machine disk
      (payload 4) 14 refl no_hidden hidden_header (omega arith)

-- Room for a hidden volume of a mebibyte behind the outer one.
abbrev roomy : Device
unfolding sector header_sector
roomy = record {
  sectors = λ s. if s == 0 then header_sector 1 16 else if s == 17 then [] else sector s;
  size = (17 + 256 + 8) * 4096;
  outcomes = [];
}

abbrev mounted : Vol
unfolding vol_open roomy volume_of
mounted = volume_of (vol_open keyed outer_pass none false roomy)

ends_at : ℕ → Res Vol × Device → Bool
ends_at n (ok v, d) = (v.vol_start_offset + v.volume_size) / 4096 == n
ends_at n (err e, d) = false

ends_at-volume_of :
    (n : ℕ) (x : Res Vol × Device)
    → ends_at n x ≡ true
    → (x ≡ (ok (volume_of x), x.1))
      × (((volume_of x).vol_start_offset + (volume_of x).volume_size) / 4096 ≡ n)
unfolding ends_at volume_of
ends_at-volume_of n (ok v, d) h = (refl, ==→eq _ n h)
ends_at-volume_of n (err e, d) h = ground arith

runs : ends_at 17 (vol_open keyed outer_pass none false roomy) ≡ true
unfolding vol_open roomy keyed ends_at fread_sector host_alloc read_block on_device to_disk_header
    decrypt_header crypt_sector compute_hmac derive_master_key derive_header_key validate_superblock
    validate_loaded_metadata claim_inodes check_directory try_protected_header to_superblock
    to_inode_table to_dirents valid_volume_range ◌>>=◌ le_bytes good_root to_inode inode_bytes
    word_bytes words to_dirent dirents_bytes dirent_bytes
runs = refl

opens :
    (vol_open keyed outer_pass none false roomy
      ≡ (ok mounted, (vol_open keyed outer_pass none false roomy).1))
    × ((mounted.vol_start_offset + mounted.volume_size) / 4096 ≡ 17)
unfolding mounted
opens = ends_at-volume_of 17 (vol_open keyed outer_pass none false roomy) runs

created : Res (Unit {0}) × Device → Bool
created (ok u, d) = true
created (err e, d) = false

creates : created (container_create_hidden keyed draws outer_pass hidden_pass 1 roomy) ≡ true
unfolding container_create_hidden vol_open roomy keyed created fread_sector host_alloc read_block
    on_device to_disk_header decrypt_header crypt_sector compute_hmac derive_master_key
    derive_header_key validate_superblock validate_loaded_metadata claim_inodes check_directory
    try_protected_header to_superblock to_inode_table to_dirents valid_volume_range ◌>>=◌ le_bytes
    good_root to_inode inode_bytes word_bytes words to_dirent dirents_bytes dirent_bytes
    format_volume write_block_raw fwrite_sector fflush encrypt_header
creates = refl

-- The root directory of the outer volume.
container_create_hidden-outer_example :
    (container_create_hidden keyed draws outer_pass hidden_pass 1 roomy).1.sectors 5
    ≡ roomy.sectors 5
unfolding roomy
container_create_hidden-outer_example =
    container_create_hidden-outer keyed draws outer_pass hidden_pass 1 roomy 5 opens.0
      (inl (omega (arith, opens.1)))
