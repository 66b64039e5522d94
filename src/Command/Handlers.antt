-- ===== src/Command/Handlers.antt =====
-- src/main.c: the command handlers, and denyfs_fuse_run of src/fuse_ops.c. A handler that reports an
-- error and returns 1 fails; the messages and the clock are left out.
use denyfs.Prelude.{
  ℕ, ◌-◌, ◌/◌, ◌*◌, ◌==◌, ltb, Bool, true, false, Option, none, some, List, [], ◌++◌, length, take,
  replicate, bytes_eq, if◌then◌else◌,
}
use denyfs.Layout.{sector_size}
use denyfs.Crypto.{Crypto, crypt_sector}
use denyfs.Volume.{
  Outcome, done, failed, torn, Device, Vol, Res, ok, err, eperm, Exec, pure, gets, require, on_err,
  of_option, ◌>>=◌, ◌>>◌,
}
use denyfs.Block.{fwrite_sector, fread_sector, fflush, block_offset}
use denyfs.Open.{vol_open}
use denyfs.Container.{container_create, container_create_hidden}
use denyfs.Fuse.{serve}
use denyfs.Command.{Machine, Env, must, next_call, is_done}

-- The file at a path, replaced.
abbrev pub update_at {ℓ} : {A : Type ℓ} → (List ℕ → A) → List ℕ → A → List ℕ → A
update_at f path x p = if bytes_eq p path then x else f p

module _ {A : Type 0} where
  put_container : List ℕ → Machine → Res A × Device → Res A × Machine
  put_container path s (r, d) = (r, record s { files = update_at s.files path (some d) })

  unfoldable pub open_container : List ℕ → Option Device → Exec Device A → Exec Machine A
  unfolding put_container
  open_container path none m s = (err eperm, s)
  open_container path (some d) m s = put_container path s (m d)

  -- An action on the container at a path, which fails if there is none.
  unfoldable pub on_container : List ℕ → Exec Device A → Exec Machine A
  unfolding open_container
  on_container path m s = open_container path (s.files path) m s

-- A result that the caller does not look at.
unfoldable pub ignore : {S : Type 0} → Exec S (Unit {0}) → Exec S (Unit {0})
ignore m = on_err m (λ _. pure tt)

-- denyfs_container_create leaves a file at the path, or none.
put_created : List ℕ → Machine → Res (Unit {0}) × Option Device → Res (Unit {0}) × Machine
put_created path s (r, d) = (r, record s { files = update_at s.files path d })

-- fopen and fread of at most a sector of a file, a container's too, padded with zeros; a short read is taken as it is.
short_read : Outcome → List ℕ → List ℕ
short_read done bytes = bytes
short_read failed bytes = []
short_read (torn left) bytes = left

unfoldable pub pad_sector : List ℕ → List ℕ
unfolding take replicate
pad_sector bytes =
    let plain = take sector_size bytes in plain ++ replicate (sector_size - length plain) 0

unfoldable pub read_data_file : List ℕ → Exec Machine (List ℕ)
unfolding short_read pad_sector next_call
read_data_file path = do
  s ← gets (λ s. s)
  d ← of_option (s.files path) eperm
  o ← next_call
  pure (pad_sector (short_read o (take d.size (d.sectors 0))))

-- A file of at most a sector.
unfoldable pub small_file : List ℕ → Device
small_file bytes = record {
  sectors = λ s. if s == 0 then bytes else [];
  size = length bytes;
  outcomes = [];
}

unfoldable pub put_file : List ℕ → List ℕ → Exec Machine (Unit {0})
unfolding small_file
put_file path bytes s =
    (ok tt, record s { files = update_at s.files path (some (small_file bytes)) })

-- fopen for writing, which may fail, and empties the file that was there, a container too; that not
-- all bytes arrive is not noticed.
unfoldable pub write_out_file : List ℕ → List ℕ → Exec Machine (Unit {0})
unfolding must next_call short_read put_file
write_out_file path bytes = do must; o ← next_call; put_file path (short_read o bytes)

module _ (c : Crypto) (env : Env) where
  -- fseek, whose result nobody looks at: where it fails the stream stays where it is.
  unfoldable pub seek : ℕ → Exec Machine ℕ
  unfolding next_call is_done
  seek offset = do o ← next_call; pure (if is_done o then offset else env.stray * sector_size)

  unfoldable pub handle_create : List ℕ → ℕ → List ℕ → Exec Machine ℕ
  unfolding container_create put_created
  handle_create path size_mb raw_pass = do
    λ s.
        put_created path s
          (container_create c env.draws (s.files path) env.outcomes raw_pass size_mb)
    pure 0

  unfoldable pub handle_create_hidden : (path outer_pass hidden_pass : List ℕ) → ℕ → Exec Machine ℕ
  unfolding container_create_hidden on_container
  handle_create_hidden path outer_pass hidden_pass hidden_size_mb = do
    on_container path (container_create_hidden c env.draws outer_pass hidden_pass hidden_size_mb)
    pure 0

  unfoldable pub handle_open : (path raw_pass : List ℕ) → Option (List ℕ) → Bool → Exec Machine ℕ
  unfolding vol_open on_container
  handle_open path raw_pass hidden_pass protect_hidden = do
    on_container path (vol_open c raw_pass hidden_pass protect_hidden)
    pure 0

  -- The FUSE main loop, which serves what it is asked.
  unfoldable pub fuse_run : Vol → Exec Device ℕ
  unfolding serve
  fuse_run vol d = (ok env.fuse_result, (serve c env.session vol).dev)

  unfoldable pub handle_mount : (path raw_pass : List ℕ) → Option (List ℕ) → Bool → Exec Machine ℕ
  unfolding vol_open on_container fuse_run
  handle_mount path raw_pass hidden_pass protect_hidden =
      on_container path (do vol ← vol_open c raw_pass hidden_pass protect_hidden; fuse_run vol)

  -- The sector is encrypted and written where it lies, whatever the volume keeps there.
  unfoldable pub handle_write_sector : (path raw_pass : List ℕ) → ℕ → List ℕ → Exec Machine ℕ
  unfolding vol_open on_container read_data_file fwrite_sector ignore seek
  handle_write_sector path raw_pass lba data_file = do
    vol ← on_container path (vol_open c raw_pass none false)
    require (ltb lba (vol.volume_size / sector_size)) eperm
    plain ← read_data_file data_file
    cipher ← of_option (crypt_sector c plain lba vol.volume_key true) eperm
    offset ← seek (block_offset vol.vol_start_offset lba)
    on_container path (do fwrite_sector offset cipher; ignore fflush)
    pure 0

  unfoldable pub handle_read_sector : (path raw_pass : List ℕ) → ℕ → List ℕ → Exec Machine ℕ
  unfolding vol_open on_container fread_sector write_out_file seek
  handle_read_sector path raw_pass lba out_file = do
    vol ← on_container path (vol_open c raw_pass none false)
    require (ltb lba (vol.volume_size / sector_size)) eperm
    offset ← seek (block_offset vol.vol_start_offset lba)
    cipher ← on_container path (fread_sector offset)
    plain ← of_option (crypt_sector c cipher lba vol.volume_key false) eperm
    write_out_file out_file plain
    pure 0
