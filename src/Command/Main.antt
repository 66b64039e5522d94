-- ===== src/Command/Main.antt =====
-- src/main.c: main, from the arguments behind the program's name to the exit code.
use denyfs.Prelude.{
  ℕ, ◌+◌, ltb, not, ◌==◌, Option, none, some, List, [], ◌∷◌, length, bytes_eq, codes, if◌then◌else◌,
}
use denyfs.Crypto.{Crypto}
use denyfs.Volume.{Res, ok, err, eperm, Exec, pure, fail, require, of_option, ◌>>=◌, ◌>>◌}
use denyfs.Command.{
  Machine, Env, crypto_init, get_password, Options, defaults, Flag, size, password_fd,
  hidden_password_fd, protect, mountpoint, lba_flag, input, output, parse_options,
}
use denyfs.Command.Handlers.{
  handle_create, handle_create_hidden, handle_open, handle_mount, handle_write_sector,
  handle_read_sector,
}

-- A password that the caller may do without until it is looked at.
unfoldable pub or_null : Res (List ℕ) × Machine → Res (Option (List ℕ)) × Machine
or_null (ok pass, s) = (ok (some pass), s)
or_null (err e, s) = (ok none, s)

unfoldable pub optional : Exec Machine (List ℕ) → Exec Machine (Option (List ℕ))
unfolding or_null
optional m s = or_null (m s)

-- The commands, each with the arguments behind the path.
pub data Verb : Type 0 where
  create create_hidden open_volume mount write_sector read_sector : Verb

abbrev pub verb_name : Verb → List ℕ
verb_name create = codes "create"
verb_name create_hidden = codes "create-hidden"
verb_name open_volume = codes "open"
verb_name mount = codes "mount"
verb_name write_sector = codes "write-sector"
verb_name read_sector = codes "read-sector"

-- The flags that a command knows, in the order in which it tries them.
unfoldable pub flags_of : Verb → List Flag
flags_of create = size ∷ password_fd ∷ []
flags_of create_hidden = password_fd ∷ hidden_password_fd ∷ size ∷ []
flags_of open_volume = password_fd ∷ hidden_password_fd ∷ protect ∷ []
flags_of mount = password_fd ∷ hidden_password_fd ∷ protect ∷ mountpoint ∷ []
flags_of write_sector = password_fd ∷ lba_flag ∷ input ∷ []
flags_of read_sector = password_fd ∷ lba_flag ∷ output ∷ []

-- The least argc.
unfoldable pub least_argc : Verb → ℕ
least_argc create = 5
least_argc create_hidden = 5
least_argc open_volume = 3
least_argc mount = 3
least_argc write_sector = 3
least_argc read_sector = 3

unfoldable pub verb_of : List ℕ → Option Verb
unfolding bytes_eq
verb_of arg =
    if bytes_eq arg (verb_name create)
    then some create
    else if bytes_eq arg (verb_name create_hidden)
    then some create_hidden
    else if bytes_eq arg (verb_name open_volume)
    then some open_volume
    else if bytes_eq arg (verb_name mount)
    then some mount
    else if bytes_eq arg (verb_name write_sector)
    then some write_sector
    else if bytes_eq arg (verb_name read_sector)
    then some read_sector
    else none

module _ (c : Crypto) (env : Env) where
  -- The password for protection, asked for only with `--protect-hidden`.
  unfoldable pub protection_password : Options → Exec Machine (Option (List ℕ))
  unfolding optional get_password
  protection_password o =
      if o.protect_hidden then optional (get_password o.hidden_pwd_fd) else pure none

  unfoldable pub run_create : List ℕ → Options → Exec Machine ℕ
  unfolding get_password handle_create
  run_create path o = do
    require (not (o.size_mb == 0)) eperm
    raw_pass ← get_password o.pwd_fd
    handle_create c env path o.size_mb raw_pass

  unfoldable pub run_create_hidden : List ℕ → Options → Exec Machine ℕ
  unfolding get_password optional handle_create_hidden
  run_create_hidden path o = do
    require (not (o.size_mb == 0)) eperm
    outer ← optional (get_password o.pwd_fd)
    hidden ← optional (get_password o.hidden_pwd_fd)
    outer_pass ← of_option outer eperm
    hidden_pass ← of_option hidden eperm
    handle_create_hidden c env path outer_pass hidden_pass o.size_mb

  unfoldable pub run_open : List ℕ → Options → Exec Machine ℕ
  unfolding get_password optional protection_password handle_open
  run_open path o = do
    raw ← optional (get_password o.pwd_fd)
    hidden_pass ← protection_password o
    raw_pass ← of_option raw eperm
    handle_open c env path raw_pass hidden_pass o.protect_hidden

  unfoldable pub run_mount : List ℕ → Options → Exec Machine ℕ
  unfolding get_password optional protection_password handle_mount
  run_mount path o = do
    mount_point ← of_option o.mount_point eperm
    raw ← optional (get_password o.pwd_fd)
    hidden_pass ← protection_password o
    raw_pass ← of_option raw eperm
    handle_mount c env path raw_pass hidden_pass o.protect_hidden

  unfoldable pub run_write_sector : List ℕ → Options → Exec Machine ℕ
  unfolding get_password handle_write_sector
  run_write_sector path o = do
    lba ← of_option o.lba eperm
    data_file ← of_option o.data_file eperm
    raw_pass ← get_password o.pwd_fd
    handle_write_sector c env path raw_pass lba data_file

  unfoldable pub run_read_sector : List ℕ → Options → Exec Machine ℕ
  unfolding get_password handle_read_sector
  run_read_sector path o = do
    lba ← of_option o.lba eperm
    out_file ← of_option o.out_file eperm
    raw_pass ← get_password o.pwd_fd
    handle_read_sector c env path raw_pass lba out_file

  unfoldable pub run_verb : Verb → List ℕ → Options → Exec Machine ℕ
  unfolding run_create run_create_hidden run_open run_mount run_write_sector run_read_sector
  run_verb create = run_create
  run_verb create_hidden = run_create_hidden
  run_verb open_volume = run_open
  run_verb mount = run_mount
  run_verb write_sector = run_write_sector
  run_verb read_sector = run_read_sector

  -- `args` is argv from argv[2] on, so argc is two more than its length.
  unfoldable pub run_command : Option Verb → List (List ℕ) → Exec Machine ℕ
  unfolding run_verb parse_options flags_of least_argc
  run_command none args = fail eperm
  run_command (some verb) [] = fail eperm
  run_command (some verb) (path ∷ args) = do
    require (not (ltb (length args + 3) (least_argc verb))) eperm
    run_verb verb path (parse_options env (flags_of verb) args defaults)

  -- denyfs_crypto_init, then the command.
  unfoldable pub run_args : List (List ℕ) → Exec Machine ℕ
  unfolding run_command verb_of crypto_init
  run_args [] = do crypto_init; fail eperm
  run_args (command ∷ args) = do crypto_init; run_command (verb_of command) args

  unfoldable pub exit_code : Res ℕ × Machine → ℕ × Machine
  exit_code (ok n, s) = (n, s)
  exit_code (err e, s) = (1, s)

  unfoldable pub main : List (List ℕ) → Machine → ℕ × Machine
  unfolding run_args exit_code
  main args s = exit_code (run_args args s)
