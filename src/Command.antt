-- ===== src/Command.antt =====
-- src/main.c: what a run of the program sees of the host, passwords, and the options of the command
-- line. An argument is the list of its bytes without the terminating NUL.
pub mod Handlers
pub mod Keeps
pub mod Password
pub mod Mounting
pub mod Main
use denyfs.Prelude.{
  ℕ, ◌-◌, ltb, Bool, true, false, ◌&&◌, ◌||◌, ◌==◌, Option, none, some, List, [], ◌∷◌, ◌++◌, length,
  bytes_eq, codes, if◌then◌else◌,
}
use denyfs.Volume.{
  Outcome, done, failed, torn, Device, Res, ok, err, eperm, Exec, pure, fail, gets, require, ◌>>=◌,
  ◌>>◌,
}
use denyfs.Container.{Draws}
use denyfs.Fuse.{ℤ, pos, negsuc, Request}

-- The host: the bytes still to come on each file descriptor, the outcomes of the next library calls
-- (past the end of the schedule they succeed), and the files by path, containers among them: links
-- are left out, every file is known by one path. A file is its sectors, the last of which may be
-- short, and its size.
pub record Machine : Type 0 where
  pub streams : ℕ → List ℕ
  pub calls : List Outcome
  pub files : List ℕ → Option Device

-- What one run gets from outside: the C library's number parsers, random draws, the schedule of the
-- container file that it creates, what libfuse asks and returns, and the sector at which the stream of
-- a container stands where a seek has failed.
pub record Env : Type 0 where
  pub strtoull : List ℕ → ℕ
  pub atoi : List ℕ → ℤ
  pub draws : Draws
  pub outcomes : List Outcome
  pub session : List (ℕ × Request)
  pub fuse_result : ℕ
  pub stray : ℕ

unfoldable pub next_of : List Outcome → Exec Machine Outcome
next_of [] s = (ok done, s)
next_of (o ∷ os) s = (ok o, record s { calls = os })

unfoldable pub next_call : Exec Machine Outcome
unfolding next_of
next_call s = next_of s.calls s

unfoldable pub is_done : Outcome → Bool
is_done done = true
is_done failed = false
is_done (torn left) = false

-- A library call whose failure ends the caller.
unfoldable pub must : Exec Machine (Unit {0})
unfolding next_call is_done
must = do o ← next_call; require (is_done o) eperm

-- denyfs_crypto_init, whose sodium_init may fail.
unfoldable pub crypto_init : Exec Machine (Unit {0})
unfolding must
crypto_init = must

-- `ch == '\n' || ch == '\r'`
unfoldable pub ends_line : ℕ → Bool
ends_line ch = (ch == 10) || (ch == 13)

abbrev pub max_len : ℕ
max_len = 512

-- The loop over the bytes: the password so far, and what stays unread.
unfoldable pub collect : List ℕ → List ℕ → List ℕ × List ℕ
unfolding ends_line
collect [] pass = (pass, [])
collect (ch ∷ rest) pass =
    let more = collect rest (if ltb (length pass) (max_len - 1) then pass ++ ch ∷ [] else pass) in
    if ends_line ch then (pass, rest) else more

unfoldable pub read_line : ℕ → Exec Machine (List ℕ)
unfolding collect
read_line fd s =
    let (pass, rest) = collect (s.streams fd) [] in
    (ok pass, record s { streams = λ k. if k == fd then rest else s.streams k })

-- NULL is a failure.
unfoldable pub read_password_from_fd : ℕ → Exec Machine (List ℕ)
unfolding must read_line
read_password_from_fd fd = do must; read_line fd

-- tcgetattr, tcsetattr, the buffer (without which the terminal is set back), then the line of
-- standard input.
unfoldable pub get_password_interactive : Exec Machine (List ℕ)
unfolding must next_call read_line is_done
get_password_interactive = do
  must
  must
  o ← next_call
  if is_done o then (do pass ← read_line 0; next_call; pure pass) else (do next_call; fail eperm)

-- `if (fd >= 0) … else …`
unfoldable pub get_password : ℤ → Exec Machine (List ℕ)
unfolding read_password_from_fd get_password_interactive
get_password (pos fd) = read_password_from_fd fd
get_password (negsuc n) = get_password_interactive

pub record Options : Type 0 where
  pub size_mb : ℕ
  pub pwd_fd : ℤ
  pub hidden_pwd_fd : ℤ
  pub protect_hidden : Bool
  pub mount_point : Option (List ℕ)
  pub lba : Option ℕ
  pub data_file : Option (List ℕ)
  pub out_file : Option (List ℕ)

abbrev pub defaults : Options
defaults = record {
  size_mb = 0;
  pwd_fd = negsuc 0;
  hidden_pwd_fd = negsuc 0;
  protect_hidden = false;
  mount_point = none;
  lba = none;
  data_file = none;
  out_file = none;
}

-- The options by name; the others have no name in the source.
pub data Flag : Type 0 where
  size password_fd hidden_password_fd protect mountpoint lba_flag input output : Flag

abbrev pub flag_name : Flag → List ℕ
flag_name size = codes "--size"
flag_name password_fd = codes "--password-fd"
flag_name hidden_password_fd = codes "--hidden-password-fd"
flag_name protect = codes "--protect-hidden"
flag_name mountpoint = codes "--mountpoint"
flag_name lba_flag = codes "--lba"
flag_name input = codes "--data"
flag_name output = codes "--output"

module _ (env : Env) where
  unfoldable pub set_flag : Flag → List ℕ → Options → Options
  set_flag size v o = record o { size_mb = env.strtoull v }
  set_flag password_fd v o = record o { pwd_fd = env.atoi v }
  set_flag hidden_password_fd v o = record o { hidden_pwd_fd = env.atoi v }
  set_flag protect v o = record o { protect_hidden = true }
  set_flag mountpoint v o = record o { mount_point = some v }
  set_flag lba_flag v o = record o { lba = some (env.strtoull v) }
  set_flag input v o = record o { data_file = some v }
  set_flag output v o = record o { out_file = some v }

  -- `strcmp(argv[i], name) == 0 && i + 1 < argc`; `--protect-hidden` takes no value.
  unfoldable pub try_flag : Flag → List ℕ → List (List ℕ) → Options → Option Options
  unfolding set_flag bytes_eq
  try_flag protect arg rest o =
      if bytes_eq arg (flag_name protect) then some (set_flag protect [] o) else none
  try_flag f arg [] o = none
  try_flag f arg (v ∷ rest) o = if bytes_eq arg (flag_name f) then some (set_flag f v o) else none

  abbrev pub or_try : Option Options → Options → Options
  or_try none o = o
  or_try (some o) _ = o

  -- The else-if chain over the flags that a command knows.
  unfoldable pub apply_flags : List Flag → List ℕ → List (List ℕ) → Options → Options
  unfolding try_flag
  apply_flags [] arg rest o = o
  apply_flags (f ∷ fs) arg rest o = or_try (try_flag f arg rest o) (apply_flags fs arg rest o)

  -- The loop over the arguments: each of them is tried as a flag, the values too.
  unfoldable pub parse_options : List Flag → List (List ℕ) → Options → Options
  unfolding apply_flags
  parse_options fs [] o = o
  parse_options fs (arg ∷ rest) o = parse_options fs rest (apply_flags fs arg rest o)
