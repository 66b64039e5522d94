-- ===== src/Fuse.antt =====
-- src/fuse_ops.c: the callbacks that libfuse makes, one at a time (`-s`). A path is the list of its
-- bytes without the terminating NUL.
use denyfs.Prelude.{
  ℕ, ◌*◌, ltb, Bool, not, ◌==◌, Option, none, some, List, [], ◌∷◌, any, bytes_eq, if◌then◌else◌,
}
use denyfs.Layout.{max_file_size}
use denyfs.Crypto.{Crypto}
use denyfs.Volume.{
  on_err, Vol, Res, ok, Errno, enoent, eisdir, einval, enospc, Op, pure, fail, gets, require,
  or_fail, ◌>>=◌, ◌>>◌,
}
use denyfs.Directory.{dot, slash, vol_lookup}
use denyfs.FileIo.{vol_flush, vol_read, vol_write}
use denyfs.Truncate.{vol_truncate}
use denyfs.Files.{vol_create, vol_unlink, vol_readdir}

-- `off_t`; `negsuc n` is -(n + 1).
pub data ℤ : Type 0 where
  pos : ℕ → ℤ
  negsuc : ℕ → ℤ

unfoldable pub is_root_path : List ℕ → Bool
unfolding bytes_eq
is_root_path path = bytes_eq path (slash ∷ [])

-- The name in "/name"; none for the root, a nested path and a path without the slash.
unfoldable pub path_to_name : List ℕ → Option (List ℕ)
unfolding any
path_to_name [] = none
path_to_name (b ∷ name) =
    if b == slash then (if any (λ x. x == slash) name then none else name_of name) else none
  where
    name_of : List ℕ → Option (List ℕ)
    name_of [] = none
    name_of (x ∷ xs) = some (x ∷ xs)

-- The fields of `struct stat` that getattr sets; the three times are the modification time.
pub record Stat : Type 0 where
  pub mode : ℕ
  pub nlink : ℕ
  pub size : ℕ
  pub blocks : ℕ
  pub mtime : ℕ

-- `fuse_fill_dir_t`: the buffer takes a name, or is full.
abbrev pub Filler : Type 0
Filler = List (List ℕ) → List ℕ → List (List ℕ) × Bool

unfoldable pub with_name : {A : Type 0} → Option (List ℕ) → Errno → (List ℕ → Op A) → Op A
with_name none e k = fail e
with_name (some name) e k = k name

unfoldable pub with_offset : {A : Type 0} → ℤ → (ℕ → Op A) → Op A
with_offset (pos n) k = k n
with_offset (negsuc n) k = fail einval

-- What libfuse asks, in any order. `destroy` flushes the volume before it is closed.
pub data Request : Type 0 where
  getattr : List ℕ → Request
  readdir : List ℕ → Filler → Request
  open_file : List ℕ → Request
  read : List ℕ → ℕ → ℤ → Request
  write : List ℕ → List ℕ → ℤ → Request
  create : List ℕ → Request
  unlink : List ℕ → Request
  truncate : List ℕ → ℤ → Request
  destroy : Request

module _ (c : Crypto) where
  unfoldable pub fuse_getattr : List ℕ → Op Stat
  unfolding is_root_path path_to_name with_name
  fuse_getattr path =
      if is_root_path path
      then gets (λ v. record {
        mode = 0o40755;
        nlink = 2;
        size = 0;
        blocks = 0;
        mtime = (v.inodes 0).mtime;
      })
      else with_name (path_to_name path) enoent (λ name. do
        ino ← or_fail enoent (vol_lookup c name)
        v ← gets (λ v. v)
        let n = v.inodes ino
        pure (record {
          mode = 0o100644;
          nlink = 1;
          size = n.size;
          blocks = n.block_count * 8;
          mtime = n.mtime;
        }))

  -- The two dots are filled in first; a full buffer ends the listing.
  unfoldable pub fill_dots :
      Filler
      → List (List ℕ)
      → (List (List ℕ) → Op (List (List ℕ) × Res (Unit {0})))
      → Op (List (List ℕ) × Res (Unit {0}))
  fill_dots filler buf next =
      let (buf', full) = filler buf (dot ∷ []) in
      if full
      then pure (buf', ok tt)
      else (let (buf'', full') = filler buf' (dot ∷ dot ∷ []) in
          if full' then pure (buf'', ok tt) else next buf'')

  unfoldable pub fuse_readdir :
      List ℕ → Filler → List (List ℕ) → Op (List (List ℕ) × Res (Unit {0}))
  unfolding is_root_path fill_dots
  fuse_readdir path filler buf =
      if is_root_path path
      then fill_dots filler buf (λ b. vol_readdir c (λ s name ino. filler s name) b)
      else fail enoent

  unfoldable pub fuse_open : List ℕ → Op (Unit {0})
  unfolding path_to_name with_name
  fuse_open path =
      with_name (path_to_name path) eisdir (λ name. do or_fail enoent (vol_lookup c name); pure tt)

  unfoldable pub fuse_read : List ℕ → ℕ → ℤ → Op (List ℕ)
  unfolding path_to_name with_name with_offset
  fuse_read path size offset = with_offset offset (λ at.
      with_name (path_to_name path) eisdir
        (λ name. do ino ← or_fail enoent (vol_lookup c name); vol_read c ino size at))

  unfoldable pub fuse_write : ℕ → List ℕ → List ℕ → ℤ → Op ℕ
  unfolding path_to_name with_name with_offset
  fuse_write now path buf offset = with_offset offset (λ at.
      with_name (path_to_name path) eisdir
        (λ name. do ino ← or_fail enoent (vol_lookup c name); vol_write c now ino buf at))

  unfoldable pub fuse_create : ℕ → List ℕ → Op ℕ
  unfolding path_to_name with_name
  fuse_create now path = with_name (path_to_name path) eisdir (vol_create c now)

  unfoldable pub fuse_unlink : List ℕ → Op (Unit {0})
  unfolding path_to_name with_name
  fuse_unlink path = with_name (path_to_name path) eisdir (vol_unlink c)

  unfoldable pub fuse_truncate : ℕ → List ℕ → ℤ → Op (Unit {0})
  unfolding path_to_name with_name with_offset
  fuse_truncate now path size = with_offset size (λ new_size. do
    require (not (ltb max_file_size new_size)) enospc
    with_name (path_to_name path) eisdir
        (λ name. do ino ← or_fail enoent (vol_lookup c name); vol_truncate c now ino new_size))

  -- The result of the flush is not looked at; the volume is closed behind it.
  unfoldable pub fuse_destroy : Op (Unit {0})
  fuse_destroy = on_err (vol_flush c) (λ _. pure tt)

  -- One request: what it leaves of the volume, whatever it returns. `now` is the clock.
  unfoldable pub handle : ℕ → Request → Vol → Vol
  unfolding fuse_getattr fuse_readdir fuse_open fuse_read fuse_write fuse_create fuse_unlink
      fuse_truncate fuse_destroy
  handle now (getattr path) v = (fuse_getattr path v).1
  handle now (readdir path filler) v = (fuse_readdir path filler [] v).1
  handle now (open_file path) v = (fuse_open path v).1
  handle now (read path size offset) v = (fuse_read path size offset v).1
  handle now (write path buf offset) v = (fuse_write now path buf offset v).1
  handle now (create path) v = (fuse_create now path v).1
  handle now (unlink path) v = (fuse_unlink path v).1
  handle now (truncate path size) v = (fuse_truncate now path size v).1
  handle now destroy v = (fuse_destroy v).1

  -- The main loop: requests with the times at which they arrive.
  unfoldable pub serve : List (ℕ × Request) → Vol → Vol
  unfolding handle
  serve [] v = v
  serve ((now, r) ∷ rs) v = serve rs (handle now r v)
