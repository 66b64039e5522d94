-- ===== src/Volume.antt =====
-- The state of src/fs.c: the container file and `denyfs_volume_t`, and the actions on it. A failing
-- C function has changed the state too, so the state comes back beside the error.
pub mod Frame
pub mod Run
pub mod Yields
pub mod Total
use denyfs.Prelude.{
  Option, none, some, ℕ, ◌+◌, ◌-◌, ◌%◌, ◌^◌, Bool, true, false, List, [], ◌∷◌, ◌==◌, if◌then◌else◌,
}
use denyfs.Layout.{Superblock, Inode}

-- What the host does to the next stdio transfer or allocation: it succeeds; it fails and changes
-- nothing; or, a write, it fails and leaves some bytes in the sector.
pub data Outcome : Type 0 where
  done failed : Outcome
  torn : List ℕ → Outcome

-- The container file. Every offset that the program seeks to is a multiple of the sector size, so
-- the contents are sectors of 4096 bytes. `outcomes` is the schedule of the host's failures; past
-- its end everything succeeds.
pub record Device : Type 0 where
  pub sectors : ℕ → List ℕ
  pub size : ℕ
  pub outcomes : List Outcome

-- `denyfs_volume_t`. Bit i of the allocation bitmap is `bitmap[i / 8] & (1 << (i % 8))`;
-- `bitmap_dirty` has one flag per bitmap sector.
pub record Vol : Type 0 where
  pub dev : Device
  pub volume_key : List ℕ
  pub hmac_key : List ℕ
  pub volume_size : ℕ
  pub sb : Superblock
  pub bitmap : ℕ → Bool
  pub bitmap_bytes : ℕ
  pub bitmap_dirty : ℕ → Bool
  pub bitmap_dirty_count : ℕ
  pub inodes : ℕ → Inode
  pub vol_start_offset : ℕ
  pub is_hidden : Bool
  pub protect_hidden : Bool
  pub protect_start_sector : ℕ
  pub protect_end_sector : ℕ

-- The negative results of the functions. `eperm` is the plain `-1`, which is `-EPERM`.
pub data Errno : Type 0 where
  eperm enoent eio eacces eexist eisdir einval enospc enametoolong enomem : Errno

pub data Res (A : Type 0) : Type 0 where
  ok : A → Res A
  err : Errno → Res A

-- An action on a state `S`: on the open volume, or on the bare container file.
abbrev pub Exec : Type 0 → Type 0 → Type 0
Exec S A = S → Res A × S

abbrev pub Op : Type 0 → Type 0
Op A = Exec Vol A

-- `f` with entry `i` set to `x`.
abbrev pub update {ℓ} : {A : Type ℓ} → (ℕ → A) → ℕ → A → ℕ → A
update f i x j = if i == j then x else f j

module _ {S A : Type 0} where
  unfoldable pub pure : A → Exec S A
  pure a v = (ok a, v)

  unfoldable pub fail : Errno → Exec S A
  fail e v = (err e, v)

  unfoldable pub gets : (S → A) → Exec S A
  gets f v = (ok (f v), v)

  abbrev pub recover : Res A × S → (Errno → Exec S A) → Res A × S
  recover (ok a, v) h = (ok a, v)
  recover (err e, v) h = h e v

  -- `result = m; if (result != 0) { … }`
  unfoldable pub on_err : Exec S A → (Errno → Exec S A) → Exec S A
  on_err m h v = recover (m v) h

  -- `if (m != 0) return -e`
  abbrev pub or_fail : Errno → Exec S A → Exec S A
  or_fail e m = on_err m (λ _. fail e)

  -- A callee's failure is reported as `-e`.
  unfoldable pub of_option : Option A → Errno → Exec S A
  of_option none e = fail e
  of_option (some a) e = pure a

module _ {S A B : Type 0} where
  abbrev pub and_then : Res A × S → (A → Exec S B) → Res B × S
  and_then (ok a, v) k = k a v
  and_then (err e, v) k = (err e, v)

  infixl 5 ◌>>=◌ ◌>>◌
  unfoldable pub ◌>>=◌ : Exec S A → (A → Exec S B) → Exec S B
  unfolding pure fail gets on_err of_option
  ◌>>=◌ m k v = and_then (m v) k

  abbrev pub ◌>>◌ : Exec S A → Exec S B → Exec S B
  m >> n = m >>= λ _. n

-- `if (!test) return -e`
abbrev pub require : {S : Type 0} → Bool → Errno → Exec S (Unit {0})
require b e = if b then pure tt else fail e

-- An action on the container file, inside the open volume.
module _ {A : Type 0} where
  put_device : Vol → Res A × Device → Res A × Vol
  put_device v (r, d) = (r, record v { dev = d })

  unfoldable pub on_device : Exec Device A → Op A
  unfolding put_device
  on_device m v = put_device v (m v.dev)

-- The changes that the functions make to the in-memory volume.
unfoldable pub put_inode : ℕ → Inode → Op (Unit {0})
put_inode ino n v = (ok tt, record v { inodes = update v.inodes ino n })

unfoldable pub put_free_inodes : ℕ → Op (Unit {0})
put_free_inodes n v = (ok tt, record v { sb = record sb { free_inodes = n } })
  where
    open v use {sb}

unfoldable pub put_hmac : List ℕ → Op (Unit {0})
put_hmac d v = (ok tt, record v { sb = record sb { bitmap_hmac = d } })
  where
    open v use {sb}

unfoldable pub clear_dirty : Op (Unit {0})
clear_dirty v = (ok tt, record v { bitmap_dirty = λ _. false })

-- `uint32_t` counters: `x++`, `x--`.
abbrev pub inc32 : ℕ → ℕ
inc32 x = (x + 1) % 2 ^ 32

abbrev pub dec32 : ℕ → ℕ
dec32 x = (x + (2 ^ 32 - 1)) % 2 ^ 32
