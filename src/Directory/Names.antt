-- ===== src/Directory/Names.antt =====
-- src/fs.c, src/fuse_ops.c: the names that the program accepts are names that the directory holds.
use denyfs.Prelude.{
  ℕ, zero, suc, ◌-◌, ◌%◌, ◌<◌, ◌≡◌, ◌≢◌, ◌↔◌, refl, true, false, ◌==◌, ◌||◌, some, List, [], ◌∷◌,
  ◌++◌, length, get_or, replicate, any, bytes_eq-same, take-append, arith,
}
use denyfs.Layout.{max_inodes, max_name_len}
use denyfs.Directory.{slash, valid_dirent, has_name, entry_for}
use denyfs.Files.{good_name}
use denyfs.Fuse.{path_to_name}

any-or :
    (xs : List ℕ)
    → any (λ x. x == 0) xs ≡ false
    → any (λ x. x == slash) xs ≡ false
    → any (λ x. (x == 0) || (x == slash)) xs ≡ false
unfolding any
any-or [] h k = refl
any-or (x ∷ xs) h k = ground (arith, any-or xs)

pub get_or-replicate : (d n i : ℕ) → get_or {A = ℕ} (replicate n d) i d ≡ d
unfolding replicate
get_or-replicate d zero i = refl
get_or-replicate d (suc n) zero = refl
get_or-replicate d (suc n) (suc i) = get_or-replicate d n i

-- Behind a name, the entry is filled with zeros.
get_or-padded : (xs : List ℕ) (n : ℕ) → get_or {A = ℕ} (xs ++ replicate n 0) (length xs) 0 ≡ 0
get_or-padded [] n = get_or-replicate 0 n 0
get_or-padded (x ∷ xs) n = get_or-padded xs n

-- The entry that is written for a name that was accepted, a C string without a zero byte, and for
-- the inode of a file passes the directory's tests, and is found under that name.
pub entry_for-valid :
    (name : List ℕ) (ino : ℕ)
    → good_name name ≡ true
    → any (λ b. b == 0) name ≡ false
    → 0 < ino
    → ino < max_inodes
    → (valid_dirent (entry_for name ino) ≡ true) × (has_name name (entry_for name ino) ≡ true)
unfolding good_name valid_dirent has_name entry_for
entry_for-valid name ino good no_zero low high =
    let whole = take-append (length name) name (replicate (max_name_len - length name) 0) refl in
    let short : length name % 256 ≡ length name = ground arith in
    let padded = get_or-padded name (max_name_len - length name) in
    let same = bytes_eq-same name in
    let no_slash : any (λ b. b == slash) name ≡ false = ground arith in
    let clean = any-or name no_zero no_slash in
    (rw (short, whole, padded) (ground arith), rw whole (ground arith))

-- The path is a slash and the name, which is not empty and holds no slash.
abbrev pub NameIn : List ℕ → List ℕ → Type 0
NameIn path name = (path ≡ slash ∷ name) × (any (λ b. b == slash) name ≡ false) × (name ≢ [])

to_NameIn : (path name : List ℕ) → path_to_name path ≡ some name → NameIn path name
unfolding path_to_name
to_NameIn [] name h = ground arith
to_NameIn (b ∷ []) name h = ground arith
to_NameIn (b ∷ x ∷ xs) name h = ground arith

from_NameIn : (path name : List ℕ) → NameIn path name → path_to_name path ≡ some name
unfolding path_to_name
from_NameIn path [] (e, clean, ne) = absurd (ne refl)
from_NameIn path (x ∷ xs) (e, clean, ne) = rw e (ground arith)

-- The name in a path, exactly: what follows the leading slash, if that is not empty and holds no
-- slash.
pub path_to_name-some : (path name : List ℕ) → (path_to_name path ≡ some name) ↔ NameIn path name
unfolding path_to_name
path_to_name-some path name = (to_NameIn path name, from_NameIn path name)
