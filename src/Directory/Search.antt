-- ===== src/Directory/Search.antt =====
-- src/fs.c: what the walk of denyfs_vol_lookup over the entries of a block finds, by the bytes of the
-- entries.
use denyfs.Prelude.{
  ℕ, ◌+◌, ◌<◌, ◌≡◌, ◌≢◌, ◌⊎◌, inl, inr, refl, sym, ap, ◌∙◌, true, false, Bool-cases, any, ◌||◌,
  ◌==◌, ==→eq, List, [], ◌∷◌, ◌++◌, length, take, get_or, bytes_eq, bytes_eq→eq, bytes_eq-same,
  arith,
}
use denyfs.Layout.{Dirent, max_inodes, max_name_len, invalid_ino}
use denyfs.Directory.{
  dot, slash, is_dots, valid_dirent, has_name, Found, corrupt, at, absent, find_entry,
}

-- The name in an entry: as many bytes as it says.
abbrev pub name_of : Dirent → List ℕ
name_of e = take e.name_len e.name

-- No NUL and no slash.
abbrev pub Plain : List ℕ → Type 0
Plain [] = Unit
Plain (b ∷ bs) = (b ≢ 0) × (b ≢ slash) × Plain bs

-- An entry in use: the inode number of a file, and a name that a path can have, with its NUL.
pub record InUse (e : Dirent) : Type 0 where
  pub not_root : 0 < e.inode
  pub in_table : e.inode < max_inodes
  pub not_empty : 0 < e.name_len
  pub short : e.name_len < max_name_len
  pub terminated : get_or e.name e.name_len 0 ≡ 0
  pub plain : Plain (name_of e)
  pub not_dot : name_of e ≢ dot ∷ []
  pub not_dot_dot : name_of e ≢ dot ∷ dot ∷ []

-- A free entry has no name.
abbrev pub Sound : Dirent → Type 0
Sound e = ((e.inode ≡ invalid_ino) × (e.name_len ≡ 0)) ⊎ InUse e

-- A file of that name.
pub record Holds (name : List ℕ) (e : Dirent) : Type 0 where
  pub used : e.inode ≢ invalid_ino
  pub long : e.name_len ≡ length name
  pub same : name_of e ≡ name

-- The entries that the walk goes past.
abbrev pub Passed : List ℕ → List Dirent → Type 0
Passed name [] = Unit
Passed name (e ∷ es) = Sound e × ¬ Holds name e × Passed name es

-- Where the walk ends, and at what, if the first entry has the number `k`.
abbrev pub Ends : List ℕ → ℕ → List Dirent → Found → Type 0
Ends name k es corrupt =
    (front : List Dirent) × (e : Dirent) × (back : List Dirent) × (es ≡ front ++ e ∷ back)
    × Passed name front
    × ¬ Sound e
Ends name k es (at i e) =
    (front : List Dirent) × (back : List Dirent) × (es ≡ front ++ e ∷ back)
    × (i ≡ k + length front)
    × Passed name front
    × Sound e
    × Holds name e
Ends name k es absent = Passed name es

any-Plain : (bs : List ℕ) → any (λ b. (b == 0) || (b == slash)) bs ≡ false → Plain bs
unfolding any
any-Plain [] h = tt
any-Plain (b ∷ bs) h =
    ((λ e. ground (arith, e, h)), (λ e. ground (arith, e, h)), any-Plain bs (ground (arith, h)))

Plain-any : (bs : List ℕ) → Plain bs → any (λ b. (b == 0) || (b == slash)) bs ≡ false
unfolding any
Plain-any [] h = refl
Plain-any (b ∷ bs) (no_end, no_slash, rest) = ground (arith, no_end, no_slash, Plain-any bs rest)

is_dots-false : (name : List ℕ) → is_dots name ≡ false → (name ≢ dot ∷ []) × (name ≢ dot ∷ dot ∷ [])
unfolding is_dots
is_dots-false name h = (
  (λ e. ground (arith, h, ap (λ n. bytes_eq n (dot ∷ [])) e, bytes_eq-same (dot ∷ []))),
  (λ e. ground (arith, h, ap (λ n. bytes_eq n (dot ∷ dot ∷ [])) e, bytes_eq-same (dot ∷ dot ∷ []))),
)

false-is_dots : (name : List ℕ) → name ≢ dot ∷ [] → name ≢ dot ∷ dot ∷ [] → is_dots name ≡ false
unfolding is_dots
false-is_dots name one two =
    ground (arith, one, two, bytes_eq→eq name (dot ∷ []), bytes_eq→eq name (dot ∷ dot ∷ []))

valid_dirent-Sound : (e : Dirent) → valid_dirent e ≡ true → Sound e
unfolding valid_dirent
valid_dirent-Sound e h = elim (Bool-cases (e.inode == invalid_ino)) [
  | inl free ↦ inl (==→eq _ _ free, ground (arith, free, h))
  | inr used ↦
      let (one, two) = is_dots-false (name_of e) (ground (arith, used, h)) in
      inr (record {
        not_root = ground (arith, used, h);
        in_table = ground (arith, used, h);
        not_empty = ground (arith, used, h);
        short = ground (arith, used, h);
        terminated = ground (arith, used, h);
        plain = any-Plain (name_of e) (ground (arith, used, h));
        not_dot = one;
        not_dot_dot = two;
      })
]

Sound-valid_dirent : (e : Dirent) → Sound e → valid_dirent e ≡ true
unfolding valid_dirent
Sound-valid_dirent e (inl (free, none)) = ground (arith, free, none)
Sound-valid_dirent e (inr x) = ground (
  arith,
  x.not_root,
  x.in_table,
  x.not_empty,
  x.short,
  x.terminated,
  Plain-any (name_of e) x.plain,
  false-is_dots (name_of e) x.not_dot x.not_dot_dot,
)

has_name-Holds : (name : List ℕ) (e : Dirent) → has_name name e ≡ true → Holds name e
unfolding has_name
has_name-Holds name e h =
    let long : e.name_len ≡ length name = ground (arith, h) in
    record {
      used = λ free. ground (arith, h, free);
      long = long;
      same = ap (λ n. take n e.name) long ∙ bytes_eq→eq _ _ (ground (arith, h));
    }

Holds-has_name : (name : List ℕ) (e : Dirent) → Holds name e → has_name name e ≡ true
unfolding has_name
Holds-has_name name e x =
    let whole : take (length name) e.name ≡ name = ap (λ n. take n e.name) (sym x.long) ∙ x.same in
    let equal : bytes_eq (take (length name) e.name) name ≡ true =
      ap (λ n. bytes_eq n name) whole ∙ bytes_eq-same name in
    ground (arith, x.used, x.long, equal)

not_Sound : (e : Dirent) → valid_dirent e ≡ false → ¬ Sound e
not_Sound e h s = ground (arith, h, Sound-valid_dirent e s)

not_Holds : (name : List ℕ) (e : Dirent) → has_name name e ≡ false → ¬ Holds name e
not_Holds name e h x = ground (arith, h, Holds-has_name name e x)

-- One more entry in front.
further :
    (name : List ℕ) (e : Dirent) (es : List Dirent) (k : ℕ) (f : Found)
    → Sound e
    → ¬ Holds name e
    → Ends name (k + 1) es f
    → Ends name k (e ∷ es) f
further name e es k corrupt sound other (front, d, back, split, passed, bad) =
    (e ∷ front, d, back, ap (λ (xs : List Dirent). e ∷ xs) split, (sound, other, passed), bad)
further name e es k (at i d) sound other (front, back, split, place, passed, good, holds) = (
  e ∷ front,
  back,
  ap (λ (xs : List Dirent). e ∷ xs) split,
  omega (arith, place),
  (sound, other, passed),
  good,
  holds,
)
further name e es k absent sound other passed = (sound, other, passed)

walk-Ends :
    (name : List ℕ) (k : ℕ) (es : List Dirent) → Ends name k es (find_entry (has_name name) k es)
unfolding find_entry
walk-Ends name k [] = tt
walk-Ends name k (e ∷ es) = elim (Bool-cases (valid_dirent e)) [
  | inl valid ↦
      let sound = valid_dirent-Sound e valid in
      elim (Bool-cases (has_name name e)) [
        | inl holds ↦
            rw (valid, holds) ([], es, refl, omega arith, tt, sound, has_name-Holds name e holds)
        | inr other ↦
            rw (valid, other)
              (further name e es k _ sound (not_Holds name e other) (walk-Ends name (k + 1) es))
      ]
  | inr bad ↦ rw bad ([], e, es, refl, tt, not_Sound e bad)
]

-- What the walk of a lookup over the entries of a block finds, exactly: the first entry that is not
-- sound or that holds the name, byte for byte, and if there is none, nothing. A sound entry is free
-- and has no name, or has the number of a file's inode and a name that ends with a NUL, without a
-- NUL or a slash in it, and is not `.` or `..`.
pub find_entry-Ends :
    (name : List ℕ) (es : List Dirent) → Ends name 0 es (find_entry (has_name name) 0 es)
find_entry-Ends name es = walk-Ends name 0 es
