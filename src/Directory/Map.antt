-- ===== src/Directory/Map.antt =====
-- src/fs.c: a directory block as a map from names to inode numbers: what add_dirent and
-- remove_dirent make of it when they change the entry that they found.
use denyfs.Prelude.{
  ℕ, zero, suc, ◌+◌, ◌<◌, ◌-◌, ◌≡◌, ◌≢◌, ◌⊎◌, inl, inr, refl, sym, ap, ◌∙◌, Bool, true, false, ◌==◌,
  Bool-cases, ==→eq, if◌then◌else◌, Option, none, some, List, [], ◌∷◌, length, set, take, drop,
  replicate, bytes_eq, bytes_eq-same, bytes_eq→eq, take-append, arith,
}
use denyfs.Layout.{Dirent, max_name_len, invalid_ino}
use denyfs.Directory.{has_name, entry_for, free_entry, at, absent, find_entry, is_free}

-- The inode number of the first entry that holds the name.
abbrev pub named : List ℕ → List Dirent → Option ℕ
named name [] = none
named name (e ∷ es) = if has_name name e then some e.inode else named name es

-- Entry `i` is `found`, and the first that passes the test.
abbrev FirstAt : (Dirent → Bool) → List Dirent → ℕ → Dirent → Type 0
FirstAt p [] i found = ⊥
FirstAt p (e ∷ es) zero found = (p e ≡ true) × (e ≡ found)
FirstAt p (e ∷ es) (suc i) found = (p e ≡ false) × FirstAt p es i found

at-at : {i j : ℕ} {e d : Dirent} → at i e ≡ at j d → (i ≡ j) × (e ≡ d)
at-at h = (ground arith, ground arith)

-- What one step of the walk found.
find_entry-cons :
    (p : Dirent → Bool) (k : ℕ) (e : Dirent) (es : List Dirent) {j : ℕ} {found : Dirent}
    → find_entry p k (e ∷ es) ≡ at j found
    → ((p e ≡ true) × (k ≡ j) × (e ≡ found))
      ⊎ ((p e ≡ false) × (find_entry p (k + 1) es ≡ at j found))
unfolding find_entry
find_entry-cons p k e es h = ground arith

find_entry-FirstAt :
    (p : Dirent → Bool) (k : ℕ) (es : List Dirent) {j : ℕ} {found : Dirent}
    → find_entry p k es ≡ at j found
    → (i : ℕ) × (j ≡ k + i) × FirstAt p es i found
unfolding find_entry
find_entry-FirstAt p k [] h = ground arith
find_entry-FirstAt p k (e ∷ es) h = elim (find_entry-cons p k e es h) [
  | inl (passes, same, is) ↦ (0, omega (arith, same), (passes, is))
  | inr (fails, rest) ↦
      let (i, place, first) = find_entry-FirstAt p (k + 1) es rest in
      (suc i, omega (arith, place), (fails, first))
]

pub has_name-free : (name : List ℕ) (e : Dirent) → is_free e ≡ true → has_name name e ≡ false
unfolding has_name is_free
has_name-free name e h = ground arith

bytes_eq-length : (xs ys : List ℕ) → bytes_eq xs ys ≡ true → length xs ≡ length ys
bytes_eq-length xs ys h = ap length (bytes_eq→eq xs ys h)

-- The entry that is written for a name holds that name and no other.
pub has_name-entry_for :
    (name other : List ℕ) (ino : ℕ)
    → length name < max_name_len
    → ino ≢ invalid_ino
    → has_name other (entry_for name ino) ≡ bytes_eq name other
unfolding has_name entry_for
has_name-entry_for name other ino short real = elim (Bool-cases (length name == length other)) [
  | inl same ↦
      let zeros : List ℕ = replicate (max_name_len - length name) 0 in
      let whole = take-append (length other) name zeros (==→eq _ _ same) in rw whole (ground arith)
  | inr differ ↦ ground (arith, bytes_eq-length name other)
]

-- An entry holds one name.
has_name-same :
    (name other : List ℕ) (e : Dirent)
    → has_name name e ≡ true
    → has_name other e ≡ true
    → bytes_eq name other ≡ true
unfolding has_name
has_name-same name other e h k =
    let one : take (length name) e.name ≡ name = bytes_eq→eq _ _ (ground arith) in
    let two : take (length other) e.name ≡ other = bytes_eq→eq _ _ (ground arith) in
    let long : length name ≡ length other = ground arith in
    let same : name ≡ other = sym one ∙ ap (λ n. take n e.name) long ∙ two in
    rw same (bytes_eq-same other)

module _ (name other : List ℕ) (ino : ℕ) (short : length name < max_name_len)
    (real : ino ≢ invalid_ino) where
  named-insert :
      (es : List Dirent) (i : ℕ) (old : Dirent)
      → FirstAt is_free es i old
      → named name es ≡ none
      → named other (set es i (entry_for name ino))
        ≡ (if bytes_eq name other then some ino else named other es)
  unfolding bytes_eq entry_for
  named-insert [] i old first none_named = absurd first
  named-insert (e ∷ es) zero old (free, is) none_named =
      rw (has_name-entry_for name other ino short real, has_name-free other e free) refl
  named-insert (e ∷ es) (suc i) old (taken, first) none_named =
      let ih = named-insert es i old first in
      let same : bytes_eq name other ≡ true → has_name name e ≡ has_name other e =
        λ h. ap (λ n. has_name n e) (bytes_eq→eq name other h) in
      ground (arith, ih, same)

-- Behind the entry that is freed.
named-remove :
    (name other : List ℕ) (es : List Dirent) (i : ℕ) (old : Dirent)
    → FirstAt (has_name name) es i old
    → named other (set es i free_entry)
      ≡ (if bytes_eq name other then named name (drop (i + 1) es) else named other es)
unfolding free_entry drop is_free
named-remove name other [] i old first = absurd first
named-remove name other (e ∷ es) zero old (holds, is) =
    let free : has_name other free_entry ≡ false = has_name-free other free_entry refl in
    let same : bytes_eq name other ≡ true → name ≡ other = bytes_eq→eq name other in
    ground (arith, has_name-same name other e holds, ap (λ n. named n es) {x = name} {y = other})
named-remove name other (e ∷ es) (suc i) old (fails, first) =
    let ih = named-remove name other es i old first in
    let same : bytes_eq name other ≡ true → has_name name e ≡ has_name other e =
      λ h. ap (λ n. has_name n e) (bytes_eq→eq name other h) in
    ground (arith, ih, same)

pub absent-named :
    (name : List ℕ) (k : ℕ) (es : List Dirent)
    → find_entry (has_name name) k es ≡ absent
    → named name es ≡ none
unfolding find_entry
absent-named name k [] h = refl
absent-named name k (e ∷ es) h = ground (arith, absent-named name (k + 1) es)

-- When a block has no entry for a name and the new entry for it is put where the walk finds a free
-- one, the block maps that name to the new inode number and every other name as before.
pub insert-named :
    (name other : List ℕ) (ino : ℕ) (es : List Dirent) (i : ℕ) (old : Dirent)
    → length name < max_name_len
    → ino ≢ invalid_ino
    → find_entry (has_name name) 0 es ≡ absent
    → find_entry is_free 0 es ≡ at i old
    → named other (set es i (entry_for name ino))
      ≡ (if bytes_eq name other then some ino else named other es)
insert-named name other ino es i old short real new free =
    let (j, place, first) = find_entry-FirstAt is_free 0 es free in
    let same : i ≡ j = omega (arith, place) in
    rw same (named-insert name other ino short real es j old first (absent-named name 0 es new))

-- When the entry that the walk finds for a name is freed, the block maps every other name as before,
-- and that name to what the entries behind hold for it.
pub remove-named :
    (name other : List ℕ) (es : List Dirent) (i : ℕ) (old : Dirent)
    → find_entry (has_name name) 0 es ≡ at i old
    → named other (set es i free_entry)
      ≡ (if bytes_eq name other then named name (drop (i + 1) es) else named other es)
remove-named name other es i old found =
    let (j, place, first) = find_entry-FirstAt (has_name name) 0 es found in
    let same : i ≡ j = omega (arith, place) in rw same (named-remove name other es j old first)
