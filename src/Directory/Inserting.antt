-- ===== src/Directory/Inserting.antt =====
-- src/fs.c: lookups in the root directory before and after an entry is added.
use denyfs.Prelude.{
  ℕ, zero, suc, ◌+◌, ◌<◌, ◌≡◌, ◌≢◌, ◌⊎◌, inl, inr, refl, sym, ap, ◌∙◌, Bool, true, false, ◌&&◌,
  ◌==◌, ==→eq, Bool-cases, Option, none, some, List, [], ◌∷◌, length, set, get_or, ◌-◌, replicate,
  bytes_eq, if◌then◌else◌, arith,
}
use denyfs.Layout.{Dirent, max_name_len, invalid_ino, invalid_block, dirents_per_block}
use denyfs.Volume.{Res, ok, err, enoent}
use denyfs.Directory.{
  valid_dirent, has_name, entry_for, free_entry, fresh_entries, Found, corrupt, at, absent,
  find_entry, is_free,
}
use denyfs.Directory.Map.{named, insert-named, has_name-free, has_name-entry_for}
use denyfs.Directory.Walk.{AllNamed, found_or, lookup_in}

all_valid : List Dirent → Bool
all_valid [] = true
all_valid (e ∷ es) = valid_dirent e && all_valid es

abbrev or_named : Option ℕ → Res ℕ → Res ℕ
or_named none r = r
or_named (some i) r = ok i

-- Where every entry is valid, the walk finds what the map holds.
find_entry-all_valid :
    (name : List ℕ) (k : ℕ) (es : List Dirent) (r : Res ℕ)
    → all_valid es ≡ true
    → found_or (find_entry (has_name name) k es) r ≡ or_named (named name es) r
unfolding find_entry all_valid
find_entry-all_valid name k [] r h = refl
find_entry-all_valid name k (e ∷ es) r h = elim (Bool-cases (has_name name e)) [
  | inl holds ↦ let valid : valid_dirent e ≡ true = ground arith in rw (valid, holds) refl
  | inr fails ↦
      let valid : valid_dirent e ≡ true = ground arith in
      rw (valid, fails) (find_entry-all_valid name (k + 1) es r (ground arith))
]

absent-all_valid :
    (p : Dirent → Bool) (k : ℕ) (es : List Dirent)
    → find_entry p k es ≡ absent
    → all_valid es ≡ true
unfolding find_entry all_valid
absent-all_valid p k [] h = refl
absent-all_valid p k (e ∷ es) h = ground (arith, absent-all_valid p (k + 1) es)

set-all_valid :
    (es : List Dirent) (i : ℕ) (e : Dirent)
    → all_valid es ≡ true
    → valid_dirent e ≡ true
    → all_valid (set es i e) ≡ true
unfolding all_valid
set-all_valid [] i e h k = refl
set-all_valid (d ∷ es) zero e h k = ground arith
set-all_valid (d ∷ es) (suc i) e h k = ground (arith, set-all_valid es i e)

or_named-if :
    (b : Bool) (ino : ℕ) (o : Option ℕ) (r : Res ℕ)
    → or_named (if b then some ino else o) r ≡ (if b then ok ino else or_named o r)
or_named-if true ino o r = refl
or_named-if false ino o r = refl

-- Free entries hold no name.
find_entry-free :
    (name : List ℕ) (k n : ℕ) → find_entry (has_name name) k (replicate n free_entry) ≡ absent
unfolding find_entry replicate valid_dirent free_entry is_free
find_entry-free name k zero = refl
find_entry-free name k (suc n) =
    rw (has_name-free name free_entry refl) (find_entry-free name (k + 1) n)

-- The new entry is a good one.
pub record NewEntry (name : List ℕ) (ino : ℕ) : Type 0 where
  pub short : length name < max_name_len
  pub real : ino ≢ invalid_ino
  pub valid : valid_dirent (entry_for name ino) ≡ true

module _ (name : List ℕ) (ino : ℕ) (new : NewEntry name ino) where
  -- A block with the entry, as a lookup sees it.
  pub insert-found :
      (other : List ℕ) (es : List Dirent) (i : ℕ) (old : Dirent) (r : Res ℕ)
      → find_entry (has_name name) 0 es ≡ absent
      → find_entry is_free 0 es ≡ at i old
      → found_or (find_entry (has_name other) 0 (set es i (entry_for name ino))) r
        ≡ (if bytes_eq name other then ok ino else found_or (find_entry (has_name other) 0 es) r)
  insert-found other es i old r unnamed free =
      let valid = absent-all_valid (has_name name) 0 es unnamed in
      let after = set-all_valid es i (entry_for name ino) valid new.valid in
      let mapped = insert-named name other ino es i old new.short new.real unnamed free in
      find_entry-all_valid other 0 _ r after
      ∙ ap (λ o. or_named o r) mapped
      ∙ or_named-if (bytes_eq name other) ino (named other es) r
      ∙ ap (λ x. if bytes_eq name other then ok ino else x)
          (sym (find_entry-all_valid other 0 es r valid))

  -- A new block.
  pub fresh-found :
      (other : List ℕ) (r : Res ℕ)
      → found_or (find_entry (has_name other) 0 (fresh_entries name ino)) r
        ≡ (if bytes_eq name other then ok ino else r)
  unfolding fresh_entries find_entry
  fresh-found other r = elim (Bool-cases (bytes_eq name other)) [
    | inl same ↦ rw (new.valid, has_name-entry_for name other ino new.short new.real, same) refl
    | inr differ ↦
        rw
          (
            new.valid,
            has_name-entry_for name other ino new.short new.real,
            differ,
            find_entry-free other 1 (dirents_per_block - 1),
          )
          refl
  ]

-- Lookups of another name, where every block says of it what it said before.
pub lookup_in-same :
    (e f : ℕ → List Dirent) (name bs : List ℕ)
    → AllNamed
        (λ b.
          (r : Res ℕ)
          → found_or (find_entry (has_name name) 0 (f b)) r
            ≡ found_or (find_entry (has_name name) 0 (e b)) r)
        bs
    → lookup_in f name bs ≡ lookup_in e name bs
unfolding lookup_in
lookup_in-same e f name [] h = refl
lookup_in-same e f name (b ∷ bs) (here, there) = elim (Bool-cases (b == invalid_block)) [
  | inl free ↦ rw free (lookup_in-same e f name bs there)
  | inr taken ↦ rw taken (
      here taken _
      ∙ ap (λ r. found_or (find_entry (has_name name) 0 (e b)) r)
          (lookup_in-same e f name bs there))
]

-- Block `t` is among the blocks that are named.
abbrev pub Names : ℕ → List ℕ → Type 0
Names t [] = ⊥
Names t (b ∷ bs) = ((b == invalid_block) ≡ false) × (b ≡ t) ⊎ Names t bs

found_or-enoent :
    (x : Found) (r : Res ℕ) → found_or x r ≡ err enoent → (x ≡ absent) × (r ≡ err enoent)
found_or-enoent corrupt r h = ground arith
found_or-enoent (at i e) r h = ground arith
found_or-enoent absent r h = (refl, h)

if-enoent :
    (b : Bool) (x : Found) (r : Res ℕ)
    → (if b then r else found_or x r) ≡ err enoent
    → (b ≡ false → x ≡ absent) × (r ≡ err enoent)
if-enoent true x r h = ((λ e. ground arith), h)
if-enoent false x r h = let (a, b) = found_or-enoent x r h in ((λ e. a), b)

lookup_in-cons :
    (e : ℕ → List Dirent) (name : List ℕ) (b : ℕ) (bs : List ℕ)
    → lookup_in e name (b ∷ bs) ≡ err enoent
    → ((b == invalid_block) ≡ false → find_entry (has_name name) 0 (e b) ≡ absent)
      × (lookup_in e name bs ≡ err enoent)
unfolding lookup_in
lookup_in-cons e name b bs h = if-enoent (b == invalid_block) _ _ h

-- A name that no entry holds is in no block.
pub lookup_in-absent :
    (e : ℕ → List Dirent) (name bs : List ℕ)
    → lookup_in e name bs ≡ err enoent
    → AllNamed (λ b. find_entry (has_name name) 0 (e b) ≡ absent) bs
lookup_in-absent e name [] h = tt
lookup_in-absent e name (b ∷ bs) h =
    let (here, there) = lookup_in-cons e name b bs h in (here, lookup_in-absent e name bs there)

-- The lookup of a name that no block held and block `t` holds now.
pub lookup_in-new :
    (e f : ℕ → List Dirent) (name bs : List ℕ) (t ino : ℕ)
    → lookup_in e name bs ≡ err enoent
    → ((r : Res ℕ) → found_or (find_entry (has_name name) 0 (f t)) r ≡ ok ino)
    → AllNamed (λ b. (t == b) ≡ false → f b ≡ e b) bs
    → Names t bs
    → lookup_in f name bs ≡ ok ino
unfolding lookup_in
lookup_in-new e f name [] t ino before new others meets = absurd meets
lookup_in-new e f name (b ∷ bs) t ino before new (here, there) meets =
    let (absent_here, rest) = lookup_in-cons e name b bs before in
    let later = lookup_in-new e f name bs t ino rest new there in
    elim (Bool-cases (b == invalid_block)) [
      | inl free ↦ rw free (later (further free meets))
      | inr taken ↦ elim (Bool-cases (t == b)) [
        | inl same ↦ rw (taken, sym (==→eq t b same)) (new _)
        | inr differ ↦
            rw (taken, here taken differ, absent_here taken) (later (elsewhere differ meets))
      ]
    ]
  where
    further :
        (b == invalid_block) ≡ true
        → ((b == invalid_block) ≡ false) × (b ≡ t) ⊎ Names t bs
        → Names t bs
    further free (inl (taken, is)) = ground arith
    further free (inr m) = m

    elsewhere :
        (t == b) ≡ false → ((b == invalid_block) ≡ false) × (b ≡ t) ⊎ Names t bs → Names t bs
    elsewhere differ (inl (taken, is)) = ground arith
    elsewhere differ (inr m) = m

-- A pointer that was free names a new block `t`: lookups of a name that the block does not hold.
pub lookup_in-set :
    (e f : ℕ → List Dirent) (name bs : List ℕ) (k t : ℕ)
    → get_or bs k invalid_block ≡ invalid_block
    → (t == invalid_block) ≡ false
    → ((r : Res ℕ) → found_or (find_entry (has_name name) 0 (f t)) r ≡ r)
    → AllNamed (λ b. f b ≡ e b) bs
    → lookup_in f name (set bs k t) ≡ lookup_in e name bs
unfolding lookup_in
lookup_in-set e f name [] k t free named none_here same = refl
lookup_in-set e f name (b ∷ bs) zero t free named none_here (here, there) =
    let gone : (b == invalid_block) ≡ true = ground arith in
    rw (named, gone) (none_here _ ∙ lookup_in-same e f name bs (unchanged bs there))
  where
    unchanged :
        (bs : List ℕ)
        → AllNamed (λ b. f b ≡ e b) bs
        → AllNamed
            (λ b.
              (r : Res ℕ)
              → found_or (find_entry (has_name name) 0 (f b)) r
                ≡ found_or (find_entry (has_name name) 0 (e b)) r)
            bs
    unchanged [] h = tt
    unchanged (b ∷ bs) (x, y) = (λ n r. rw (x n) refl, unchanged bs y)
lookup_in-set e f name (b ∷ bs) (suc k) t free named none_here (here, there) =
    let ih = lookup_in-set e f name bs k t free named none_here there in
    elim (Bool-cases (b == invalid_block)) [
      | inl gone ↦ rw gone ih
      | inr taken ↦
          rw (taken, here taken) (ap (λ r. found_or (find_entry (has_name name) 0 (e b)) r) ih)
    ]

-- The lookup of the name that it holds.
pub lookup_in-set_new :
    (e f : ℕ → List Dirent) (name bs : List ℕ) (k t ino : ℕ)
    → k < length bs
    → lookup_in e name bs ≡ err enoent
    → get_or bs k invalid_block ≡ invalid_block
    → (t == invalid_block) ≡ false
    → ((r : Res ℕ) → found_or (find_entry (has_name name) 0 (f t)) r ≡ ok ino)
    → AllNamed (λ b. f b ≡ e b) bs
    → lookup_in f name (set bs k t) ≡ ok ino
unfolding lookup_in
lookup_in-set_new e f name [] k t ino h before free named new same = absurd (omega arith)
lookup_in-set_new e f name (b ∷ bs) zero t ino h before free named new (here, there) =
    rw named (new _)
lookup_in-set_new e f name (b ∷ bs) (suc k) t ino h before free named new (here, there) =
    let (absent_here, rest) = lookup_in-cons e name b bs before in
    let ih = lookup_in-set_new e f name bs k t ino (omega arith) rest free named new there in
    elim (Bool-cases (b == invalid_block)) [
      | inl gone ↦ rw gone ih
      | inr taken ↦ rw (taken, here taken, absent_here taken) ih
    ]
