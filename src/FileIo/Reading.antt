-- ===== src/FileIo/Reading.antt =====
-- src/fs.c: what a denyfs_vol_read that succeeds returns.
use denyfs.Prelude.{
  refl, ◌<◌, ◌/◌, [], ◌∷◌, ◌++◌, ==→eq, replicate, tabulate, get_or, if◌then◌else◌, inl, inr, ℕ,
  zero, suc, ◌+◌, ◌-◌, ◌%◌, ◌≤◌, ◌≡◌, sym, ap, ◌∙◌, min, Bool, false, ◌==◌, List, length, some, leb,
  arith,
}
use denyfs.Layout.{sector_size, invalid_block}
use denyfs.Crypto.{Crypto, crypt_sector}
use denyfs.Volume.{Vol, Res, ok, err}
use denyfs.Block.Array.{block_array, read_block-array, OnlyReads-array}
use denyfs.FileMap.{get_file_data_block}
use denyfs.FileIo.Bytes.{piece-tabulate, tabulate-append}
use denyfs.FileIo.InPlace.{bytes_of}
use denyfs.FileIo.Settled.{quiet, OnlyReads-quiet, settles, get_file_data_block-Settled}
use denyfs.Volume.Frame.{Frame, frame_rules}
use denyfs.Volume.Run.{bind-ok, require-ok, gets-ok, pure-ok, if-ok, or_fail-ok, ran}
use denyfs.Validate.Reads.{OnlyReads, OnlyReads-order, read_block-OnlyReads}
use denyfs.Block.{read_block}
use denyfs.Block.RoundTrip.{of_option-ok, on_device-ok}
use denyfs.Mount.{fread_sector-ok}
use denyfs.FileMap.Lookup.{get_file_data_block-OnlyReads}
use denyfs.FileIo.{read_chunk, read_loop, vol_read}

-- XTS keeps the length of what it transforms.
pub record KeepsLength (c : Crypto) : Type 0 where
  pub xts :
      (encrypt : Bool) (key iv b e : List ℕ)
      → c.evp_xts encrypt key iv b ≡ some e
      → length e ≡ length b

-- Every sector of the container has its 4096 bytes.
abbrev pub FullSectors : Vol → Type 0
FullSectors v = (s : ℕ) → length (v.dev.sectors s) ≡ sector_size

FullSectors-OnlyReads : (v w : Vol) → OnlyReads v w → FullSectors v → FullSectors w
FullSectors-OnlyReads v w r h s = rw r.sectors (h s)

module _ (c : Crypto) where
  read_block-length :
      (n : ℕ) (v : Vol) {b : List ℕ} {w : Vol}
      → KeepsLength c
      → FullSectors v
      → read_block c n v ≡ (ok b, w)
      → length b ≡ sector_size
  unfolding read_block crypt_sector
  read_block-length n v laws all h =
      let (_, h1) = require-ok _ _ _ (gets-ok _ _ h) in
      let (_, h2) = require-ok _ _ _ h1 in
      let (cipher, _, r3, h4) = bind-ok _ _ h2 in
      let (read, _) = on_device-ok _ _ r3 in
      let (opened, _) = of_option-ok _ _ _ h4 in
      laws.xts false _ _ cipher _ opened ∙ ap length (fread_sector-ok _ _ read) ∙ all _

  read_chunk-OnlyReads : (p o n : ℕ) → Frame OnlyReads (read_chunk c p o n)
  unfolding read_chunk
  read_chunk-OnlyReads p o n = search (frame_rules, OnlyReads-order, read_block-OnlyReads) depth 16

-- A byte of a file: that of the block which get_file_data_block finds on a host that does not fail,
-- and zero in a hole.
abbrev byte_in : Crypto → Vol → ℕ → Res ℕ → ℕ
byte_in c v i (err e) = 0
byte_in c v i (ok b) = if b == invalid_block then 0 else get_or (bytes_of (block_array c v b)) i 0

abbrev pub found_block : Crypto → ℕ → Vol → ℕ → Res ℕ
found_block c ino v k = (get_file_data_block c ino k (quiet v)).0

abbrev pub file_content : Crypto → ℕ → Vol → ℕ → ℕ
file_content c ino v p = byte_in c v (p % sector_size) (found_block c ino v (p / sector_size))

zeros-tabulate :
    (f : ℕ → ℕ) (n pos : ℕ) → ((i : ℕ) → i < n → f (pos + i) ≡ 0) → replicate n 0 ≡ tabulate pos n f
unfolding replicate tabulate
zeros-tabulate f zero pos h = refl
zeros-tabulate f (suc n) pos h =
    let here : 0 ≡ f pos = sym (h 0 (omega arith)) ∙ ap f {x = pos + 0} {y = pos} (omega arith) in
    let rest = zeros-tabulate f n (pos + 1) λ i small.
      ap f {x = pos + 1 + i} {y = pos + suc i} (omega arith) ∙ h (suc i) (omega (arith, small)) in
    λ i. (here i ∷ rest i)

no_bytes : (f : ℕ → ℕ) (pos n : ℕ) → n ≡ 0 → [] ≡ tabulate pos n f
unfolding tabulate
no_bytes f pos zero e = refl
no_bytes f pos (suc n) e = absurd (omega (arith, e))

module _ (c : Crypto) (ino : ℕ) where
  file_content-OnlyReads :
      (v w : Vol) → OnlyReads v w → (p : ℕ) → file_content c ino w p ≡ file_content c ino v p
  file_content-OnlyReads v w r p =
      let block = ap (λ y. (get_file_data_block c ino (p / sector_size) y).0) (OnlyReads-quiet r) in
      ap (byte_in c w (p % sector_size)) block ∙ same_byte (found_block c ino v (p / sector_size))
    where
      same_byte : (x : Res ℕ) → byte_in c w (p % sector_size) x ≡ byte_in c v (p % sector_size) x
      same_byte (err e) = refl
      same_byte (ok b) =
          ap (λ o. if b == invalid_block then 0 else get_or (bytes_of o) (p % sector_size) 0)
            (OnlyReads-array c r b)

  tabulate-OnlyReads :
      (v w : Vol)
      → OnlyReads v w
      → (pos n : ℕ) → tabulate pos n (file_content c ino w) ≡ tabulate pos n (file_content c ino v)
  tabulate-OnlyReads v w r pos n = ap (tabulate pos n) (λ i p. file_content-OnlyReads v w r p i)

  -- The bytes of one round.
  read_chunk-content :
      (b pos n : ℕ) (v : Vol) {bytes : List ℕ} {w : Vol}
      → KeepsLength c
      → FullSectors v
      → found_block c ino v (pos / sector_size) ≡ ok b
      → n ≤ sector_size - pos % sector_size
      → read_chunk c b (pos % sector_size) n v ≡ (ok bytes, w)
      → bytes ≡ tabulate pos n (file_content c ino v)
  unfolding read_chunk
  read_chunk-content b pos n v laws all found fits h =
      let off : ℕ = pos % sector_size in
      let content = file_content c ino v in
      let at_byte : (i : ℕ) → i < n → content (pos + i) ≡ byte_in c v (off + i) (ok b) = λ i small.
        let place : (pos + i) / sector_size ≡ pos / sector_size = omega (arith, fits, small) in
        let within : (pos + i) % sector_size ≡ off + i = omega (arith, fits, small) in
        (λ j. byte_in c v (within j) (found_block c ino v (place j)))
        ∙ ap (byte_in c v (off + i)) found in
      elim (if-ok (b == invalid_block) _ _ {s = v} h) [
        | inl (hole, h1) ↦
            sym (pure-ok _ _ h1).0
            ∙ zeros-tabulate content n pos λ i small. at_byte i small ∙ rw hole refl
        | inr (there, h1) ↦
            let (block, _, r, h2) = bind-ok _ _ h1 in
            let r' = or_fail-ok _ _ _ r in
            let size = read_block-length c b v laws all r' in
            let (_, held) = read_block-array c b v r' in
            sym (pure-ok _ _ h2).0
            ∙ piece-tabulate content block off n pos (omega (arith, size, fits)) λ i small.
              at_byte i small ∙ rw there (ap (λ o. get_or (bytes_of o) (off + i) 0) held)
      ]

  -- The loop, over all the bytes that are left, since each round takes at least one.
  read_loop-content :
      (fuel pos left : ℕ) (v : Vol) {b : List ℕ} {w : Vol}
      → KeepsLength c
      → FullSectors v
      → left ≤ fuel
      → read_loop c fuel ino pos left v ≡ (ok b, w)
      → b ≡ tabulate pos left (file_content c ino v)
  unfolding read_loop
  read_loop-content zero pos left v laws all enough h =
      sym (pure-ok _ _ h).0 ∙ no_bytes _ pos left (omega (arith, enough))
  read_loop-content (suc fuel) pos left v laws all enough h =
      elim (if-ok (left == 0) _ _ {s = v} h) [
        | inl (none_left, h1) ↦ sym (pure-ok _ _ h1).0 ∙ no_bytes _ pos left (==→eq _ _ none_left)
        | inr (more, h1) ↦
            let (p, v1, r1, h2) = bind-ok _ _ h1 in
            let (bytes, v2, r2, h3) = bind-ok _ _ h2 in
            let (rest, v3, r3, h4) = bind-ok _ _ h3 in
            let chunk : ℕ = min (sector_size - pos % sector_size) left in
            let some_bytes : 1 ≤ chunk = ground arith in
            let reads1 = ran r1 (get_file_data_block-OnlyReads c ino _) in
            let reads2 = ran r2 (read_chunk-OnlyReads c _ _ _) in
            let all1 = FullSectors-OnlyReads v v1 reads1 all in
            let all2 = FullSectors-OnlyReads v1 v2 reads2 all1 in
            let found : found_block c ino v (pos / sector_size) ≡ ok p =
              ap (λ x. x.0) (settles (get_file_data_block-Settled c ino _) v p v1 r1) in
            let found1 =
              ap (λ y. (get_file_data_block c ino (pos / sector_size) y).0) (OnlyReads-quiet reads1)
              ∙ found in
            let first =
              read_chunk-content p pos chunk v1 laws all1 found1 (omega arith) r2
              ∙ tabulate-OnlyReads v v1 reads1 pos chunk in
            let others =
              read_loop-content fuel (pos + chunk) (left - chunk) v2 laws all2
                (omega (arith, enough, some_bytes)) r3
              ∙ tabulate-OnlyReads v1 v2 reads2 (pos + chunk) (left - chunk)
              ∙ tabulate-OnlyReads v v1 reads1 (pos + chunk) (left - chunk) in
            let whole : chunk + (left - chunk) ≡ left = omega arith in
            sym (pure-ok _ _ h4).0
            ∙ (λ i. first i ++ others i)
            ∙ sym (tabulate-append (file_content c ino v) pos chunk (left - chunk))
            ∙ ap (λ (n : ℕ). tabulate pos n (file_content c ino v)) whole
      ]

  -- A read that succeeds, whatever the host has failed at before, returns the bytes of the file from
  -- the offset on, as many as were asked for or as there are up to the end of the file: each is the
  -- byte at its place in the block that get_file_data_block finds for it, or zero in a hole; if the
  -- ciphers keep the length of a sector and every sector is full.
  pub vol_read-content :
      (size offset : ℕ) (v : Vol) {b : List ℕ} {w : Vol}
      → KeepsLength c
      → FullSectors v
      → vol_read c ino size offset v ≡ (ok b, w)
      → b ≡ tabulate offset (min size ((v.inodes ino).size - offset)) (file_content c ino v)
  unfolding vol_read
  vol_read-content size offset v laws all h =
      let (_, h1) = require-ok _ _ _ h in
      let (_, h2) = require-ok _ _ _ h1 in
      let (_, h3) = require-ok _ _ _ (gets-ok _ _ h2) in
      elim (if-ok (leb (v.inodes ino).size offset) _ _ {s = v} h3) [
        | inl (past, h4) ↦ sym (pure-ok _ _ h4).0 ∙ no_bytes _ offset _ (ground (arith, past))
        | inr (_, h4) ↦ read_loop-content _ offset _ v laws all (omega arith) h4
      ]
