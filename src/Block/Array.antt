-- ===== src/Block/Array.antt =====
-- src/fs.c: read_block and write_block present the volume as an array of blocks.
use denyfs.Prelude.{
  ℕ, ◌/◌, ◌<◌, ltb→lt, ◌≡◌, ◌≢◌, inl, inr, refl, sym, ap, ◌∙◌, false, Bool-cases, ==→eq, ◌==◌,
  Option, some, List, [], ◌∷◌, map, arith,
}
use denyfs.Layout.{sector_size}
use denyfs.Crypto.{Crypto, XtsLaws, crypt_sector}
use denyfs.Crypto.Tweak.{crypt_sector-crypt_sector}
use denyfs.Volume.{Device, Vol, ok, Op, pure, update, ◌>>=◌, ◌>>◌}
use denyfs.Volume.Run.{bind-ok, require-ok, gets-ok, pure-ok, ran}
use denyfs.Block.{fwrite_sector, block_offset, read_block, write_block}
use denyfs.Block.RoundTrip.{of_option-ok, on_device-ok, fwrite_sector-ok}
use denyfs.Mount.{fread_sector-ok}
use denyfs.Confine.{InFile}
use denyfs.Validate.Reads.{OnlyReads, read_block-OnlyReads}

-- A client of the blocks: what it reads and writes, in order.
pub data Transfer : Type 0 where
  reading : ℕ → Transfer
  writing : ℕ → List ℕ → Transfer

-- An array of blocks; one that does not decrypt is none.
abbrev pub Blocks : Type 0
Blocks = ℕ → Option (List ℕ)

-- What the reads return, and the array that is left.
abbrev pub results : List Transfer → Blocks → List (Option (List ℕ))
results [] a = []
results (reading n ∷ ts) a = a n ∷ results ts a
results (writing n b ∷ ts) a = results ts (update a n (some b))

abbrev pub final : List Transfer → Blocks → Blocks
final [] a = a
final (reading n ∷ ts) a = final ts a
final (writing n b ∷ ts) a = final ts (update a n (some b))

abbrev pub blocks_in : Vol → ℕ
blocks_in v = v.volume_size / sector_size

-- What the blocks of the volume decrypt to.
unfoldable pub block_array : Crypto → Vol → Blocks
block_array c v n =
    crypt_sector c (v.dev.sectors (block_offset v.vol_start_offset n / sector_size)) n v.volume_key
      false

fwrite_sector-others :
    (offset : ℕ) (bytes : List ℕ) (d : Device) {u : Unit {0}} {e : Device}
    → fwrite_sector offset bytes d ≡ (ok u, e)
    → (s : ℕ) → s ≢ offset / sector_size
    → e.sectors s ≡ d.sectors s
unfolding fwrite_sector ◌>>=◌
fwrite_sector-others offset bytes d h s other = ground arith

-- Two blocks of the volume lie in different sectors.
different_sectors :
    (v : Vol) {m n : ℕ}
    → InFile v
    → m < blocks_in v
    → n < blocks_in v
    → m ≢ n
    → block_offset v.vol_start_offset m / sector_size
      ≢ block_offset v.vol_start_offset n / sector_size
different_sectors v fits hm hn other same = other (omega (arith, fits, hm, hn, same))

module _ (c : Crypto) where
  pub OnlyReads-array :
      {v w : Vol} → OnlyReads v w → (m : ℕ) → block_array c w m ≡ block_array c v m
  unfolding block_array
  OnlyReads-array {v} r m = rw (r.memory, r.sectors) refl

  pub read_block-array :
      (n : ℕ) (v : Vol) {b : List ℕ} {w : Vol}
      → read_block c n v ≡ (ok b, w)
      → (n < blocks_in v) × (block_array c v n ≡ some b)
  unfolding read_block block_array
  read_block-array n v h =
      let (inside, h1) = require-ok _ _ _ (gets-ok _ _ h) in
      let (_, h2) = require-ok _ _ _ h1 in
      let (cipher, _, r, h3) = bind-ok _ _ h2 in
      let (read, _) = on_device-ok _ _ r in
      let (opened, _) = of_option-ok _ _ _ h3 in
      (ltb→lt _ _ inside, rw (sym (fread_sector-ok _ _ read)) opened)

  -- A write that succeeds: the block, and every other.
  pub record Wrote (n : ℕ) (b : List ℕ) (v w : Vol) : Type 0 where
    pub inside : n < blocks_in v
    pub memory : w ≡ record v { dev = w.dev }
    pub block : block_array c w n ≡ some b
    pub others : (m : ℕ) → m < blocks_in v → m ≢ n → block_array c w m ≡ block_array c v m

  pub write_block-Wrote :
      (n : ℕ) (b : List ℕ) (v : Vol) {u : Unit {0}} {w : Vol}
      → XtsLaws c
      → InFile v
      → write_block c n b v ≡ (ok u, w)
      → Wrote n b v w
  unfolding write_block block_array
  write_block-Wrote n b v {w = w} laws fits h =
      let (inside, h2) = require-ok _ _ _ (gets-ok _ _ h) in
      let (_, h3) = require-ok _ _ _ h2 in
      let (cipher, v1, r4, h5) = bind-ok _ _ h3 in
      let (sealed, same) = of_option-ok _ _ _ r4 in
      let (_, h6) = require-ok _ _ _ h5 in
      let (written, memory1) = on_device-ok _ _ h6 in
      let memory : w ≡ record v { dev = w.dev } =
        memory1 ∙ ap (λ (x : Vol). record x { dev = w.dev }) (sym same) in
      let offset = block_offset v.vol_start_offset n in
      let written' = ap (λ (x : Vol). fwrite_sector offset cipher x.dev) same ∙ written in
      let small = ltb→lt _ _ inside in
      let (holds, _) = fwrite_sector-ok offset cipher _ written' in
      let others = fwrite_sector-others offset cipher _ written' in
      let plain = crypt_sector-crypt_sector c v.volume_key n b cipher laws sealed in
      record {
        inside = small;
        memory = memory;
        block = rw (memory, holds) plain;
        others = λ m hm other. rw (memory, others _ (different_sectors v fits hm small other)) refl;
      }

  -- Running the transfers on the volume: the blocks that were read.
  unfoldable pub run : List Transfer → Op (List (List ℕ))
  run [] = pure []
  run (reading n ∷ ts) = do b ← read_block c n; bs ← run ts; pure (b ∷ bs)
  run (writing n b ∷ ts) = do write_block c n b; run ts

  -- The array agrees with the volume on its blocks.
  pub record Agrees (v : Vol) (a : Blocks) : Type 0 where
    pub agrees : (m : ℕ) → m < blocks_in v → block_array c v m ≡ a m

  Agrees-OnlyReads : {v w : Vol} {a : Blocks} → OnlyReads v w → Agrees v a → Agrees w a
  Agrees-OnlyReads r same = record {
    agrees = λ m hm.
        OnlyReads-array r m
        ∙ same.agrees m (omega (arith, hm, ap (λ (x : Vol). x.volume_size) r.memory));
  }

  pub Agrees-Wrote :
      {n : ℕ} {b : List ℕ} {v w : Vol} {a : Blocks}
      → Wrote n b v w
      → Agrees v a
      → Agrees w (update a n (some b))
  Agrees-Wrote {n} {b} {v} {w} {a} wrote same = record {
    agrees = λ m hm. elim (Bool-cases (n == m)) [
      | inl this ↦ rw this (ap (block_array c w) (sym (==→eq n m this)) ∙ wrote.block)
      | inr other ↦
          let inside : m < blocks_in v =
            omega (arith, hm, ap (λ (x : Vol). x.volume_size) wrote.memory) in
          rw other (wrote.others m inside (ground arith) ∙ same.agrees m inside)
    ];
  }

  run-results :
      (ts : List Transfer) (v : Vol) (a : Blocks) {bs : List (List ℕ)} {w : Vol}
      → XtsLaws c
      → InFile v
      → Agrees v a
      → run ts v ≡ (ok bs, w)
      → (map some bs ≡ results ts a) × Agrees w (final ts a)
  unfolding run
  run-results [] v a laws fits same h =
      let (none, end) = pure-ok _ _ h in (rw (sym none) refl, rw (sym end) same)
  run-results (reading n ∷ ts) v a laws fits same h =
      let (b, v1, r1, h1) = bind-ok _ _ h in
      let (rest, v2, r2, h2) = bind-ok _ _ h1 in
      let (all, end) = pure-ok _ _ h2 in
      let reads = ran r1 (read_block-OnlyReads c n) in
      let (inside, held) = read_block-array n v r1 in
      let fits1 : InFile v1 = rw reads.memory fits in
      let (others, left) = run-results ts v1 a laws fits1 (Agrees-OnlyReads reads same) r2 in
      (rw (sym all) (λ i. ((sym held ∙ same.agrees n inside) i ∷ others i)), rw (sym end) left)
  run-results (writing n b ∷ ts) v a laws fits same h =
      let (_, v1, r1, h1) = bind-ok _ _ h in
      let wrote = write_block-Wrote n b v laws fits r1 in
      let fits1 : InFile v1 = rw wrote.memory fits in
      run-results ts v1 (update a n (some b)) laws fits1 (Agrees-Wrote wrote same) h1

  -- On a volume that lies inside the largest file offset, if decryption undoes encryption: when a
  -- sequence of block reads and writes succeeds, every read returns what an array of blocks would
  -- hold at that point, starting with what the blocks decrypt to, and afterwards the blocks of the
  -- volume decrypt to what that array holds at the end.
  pub run-array :
      (ts : List Transfer) (v : Vol) {bs : List (List ℕ)} {w : Vol}
      → XtsLaws c
      → InFile v
      → run ts v ≡ (ok bs, w)
      → (map some bs ≡ results ts (block_array c v))
        × ((m : ℕ) → m < blocks_in w → block_array c w m ≡ final ts (block_array c v) m)
  run-array ts v laws fits h =
      let start : Agrees v (block_array c v) = record { agrees = λ m hm. refl } in
      let (read, left) = run-results ts v (block_array c v) laws fits start h in (read, left.agrees)
