-- ===== src/FileIo/InPlace.antt =====
-- src/fs.c: a denyfs_vol_write into blocks that a file has already, behind direct pointers.
use denyfs.Prelude.{
  ℕ, ◌+◌, ◌*◌, ◌/◌, ◌%◌, ◌≤◌, ◌<◌, ◌≡◌, ◌≢◌, refl, sym, ap, ◌∙◌, inl, inr, true, false, Bool-cases,
  ◌==◌, ◌||◌, ==→eq, ltb, Option, none, some, List, [], length, get_or, arith,
}
use denyfs.Crypto.{Crypto}
use denyfs.Layout.{sector_size, direct_blocks, max_file_blocks, invalid_block}
use denyfs.Volume.{Vol, ok, ◌>>=◌}
use denyfs.Block.Array.{block_array, blocks_in, Wrote}
use denyfs.FileMap.{is_claimed, slot_of, slot_block, check_block, get_file_data_block}
use denyfs.FileIo.{splice, block_for_write}
use denyfs.FileIo.Bytes.{overlay, splice-overlay, length-splice, overlay-shift, overlay-outside}

abbrev pub pointer : Vol → ℕ → ℕ → ℕ
pointer v ino k = get_or (v.inodes ino).direct k 0

abbrev pub bytes_of : Option (List ℕ) → List ℕ
bytes_of none = []
bytes_of (some b) = b

-- A byte of a file that lies behind direct pointers.
abbrev pub file_byte : Crypto → ℕ → Vol → ℕ → ℕ
file_byte c ino v p =
    get_or (bytes_of (block_array c v (pointer v ino (p / sector_size)))) (p % sector_size) 0

-- A direct pointer to a data block of the volume that is marked as taken, which decrypts.
pub record Backed (c : Crypto) (v : Vol) (n : ℕ) : Type 0 where
  pub named : n ≢ invalid_block
  pub claimed : is_claimed v n ≡ true
  pub inside : n < blocks_in v
  pub bytes : List ℕ
  pub holds : block_array c v n ≡ some bytes
  pub whole : length bytes ≡ sector_size

-- The blocks of a file from `first` to below `last` are there, behind different pointers.
pub record InPlace (c : Crypto) (ino first last : ℕ) (v : Vol) : Type 0 where
  pub direct : last ≤ direct_blocks
  pub backed : (k : ℕ) → first ≤ k → k < last → Backed c v (pointer v ino k)
  pub apart :
      (j k : ℕ)
      → first ≤ j
      → j < last
      → first ≤ k
      → k < last
      → pointer v ino j ≡ pointer v ino k
      → j ≡ k

claimed_still : (v w : Vol) (n : ℕ) → w ≡ record v { dev = w.dev } → is_claimed w n ≡ is_claimed v n
unfolding is_claimed
claimed_still v w n memory = rw memory refl

Backed-here :
    (c : Crypto) {v w : Vol} (n : ℕ) (b : List ℕ)
    → Backed c v n
    → Wrote c n b v w
    → length b ≡ sector_size
    → Backed c w n
Backed-here c {v} {w} n b x wrote whole = record {
  named = x.named;
  claimed = claimed_still v w n wrote.memory ∙ x.claimed;
  inside = omega (arith, x.inside, ap (λ (y : Vol). y.volume_size) wrote.memory);
  bytes = b;
  holds = wrote.block;
  whole = whole;
}

Backed-there :
    (c : Crypto) {v w : Vol} (m n : ℕ) (b : List ℕ)
    → Backed c v m
    → Wrote c n b v w
    → m ≢ n
    → Backed c w m
Backed-there c {v} {w} m n b x wrote other = record {
  named = x.named;
  claimed = claimed_still v w m wrote.memory ∙ x.claimed;
  inside = omega (arith, x.inside, ap (λ (y : Vol). y.volume_size) wrote.memory);
  bytes = x.bytes;
  holds = wrote.others m x.inside other ∙ x.holds;
  whole = x.whole;
}

module _ (c : Crypto) (ino : ℕ) where
  pub get_file_data_block-direct :
      (k : ℕ) (v : Vol)
      → k < direct_blocks
      → is_claimed v (pointer v ino k) ≡ true
      → get_file_data_block c ino k v ≡ (ok (pointer v ino k), v)
  unfolding get_file_data_block slot_block slot_of check_block ◌>>=◌
  get_file_data_block-direct k v small claimed =
      let bounded : ltb k max_file_blocks ≡ true = ground (arith, small) in
      let direct : ltb k direct_blocks ≡ true = ground (arith, small) in
      let good : (pointer v ino k == invalid_block || is_claimed v (pointer v ino k)) ≡ true =
        ground (arith, claimed) in
      rw (bounded, direct, good) refl

  module _ (first last : ℕ) where
    -- What a write of `src` from byte `pos` on has done.
    pub record Rewritten (pos : ℕ) (src : List ℕ) (v w : Vol) : Type 0 where
      pub memory : w ≡ record v { dev = w.dev }
      pub place : InPlace c ino first last w
      pub bytes :
          (p : ℕ)
          → first * sector_size ≤ p
          → p < last * sector_size
          → file_byte c ino w p ≡ overlay pos src (file_byte c ino v) p

    -- One round: a piece that lies in one block.
    pub round-Rewritten :
        (pos : ℕ) (src b : List ℕ) (v w : Vol)
        → InPlace c ino first last v
        → first * sector_size ≤ pos
        → pos < last * sector_size
        → pos % sector_size + length src ≤ sector_size
        → block_array c v (pointer v ino (pos / sector_size)) ≡ some b
        → Wrote c (pointer v ino (pos / sector_size)) (splice c b (pos % sector_size) src) v w
        → Rewritten pos src v w
    round-Rewritten pos src b v w x low high fits holds wrote =
        let k : ℕ = pos / sector_size in
        let off : ℕ = pos % sector_size in
        let at_least : first ≤ k = omega (arith, low) in
        let below : k < last = omega (arith, high) in
        let old = x.backed k at_least below in
        let room : off + length src ≤ length b =
          omega (arith, fits, old.whole, ap (λ o. length (bytes_of o)) (sym holds ∙ old.holds)) in
        let whole : length (splice c b off src) ≡ sector_size =
          length-splice c b off src room
          ∙ ap (λ o. length (bytes_of o)) (sym holds ∙ old.holds)
          ∙ old.whole in
        record {
          memory = wrote.memory;
          place = record {
            direct = x.direct;
            backed = λ j from to. rw (kept j) (elim (Bool-cases (k == j)) [
              | inl same ↦ rw (← ==→eq k j same) (Backed-here c _ _ old wrote whole)
              | inr other ↦
                  Backed-there c _ _ _ (x.backed j from to) wrote
                    (λ e. ground (arith, other, x.apart j k from to at_least below e))
            ]);
            apart = λ i j a b' d e same. x.apart i j a b' d e (sym (kept i) ∙ same ∙ kept j);
          };
          bytes = λ p from to.
              let j : ℕ = p / sector_size in
              let i : ℕ = p % sector_size in
              let read_at : Vol → ℕ → ℕ = λ y n. get_or (bytes_of (block_array c y n)) i 0 in
              elim (Bool-cases (k == j)) [
                | inl same ↦
                    let e : k ≡ j = ==→eq k j same in
                    let before : file_byte c ino v (k * sector_size + i) ≡ get_or b i 0 =
                      ap (file_byte c ino v) {x = k * sector_size + i} {y = p} (omega (arith, e))
                      ∙ ap (λ m. read_at v (pointer v ino m)) (sym e)
                      ∙ ap (λ o. get_or (bytes_of o) i 0) holds in
                    ap (read_at w) (kept j)
                    ∙ ap (λ m. read_at w (pointer v ino m)) (sym e)
                    ∙ ap (λ o. get_or (bytes_of o) i 0) wrote.block
                    ∙ splice-overlay c b off src i room
                    ∙ overlay-shift (k * sector_size) off src (file_byte c ino v)
                        (λ q. get_or b q 0) i before
                    ∙ ap (λ (q : ℕ). overlay q src (file_byte c ino v) (k * sector_size + i))
                        {x = k * sector_size + off} {y = pos} (omega arith)
                    ∙ ap (overlay pos src (file_byte c ino v)) {x = k * sector_size + i} {y = p}
                        (omega (arith, e))
                | inr other ↦
                    let differ : k ≢ j = λ e. ground (arith, other, e) in
                    let there = x.backed j (omega (arith, from)) (omega (arith, to)) in
                    let away : pointer v ino j ≢ pointer v ino k = λ e. differ (
                      sym
                        (x.apart j k (omega (arith, from)) (omega (arith, to)) at_least below e)) in
                    ap (read_at w) (kept j)
                    ∙ ap (λ o. get_or (bytes_of o) i 0) (wrote.others _ there.inside away)
                    ∙ sym (
                        overlay-outside pos src (file_byte c ino v) p
                          λ after. omega (arith, after, differ, fits))
              ];
        }
      where
        kept : (j : ℕ) → pointer w ino j ≡ pointer v ino j
        kept j = ap (λ (y : Vol). pointer y ino j) wrote.memory

    pub block_for_write-there :
        (k : ℕ) (v : Vol)
        → InPlace c ino first last v
        → first ≤ k
        → k < last
        → block_for_write c ino k v ≡ (ok (pointer v ino k), v)
    unfolding block_for_write ◌>>=◌
    block_for_write-there k v x from to =
        let there = x.backed k from to in
        let found = get_file_data_block-direct k v (omega (arith, to, x.direct)) there.claimed in
        let named : (pointer v ino k == invalid_block) ≡ false = ground (arith, there.named) in
        rw (found, named) refl

    pub nothing-Rewritten :
        (pos : ℕ) (src : List ℕ) (v : Vol)
        → InPlace c ino first last v
        → length src ≡ 0
        → Rewritten pos src v v
    nothing-Rewritten pos src v x empty = record {
      memory = refl;
      place = x;
      bytes = λ p from to.
          sym (overlay-outside pos src (file_byte c ino v) p λ low. omega (arith, low, empty));
    }
