-- ===== src/FileIo/Rereading.antt =====
-- src/fs.c: the loop of denyfs_vol_read over blocks that a file has.
use denyfs.Prelude.{
  ℕ, zero, suc, ◌+◌, ◌-◌, ◌*◌, ◌/◌, ◌%◌, ◌≤◌, ◌<◌, ◌≡◌, refl, sym, ap, ◌∙◌, inl, inr, false,
  Bool-cases, ◌==◌, ==→eq, min, [], take, drop, tabulate, get_or, arith,
}
use denyfs.Crypto.{Crypto}
use denyfs.Layout.{sector_size, invalid_block}
use denyfs.Volume.{Vol, ok, eio, ◌>>=◌}
use denyfs.Volume.Run.{or_fail-known}
use denyfs.Block.{read_block}
use denyfs.Block.Array.{block_array}
use denyfs.Block.Reliable.{Reliable, read_block-reads}
use denyfs.FileIo.{read_chunk, read_loop}
use denyfs.FileIo.Bytes.{piece-tabulate, tabulate-append}
use denyfs.FileIo.InPlace.{pointer, bytes_of, file_byte, InPlace, get_file_data_block-direct}

module _ (c : Crypto) (ino first last : ℕ) where
  nothing : (pos : ℕ) (f : ℕ → ℕ) → [] ≡ tabulate pos 0 f
  unfolding tabulate
  nothing pos f = refl

  -- A piece of a block of the file.
  read_chunk-there :
      (pos n : ℕ) (v : Vol)
      → Reliable v
      → InPlace c ino first last v
      → first * sector_size ≤ pos
      → pos < last * sector_size
      → pos % sector_size + n ≤ sector_size
      → read_chunk c (pointer v ino (pos / sector_size)) (pos % sector_size) n v
        ≡ (ok (tabulate pos n (file_byte c ino v)), v)
  unfolding read_chunk ◌>>=◌
  read_chunk-there pos n v reliable x low high fits =
      let k : ℕ = pos / sector_size in
      let off : ℕ = pos % sector_size in
      let old = x.backed k (omega (arith, low)) (omega (arith, high)) in
      let named : (pointer v ino k == invalid_block) ≡ false = ground (arith, old.named) in
      let read =
        or_fail-known eio (read_block c (pointer v ino k)) v
          (read_block-reads c (pointer v ino k) v reliable old.inside old.holds) in
      let piece : take n (drop off old.bytes) ≡ tabulate pos n (file_byte c ino v) =
        piece-tabulate (file_byte c ino v) old.bytes off n pos (omega (arith, fits, old.whole))
          λ i small.
            let place : (pos + i) / sector_size ≡ k = omega (arith, fits, small) in
            let within : (pos + i) % sector_size ≡ off + i = omega (arith, fits, small) in
            (λ j. get_or (bytes_of (block_array c v (pointer v ino (place j)))) (within j) 0)
            ∙ ap (λ o. get_or (bytes_of o) (off + i) 0) old.holds in
      rw (named, read) (λ j. (ok (piece j), v))

  pub read_loop-there :
      (fuel pos left : ℕ) (v : Vol)
      → Reliable v
      → InPlace c ino first last v
      → first * sector_size ≤ pos
      → pos + left ≤ last * sector_size
      → left ≤ fuel
      → read_loop c fuel ino pos left v ≡ (ok (tabulate pos left (file_byte c ino v)), v)
  unfolding read_loop ◌>>=◌
  read_loop-there zero pos left v reliable x low high enough =
      let no_more : left ≡ 0 = omega (arith, enough) in
      rw no_more (λ i. (ok (nothing pos (file_byte c ino v) i), v))
  read_loop-there (suc fuel) pos left v reliable x low high enough = elim (Bool-cases (left == 0)) [
    | inl empty ↦
        let no_more : left ≡ 0 = ==→eq left 0 empty in
        rw (empty, no_more) (λ i. (ok (nothing pos (file_byte c ino v) i), v))
    | inr more ↦
        let chunk : ℕ = min (sector_size - pos % sector_size) left in
        let some_left : 1 ≤ left = ground (arith, more) in
        let k : ℕ = pos / sector_size in
        let from : first ≤ k = omega (arith, low) in
        let to : k < last = omega (arith, high, some_left) in
        let old = x.backed k from to in
        let found =
          get_file_data_block-direct c ino k v (omega (arith, to, x.direct)) old.claimed in
        let piece =
          read_chunk-there pos chunk v reliable x low (omega (arith, high, some_left))
            (omega arith) in
        let rest =
          read_loop-there fuel (pos + chunk) (left - chunk) v reliable x (omega (arith, low))
            (omega (arith, high)) (omega (arith, enough, some_left)) in
        let whole : chunk + (left - chunk) ≡ left = omega arith in
        let all =
          sym (tabulate-append (file_byte c ino v) pos chunk (left - chunk))
          ∙ ap (λ (n : ℕ). tabulate pos n (file_byte c ino v)) whole in
        rw (more, found, piece, rest) (λ i. (ok (all i), v))
  ]
