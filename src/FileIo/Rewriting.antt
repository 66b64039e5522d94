-- ===== src/FileIo/Rewriting.antt =====
-- src/fs.c: the loop of denyfs_vol_write over blocks that a file has.
use denyfs.Prelude.{
  ℕ, zero, suc, ◌+◌, ◌-◌, ◌*◌, ◌/◌, ◌%◌, ◌≤◌, ◌<◌, ◌≡◌, ap, ◌∙◌, inl, inr, ◌==◌, ==→eq, min, List,
  length, take, drop, length-take, length-drop, arith,
}
use denyfs.Crypto.{Crypto, XtsLaws}
use denyfs.Layout.{sector_size}
use denyfs.Volume.{Vol, ok, eio, or_fail}
use denyfs.Volume.Run.{bind-ok, pure-ok, if-ok, bind-known, or_fail-known, ran}
use denyfs.Block.{read_block}
use denyfs.Block.Array.{write_block-Wrote}
use denyfs.Block.Reliable.{Reliable, KeepsReliable-Primitives, read_block-reads}
use denyfs.Keep.{Primitives}
use denyfs.FileIo.{block_for_write, write_loop}
use denyfs.FileIo.Bytes.{overlay, overlay-split, overlay-cong}
use denyfs.FileIo.InPlace.{
  InPlace, Rewritten, round-Rewritten, block_for_write-there, nothing-Rewritten, file_byte, pointer,
}

module _ (c : Crypto) (ino first last : ℕ) where
  module _ (laws : XtsLaws c) where
    -- The loop, behind blocks that are there.
    pub write_loop-Rewritten :
        (fuel pos : ℕ) (src : List ℕ) (n : ℕ) (v : Vol) {m : ℕ} {w : Vol}
        → Reliable v
        → InPlace c ino first last v
        → first * sector_size ≤ pos
        → pos + length src ≤ last * sector_size
        → length src ≤ fuel
        → write_loop c fuel ino pos src n v ≡ (ok m, w)
        → Rewritten c ino first last pos src v w × Reliable w
    unfolding write_loop
    write_loop-Rewritten zero pos src n v reliable x low high enough h =
        let (_, end) = pure-ok _ _ h in
        rw (← end)
          (nothing-Rewritten c ino first last pos src v x (omega (arith, enough)), reliable)
    write_loop-Rewritten (suc fuel) pos src n v {m} {w} reliable x low high enough h =
        elim (if-ok (length src == 0) _ _ {s = v} h) [
          | inl (empty, h1) ↦
              let (_, end) = pure-ok _ _ h1 in
              rw (← end)
                (nothing-Rewritten c ino first last pos src v x (==→eq _ _ empty), reliable)
          | inr (more, h1) ↦
              let k : ℕ = pos / sector_size in
              let off : ℕ = pos % sector_size in
              let chunk : ℕ = min (sector_size - off) (length src) in
              let some_left : 1 ≤ length src = ground (arith, more) in
              let from : first ≤ k = omega (arith, low) in
              let to : k < last = omega (arith, high, some_left) in
              let old = x.backed k from to in
              let h2 =
                bind-known (block_for_write c ino k) _
                  (block_for_write-there c ino first last k v x from to) h1 in
              let read = read_block-reads c (pointer v ino k) v reliable old.inside old.holds in
              let h3 =
                bind-known (or_fail eio (read_block c (pointer v ino k))) _
                  (or_fail-known eio _ v read) h2 in
              let (_, v1, r, h4) = bind-ok _ _ h3 in
              let wrote = write_block-Wrote c _ _ v laws reliable.in_range r in
              let piece = take chunk src in
              let size = length-take chunk src in
              let left = length-drop chunk src in
              let first_part =
                round-Rewritten c ino first last pos piece old.bytes v v1 x low
                  (omega (arith, high, some_left)) (omega (arith, size)) old.holds wrote in
              let reliable1 = ran r (in_reliable.write _ _) reliable in
              let (rest, reliable2) =
                write_loop-Rewritten fuel (pos + chunk) (drop chunk src) (n + chunk) v1 reliable1
                  first_part.place (omega (arith, low)) (omega (arith, left, high, some_left))
                  (omega (arith, left, enough, some_left)) h4 in
              (
                record {
                  memory =
                      rest.memory ∙ ap (λ (y : Vol). record y { dev = w.dev }) first_part.memory;
                  place = rest.place;
                  bytes = λ p low' high'.
                      rest.bytes p low' high'
                      ∙ overlay-cong (pos + chunk) (drop chunk src) (file_byte c ino v1)
                          (overlay pos piece (file_byte c ino v)) p (first_part.bytes p low' high')
                      ∙ overlay-split pos src (file_byte c ino v) chunk p (omega arith);
                },
                reliable2,
              )
        ]
      where
        in_reliable : Primitives c (λ y z. Reliable y → Reliable z)
        in_reliable = KeepsReliable-Primitives c
