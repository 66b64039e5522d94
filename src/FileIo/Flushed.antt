-- ===== src/FileIo/Flushed.antt =====
-- src/fs.c: the block writes of a denyfs_vol_flush that succeeds.
use denyfs.Prelude.{
  ℕ, zero, suc, ◌+◌, ◌*◌, ◌<◌, ◌≡◌, inl, inr, refl, sym, ap, ◌∙◌, Bool, false, some, List, [], ◌∷◌,
  if◌then◌else◌, arith,
}
use denyfs.Layout.{sector_size, Inode, superblock_bytes, inode_table_bytes}
use denyfs.Crypto.{Crypto, XtsLaws, compute_hmac}
use denyfs.Volume.{Device, Vol, ok, update, ◌>>=◌, put_hmac, clear_dirty, on_device}
use denyfs.Volume.Run.{bind-ok, gets-ok, pure-ok, if-ok, bind-known}
use denyfs.Confine.{InFile}
use denyfs.Block.{write_block, fflush}
use denyfs.Block.Array.{
  Transfer, writing, final, Blocks, Agrees, Agrees-Wrote, blocks_in, block_array, write_block-Wrote,
}
use denyfs.Block.RoundTrip.{of_option-ok, on_device-ok}
use denyfs.FileIo.{bitmap_range, flush_bitmap, flush_inodes, vol_flush}

-- The writes of the two loops: the dirty sectors of the bitmap, and the sectors of the inode table.
unfoldable pub bitmap_writes : ℕ → (ℕ → Bool) → (ℕ → Bool) → ℕ → ℕ → List Transfer
bitmap_writes start dirty bitmap i zero = []
bitmap_writes start dirty bitmap i (suc n) =
    let rest = bitmap_writes start dirty bitmap (i + 1) n in
    if dirty i
    then writing (start + i) (bitmap_range bitmap (i * sector_size) sector_size) ∷ rest
    else rest

unfoldable pub inode_writes : ℕ → (ℕ → Inode) → ℕ → ℕ → List Transfer
inode_writes start inodes i zero = []
inode_writes start inodes i (suc n) =
    writing (start + i) (inode_table_bytes (i * 32) 32 inodes) ∷ inode_writes start inodes (i + 1) n

module _ (c : Crypto) where
  -- Only the container changed, and its blocks are now `b`, if they were `a`.
  pub record Lays (a b : Blocks) (v w : Vol) : Type 0 where
    pub memory : w ≡ record v { dev = w.dev }
    pub array : Agrees c v a → Agrees c w b

  Lays-trans : {a b d : Blocks} {u v w : Vol} → Lays a b u v → Lays b d v w → Lays a d u w
  Lays-trans {w = w} p q = record {
    memory = q.memory ∙ ap (λ (x : Vol). record x { dev = w.dev }) p.memory;
    array = λ h. q.array (p.array h);
  }

  module _ (laws : XtsLaws c) where
    write_block-Lays :
        (n : ℕ) (b : List ℕ) (a : Blocks) (v : Vol) {u : Unit {0}} {w : Vol}
        → InFile v
        → write_block c n b v ≡ (ok u, w)
        → Lays a (update a n (some b)) v w
    write_block-Lays n b a v fits h =
        let x = write_block-Wrote c n b v laws fits h in
        record { memory = x.memory; array = Agrees-Wrote c x }

    -- The rest of a loop, on what the first part has left.
    after :
        {a b : Blocks} {v v1 w : Vol} (f : Vol → Blocks → Blocks)
        → Lays a b v v1
        → ((d : Device) → f (record v { dev = d }) b ≡ f v b)
        → Lays b (f v1 b) v1 w
        → Lays a (f v b) v w
    after {b = b} {v} {v1} f p same q =
        let e : f v1 b ≡ f v b = ap (λ x. f x b) p.memory ∙ same v1.dev in Lays-trans p (rw (← e) q)

    flush_bitmap-Lays :
        (i n : ℕ) (v : Vol) (a : Blocks) {u : Unit {0}} {w : Vol}
        → InFile v
        → flush_bitmap c i n v ≡ (ok u, w)
        → Lays a (final (bitmap_writes v.sb.bitmap_start v.bitmap_dirty v.bitmap i n) a) v w
    unfolding flush_bitmap bitmap_writes
    flush_bitmap-Lays i zero v a fits h =
        let (_, end) = pure-ok _ _ h in rw (sym end) (record { memory = refl; array = λ s. s })
    flush_bitmap-Lays i (suc n) v a {w = w} fits h =
        let (_, v1, r, h1) = bind-ok _ _ (gets-ok _ _ h) in
        elim (if-ok (v.bitmap_dirty i) _ _ {s = v} r) [
          | inl (dirty, r1) ↦
              let wrote = write_block-Lays _ _ a v fits r1 in
              rw dirty (
                after
                  (λ x. final (bitmap_writes x.sb.bitmap_start x.bitmap_dirty x.bitmap (i + 1) n))
                  wrote (λ d. refl) (flush_bitmap-Lays (i + 1) n v1 _ (rw wrote.memory fits) h1))
          | inr (clean, r1) ↦
              let (_, same) = pure-ok _ _ r1 in
              rw clean (flush_bitmap-Lays (i + 1) n v a fits (rw same h1))
        ]

    flush_inodes-Lays :
        (i n : ℕ) (v : Vol) (a : Blocks) {u : Unit {0}} {w : Vol}
        → InFile v
        → flush_inodes c i n v ≡ (ok u, w)
        → Lays a (final (inode_writes v.sb.inode_start v.inodes i n) a) v w
    unfolding flush_inodes inode_writes
    flush_inodes-Lays i zero v a fits h =
        let (_, end) = pure-ok _ _ h in rw (sym end) (record { memory = refl; array = λ s. s })
    flush_inodes-Lays i (suc n) v a {w = w} fits h =
        let (_, v1, r, h1) = bind-ok _ _ (gets-ok _ _ h) in
        let wrote = write_block-Lays _ _ a v fits r in
        after (λ x. final (inode_writes x.sb.inode_start x.inodes (i + 1) n)) wrote (λ d. refl)
          (flush_inodes-Lays (i + 1) n v1 _ (rw wrote.memory fits) h1)

    -- What the volume holds in memory after a flush, and its blocks.
    pub record Flushed (v w : Vol) : Type 0 where
      pub digest : List ℕ
      pub made : compute_hmac c v.hmac_key (bitmap_range v.bitmap 0 v.bitmap_bytes) ≡ some digest
      pub memory : w ≡ (record v {
        dev = w.dev;
        sb = record (v.sb) { bitmap_hmac = digest };
        bitmap_dirty = λ _. false;
      })
      pub array :
          (n : ℕ)
          → n < blocks_in v
          → block_array c w n
            ≡ final
                (inode_writes v.sb.inode_start v.inodes 0 v.sb.inode_blocks)
                (final
                  (bitmap_writes v.sb.bitmap_start v.bitmap_dirty v.bitmap 0 v.sb.bitmap_blocks)
                  (update
                    (block_array c v)
                    0
                    (some (superblock_bytes (record (v.sb) { bitmap_hmac = digest })))))
                n

    fflush-Lays :
        (a : Blocks) (v : Vol) {u : Unit {0}} {w : Vol}
        → on_device fflush v ≡ (ok u, w)
        → Lays a a v w
    unfolding fflush ◌>>=◌ block_array
    fflush-Lays a v {w = w} h =
        let (ran, memory) = on_device-ok fflush v h in
        let sectors : w.dev.sectors ≡ v.dev.sectors = ground arith in
        record {
          memory = memory;
          array = λ s. record {
            agrees = λ m hm.
                rw (memory, sectors)
                  (s.agrees m (omega (arith, hm, ap (λ (x : Vol). x.volume_size) memory)));
          };
        }

    pub vol_flush-Flushed :
        (v : Vol) {u : Unit {0}} {w : Vol} → InFile v → vol_flush c v ≡ (ok u, w) → Flushed v w
    unfolding vol_flush put_hmac clear_dirty block_array
    vol_flush-Flushed v {w = w} fits h =
        let (digest, v0, r0, h0) = bind-ok _ _ (gets-ok _ _ h) in
        let (made, same) = of_option-ok _ _ _ r0 in
        let h1 = gets-ok _ _ (bind-known (put_hmac digest) _ refl h0) in
        let (_, v1, r1, h2) = bind-ok _ _ h1 in
        let (_, v2, r2, h3) = bind-ok _ _ h2 in
        let (_, v3, r3, h4) = bind-ok _ _ h3 in
        let (_, v4, r4, h5) = bind-ok _ _ h4 in
        let s0 : Vol = record v0 { sb = record (v0.sb) { bitmap_hmac = digest } } in
        let fits0 : InFile s0 = rw (← same) fits in
        let a0 = block_array c v0 in
        let p1 = write_block-Lays 0 _ a0 s0 fits0 r1 in
        let n = s0.sb.bitmap_blocks in
        let m = s0.sb.inode_blocks in
        let p2 =
          after (λ x. final (bitmap_writes x.sb.bitmap_start x.bitmap_dirty x.bitmap 0 n)) p1
            (λ d. refl) (flush_bitmap-Lays 0 n v1 _ (rw p1.memory fits0) r2) in
        let p3 =
          after (λ x. final (inode_writes x.sb.inode_start x.inodes 0 m)) p2 (λ d. refl)
            (flush_inodes-Lays 0 m v2 _ (rw p2.memory fits0) r3) in
        let p4 = Lays-trans p3 (fflush-Lays _ v3 r4) in
        let start : Agrees c s0 a0 = record { agrees = λ k inside. refl } in
        let end : record v4 { bitmap_dirty = λ _. false } ≡ w = ap (λ p. p.1) h5 in
        rw (same, ← end)
          (record {
            digest = digest;
            made = rw (← same) made;
            memory = ap (λ (x : Vol). record x { bitmap_dirty = λ _. false }) p4.memory;
            array = λ k inside. (p4.array start).agrees k (rw p4.memory inside);
          })
