-- ===== src/FileMap/Lookup.antt =====
-- src/fs.c: what get_file_data_block returns, and that it changes nothing.
use denyfs.Prelude.{ℕ, ◌<◌, ◌≡◌, ◌⊎◌, inl, inr, sym, Bool, true, ◌||◌, ltb→lt, ==→eq, arith}
use denyfs.Layout.{Inode, invalid_block, max_file_blocks}
use denyfs.Crypto.{Crypto}
use denyfs.Volume.{Vol, ok}
use denyfs.Volume.Frame.{Frame, frame_rules}
use denyfs.Volume.Run.{bind-ok, require-ok, gets-ok, pure-ok, ran}
use denyfs.Validate.Reads.{OnlyReads, OnlyReads-order, table-Frame}
use denyfs.FileMap.{
  Slot, direct_slot, indirect_slot, double_slot, is_claimed, check_block, slot_block,
  get_file_data_block,
}

either : (b c : Bool) → (b || c) ≡ true → (b ≡ true) ⊎ (c ≡ true)
either b c h = ground arith

check_block-ok :
    (block : ℕ) (v : Vol) {b : ℕ} {w : Vol}
    → check_block block v ≡ (ok b, w)
    → (b ≡ invalid_block) ⊎ (is_claimed w b ≡ true)
unfolding check_block
check_block-ok block v h =
    let (good, h1) = require-ok _ _ _ (gets-ok _ _ h) in
    let (same, left) = pure-ok _ _ h1 in
    rw (sym same, sym left)
      (elim (either _ _ good) [ inl none ↦ inl (==→eq _ _ none) | inr claimed ↦ inr claimed ])

check_block-OnlyReads : (block : ℕ) → Frame OnlyReads (check_block block)
unfolding check_block
check_block-OnlyReads block = search (frame_rules, OnlyReads-order) depth 12

module _ (c : Crypto) where
  slot_block-OnlyReads : (n : Inode) (s : Slot) → Frame OnlyReads (slot_block c n s)
  unfolding slot_block
  slot_block-OnlyReads n (direct_slot i) = search (frame_rules, OnlyReads-order)
  slot_block-OnlyReads n (indirect_slot i) =
      search (frame_rules, OnlyReads-order, table-Frame) depth 12
  slot_block-OnlyReads n (double_slot i j) =
      search (frame_rules, OnlyReads-order, table-Frame) depth 16

  pub get_file_data_block-OnlyReads :
      (ino logical : ℕ) → Frame OnlyReads (get_file_data_block c ino logical)
  unfolding get_file_data_block
  get_file_data_block-OnlyReads ino logical =
      search (frame_rules, OnlyReads-order, slot_block-OnlyReads, check_block-OnlyReads) depth 16

  -- A lookup that succeeds was for a block below the largest file's end; it found no block or a data
  -- block of the volume that is marked as taken, and it changed neither the volume in memory nor a
  -- sector.
  pub get_file_data_block-ok :
      (ino logical : ℕ) (v : Vol) {b : ℕ} {w : Vol}
      → get_file_data_block c ino logical v ≡ (ok b, w)
      → (logical < max_file_blocks)
        × ((b ≡ invalid_block) ⊎ (is_claimed w b ≡ true))
        × OnlyReads v w
  unfolding get_file_data_block
  get_file_data_block-ok ino logical v h =
      let (bound, h1) = require-ok _ _ _ h in
      let (block, v1, _, h2) = bind-ok _ _ (gets-ok _ _ h1) in
      (
        ltb→lt _ _ bound,
        check_block-ok block v1 h2,
        ran h (get_file_data_block-OnlyReads ino logical),
      )
