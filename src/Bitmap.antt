-- ===== src/Bitmap.antt =====
-- src/fs.c: alloc_block and free_block.
pub mod Cases
pub mod Laws
pub mod Count
use denyfs.Prelude.{
  ℕ, zero, suc, ◌+◌, ◌-◌, ◌/◌, ◌^◌, ltb, leb, Bool, true, false, not, ◌&&◌, Option, none, some,
  List, [], ◌∷◌, if◌then◌else◌,
}
use denyfs.Layout.{sector_size}
use denyfs.Volume.{
  Vol, Errno, eperm, enospc, Res, ok, Op, update, pure, fail, gets, require, ◌>>=◌, ◌>>◌, inc32,
  dec32,
}

-- The bitmap sector of a block, if it has a flag, becomes dirty.
mark_dirty : Vol → ℕ → ℕ → Bool
mark_dirty v block_num =
    let bitmap_sector = block_num / 8 / sector_size in
    if ltb bitmap_sector v.bitmap_dirty_count
    then update v.bitmap_dirty bitmap_sector true
    else v.bitmap_dirty

-- The bit of a block and the count of free blocks.
unfoldable pub put_bit : ℕ → Bool → ℕ → Vol → Vol
unfolding mark_dirty
put_bit block_num bit free_blocks v = record v {
  bitmap = update v.bitmap block_num bit;
  sb = record sb { free_blocks = free_blocks };
  bitmap_dirty = mark_dirty v block_num;
}
  where
    open v use {sb}

-- The first clear bit among `n` from `i` on.
unfoldable pub find_free : (ℕ → Bool) → ℕ → ℕ → Option ℕ
find_free bitmap i zero = none
find_free bitmap i (suc n) =
    let rest = find_free bitmap (i + 1) n in if bitmap i then rest else some i

-- `return (int)i`: a number from 2 ^ 31 on comes back negative, which is a failure.
as_int : ℕ → Op ℕ
as_int i = if ltb i (2 ^ 31) then pure i else fail eperm

take_block : Option ℕ → Op ℕ
unfolding put_bit as_int
take_block none v = fail eperm v
take_block (some i) v = as_int i (put_bit i true (dec32 v.sb.free_blocks) v)

unfoldable pub alloc_block : Op ℕ
unfolding find_free take_block
alloc_block v =
    take_block (find_free v.bitmap v.sb.data_start (v.sb.total_blocks - v.sb.data_start)) v

unfoldable pub free_block : ℕ → Op (Unit {0})
unfolding put_bit
free_block block_num v =
    if leb v.sb.data_start block_num && ltb block_num v.sb.total_blocks && v.bitmap block_num
    then (ok tt, put_bit block_num false (inc32 v.sb.free_blocks) v)
    else (ok tt, v)
