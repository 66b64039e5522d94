-- ===== src/Tests/Runs.antt =====
-- Writes and lookups in the small volume, with a file in inode 1.
use denyfs.Prelude.{
  tabulate, ℕ, ◌+◌, ◌-◌, ◌*◌, ◌/◌, ◌≤◌, ◌<◌, ◌≡◌, ◌⊎◌, refl, Bool, true, false, ◌==◌, ==→eq, List,
  [], ◌∷◌, length, map, some, min, length-replicate, sym, replicate, arith,
}
use denyfs.Layout.{
  itype_file, max_inodes, max_file_size, max_file_blocks, invalid_block, superblock_bytes,
  inode_table_bytes,
}
use denyfs.Volume.{Vol, Res, ok, err, update, on_device, put_inode, put_hmac, clear_dirty, ◌>>=◌}
use denyfs.Block.{read_block, write_block, fread_sector, fwrite_sector, fflush, is_protected}
use denyfs.Bitmap.{alloc_block}
use denyfs.Crypto.{XtsLaws, crypt_sector, compute_hmac}
use denyfs.Block.RoundTrip.{read_block-write_block}
use denyfs.Block.Array.{
  Transfer, reading, writing, run, results, final, block_array, blocks_in, run-array,
}
use denyfs.FileIo.Fuel.{read_loop-enough, write_loop-enough}
use denyfs.FileIo.{read_loop, write_loop, vol_flush, vol_read, vol_write}
use denyfs.FileIo.Reading.{KeepsLength, FullSectors, file_content, vol_read-content}
use denyfs.FileIo.Writing.{vol_write-ok}
use denyfs.FileMap.{allocate_file_data_block, is_claimed, get_file_data_block}
use denyfs.FileMap.Lookup.{get_file_data_block-ok}
use denyfs.Validate.Reads.{OnlyReads}
use denyfs.Validate.{validate_superblock}
use denyfs.Format.{
  can_format, data_start_of, format_bitmap, format_superblock, format_inodes, blank_inode,
}
use denyfs.Format.Passes.{format_superblock-passes}
use denyfs.Bitmap.Count.{count_free}
use denyfs.Tests.{plain, small}

unfoldable pub returns : ℕ → Res ℕ × Vol → Bool
returns n (ok m, v) = m == n
returns n (err e, v) = false

pub returns-ok : (n : ℕ) (x : Res ℕ × Vol) → returns n x ≡ true → x ≡ (ok n, x.1)
unfolding returns
returns-ok n (ok m, v) h = λ i. (ok (==→eq m n h i), v)
returns-ok n (err e, v) h = ground arith

abbrev with_file : Vol
unfolding blank_inode
with_file = record small {
  inodes = update small.inodes 1 (record blank_inode { type = itype_file });
}

abbrev text : List ℕ
text = 1 ∷ 2 ∷ 3 ∷ []

writes : returns 3 (vol_write plain 9 1 text 4095 with_file) ≡ true
unfolding returns vol_write with_file ◌>>=◌ get_file_data_block allocate_file_data_block read_block
    write_block on_device fread_sector fwrite_sector fflush crypt_sector compute_hmac alloc_block
    is_protected format_superblock format_bitmap format_inodes superblock_bytes inode_table_bytes
    put_inode put_hmac clear_dirty vol_flush
writes = refl

vol_write-ok_example :
    (3 ≡ length text)
    × (1 < max_inodes)
    × ((with_file.inodes 1).type ≡ itype_file)
    × (4095 + length text ≤ max_file_size)
    × (4095 + length text ≤ ((vol_write plain 9 1 text 4095 with_file).1.inodes 1).size)
vol_write-ok_example = vol_write-ok plain 9 1 text 4095 with_file (returns-ok 3 _ writes)

finds : returns invalid_block (get_file_data_block plain 1 30 with_file) ≡ true
unfolding returns get_file_data_block with_file ◌>>=◌
finds = refl

get_file_data_block-ok_example :
    (30 < max_file_blocks)
    × ((invalid_block ≡ invalid_block)
        ⊎ (is_claimed (get_file_data_block plain 1 30 with_file).1 invalid_block ≡ true))
    × OnlyReads with_file (get_file_data_block plain 1 30 with_file).1
get_file_data_block-ok_example =
    get_file_data_block-ok plain 1 30 with_file (returns-ok invalid_block _ finds)

format_superblock-passes_example :
    (validate_superblock (format_superblock (16 * 4096 / 4096) []) (16 * 4096) ≡ true)
    × ((format_superblock (16 * 4096 / 4096) []).free_blocks
        ≡ count_free
            (format_bitmap (data_start_of (16 * 4096 / 4096)))
            (data_start_of (16 * 4096 / 4096))
            (16 * 4096 / 4096 - data_start_of (16 * 4096 / 4096)))
unfolding can_format
format_superblock-passes_example = format_superblock-passes (16 * 4096) 4096 [] refl (omega arith)

pub plain-XtsLaws : XtsLaws plain
plain-XtsLaws = record { decrypt-encrypt = λ key iv b e h. sym h }

abbrev written : Res (Unit {0}) × Vol
unfolding write_block
written = write_block plain 5 (replicate 4096 1) small

writes_block : written ≡ (ok tt, written.1)
unfolding written write_block ◌>>=◌ on_device fwrite_sector crypt_sector is_protected
writes_block = refl

read_block-write_block_example : (read_block plain 5 written.1).0 ≡ ok (replicate 4096 1)
unfolding written ◌>>=◌ on_device fwrite_sector crypt_sector is_protected
read_block-write_block_example =
    read_block-write_block plain 5 (replicate 4096 1) small plain-XtsLaws writes_block refl

plain-KeepsLength : KeepsLength plain
plain-KeepsLength = record { xts = λ encrypt key iv b e h. ground arith }

-- A file of 10 bytes in block 4.
abbrev with_bytes : Vol
unfolding blank_inode
with_bytes = record small {
  inodes =
      update small.inodes 1 (record blank_inode { type = itype_file; size = 10; direct = 4 ∷ [] });
}

gives : ℕ → Res (List ℕ) × Vol → Bool
gives n (ok bs, v) = length bs == n
gives n (err e, v) = false

bytes_of : Res (List ℕ) × Vol → List ℕ
bytes_of (ok bs, v) = bs
bytes_of (err e, v) = []

gives-ok : (n : ℕ) (x : Res (List ℕ) × Vol) → gives n x ≡ true → x ≡ (ok (bytes_of x), x.1)
unfolding gives bytes_of
gives-ok n (ok bs, v) h = refl
gives-ok n (err e, v) h = ground arith

reads : gives 5 (vol_read plain 1 8 5 with_bytes) ≡ true
unfolding gives vol_read with_bytes ◌>>=◌ get_file_data_block read_block on_device fread_sector
    crypt_sector format_superblock format_bitmap
reads = refl

with_bytes-FullSectors : FullSectors with_bytes
unfolding with_bytes
with_bytes-FullSectors s = length-replicate {A = ℕ} 4096 0

vol_read-content_example :
    bytes_of (vol_read plain 1 8 5 with_bytes)
    ≡ tabulate 5 (min 8 ((with_bytes.inodes 1).size - 5)) (file_content plain 1 with_bytes)
vol_read-content_example =
    vol_read-content plain 1 8 5 with_bytes plain-KeepsLength with_bytes-FullSectors
      (gives-ok 5 _ reads)

abbrev transfers : List Transfer
transfers = writing 5 (replicate 4096 1) ∷ writing 6 (replicate 4096 2) ∷ reading 5 ∷ []

transfers-run :
    run plain transfers small ≡ (ok (replicate 4096 1 ∷ []), (run plain transfers small).1)
unfolding run read_block write_block ◌>>=◌ on_device fwrite_sector fread_sector crypt_sector
    is_protected replicate
transfers-run = refl

run-array_example :
    (map some (replicate 4096 1 ∷ []) ≡ results transfers (block_array plain small))
    × ((m : ℕ)
        → m < blocks_in (run plain transfers small).1
        → block_array plain (run plain transfers small).1 m
          ≡ final transfers (block_array plain small) m)
run-array_example = run-array plain transfers small plain-XtsLaws (omega arith) transfers-run

read_loop-enough_example : read_loop plain 3 1 4095 3 ≡ read_loop plain 9 1 4095 3
read_loop-enough_example = read_loop-enough plain 3 9 1 4095 3 (omega arith) (omega arith)

write_loop-enough_example : write_loop plain 3 1 4095 text 0 ≡ write_loop plain 9 1 4095 text 0
write_loop-enough_example = write_loop-enough plain 3 9 1 4095 text 0 (omega arith) (omega arith)
