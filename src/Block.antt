-- ===== src/Block.antt =====
-- src/fs.c: transfers of one sector through stdio, read_block, write_block and write_block_raw.
pub mod RoundTrip
pub mod Array
pub mod Reliable
use denyfs.Prelude.{
  ℕ, ◌+◌, ◌*◌, ◌/◌, ◌%◌, ◌^◌, max, ltb, leb, Bool, true, false, not, ◌&&◌, List, [], ◌∷◌,
  if◌then◌else◌,
}
use denyfs.Layout.{sector_size, long_max}
use denyfs.Crypto.{Crypto, crypt_sector}
use denyfs.Volume.{
  Outcome, done, failed, torn, Device, Vol, eperm, enospc, Res, ok, Exec, Op, update, pure, fail,
  gets, require, of_option, ◌>>=◌, ◌>>◌, on_device,
}

-- The next outcome of the schedule.
draw : List Outcome → Device → Res Outcome × Device
draw [] d = (ok done, d)
draw (o ∷ os) d = (ok o, record d { outcomes = os })

unfoldable pub next_outcome : Exec Device Outcome
unfolding draw
next_outcome d = draw d.outcomes d

-- A write past the end of the file extends it.
put_sector : ℕ → List ℕ → Device → Device
put_sector offset bytes d = record d {
  sectors = update d.sectors (offset / sector_size) bytes;
  size = max d.size (offset + sector_size);
}

end_write : Outcome → ℕ → List ℕ → Exec Device (Unit {0})
unfolding put_sector
end_write done offset bytes d = (ok tt, put_sector offset bytes d)
end_write failed offset bytes d = fail eperm d
end_write (torn left) offset bytes d = fail eperm (put_sector offset left d)

-- fseek and fwrite of one sector.
unfoldable pub fwrite_sector : ℕ → List ℕ → Exec Device (Unit {0})
unfolding next_outcome end_write
fwrite_sector offset bytes = do o ← next_outcome; end_write o offset bytes

end_read : Outcome → ℕ → Exec Device (List ℕ)
end_read done offset d =
    if leb (offset + sector_size) d.size
    then pure (d.sectors (offset / sector_size)) d
    else fail eperm d
end_read failed offset d = fail eperm d
end_read (torn left) offset d = fail eperm d

-- fseek and fread of one sector; a short read is a failure.
unfoldable pub fread_sector : ℕ → Exec Device (List ℕ)
unfolding next_outcome end_read
fread_sector offset = do o ← next_outcome; end_read o offset

end_flush : Outcome → Exec Device (Unit {0})
end_flush done = pure tt
end_flush failed = fail eperm
end_flush (torn left) = fail eperm

-- fflush.
unfoldable pub fflush : Exec Device (Unit {0})
unfolding next_outcome end_flush
fflush = do o ← next_outcome; end_flush o

-- calloc: the allocation may fail.
unfoldable pub host_alloc : Exec Device (Unit {0})
unfolding next_outcome end_flush
host_alloc = do o ← next_outcome; end_flush o

-- `start + (uint64_t)block_num * SECTOR_SIZE`.
abbrev pub block_offset : ℕ → ℕ → ℕ
block_offset start block_num = (start + block_num * sector_size) % 2 ^ 64

-- Outer-mount protection: is the block in the sectors of the hidden volume?
unfoldable pub is_protected : Vol → ℕ → Bool
is_protected v block_num =
    v.protect_hidden
    && leb v.protect_start_sector (v.vol_start_offset / sector_size + block_num)
    && leb (v.vol_start_offset / sector_size + block_num) v.protect_end_sector

module _ (c : Crypto) where
  unfoldable pub read_block : ℕ → Op (List ℕ)
  read_block block_num = do
    v ← gets (λ v. v)
    require (ltb block_num (v.volume_size / sector_size)) eperm
    let offset = block_offset v.vol_start_offset block_num
    require (leb offset long_max) eperm
    cipher ← on_device (fread_sector offset)
    of_option (crypt_sector c cipher block_num v.volume_key false) eperm

  unfoldable pub write_block : ℕ → List ℕ → Op (Unit {0})
  unfolding is_protected
  write_block block_num bytes = do
    v ← gets (λ v. v)
    require (ltb block_num (v.volume_size / sector_size)) eperm
    require (not (is_protected v block_num)) enospc
    cipher ← of_option (crypt_sector c bytes block_num v.volume_key true) eperm
    let offset = block_offset v.vol_start_offset block_num
    require (leb offset long_max) eperm
    on_device (fwrite_sector offset cipher)

  -- For formatting, where there is no volume yet. The write is flushed at once.
  unfoldable pub write_block_raw : List ℕ → ℕ → ℕ → List ℕ → Exec Device (Unit {0})
  write_block_raw volume_key start_offset block_num bytes = do
    cipher ← of_option (crypt_sector c bytes block_num volume_key true) eperm
    let offset = block_offset start_offset block_num
    require (leb offset long_max) eperm
    fwrite_sector offset cipher
    fflush
