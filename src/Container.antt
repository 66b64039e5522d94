-- ===== src/Container.antt =====
-- src/fs.c: denyfs_container_create and denyfs_container_create_hidden.
pub mod Apart
pub mod Hidden
use denyfs.Prelude.{
  ℕ, zero, suc, ◌+◌, ◌-◌, ◌*◌, ◌/◌, ◌%◌, max, ltb, leb, Bool, false, not, ◌&&◌, ◌==◌, Option, none,
  some, List, [], length, bytes_eq, if◌then◌else◌,
}
use denyfs.Layout.{sector_size, header_size, hidden_header_offset_from_eof, long_max, uint32_max}
use denyfs.Crypto.{Crypto, derive_master_key, derive_header_key, encrypt_header, disk_header_bytes}
use denyfs.Volume.{
  Outcome, done, failed, torn, Device, Res, ok, err, eperm, einval, eacces, eio, enospc, enomem,
  Exec, pure, fail, gets, require, of_option, or_fail, ◌>>=◌, ◌>>◌,
}
use denyfs.Block.{next_outcome, fwrite_sector, host_alloc}
use denyfs.Header.{Payload, header_magic, payload_bytes}
use denyfs.Format.{format_volume}
use denyfs.Open.{vol_open}

-- The draws of randombytes_buf, in the places where they are used, and the clock.
pub record Draws : Type 0 where
  pub fill : ℕ → List ℕ
  pub salt : List ℕ
  pub volume_key : List ℕ
  pub hmac_key : List ℕ
  pub reserved : List ℕ
  pub iv : List ℕ
  pub now : ℕ

abbrev pub mebibyte : ℕ
mebibyte = 1024 * 1024

-- One chunk of 65536 random bytes: 16 sectors.
put_chunk : (ℕ → List ℕ) → ℕ → Device → Device
put_chunk fill i d = record d {
  sectors = λ s. if leb (16 * i) s && ltb s (16 * i + 16) then fill s else d.sectors s;
  size = max d.size (16 * (i + 1) * sector_size);
}

end_chunk : Outcome → (ℕ → List ℕ) → ℕ → Exec Device (Unit {0})
unfolding put_chunk
end_chunk done fill i d = (ok tt, put_chunk fill i d)
end_chunk failed fill i d = fail eperm d
end_chunk (torn left) fill i d = fail eperm d

-- The loop of the CSPRNG fill: `n` chunks from chunk `i` on.
unfoldable pub fill_random : (ℕ → List ℕ) → ℕ → ℕ → Exec Device (Unit {0})
unfolding end_chunk next_outcome
fill_random fill i zero = pure tt
fill_random fill i (suc n) = do o ← next_outcome; end_chunk o fill i; fill_random fill (i + 1) n

unfoldable pub new_payload : ℕ → Draws → Payload
new_payload volume_size r = record {
  magic = header_magic;
  volume_size = volume_size;
  bitmap_offset = sector_size;
  bitmap_size = (volume_size / sector_size + 7) / 8;
  volume_key = r.volume_key;
  hmac_key = r.hmac_key;
  reserved = r.reserved;
}

empty_device : List Outcome → Device
empty_device os = record { sectors = λ _. []; size = 0; outcomes = os }

-- The file is unlinked after a failure.
keep_if_ok : Res (Unit {0}) × Device → Res (Unit {0}) × Option Device
keep_if_ok (ok _, d) = (ok tt, some d)
keep_if_ok (err e, d) = (err e, none)

unfoldable pub can_create : List ℕ → ℕ → Bool
can_create password size_mb =
    let total_bytes = size_mb * mebibyte in
    not (length password == 0)
    && not (size_mb == 0)
    && leb total_bytes long_max
    && leb (total_bytes / 2 / sector_size) (uint32_max - 8)

module _ (c : Crypto) (r : Draws) where
  -- A header with a fresh salt under a password, then a formatted volume.
  unfoldable pub write_volume :
      List ℕ → (volume_size header_offset start_offset : ℕ) → Exec Device (Unit {0})
  unfolding new_payload
  write_volume password volume_size header_offset start_offset = do
    master_key ← of_option (derive_master_key c password r.salt) eperm
    header_key ← of_option (derive_header_key c master_key) eperm
    disk_header ←
        of_option
          (encrypt_header c (payload_bytes (new_payload volume_size r)) header_key r.salt r.iv)
          eperm
    fwrite_sector header_offset (disk_header_bytes disk_header)
    format_volume c r.now r.volume_key r.hmac_key volume_size start_offset

  unfoldable pub fill_and_format : List ℕ → ℕ → Exec Device (Unit {0})
  unfolding fill_random write_volume
  fill_and_format password size_mb = do
    host_alloc
    fill_random r.fill 0 (size_mb * 16)
    host_alloc
    write_volume password (size_mb * mebibyte / 2) 0 header_size

  -- `existing` is the file that the path names already, which O_EXCL refuses; the result is the file
  -- that it names afterwards.
  create_at : Option Device → List Outcome → List ℕ → ℕ → Res (Unit {0}) × Option Device
  unfolding fill_and_format keep_if_ok empty_device
  create_at (some d) os password size_mb = (err eperm, some d)
  create_at none os password size_mb =
      keep_if_ok (fill_and_format password size_mb (empty_device os))

  unfoldable pub container_create :
      Option Device → List Outcome → List ℕ → ℕ → Res (Unit {0}) × Option Device
  unfolding create_at can_create
  container_create existing os password size_mb =
      if can_create password size_mb
      then create_at existing os password size_mb
      else (err eperm, existing)

  -- The hidden volume ends at its header and must start behind the outer one.
  unfoldable pub hidden_fits : ℕ → ℕ → ℕ → Bool
  hidden_fits outer_end hidden_header_offset hidden_size_bytes =
      leb hidden_size_bytes hidden_header_offset
      && leb outer_end (hidden_header_offset - hidden_size_bytes)
      && (hidden_size_bytes % sector_size == 0)

  unfoldable pub container_create_hidden :
      (outer_password hidden_password : List ℕ) → ℕ → Exec Device (Unit {0})
  unfolding hidden_fits write_volume bytes_eq
  container_create_hidden outer_password hidden_password hidden_size_mb = do
    require
        (not (length outer_password == 0)
          && not (length hidden_password == 0)
          && not (hidden_size_mb == 0)
          && leb hidden_size_mb (0xffff_ffff_ffff_ffff / mebibyte))
        einval
    require (leb (hidden_size_mb * mebibyte / sector_size) (uint32_max - 8)) einval
    require (not (bytes_eq outer_password hidden_password)) einval
    v ← or_fail eacces (vol_open c outer_password none false)
    d ← gets (λ d. d)
    require
        (leb (hidden_header_offset_from_eof + header_size) d.size && (d.size % sector_size == 0))
        einval
    let hidden_size_bytes = hidden_size_mb * mebibyte
    let hho = d.size - hidden_header_offset_from_eof
    require (hidden_fits (v.vol_start_offset + v.volume_size) hho hidden_size_bytes) enospc
    or_fail enomem host_alloc
    or_fail eio (write_volume hidden_password hidden_size_bytes hho (hho - hidden_size_bytes))
