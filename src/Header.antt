-- ===== src/Header.antt =====
-- src/crypto.h: the payload of a volume header, and the guards of src/fs.c on where a volume lies.
use denyfs.Prelude.{
  ℕ, ◌-◌, ◌%◌, leb, Bool, not, ◌&&◌, ◌==◌, Option, none, some, List, ◌++◌, take, drop, replicate,
  if◌then◌else◌,
}
use denyfs.Prelude.Words.{le_bytes, le_value}
use denyfs.Layout.{sector_size, long_max}
use denyfs.Crypto.{Crypto, DiskHeader, derive_master_key, derive_header_key, decrypt_header}

abbrev pub header_magic : ℕ
header_magic = 0x44656e7946533031

-- denyfs_header_payload_t.
pub record Payload : Type 0 where
  pub magic : ℕ
  pub volume_size : ℕ
  pub bitmap_offset : ℕ
  pub bitmap_size : ℕ
  pub volume_key : List ℕ
  pub hmac_key : List ℕ
  pub reserved : List ℕ

-- CIPHERTEXT_SIZE - 24 - KEY_SIZE_XTS - KEY_SIZE_HMAC.
abbrev pub payload_reserved_size : ℕ
payload_reserved_size = 4052 - 24 - 64 - 32

unfoldable pub payload_bytes : Payload → List ℕ
payload_bytes p =
    le_bytes 8 p.magic
    ++ (le_bytes 8 p.volume_size
        ++ (le_bytes 8 p.bitmap_offset
            ++ (le_bytes 8 p.bitmap_size ++ (p.volume_key ++ (p.hmac_key ++ p.reserved)))))

unfoldable pub to_payload : List ℕ → Payload
unfolding take drop le_value
to_payload b = record {
  magic = le_value (take 8 b);
  volume_size = le_value (take 8 (drop 8 b));
  bitmap_offset = le_value (take 8 (drop 8 (drop 8 b)));
  bitmap_size = le_value (take 8 (drop 8 (drop 8 (drop 8 b))));
  volume_key = take 64 (drop 8 (drop 8 (drop 8 (drop 8 b))));
  hmac_key = take 32 (drop 64 (drop 8 (drop 8 (drop 8 (drop 8 b)))));
  reserved = drop 32 (drop 64 (drop 8 (drop 8 (drop 8 (drop 8 b)))));
}

unfoldable pub valid_volume_range : ℕ → ℕ → ℕ → Bool
valid_volume_range start size container_size =
    not (size == 0)
    && (size % sector_size == 0)
    && (start % sector_size == 0)
    && leb start container_size
    && leb size (container_size - start)
    && leb start long_max
    && leb size (long_max - start)

-- A key buffer that was cleared, and stays so if the derivation fails.
or_zeros : Option (List ℕ) → List ℕ
unfolding replicate
or_zeros none = replicate 32 0
or_zeros (some k) = k

-- Authenticated, and with the right magic number.
with_magic : Option (List ℕ) → Option Payload
unfolding to_payload
with_magic none = none
with_magic (some b) = let p = to_payload b in if p.magic == header_magic then some p else none

-- The key of a header when every derivation must succeed.
with_key : Crypto → DiskHeader → Option (List ℕ) → Option Payload
unfolding with_magic
with_key c h none = none
with_key c h (some k) = with_magic (decrypt_header c h k)

from_master : Crypto → Option (List ℕ) → Option (List ℕ)
from_master c none = none
from_master c (some m) = derive_header_key c m

module _ (c : Crypto) (password : List ℕ) (h : DiskHeader) where
  -- The unconditional derivation and decryption of vol_open, whose derivation results are ignored.
  unfoldable pub try_header : Option Payload
  unfolding with_magic or_zeros
  try_header = with_magic (
      decrypt_header c h
        (or_zeros (derive_header_key c (or_zeros (derive_master_key c password h.salt)))))

  -- The one for outer-mount protection, which fails with its derivations.
  unfoldable pub try_protected_header : Option Payload
  unfolding with_key from_master
  try_protected_header = with_key c h (from_master c (derive_master_key c password h.salt))

-- Where the hidden volume starts if its payload says `size`.
unfoldable pub hidden_range : ℕ → ℕ → Bool
unfolding valid_volume_range
hidden_range hidden_header_offset size =
    leb size (hidden_header_offset - sector_size)
    && valid_volume_range (hidden_header_offset - size) size hidden_header_offset
