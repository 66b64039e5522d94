-- ===== src/Crypto.antt =====
-- src/crypto.c. OpenSSL and libsodium are parameters; the functions around them are modelled: the
-- XTS tweak, the HKDF-Expand block, the header layout and the checks of result lengths.
pub mod Tweak
use denyfs.Prelude.{
  ◌≡◌, ℕ, Option, none, some, List, [], ◌∷◌, ◌++◌, length, take, drop, replicate, Bool, true, false,
  ◌==◌, if◌then◌else◌,
}
use denyfs.Prelude.Words.{le_bytes}

-- HEADER_SIZE - SALT_SIZE - IV_SIZE - TAG_SIZE.
abbrev pub ciphertext_size : ℕ
ciphertext_size = 4052

-- What the program calls: EVP AES-256-XTS (the Boolean is `encrypt`), EVP AES-256-GCM, HMAC-SHA256
-- and Argon2id. Each may fail.
pub record Crypto : Type 0 where
  pub evp_xts : Bool → List ℕ → List ℕ → List ℕ → Option (List ℕ)
  pub evp_gcm_encrypt : List ℕ → List ℕ → List ℕ → Option (List ℕ × List ℕ)
  pub evp_gcm_decrypt : List ℕ → List ℕ → List ℕ → List ℕ → Option (List ℕ)
  pub hmac_sha256 : List ℕ → List ℕ → Option (List ℕ)
  pub pwhash : List ℕ → List ℕ → Option (List ℕ)

-- The 16-byte tweak: 8 bytes of the block number, low byte first, and 8 zeros.
unfoldable pub xts_iv : ℕ → List ℕ
xts_iv lba = le_bytes 8 lba ++ replicate 8 0

-- "DenyFS Header Key V1", then the block number 1.
abbrev pub header_key_info : List ℕ
header_key_info =
    0x44 ∷ 0x65 ∷ 0x6e ∷ 0x79 ∷ 0x46 ∷ 0x53 ∷ 0x20 ∷ 0x48 ∷ 0x65 ∷ 0x61 ∷ 0x64 ∷ 0x65 ∷ 0x72 ∷ 0x20
    ∷ 0x4b ∷ 0x65 ∷ 0x79 ∷ 0x20 ∷ 0x56 ∷ 0x31 ∷ []

-- `len == n` on the length that HMAC reports.
of_length : ℕ → Option (List ℕ) → Option (List ℕ)
of_length n none = none
of_length n (some d) = if length d == n then some d else none

-- denyfs_header_disk_t.
pub record DiskHeader : Type 0 where
  pub salt : List ℕ
  pub iv : List ℕ
  pub tag : List ℕ
  pub ciphertext : List ℕ

-- The header sector is the four fields one after the other: 16, 12, 16 and 4052 bytes.
unfoldable pub to_disk_header : List ℕ → DiskHeader
to_disk_header b = record {
  salt = take 16 b;
  iv = take 12 (drop 16 b);
  tag = take 16 (drop 12 (drop 16 b));
  ciphertext = drop 16 (drop 12 (drop 16 b));
}

unfoldable pub disk_header_bytes : DiskHeader → List ℕ
disk_header_bytes h = h.salt ++ (h.iv ++ (h.tag ++ h.ciphertext))

sealed_with : List ℕ → List ℕ → Option (List ℕ × List ℕ) → Option DiskHeader
sealed_with salt iv none = none
sealed_with salt iv (some (ct, tag)) =
    some (record { salt = salt; iv = iv; tag = tag; ciphertext = ct })

module _ (c : Crypto) where
  -- denyfs_crypt_sector.
  unfoldable pub crypt_sector : List ℕ → ℕ → List ℕ → Bool → Option (List ℕ)
  crypt_sector sector lba key encrypt = c.evp_xts encrypt key (xts_iv lba) sector

  -- denyfs_compute_hmac.
  unfoldable pub compute_hmac : List ℕ → List ℕ → Option (List ℕ)
  unfolding of_length
  compute_hmac key bytes = of_length 32 (c.hmac_sha256 key bytes)

  -- denyfs_derive_master_key.
  unfoldable pub derive_master_key : List ℕ → List ℕ → Option (List ℕ)
  derive_master_key password salt = c.pwhash password salt

  -- denyfs_derive_header_key.
  unfoldable pub derive_header_key : List ℕ → Option (List ℕ)
  unfolding of_length
  derive_header_key master_key = of_length 32 (c.hmac_sha256 master_key (header_key_info ++ 1 ∷ []))

  -- denyfs_encrypt_header: the first CIPHERTEXT_SIZE bytes of the payload. `iv` is the draw of
  -- randombytes_buf, `salt` what the caller filled in.
  unfoldable pub encrypt_header : List ℕ → List ℕ → List ℕ → List ℕ → Option DiskHeader
  unfolding sealed_with take
  encrypt_header payload header_key salt iv =
      sealed_with salt iv (c.evp_gcm_encrypt header_key iv (take ciphertext_size payload))

  -- denyfs_decrypt_header.
  unfoldable pub decrypt_header : DiskHeader → List ℕ → Option (List ℕ)
  decrypt_header h header_key = c.evp_gcm_decrypt header_key h.iv h.ciphertext h.tag

-- AES-XTS under one key and tweak: decryption inverts encryption, and a sector stays a sector.
pub record XtsLaws (c : Crypto) : Type 0 where
  pub decrypt-encrypt :
      (key iv b e : List ℕ) → c.evp_xts true key iv b ≡ some e → c.evp_xts false key iv e ≡ some b
