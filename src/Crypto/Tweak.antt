-- ===== src/Crypto/Tweak.antt =====
-- denyfs_crypt_sector: the tweak, and decryption after encryption.
use denyfs.Prelude.{ℕ, ◌≡◌, ◌<◌, ◌^◌, ◌∙◌, sym, ap, true, false, some, List, take}
use denyfs.Prelude.Words.{le_value, le_value-le_bytes, take-le_bytes}
use denyfs.Crypto.{Crypto, XtsLaws, xts_iv, crypt_sector}

-- Two block numbers below 2 ^ 64 with the same tweak are the same block number.
pub xts_iv-injective : (a b : ℕ) → a < 256 ^ 8 → b < 256 ^ 8 → xts_iv a ≡ xts_iv b → a ≡ b
unfolding xts_iv
xts_iv-injective a b ha hb e =
    sym (le_value-le_bytes 8 a ha)
    ∙ ap le_value (sym (take-le_bytes 8 a _) ∙ ap (take 8) e ∙ take-le_bytes 8 b _)
    ∙ le_value-le_bytes 8 b hb

-- A sector that was encrypted decrypts, under the same key and block number, to what it was.
pub crypt_sector-crypt_sector :
    (c : Crypto) (key : List ℕ) (lba : ℕ) (b e : List ℕ)
    → XtsLaws c
    → crypt_sector c b lba key true ≡ some e
    → crypt_sector c e lba key false ≡ some b
unfolding crypt_sector
crypt_sector-crypt_sector c key lba b e laws h = laws.decrypt-encrypt key (xts_iv lba) b e h
