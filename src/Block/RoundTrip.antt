-- ===== src/Block/RoundTrip.antt =====
-- src/fs.c: read_block after write_block.
use denyfs.Prelude.{
  ℕ, ◌+◌, ◌/◌, ◌≤◌, ltb, leb, ◌≡◌, refl, sym, ap, ◌∙◌, true, false, Option, none, some, List, [],
  arith,
}
use denyfs.Layout.{sector_size, long_max}
use denyfs.Crypto.{Crypto, XtsLaws, crypt_sector}
use denyfs.Crypto.Tweak.{crypt_sector-crypt_sector}
use denyfs.Volume.{Device, Vol, ok, Errno, Exec, pure, fail, of_option, on_device, ◌>>=◌}
use denyfs.Volume.Run.{bind-ok, require-ok, gets-ok}
use denyfs.Block.{fwrite_sector, fread_sector, block_offset, read_block, write_block}

pub of_option-ok :
    {S A : Type 0} (o : Option A) (e : Errno) (s : S) {a : A} {u : S}
    → of_option o e s ≡ (ok a, u)
    → (o ≡ some a) × (s ≡ u)
unfolding of_option pure fail
of_option-ok none e s h = ground arith
of_option-ok (some a) e s h = (ground (arith, ap (λ p. p.0) h), ap (λ p. p.1) h)

-- A transfer that succeeds leaves its bytes in the sector, inside the file.
pub fwrite_sector-ok :
    (offset : ℕ) (bytes : List ℕ) (d : Device) {u : Unit {0}} {e : Device}
    → fwrite_sector offset bytes d ≡ (ok u, e)
    → (e.sectors (offset / sector_size) ≡ bytes) × (offset + sector_size ≤ e.size)
unfolding fwrite_sector ◌>>=◌
fwrite_sector-ok offset bytes d h = (ground arith, ground arith)

-- A transfer in the open volume changes its container only.
pub on_device-ok :
    {A : Type 0} (m : Exec Device A) (v : Vol) {a : A} {w : Vol}
    → on_device m v ≡ (ok a, w)
    → (m v.dev ≡ (ok a, w.dev)) × (w ≡ record v { dev = w.dev })
unfolding on_device
on_device-ok m v h =
    let left = ap (λ p. p.1) h in (λ i. (ap (λ p. p.0) h i, (left i).dev), rw (sym left) refl)

pub fread_sector-done :
    (offset : ℕ) (d : Device)
    → d.outcomes ≡ []
    → offset + sector_size ≤ d.size
    → fread_sector offset d ≡ (ok (d.sectors (offset / sector_size)), d)
unfolding fread_sector ◌>>=◌
fread_sector-done offset d none_left inside = ground arith

module _ (c : Crypto) where
  read_block-done :
      (n : ℕ) (b : List ℕ) (v : Vol) (cipher : List ℕ)
      → ltb n (v.volume_size / sector_size) ≡ true
      → leb (block_offset v.vol_start_offset n) long_max ≡ true
      → v.dev.outcomes ≡ []
      → block_offset v.vol_start_offset n + sector_size ≤ v.dev.size
      → v.dev.sectors (block_offset v.vol_start_offset n / sector_size) ≡ cipher
      → crypt_sector c cipher n v.volume_key false ≡ some b
      → (read_block c n v).0 ≡ ok b
  unfolding read_block on_device ◌>>=◌
  read_block-done n b v cipher inside seekable none_left fits holds plain =
      let r = fread_sector-done (block_offset v.vol_start_offset n) v.dev none_left fits in
      rw (inside, seekable, r, holds, plain) refl

  -- What write_block wrote is what read_block returns, if decryption undoes encryption and the
  -- schedule holds no further failure of the host.
  pub read_block-write_block :
      (n : ℕ) (b : List ℕ) (v : Vol) {u : Unit {0}} {w : Vol}
      → XtsLaws c
      → write_block c n b v ≡ (ok u, w)
      → w.dev.outcomes ≡ []
      → (read_block c n w).0 ≡ ok b
  unfolding write_block
  read_block-write_block n b v laws h none_left =
      let h1 = gets-ok _ _ h in
      let (inside, h2) = require-ok _ _ _ h1 in
      let (_, h3) = require-ok _ _ _ h2 in
      let (cipher, _, r4, h5) = bind-ok _ _ h3 in
      let (sealed, same) = of_option-ok _ _ _ r4 in
      let (seekable, h6) = require-ok _ _ _ h5 in
      let (written, memory) = on_device-ok _ _ h6 in
      let (holds, fits) = fwrite_sector-ok _ cipher _ written in
      let place =
        ap (λ (x : Vol). x.vol_start_offset) memory
        ∙ ap (λ (x : Vol). x.vol_start_offset) (sym same) in
      let size =
        ap (λ (x : Vol). x.volume_size) memory ∙ ap (λ (x : Vol). x.volume_size) (sym same) in
      let key = ap (λ (x : Vol). x.volume_key) memory ∙ ap (λ (x : Vol). x.volume_key) (sym same) in
      read_block-done n b _ cipher (rw size inside) (rw place seekable) none_left (rw place fits)
        (rw place holds) (rw key (crypt_sector-crypt_sector c v.volume_key n b cipher laws sealed))
