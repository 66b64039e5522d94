-- ===== src/FileIo/Settled.antt =====
-- src/fs.c: reading actions that succeed come to what they come to on a host that does not fail.
use denyfs.Prelude.{
  ℕ, ◌+◌, ◌/◌, ◌≤◌, ◌≡◌, refl, sym, ap, ◌∙◌, Bool, true, false, Option, none, some, List, [],
  if◌then◌else◌, arith,
}
use denyfs.Layout.{Inode, sector_size}
use denyfs.Crypto.{Crypto}
use denyfs.Volume.{
  Device, Vol, ok, Errno, Op, pure, fail, gets, of_option, or_fail, on_device, ◌>>=◌,
}
use denyfs.Volume.Run.{bind-ok, bind-known, pure-ok, fail-ok, or_fail-ok, or_fail-known}
use denyfs.Block.{fread_sector, read_block}
use denyfs.Block.RoundTrip.{on_device-ok, fread_sector-done}
use denyfs.Mount.{fread_sector-ok}
use denyfs.Validate.Reads.{OnlyReads, fread_sector-ReadsDevice}
use denyfs.FileMap.{
  Slot, direct_slot, indirect_slot, double_slot, read_pointer_table, check_block, slot_block,
  get_file_data_block,
}

-- The same volume over a host that fails no more.
abbrev pub quiet : Vol → Vol
quiet v = record v { dev = record (v.dev) { outcomes = [] } }

pub OnlyReads-quiet : {v w : Vol} → OnlyReads v w → quiet w ≡ quiet v
OnlyReads-quiet {v} {w} r = ap quiet r.memory ∙ λ i. record v {
  dev = record { sectors = r.sectors i; size = r.size i; outcomes = [] };
}

-- Shut, so that a search does not take it apart.
pub data Settled {A : Type 0} (m : Op A) : Type 0 where
  settled :
      ((v : Vol) (a : A) (w : Vol) → m v ≡ (ok a, w) → m (quiet v) ≡ (ok a, quiet w)) → Settled m

abbrev pub settles :
    {A : Type 0} {m : Op A}
    → Settled m
    → (v : Vol) (a : A) (w : Vol) → m v ≡ (ok a, w)
    → m (quiet v) ≡ (ok a, quiet w)
settles (settled f) = f

module _ {A : Type 0} where
  Settled-pure : (a : A) → Settled (pure {S = Vol} a)
  unfolding pure
  Settled-pure a =
      settled λ v b w h. let (same, end) = pure-ok a v h in λ i. (ok (same i), quiet (end i))

  Settled-fail : (e : Errno) → Settled (fail {S = Vol} {A = A} e)
  Settled-fail e = settled λ v a w h. fail-ok e v h

  Settled-of_option : (o : Option A) (e : Errno) → Settled (of_option {S = Vol} o e)
  unfolding of_option
  Settled-of_option none e = Settled-fail e
  Settled-of_option (some a) e = Settled-pure a

  Settled-if : (b : Bool) (m n : Op A) → Settled m → Settled n → Settled (if b then m else n)
  Settled-if true m n f g = f
  Settled-if false m n f g = g

  Settled-or_fail : (e : Errno) (m : Op A) → Settled m → Settled (or_fail e m)
  Settled-or_fail e m f =
      settled λ v a w h. or_fail-known e m (quiet v) (settles f v a w (or_fail-ok e m v h))

module _ {A B : Type 0} where
  Settled-bind :
      (m : Op A) (k : A → Op B) → Settled m → ((a : A) → Settled (k a)) → Settled (m >>= k)
  Settled-bind m k f g = settled λ v b w h.
      let (a, t, r, h1) = bind-ok m k h in
      sym (bind-known m k (settles f v a t r) refl) ∙ settles (g a) t b w h1

-- A look at the volume that does not depend on the host.
module _ {B : Type 0} where
  Settled-gets :
      (k : Vol → Op B)
      → ((v : Vol) → k (quiet v) ≡ k v)
      → ((v : Vol) → Settled (k v))
      → Settled (gets (λ v. v) >>= k)
  unfolding ◌>>=◌
  Settled-gets k same g =
      settled λ v b w h. ap (λ (m : Op B). m (quiet v)) (same v) ∙ settles (g v) v b w h

ruleset settled_rules =
    (Settled-pure, Settled-fail, Settled-of_option, Settled-if, Settled-or_fail, Settled-bind)

fread_sector-fits :
    (offset : ℕ) (d : Device) {a : List ℕ} {e : Device}
    → fread_sector offset d ≡ (ok a, e)
    → offset + sector_size ≤ d.size
unfolding fread_sector ◌>>=◌
fread_sector-fits offset d h = ground arith

fread_sector-Settled : (offset : ℕ) → Settled (on_device (fread_sector offset))
unfolding on_device
fread_sector-Settled offset = settled λ v a w h.
    let (ran, memory) = on_device-ok (fread_sector offset) v h in
    let fits = fread_sector-fits offset v.dev ran in
    let still = fread_sector-ReadsDevice offset in
    let sectors : w.dev.sectors ≡ v.dev.sectors =
      ap (λ p. p.1.sectors) (sym ran) ∙ still.sectors v.dev in
    let size : w.dev.size ≡ v.dev.size = ap (λ p. p.1.size) (sym ran) ∙ still.size v.dev in
    let read = fread_sector-done offset (record (v.dev) { outcomes = [] }) refl fits in
    let same : v.dev.sectors (offset / sector_size) ≡ a = sym (fread_sector-ok offset v.dev ran) in
    let end = sym (
      OnlyReads-quiet {v = v} {w = w}
        (record { memory = memory; sectors = sectors; size = size })) in
    rw read (λ i. (ok (same i), end i))

check_block-Settled : (b : ℕ) → Settled (check_block b)
unfolding check_block
check_block-Settled b = Settled-gets _ (λ v. refl) λ v. search settled_rules depth 12

module _ (c : Crypto) where
  pub read_block-Settled : (n : ℕ) → Settled (read_block c n)
  unfolding read_block
  read_block-Settled n =
      Settled-gets _ (λ v. refl) λ v. search (settled_rules, fread_sector-Settled) depth 20

  table-Settled : (n : ℕ) → Settled (read_pointer_table c n)
  unfolding read_pointer_table
  table-Settled n =
      Settled-gets _ (λ v. refl) λ v. search (settled_rules, read_block-Settled) depth 20

  slot_block-Settled : (n : Inode) (s : Slot) → Settled (slot_block c n s)
  unfolding slot_block
  slot_block-Settled n (direct_slot i) = search settled_rules depth 12
  slot_block-Settled n (indirect_slot i) = search (settled_rules, table-Settled) depth 20
  slot_block-Settled n (double_slot i j) = search (settled_rules, table-Settled) depth 20

  pub get_file_data_block-Settled : (ino k : ℕ) → Settled (get_file_data_block c ino k)
  unfolding get_file_data_block
  get_file_data_block-Settled ino k = Settled-bind _ _ (search settled_rules depth 12) λ _.
      Settled-gets _ (λ v. refl)
        λ v. search (settled_rules, slot_block-Settled, check_block-Settled) depth 20
