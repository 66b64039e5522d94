-- ===== src/Open/Placing.antt =====
-- src/fs.c: where in the container a volume lies that vol_open opened, and what it protects.
use denyfs.Prelude.{
  ℕ, ◌+◌, ◌-◌, ◌/◌, ◌%◌, ◌≤◌, ◌≡◌, refl, sym, ap, ◌∙◌, Bool, true, false, Option, none, some, List,
  inl, inr, if◌then◌else◌, arith,
}
use denyfs.Layout.{header_size, sector_size, long_max}
use denyfs.Crypto.{Crypto, DiskHeader}
use denyfs.Volume.{Device, Vol, Res, ok, Exec, pure, fail, gets, eperm, on_device, ◌>>=◌}
use denyfs.Validate.Reads.{ReadsDevice, host_alloc-ReadsDevice}
use denyfs.Volume.Frame.{Frame, frame, IsPreorder, Frame-pure, Frame-fail, Frame-bind}
use denyfs.Volume.Run.{bind-ok, require-ok, gets-ok, pure-ok, fail-ok, if-ok}
use denyfs.Block.{host_alloc}
use denyfs.Header.{Payload, valid_volume_range, hidden_range, try_protected_header}
use denyfs.Open.{new_volume, select_hidden, select_volume, set_protection, protect}

-- Behind the outer header and in front of the hidden one, at the boundaries of sectors.
pub record Placed (hho : ℕ) (v : Vol) : Type 0 where
  pub low : header_size ≤ v.vol_start_offset
  pub high : v.vol_start_offset + v.volume_size ≤ hho
  pub start_aligned : v.vol_start_offset % sector_size ≡ 0
  pub size_aligned : v.volume_size % sector_size ≡ 0
  pub in_file : v.vol_start_offset + v.volume_size ≤ long_max

outer-Placed :
    (d : Device) (hho : ℕ) (p : Payload)
    → valid_volume_range header_size p.volume_size hho ≡ true
    → Placed hho (new_volume d false header_size p)
unfolding new_volume valid_volume_range
outer-Placed d hho p h = record {
  low = omega arith;
  high = ground arith;
  start_aligned = refl;
  size_aligned = ground arith;
  in_file = ground arith;
}

hidden-Placed :
    (d : Device) (hho : ℕ) (p : Payload)
    → hidden_range hho p.volume_size ≡ true
    → header_size ≤ hho
    → Placed hho (new_volume d true (hho - p.volume_size) p)
unfolding new_volume hidden_range valid_volume_range
hidden-Placed d hho p h big = record {
  low = ground arith;
  high = ground arith;
  start_aligned = ground arith;
  size_aligned = ground arith;
  in_file = ground arith;
}

-- The volume that was selected, over the container `d`.
pub record Selected (hho : ℕ) (d : Device) (v : Vol) : Type 0 where
  pub placed : Placed hho v
  pub sectors : v.dev.sectors ≡ d.sectors
  pub size : v.dev.size ≡ d.size

pub read_only :
    {A : Type 0} (m : Exec Device A) (d : Device) {r : Res A} {e : Device}
    → m d ≡ (r, e)
    → ReadsDevice m
    → (e.sectors ≡ d.sectors) × (e.size ≡ d.size)
read_only m d h r =
    let same = ap (λ p. p.1) h in
    (
      ap (λ (x : Device). x.sectors) (sym same) ∙ r.sectors d,
      ap (λ (x : Device). x.size) (sym same) ∙ r.size d,
    )

-- A new volume over the container after an allocation.
new_volume-Selected :
    (hho : ℕ) (mk : Device → Vol) (d : Device) {v : Vol} {e : Device}
    → ((x : Device) → Placed hho (mk x) × ((mk x).dev ≡ x))
    → (host_alloc >>= λ _. gets (λ x. x) >>= λ x. pure (mk x)) d ≡ (ok v, e)
    → Selected hho d v
new_volume-Selected hho mk d good h =
    let (_, d1, h1, h2) = bind-ok _ _ h in
    let (is_new, _) = pure-ok _ _ (gets-ok _ _ h2) in
    let (sectors, size) = read_only host_alloc d h1 host_alloc-ReadsDevice in
    let (placed, dev) = good d1 in
    rw (sym is_new) (record {
      placed = placed;
      sectors = ap (λ (x : Device). x.sectors) dev ∙ sectors;
      size = ap (λ (x : Device). x.size) dev ∙ size;
    })

select_hidden-Selected :
    (hho : ℕ) (o : Option Payload) (d : Device) {v : Vol} {e : Device}
    → header_size ≤ hho
    → select_hidden hho o d ≡ (ok v, e)
    → Selected hho d v
unfolding select_hidden new_volume
select_hidden-Selected hho none d big h = fail-ok _ _ h
select_hidden-Selected hho (some p) d big h =
    let (range, h1) = require-ok _ _ _ h in
    new_volume-Selected hho _ d (λ x. (hidden-Placed x hho p range big, refl)) h1

pub select_volume-Selected :
    (hho : ℕ) (o q : Option Payload) (d : Device) {v : Vol} {e : Device}
    → header_size ≤ hho
    → select_volume hho o q d ≡ (ok v, e)
    → Selected hho d v
unfolding select_volume new_volume
select_volume-Selected hho none q d big h = select_hidden-Selected hho q d big h
select_volume-Selected hho (some p) q d big h =
    elim (if-ok (valid_volume_range header_size p.volume_size hho) _ _ {s = d} h) [
      | inl (range, h1) ↦ new_volume-Selected hho _ d (λ x. (outer-Placed x hho p range, refl)) h1
      | inr (_, h1) ↦ select_hidden-Selected hho q d big h1
    ]

-- The sectors from the start of the hidden volume of payload `p` on are protected.
pub record Protects (hho : ℕ) (p : Payload) (v : Vol) : Type 0 where
  pub range : hidden_range hho p.volume_size ≡ true
  pub on : v.protect_hidden ≡ true
  pub first : v.protect_start_sector ≡ (hho - p.volume_size) / sector_size
  pub last : v.protect_end_sector ≡ v.dev.size / sector_size - 1

passed :
    (b : Bool) (x v : Vol) {u : Unit {0}} {w : Vol}
    → (if b then pure tt x else fail eperm v) ≡ (ok u, w)
    → (b ≡ true) × (x ≡ w)
unfolding pure fail
passed true x v h = (refl, ap (λ p. p.1) h)
passed false x v h = ground arith

set_protection-Protects :
    (hho : ℕ) (o : Option Payload) (v : Vol) {u : Unit {0}} {w : Vol}
    → set_protection hho o v ≡ (ok u, w)
    → (p : Payload) × (o ≡ some p) × Protects hho p w
unfolding set_protection
set_protection-Protects hho none v h = fail-ok _ _ h
set_protection-Protects hho (some p) v h =
    let (range, same) = passed _ _ _ h in
    (p, refl, rw (sym same) (record { range = range; on = refl; first = refl; last = refl }))

-- What the protection leaves of the volume: all but the protected sectors.
pub record KeepsPlace (v w : Vol) : Type 0 where
  pub start : w.vol_start_offset ≡ v.vol_start_offset
  pub volume_size : w.volume_size ≡ v.volume_size
  pub hidden : w.is_hidden ≡ v.is_hidden
  pub sectors : w.dev.sectors ≡ v.dev.sectors
  pub size : w.dev.size ≡ v.dev.size

KeepsPlace-order : IsPreorder KeepsPlace
KeepsPlace-order = record {
  same =
      λ v. record { start = refl; volume_size = refl; hidden = refl; sectors = refl; size = refl };
  trans = λ u v w p q. record {
    start = q.start ∙ p.start;
    volume_size = q.volume_size ∙ p.volume_size;
    hidden = q.hidden ∙ p.hidden;
    sectors = q.sectors ∙ p.sectors;
    size = q.size ∙ p.size;
  };
}

set_protection-KeepsPlace : (hho : ℕ) (o : Option Payload) → Frame KeepsPlace (set_protection hho o)
unfolding set_protection pure fail
set_protection-KeepsPlace hho none = frame λ v. KeepsPlace-order.same v
set_protection-KeepsPlace hho (some p) = frame (by_range (hidden_range hho p.volume_size))
  where
    by_range :
        (b : Bool) (v : Vol)
        → KeepsPlace v
            (if b
              then pure tt (record v {
                protect_hidden = true;
                protect_start_sector = (hho - p.volume_size) / sector_size;
                protect_end_sector = v.dev.size / sector_size - 1;
              })
              else fail eperm v).1
    by_range true v = record {
      start = refl;
      volume_size = refl;
      hidden = refl;
      sectors = refl;
      size = refl;
    }
    by_range false v = KeepsPlace-order.same v

host_alloc-KeepsPlace : Frame KeepsPlace (on_device host_alloc)
unfolding on_device
host_alloc-KeepsPlace = frame λ v. record {
  start = refl;
  volume_size = refl;
  hidden = refl;
  sectors = host_alloc-ReadsDevice.sectors v.dev;
  size = host_alloc-ReadsDevice.size v.dev;
}

module _ (c : Crypto) where
  pub protect-KeepsPlace :
      (on : Bool) (password : Option (List ℕ)) (h : DiskHeader) (hho : ℕ)
      → Frame KeepsPlace (protect c on password h hho)
  unfolding protect
  protect-KeepsPlace false password h hho = Frame-pure KeepsPlace-order tt
  protect-KeepsPlace true none h hho = Frame-fail KeepsPlace-order eperm
  protect-KeepsPlace true (some password) h hho =
      Frame-bind KeepsPlace-order _ _ host_alloc-KeepsPlace
        λ _. set_protection-KeepsPlace hho (try_protected_header c password h)

  pub protect-Protects :
      (password : List ℕ) (h : DiskHeader) (hho : ℕ) (v : Vol) {u : Unit {0}} {w : Vol}
      → protect c true (some password) h hho v ≡ (ok u, w)
      → (p : Payload) × (try_protected_header c password h ≡ some p) × Protects hho p w
  unfolding protect
  protect-Protects password h hho v e =
      let (_, v1, _, e1) = bind-ok _ _ e in set_protection-Protects hho _ v1 e1
