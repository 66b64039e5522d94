-- ===== src/Mount.antt =====
-- src/fs.c, src/fuse_ops.c: a volume that denyfs_vol_open returned, and the sessions on it.
pub mod Blocks
pub mod Flush
use denyfs.Prelude.{
  ℕ, ◌-◌, ◌/◌, ◌≤◌, ◌≡◌, ◌⊎◌, inl, inr, sym, ap, ◌∙◌, Bool, true, false, not, ◌&&◌, Option, some,
  List, leb, leb→le, Bool-cases, ◌<◌, arith,
}
use denyfs.Layout.{sector_size, hidden_header_offset_from_eof, header_size}
use denyfs.Crypto.{Crypto, to_disk_header}
use denyfs.Volume.{Device, Vol, Res, ok, err, ◌>>=◌}
use denyfs.Volume.Run.{bind-ok, require-ok, gets-ok, ran}
use denyfs.Block.{fread_sector}
use denyfs.Validate.Reads.{fread_sector-ReadsDevice, host_alloc-ReadsDevice}
use denyfs.Header.{Payload, try_header, try_protected_header}
use denyfs.Open.{select_volume, finish_open, protect, load_metadata, vol_open}
use denyfs.Open.Loading.{load_metadata-Loads, load_metadata-IsCounted}
use denyfs.Open.Placing.{
  Placed, Selected, read_only, select_volume-Selected, protect-KeepsPlace, Protects,
  protect-Protects,
}
use denyfs.Confine.{SameVolume, OffLimits, serve-Confined}
use denyfs.Account.{IsCounted, serve-IsCounted}
use denyfs.Fuse.{Request, serve}

abbrev pub hidden_offset : Device → ℕ
hidden_offset d = d.size - hidden_header_offset_from_eof

finish_open-ok :
    (c : Crypto) (x : Res (Unit {0}) × Vol) {v : Vol} {e : Device}
    → finish_open c x ≡ (ok v, e)
    → (u : Unit {0}) × (x ≡ (ok u, v))
unfolding finish_open
finish_open-ok c (ok u, w) h = (u, ground arith)
finish_open-ok c (err x, w) h = ground arith

pub fread_sector-ok :
    (offset : ℕ) (d : Device) {b : List ℕ} {e : Device}
    → fread_sector offset d ≡ (ok b, e)
    → b ≡ d.sectors (offset / sector_size)
unfolding fread_sector ◌>>=◌
fread_sector-ok offset d h = ground arith

apart_from_headers :
    {hho s : ℕ} {v : Vol} → Placed hho v → (s ≡ 0) ⊎ (hho / sector_size ≤ s) → OffLimits v s
apart_from_headers p (inl zero) = inl (omega (arith, p.low))
apart_from_headers p (inr past) = inr (inl (omega (arith, p.high, p.start_aligned, p.size_aligned)))

module _ (c : Crypto) (password : List ℕ) (hidden_password : Option (List ℕ)) (on : Bool) where
  -- What a successful open went through: the volume that was selected, with protection, loaded.
  pub record Opened (d : Device) (v : Vol) : Type 0 where
    pub selected_volume : Vol
    pub protected_volume : Vol
    pub hidden_bytes : List ℕ
    pub result : Unit {0}
    pub result' : Unit {0}
    pub big : header_size ≤ hidden_offset d
    pub selected : Selected (hidden_offset d) d selected_volume
    pub hidden_read : hidden_bytes ≡ d.sectors (hidden_offset d / sector_size)
    pub protecting :
        protect c
          (on && not selected_volume.is_hidden)
          hidden_password
          (to_disk_header hidden_bytes)
          (hidden_offset d)
          selected_volume
        ≡ (ok result, protected_volume)
    pub loading : load_metadata c protected_volume ≡ (ok result', v)
    pub outer : Option Payload
    pub before : Device
    pub after : Device
    pub selecting :
        select_volume
          (hidden_offset d)
          outer
          (try_header c password (to_disk_header hidden_bytes))
          before
        ≡ (ok selected_volume, after)

  pub vol_open-Opened :
      (d : Device) {v : Vol} {e : Device}
      → vol_open c password hidden_password on d ≡ (ok v, e)
      → Opened d v
  unfolding vol_open
  vol_open-Opened d h =
      let h1 = gets-ok _ _ h in
      let (big, h2) = require-ok _ _ _ h1 in
      let (outer_bytes, d1, r1, h3) = bind-ok _ _ h2 in
      let (hidden_bytes, d2, r2, h4) = bind-ok _ _ h3 in
      let (_, d3, r3, h5) = bind-ok _ _ h4 in
      let (v0, d4, r4, h6) = bind-ok _ _ h5 in
      let (_, h7) = finish_open-ok c _ h6 in
      let (u, v1, r5, r6) = bind-ok _ _ h7 in
      let large : header_size ≤ hidden_offset d = ground arith in
      let s1 = read_only _ _ r1 (fread_sector-ReadsDevice _) in
      let s2 = read_only _ _ r2 (fread_sector-ReadsDevice _) in
      let s3 = read_only _ _ r3 host_alloc-ReadsDevice in
      let sel =
        select_volume-Selected (hidden_offset d)
          (try_header c password (to_disk_header outer_bytes))
          (try_header c password (to_disk_header hidden_bytes)) d3 large r4 in
      record {
        selected_volume = v0;
        protected_volume = v1;
        hidden_bytes = hidden_bytes;
        result = u;
        result' = _;
        big = large;
        selected = record {
          placed = sel.placed;
          sectors = sel.sectors ∙ s3.0 ∙ s2.0 ∙ s1.0;
          size = sel.size ∙ s3.1 ∙ s2.1 ∙ s1.1;
        };
        hidden_read = fread_sector-ok _ d1 r2 ∙ ap (λ f. f (hidden_offset d / sector_size)) s1.0;
        protecting = r5;
        loading = r6;
        outer = try_header c password (to_disk_header outer_bytes);
        before = d3;
        after = d4;
        selecting = r4;
      }

  -- Of the volume as it was opened.
  pub Opened-Placed : (d : Device) {v : Vol} → Opened d v → Placed (hidden_offset d) v
  Opened-Placed d o =
      let keeps = ran o.protecting (protect-KeepsPlace c _ _ _ _) in
      let loads = ran o.loading (load_metadata-Loads c) in
      let p = o.selected.placed in
      let start = ap (λ g. g.start) loads.same ∙ keeps.start in
      let size = ap (λ g. g.volume_size) loads.same ∙ keeps.volume_size in
      record {
        low = rw start p.low;
        high = rw (start, size) p.high;
        start_aligned = rw start p.start_aligned;
        size_aligned = rw size p.size_aligned;
        in_file = rw (start, size) p.in_file;
      }

  Opened-sectors : (d : Device) {v : Vol} → Opened d v → v.dev.sectors ≡ d.sectors
  Opened-sectors d o =
      let keeps = ran o.protecting (protect-KeepsPlace c _ _ _ _) in
      let loads = ran o.loading (load_metadata-Loads c) in
      loads.sectors ∙ keeps.sectors ∙ o.selected.sectors

  -- A volume that opens counts the clear bits of its data blocks in its superblock, and so after
  -- every session on it.
  pub vol_open-IsCounted :
      (d : Device) {v : Vol} {e : Device} (rs : List (ℕ × Request))
      → vol_open c password hidden_password on d ≡ (ok v, e)
      → IsCounted (serve c rs v)
  vol_open-IsCounted d {v} rs h =
      let o = vol_open-Opened d h in
      serve-IsCounted c v rs (load_metadata-IsCounted c o.protected_volume o.loading)

  -- Opening a volume and serving any session on it leaves every header sector of the container as
  -- it was: the first sector, and those from the hidden volume's header to the end.
  pub vol_open-headers :
      (d : Device) {v : Vol} {e : Device} (rs : List (ℕ × Request)) (s : ℕ)
      → vol_open c password hidden_password on d ≡ (ok v, e)
      → (s ≡ 0) ⊎ (hidden_offset d / sector_size ≤ s)
      → (serve c rs v).dev.sectors s ≡ d.sectors s
  vol_open-headers d {v} rs s h off =
      let o = vol_open-Opened d h in
      let p = Opened-Placed d o in
      serve-Confined c v rs s p.in_file (apart_from_headers p off)
      ∙ ap (λ f. f s) (Opened-sectors d o)

protect-on :
    (c : Crypto) (on : Bool) (password bytes : List ℕ) (hho : ℕ) (v : Vol) {u : Unit {0}} {w : Vol}
    → on ≡ true
    → protect c on (some password) (to_disk_header bytes) hho v ≡ (ok u, w)
    → (p : Payload) × (try_protected_header c password (to_disk_header bytes) ≡ some p)
      × Protects hho p w
protect-on c true password bytes hho v is_on e = protect-Protects c password _ hho v e
protect-on c false password bytes hho v is_on e = ground arith

-- From the hidden volume's first sector on, every sector is off limits.
protected_sectors :
    (d : Device) (p : Payload) (w v : Vol) (s : ℕ)
    → Placed (hidden_offset d) v
    → Protects (hidden_offset d) p w
    → SameVolume w v
    → w.dev.size ≡ d.size
    → (hidden_offset d - p.volume_size) / sector_size ≤ s
    → OffLimits v s
protected_sectors d p w v s place protects same size h =
    let is_on = ap (λ g. g.is_protecting) same ∙ protects.on in
    let first = ap (λ g. g.protect_start) same ∙ protects.first in
    let last = ap (λ g. g.protect_end) same ∙ protects.last ∙ ap (λ n. n / sector_size - 1) size in
    elim (Bool-cases (leb s v.protect_end_sector)) [
      | inl low ↦ inr (inr (is_on, omega (arith, first, h), leb→le _ _ low))
      | inr past ↦
          let past' : v.protect_end_sector < s = ground arith in
          inr
            (inl (omega (arith, place.high, place.start_aligned, place.size_aligned, last, past')))
    ]

-- A volume that opens as the outer one, with protection of the hidden one, found the hidden volume's
-- header under the hidden password; and every session on it leaves each sector from the hidden
-- volume's first to the container's last as it was before the volume was opened.
pub vol_open-protected :
    (c : Crypto) (password hidden_password : List ℕ) (d : Device) {v : Vol} {e : Device}
    (rs : List (ℕ × Request))
    → vol_open c password (some hidden_password) true d ≡ (ok v, e)
    → v.is_hidden ≡ false
    → (p : Payload) × (try_protected_header c hidden_password
          (to_disk_header (d.sectors (hidden_offset d / sector_size)))
        ≡ some p)
      × ((s : ℕ)
          → (hidden_offset d - p.volume_size) / sector_size ≤ s
          → (serve c rs v).dev.sectors s ≡ d.sectors s)
vol_open-protected c password hidden_password d {v} rs h outer =
    let o = vol_open-Opened c password (some hidden_password) true d h in
    let keeps = ran o.protecting (protect-KeepsPlace c _ _ _ _) in
    let loads = ran o.loading (load_metadata-Loads c) in
    let place = Opened-Placed c password (some hidden_password) true d o in
    let not_hidden = sym keeps.hidden ∙ sym loads.hidden ∙ outer in
    let (p, found, protects) =
      protect-on c _ hidden_password o.hidden_bytes _ _ (ap not not_hidden) o.protecting in
    (
      p,
      rw (sym o.hidden_read) found,
      λ s from.
          serve-Confined c v rs s place.in_file (
            protected_sectors d p _ v s place protects loads.same (keeps.size ∙ o.selected.size)
              from)
          ∙ ap (λ f. f s) (Opened-sectors c password (some hidden_password) true d o),
    )
