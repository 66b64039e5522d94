-- ===== src/Container/Hidden.antt =====
-- src/fs.c: what denyfs_container_create_hidden leaves of the container.
use denyfs.Prelude.{
  ℕ, ◌+◌, ◌-◌, ◌*◌, ◌/◌, ◌%◌, ◌≤◌, ◌<◌, ◌≡◌, ◌≢◌, ◌⊎◌, inl, inr, refl, sym, ap, ◌∙◌, true, false,
  ◌&&◌, ◌==◌, leb, none, List, arith,
}
use denyfs.Layout.{sector_size, header_size, hidden_header_offset_from_eof}
use denyfs.Crypto.{Crypto}
use denyfs.Volume.{Device, Vol, ok, Exec, or_fail, Errno, eacces, enomem, eio}
use denyfs.Volume.Frame.{Frame, at, Frame-on_err, Frame-fail, bind-then, require-then, gets-then}
use denyfs.Volume.Run.{or_fail-ok, or_fail-state, ran}
use denyfs.Block.{host_alloc}
use denyfs.Validate.Reads.{host_alloc-ReadsDevice}
use denyfs.Open.{vol_open}
use denyfs.Open.Untouched.{Untouched, Untouched-order, ReadsDevice-Untouched, vol_open-Untouched}
use denyfs.Mount.{hidden_offset}
use denyfs.Container.Apart.{write_volume-Apart}
use denyfs.Container.{Draws, mebibyte, hidden_fits, container_create_hidden}

or_fail-Untouched :
    {A : Type 0} (e : Errno) (m : Exec Device A) → Frame Untouched m → Frame Untouched (or_fail e m)
or_fail-Untouched e m f = Frame-on_err Untouched-order m _ f (λ x. Frame-fail Untouched-order e)

-- A sector of the outer volume, or behind the hidden header's, is none of those that are written.
apart :
    (c : Crypto) (r : Draws) (outer_end hho size x : ℕ)
    → hidden_fits c r outer_end hho size ≡ true
    → (x < outer_end / sector_size) ⊎ (hho / sector_size < x)
    → (x ≢ hho / sector_size)
      × ((x < (hho - size) / sector_size)
          ⊎ ((hho - size + size / sector_size * sector_size) / sector_size ≤ x))
unfolding hidden_fits
apart c r outer_end hho size x fits (inl low) =
    let behind : outer_end ≤ hho - size = ground arith in
    (λ e. omega (arith, low, behind, e), inl (omega (arith, low, behind)))
apart c r outer_end hho size x fits (inr high) =
    let inside : size ≤ hho = ground arith in
    (λ e. omega (arith, high, e), inr (omega (arith, high, inside)))

module _ (c : Crypto) where
  -- Making a hidden volume, whether it succeeds or fails, leaves as they were the outer header, the
  -- volume that opens under the outer password, and what lies behind the sector of the hidden
  -- header.
  pub container_create_hidden-outer :
      (r : Draws) (outer_password hidden_password : List ℕ) (hidden_size_mb : ℕ) (d : Device)
      {v : Vol} {e : Device} (x : ℕ)
      → vol_open c outer_password none false d ≡ (ok v, e)
      → (x < (v.vol_start_offset + v.volume_size) / sector_size)
        ⊎ (hidden_offset d / sector_size < x)
      → (container_create_hidden c r outer_password hidden_password hidden_size_mb d).1.sectors x
        ≡ d.sectors x
  unfolding container_create_hidden
  container_create_hidden-outer r outer_password hidden_password mb d {v} x h off =
      let P = λ (z : Device). z.sectors x ≡ d.sectors x in
      let opening = vol_open-Untouched c outer_password none false in
      require-then P refl _ _ _ λ _. require-then P refl _ _ _ λ _. require-then P refl _ _ _ λ _.
        bind-then P _ _ d (ap (λ f. f x) (at (or_fail-Untouched eacces _ opening) d).sectors)
          λ v1 d1 e1.
            let opened = or_fail-ok eacces _ d e1 in
            let is_v : v1 ≡ v = ground (arith, sym opened ∙ h) in
            let same = ran e1 (or_fail-Untouched eacces _ opening) in
            let p1 = ap (λ f. f x) same.sectors in
            let hho = d1.size - hidden_header_offset_from_eof in
            let start = hho - mb * mebibyte in
            gets-then P p1 _ _ (
              require-then P p1
                (leb (hidden_header_offset_from_eof + header_size) d1.size
                  && (d1.size % sector_size == 0))
                _ _
                λ sized.
                  require-then P p1
                    (hidden_fits c r (v1.vol_start_offset + v1.volume_size) hho (mb * mebibyte)) _ _
                    λ fits. bind-then P _ _ d1 (alloc d1 ∙ p1) λ u d2 e2.
                      let p2 = (ran e2 alloc_frame).sectors in
                      let (ne, out) =
                        apart c r _ hho (mb * mebibyte) x fits (rw (is_v, same.size) off) in
                      or_fail-sector _ d2
                      ∙ write_volume-Apart c r hidden_password (mb * mebibyte) hho start x d2 ne out
                      ∙ ap (λ f. f x) p2
                      ∙ p1)
    where
      alloc_frame : Frame Untouched (or_fail enomem host_alloc)
      alloc_frame =
          or_fail-Untouched enomem _ (ReadsDevice-Untouched host_alloc host_alloc-ReadsDevice)

      alloc : (z : Device) → (or_fail enomem host_alloc z).1.sectors x ≡ z.sectors x
      alloc z = ap (λ f. f x) (at alloc_frame z).sectors

      or_fail-sector :
          (m : Exec Device (Unit {0})) (z : Device)
          → (or_fail eio m z).1.sectors x ≡ (m z).1.sectors x
      or_fail-sector m z = ap (λ (y : Device). y.sectors x) (or_fail-state eio m z)
