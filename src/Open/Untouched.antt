-- ===== src/Open/Untouched.antt =====
-- src/fs.c: denyfs_vol_open writes no sector, whether it succeeds or fails.
use denyfs.Prelude.{
  ℕ, ◌+◌, ◌-◌, ◌≤◌, ◌≡◌, refl, ◌∙◌, Bool, Option, none, some, List, leb, ◌&&◌, ◌==◌, ◌%◌, arith,
}
use denyfs.Layout.{sector_size, header_size, hidden_header_offset_from_eof}
use denyfs.Crypto.{Crypto, DiskHeader, to_disk_header}
use denyfs.Volume.{Device, Vol, Res, ok, err, Exec}
use denyfs.Volume.Frame.{
  Frame, frame, at, IsPreorder, frame_rules, Frame-bind, bind-then, require-then, gets-then,
}
use denyfs.Volume.Run.{ran}
use denyfs.Block.{fread_sector, host_alloc}
use denyfs.Validate.Reads.{ReadsDevice, fread_sector-ReadsDevice, host_alloc-ReadsDevice}
use denyfs.Header.{Payload, try_header}
use denyfs.Open.{select_hidden, select_volume, protect, load_metadata, finish_open, vol_open}
use denyfs.Open.Loading.{load_metadata-Loads}
use denyfs.Open.Placing.{select_volume-Selected, protect-KeepsPlace}

-- The container file is the same.
pub record Untouched (d e : Device) : Type 0 where
  pub sectors : e.sectors ≡ d.sectors
  pub size : e.size ≡ d.size

pub Untouched-order : IsPreorder Untouched
Untouched-order = record {
  same = λ d. record { sectors = refl; size = refl };
  trans = λ d e f p q. record { sectors = q.sectors ∙ p.sectors; size = q.size ∙ p.size };
}

pub ReadsDevice-Untouched : {A : Type 0} (m : Exec Device A) → ReadsDevice m → Frame Untouched m
ReadsDevice-Untouched m r = frame λ d. record { sectors = r.sectors d; size = r.size d }

select_hidden-Untouched : (hho : ℕ) (o : Option Payload) → Frame Untouched (select_hidden hho o)
unfolding select_hidden
select_hidden-Untouched hho none = search (frame_rules, Untouched-order)
select_hidden-Untouched hho (some p) =
    search (frame_rules, Untouched-order, ReadsDevice-Untouched, host_alloc-ReadsDevice) depth 20

select_volume-Untouched : (hho : ℕ) (o q : Option Payload) → Frame Untouched (select_volume hho o q)
unfolding select_volume
select_volume-Untouched hho none q = select_hidden-Untouched hho q
select_volume-Untouched hho (some p) q =
    search
      (
        frame_rules, Untouched-order, ReadsDevice-Untouched, host_alloc-ReadsDevice,
        select_hidden-Untouched,
      )
      depth 20

-- What the protection and the loading leave of the container inside the volume.
abbrev SameDevice : Vol → Vol → Type 0
SameDevice v w = Untouched v.dev w.dev

SameDevice-order : IsPreorder SameDevice
SameDevice-order = record {
  same = λ v. Untouched-order.same v.dev;
  trans = λ u v w. Untouched-order.trans u.dev v.dev w.dev;
}

finish_open-dev : (c : Crypto) (x : Res (Unit {0}) × Vol) → (finish_open c x).1 ≡ x.1.dev
unfolding finish_open
finish_open-dev c (ok u, w) = refl
finish_open-dev c (err e, w) = refl

fread : (offset : ℕ) → Frame Untouched (fread_sector offset)
fread offset = ReadsDevice-Untouched _ (fread_sector-ReadsDevice offset)

alloc : Frame Untouched host_alloc
alloc = ReadsDevice-Untouched _ host_alloc-ReadsDevice

module _ (c : Crypto) where
  protect-SameDevice :
      (on : Bool) (password : Option (List ℕ)) (h : DiskHeader) (hho : ℕ)
      → Frame SameDevice (protect c on password h hho)
  protect-SameDevice on password h hho = frame λ v.
      let keeps = at (protect-KeepsPlace c on password h hho) v in
      record { sectors = keeps.sectors; size = keeps.size }

  load-SameDevice : Frame SameDevice (load_metadata c)
  load-SameDevice = frame λ v.
      let loads = at (load_metadata-Loads c) v in
      record { sectors = loads.sectors; size = loads.size }

  pub vol_open-Untouched :
      (password : List ℕ) (hidden_password : Option (List ℕ)) (on : Bool)
      → Frame Untouched (vol_open c password hidden_password on)
  unfolding vol_open
  vol_open-Untouched password hidden_password on = frame λ d.
      let P = Untouched d in
      let start = Untouched-order.same d in
      let after = Untouched-order.trans in
      gets-then P start _ _ (
        require-then P start
          (leb (hidden_header_offset_from_eof + header_size) d.size && (d.size % sector_size == 0))
          _ _
          λ big. bind-then P _ _ d (at (fread _) d) λ outer d1 e1.
            let p1 = ran e1 (fread _) in
            bind-then P _ _ d1 (after d d1 _ p1 (at (fread _) d1)) λ hidden d2 e2.
              let p2 = after d d1 d2 p1 (ran e2 (fread _)) in
              bind-then P _ _ d2 (after d d2 _ p2 (at alloc d2)) λ u d3 e3.
                let p3 = after d d2 d3 p2 (ran e3 alloc) in
                let hho = d.size - hidden_header_offset_from_eof in
                let first = try_header c password (to_disk_header outer) in
                let second = try_header c password (to_disk_header hidden) in
                bind-then P _ _ d3
                  (after d d3 _ p3 (at (select_volume-Untouched hho first second) d3))
                  λ v d4 e4.
                    let large : header_size ≤ hho = ground arith in
                    let sel = select_volume-Selected hho first second d3 large e4 in
                    let inside =
                      at
                        (Frame-bind SameDevice-order _ _ (protect-SameDevice _ hidden_password _ _)
                          λ _. load-SameDevice)
                        v in
                    rw (finish_open-dev c _) (
                      after d v.dev _
                        (after d d3 v.dev p3 (record { sectors = sel.sectors; size = sel.size }))
                        inside))
