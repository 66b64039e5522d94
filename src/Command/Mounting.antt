-- ===== src/Command/Mounting.antt =====
-- src/main.c: `mount`, from the passwords to what the session leaves in the container.
use denyfs.Prelude.{
  ℕ, ◌-◌, ◌/◌, ◌≤◌, ◌≡◌, refl, sym, ap, ◌∙◌, Bool, true, false, Option, none, some, List,
  bytes_eq-same, inl, inr, arith,
}
use denyfs.Layout.{sector_size, header_size}
use denyfs.Crypto.{Crypto, to_disk_header}
use denyfs.Volume.{Device, Vol, ok, Exec}
use denyfs.Volume.Frame.{at, bind-then}
use denyfs.Volume.Run.{bind-ok, gets-ok, pure-ok, fail-ok, if-ok, ran}
use denyfs.Header.{Payload, valid_volume_range, try_header, try_protected_header}
use denyfs.Open.{new_volume, select_hidden, select_volume, vol_open}
use denyfs.Open.Placing.{protect-KeepsPlace}
use denyfs.Open.Loading.{load_metadata-Loads}
use denyfs.Open.Untouched.{vol_open-Untouched}
use denyfs.Mount.{hidden_offset, vol_open-Opened, vol_open-protected}
use denyfs.Command.{Machine, Env}
use denyfs.Command.Handlers.{on_container, handle_mount}

-- Without a hidden header under the password, the volume that is selected is the outer one.
select_volume-outer :
    (hho : ℕ) (o : Option Payload) (d : Device) {v : Vol} {e : Device}
    → select_volume hho o none d ≡ (ok v, e)
    → v.is_hidden ≡ false
unfolding select_volume select_hidden new_volume
select_volume-outer hho none d h = fail-ok _ _ h
select_volume-outer hho (some p) d h =
    elim (if-ok (valid_volume_range header_size p.volume_size hho) _ _ {s = d} h) [
      | inl (_, h1) ↦
          let (_, _, _, h2) = bind-ok _ _ h1 in
          let (is_new, _) = pure-ok _ _ (gets-ok _ _ h2) in
          ap (λ (v : Vol). v.is_hidden) (sym is_new)
      | inr (_, h1) ↦ fail-ok _ _ h1
    ]

-- One sector of a container.
abbrev pub sector_at : Option Device → ℕ → Option (List ℕ)
sector_at none x = none
sector_at (some d) x = some (d.sectors x)

sector_at-on_container :
    {A : Type 0} (path : List ℕ) (m : Exec Device A) (s : Machine) (d : Device) (x : ℕ)
    → s.files path ≡ some d
    → sector_at ((on_container path m s).1.files path) x ≡ some ((m d).1.sectors x)
unfolding on_container
sector_at-on_container path m s d x e = rw e (rw (bytes_eq-same path) refl)

module _ (c : Crypto) where
  vol_open-outer :
      (password : List ℕ) (hidden_password : Option (List ℕ)) (on : Bool) (d : Device) {v : Vol}
      {e : Device}
      → vol_open c password hidden_password on d ≡ (ok v, e)
      → try_header c password (to_disk_header (d.sectors (hidden_offset d / sector_size))) ≡ none
      → v.is_hidden ≡ false
  vol_open-outer password hidden_password on d h no_hidden =
      let o = vol_open-Opened c password hidden_password on d h in
      let keeps = ran o.protecting (protect-KeepsPlace c _ _ _ _) in
      let loads = ran o.loading (load_metadata-Loads c) in
      let second = ap (λ b. try_header c password (to_disk_header b)) o.hidden_read ∙ no_hidden in
      loads.hidden
      ∙ keeps.hidden
      ∙ select_volume-outer (hidden_offset d) o.outer o.before
          (ap (λ q. select_volume (hidden_offset d) o.outer q o.before) (sym second) ∙ o.selecting)

  -- A mount of the outer volume with protection leaves the hidden volume as it was, from its first
  -- sector to the end of the container, whether the mount succeeds or fails and whatever its
  -- session does: for every container whose hidden header does not open under the outer password
  -- and does under the hidden one.
  pub handle_mount-protected :
      (env : Env) (path raw_pass hidden_pass : List ℕ) (s : Machine) (d : Device) (p : Payload)
      (x : ℕ)
      → s.files path ≡ some d
      → try_header c raw_pass (to_disk_header (d.sectors (hidden_offset d / sector_size))) ≡ none
      → try_protected_header c hidden_pass
          (to_disk_header (d.sectors (hidden_offset d / sector_size)))
        ≡ some p
      → (hidden_offset d - p.volume_size) / sector_size ≤ x
      → sector_at ((handle_mount c env path raw_pass (some hidden_pass) true s).1.files path) x
        ≡ some (d.sectors x)
  unfolding handle_mount
  handle_mount-protected env path raw_pass hidden_pass s d p x found no_hidden header from =
      sector_at-on_container path _ s d x found
      ∙ ap some (
          bind-then (λ e. e.sectors x ≡ d.sectors x) _ _ d
            (ap (λ f. f x) (at (vol_open-Untouched c raw_pass (some hidden_pass) true) d).sectors)
            λ v t opened.
              let outer = vol_open-outer raw_pass (some hidden_pass) true d opened no_hidden in
              let (q, header', same) =
                vol_open-protected c raw_pass hidden_pass d env.session opened outer in
              let is_p : q ≡ p = ground (arith, sym header ∙ header') in same x (rw is_p from))
