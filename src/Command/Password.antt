-- ===== src/Command/Password.antt =====
-- src/main.c: what read_password_from_fd and get_password_interactive make of their input.
use denyfs.Prelude.{
  ℕ, ◌-◌, ◌≤◌, ◌≡◌, sym, ap, ◌∙◌, List, [], ◌∷◌, ◌++◌, length, length-append, take, take-append,
  take_all, ◌≢◌, ltb, Bool-cases, ltb→lt, inl, inr, if◌then◌else◌, arith,
}
use mathlib.Core.List.{append-nil, append_assoc}
use denyfs.Volume.{ok}
use denyfs.Command.{Machine, ends_line, collect, read_line, max_len}

-- The bytes in front of the first line end, and those behind it.
pub line : List ℕ → List ℕ
line [] = []
line (ch ∷ rest) = if ends_line ch then [] else ch ∷ line rest

pub after_line : List ℕ → List ℕ
after_line [] = []
after_line (ch ∷ rest) = if ends_line ch then rest else after_line rest

-- A full buffer takes no more bytes.
abbrev store : List ℕ → ℕ → List ℕ
store pass ch = if ltb (length pass) (max_len - 1) then pass ++ ch ∷ [] else pass

take-store :
    (pass : List ℕ) (ch : ℕ) (more : List ℕ)
    → length pass ≤ max_len - 1
    → (take (max_len - 1) (store pass ch ++ more) ≡ take (max_len - 1) (pass ++ ch ∷ more))
      × (length (store pass ch) ≤ max_len - 1)
take-store pass ch more small = elim (Bool-cases (ltb (length pass) (max_len - 1))) [
  | inl room ↦ rw room (
    ap (take (max_len - 1)) (append_assoc pass (ch ∷ []) more),
    omega (arith, ltb→lt _ _ room, length-append pass (ch ∷ [])),
  )
  | inr full ↦
      let whole : length pass ≡ max_len - 1 = ground arith in
      rw full (take-append _ pass more whole ∙ sym (take-append _ pass (ch ∷ more) whole), small)
]

collect-take :
    (bytes pass : List ℕ)
    → length pass ≤ max_len - 1
    → collect bytes pass ≡ (take (max_len - 1) (pass ++ line bytes), after_line bytes)
unfolding collect line after_line
collect-take [] pass small =
    ap (λ p. (p, [])) (sym (ap (take (max_len - 1)) (append-nil pass) ∙ take_all _ pass small))
collect-take (ch ∷ rest) pass small = elim (Bool-cases (ends_line ch)) [
  | inl end ↦ rw end (
      ap (λ p. (p, rest)) (sym (ap (take (max_len - 1)) (append-nil pass) ∙ take_all _ pass small)))
  | inr more ↦
      let (same, small') = take-store pass ch (line rest) small in
      rw more (collect-take rest (store pass ch) small' ∙ ap (λ p. (p, after_line rest)) same)
]

-- The password that is read from a file descriptor is the first 511 bytes of the next line; what
-- stays to be read begins behind the end of the line, and the other descriptors are as they were.
pub read_line-take :
    (fd : ℕ) (s : Machine)
    → ((read_line fd s).0 ≡ ok (take (max_len - 1) (line (s.streams fd))))
      × ((read_line fd s).1.streams fd ≡ after_line (s.streams fd))
      × ((k : ℕ) → k ≢ fd → (read_line fd s).1.streams k ≡ s.streams k)
unfolding read_line
read_line-take fd s =
    let e = collect-take (s.streams fd) [] (omega arith) in
    (ap (λ p. ok p.0) e, ground (arith, ap (λ p. p.1) e), λ k ne. ground arith)
